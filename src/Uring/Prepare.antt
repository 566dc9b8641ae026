-- ===== src/Uring/Prepare.antt =====
-- prepareRead and prepareClose, as their callers see them.
use tcpchatserver.Base.{◌≡◌, ◌⊎◌, Option, none, some, true, List, [], ◌∷◌, arith}
use tcpchatserver.Base.Int.{ℤ}
use tcpchatserver.Base.Action.{Done, Error, Result, ok, err}
use tcpchatserver.Uring.{
  Env, IoUring, Call, Request, queued, recv, close, get_sqe, prepare_read, prepare_close,
}
use tcpchatserver.Uring.Broadcast.{deliveries, HasRoom}

-- The request that was queued by the last call, if that queued one.
abbrev pub last_request : List Call → Option Request
last_request [] = none
last_request (queued request w ∷ cs) = some request
last_request (_ ∷ cs) = none

-- Nothing but the calls changes, no write is among the new ones, and the only error is that no
-- entry is free.
abbrev pub Queues : IoUring → Result Done × IoUring → Type 0
Queues u (r, v) =
    (v.buffer_manager ≡ u.buffer_manager)
    × (deliveries v.calls ≡ deliveries u.calls)
    × ((r ≡ ok tt) ⊎ (r ≡ err Error.sqe_unavailable))

pub prepare_read-Queues : (env : Env) (fd : ℤ) (u : IoUring) → Queues u (prepare_read env fd u)
unfolding prepare_read get_sqe
prepare_read-Queues env fd u = ground arith

pub prepare_close-Queues : (env : Env) (fd : ℤ) (u : IoUring) → Queues u (prepare_close env fd u)
unfolding prepare_close get_sqe
prepare_close-Queues env fd u = ground arith

-- Where an entry is free the request is queued.
pub prepare_read-room :
    (env : Env) (fd : ℤ) (u : IoUring)
    → HasRoom env
    → let (r, v) = prepare_read env fd u in
      (r ≡ ok tt) × (last_request v.calls ≡ some (recv fd true 1))
unfolding prepare_read get_sqe
prepare_read-room env fd u room = ground (arith, room u.calls)

pub prepare_close-room :
    (env : Env) (fd : ℤ) (u : IoUring)
    → HasRoom env
    → let (r, v) = prepare_close env fd u in (r ≡ ok tt) × (last_request v.calls ≡ some (close fd))
unfolding prepare_close get_sqe
prepare_close-room env fd u room = ground (arith, room u.calls)
