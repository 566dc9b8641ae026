-- ===== src/Uring/Inbox.antt =====
-- Who is sent nothing: the writes queued on a ring for one client.
use tcpchatserver.Base.{ℕ, zero, suc, ◌≡◌, ◌≢◌, refl, false, List, [], ◌∷◌, arith, ite, length}
use tcpchatserver.Base.Int.{ℤ, ℤ_discrete}
use tcpchatserver.Base.IntSet.{contains}
use tcpchatserver.Context.{MessageType, ChatMessage}
use tcpchatserver.Uring.{
  Env, IoUring, get_sqe, prepare_write, prepare_read, prepare_close, send_message, send_round,
  send_loop, broadcast, increments, with_buffers, decrement_buffer_ref_count, handle_write,
  handle_write_complete, release,
}
use tcpchatserver.Uring.Prepare.{prepare_read-Queues, prepare_close-Queues}
use tcpchatserver.Uring.Broadcast.{deliveries}
use tcpchatserver.Buffer.{increment_ref_count}

-- The messages queued for a client, newest first.
abbrev pub for_client : ℤ → List (ℤ × ChatMessage) → List ChatMessage
for_client t [] = []
for_client t ((fd, message) ∷ ds) =
    ite (ℤ_discrete fd t) (message ∷ for_client t ds) (for_client t ds)

abbrev pub inbox : ℤ → IoUring → List ChatMessage
inbox t u = for_client t (deliveries u.calls)

pub send_message-inbox :
    (env : Env) (t fd : ℤ) (type : MessageType) (text : List ℕ) (bid : ℕ) (u : IoUring)
    → fd ≢ t
    → inbox t (send_message env fd type text bid u).1 ≡ inbox t u
unfolding send_message prepare_write get_sqe decrement_buffer_ref_count
send_message-inbox env t fd type text bid u other = ground arith

pub prepare_read-inbox :
    (env : Env) (t fd : ℤ) (u : IoUring) → inbox t (prepare_read env fd u).1 ≡ inbox t u
prepare_read-inbox env t fd u = ground (arith, prepare_read-Queues env fd u)

pub prepare_close-inbox :
    (env : Env) (t fd : ℤ) (u : IoUring) → inbox t (prepare_close env fd u).1 ≡ inbox t u
prepare_close-inbox env t fd u = ground (arith, prepare_close-Queues env fd u)

increments-calls : (n bid : ℕ) (u : IoUring) → (increments n bid u).calls ≡ u.calls
unfolding increments
increments-calls zero bid u = refl
increments-calls (suc n) bid u = increments-calls n bid (with_buffers (increment_ref_count bid) u)

send_loop-inbox :
    (env : Env) (t : ℤ) (fds : List ℤ) (type : MessageType) (text : List ℕ) (bid : ℕ) (u : IoUring)
    → contains t fds ≡ false
    → inbox t (send_loop env fds type text bid u).1 ≡ inbox t u
unfolding send_loop send_round contains decrement_buffer_ref_count
send_loop-inbox env t [] type text bid u out = refl
send_loop-inbox env t (fd ∷ fds) type text bid u out =
    let v = (send_round env fd type text bid u).1 in
    ground (
      arith,
      send_message-inbox env t fd type text bid u,
      send_loop-inbox env t fds type text bid v,
    )

-- A broadcast queues nothing for a client that is not in its list, however it ends.
pub broadcast-inbox :
    (env : Env) (t : ℤ) (fds : List ℤ) (type : MessageType) (text : List ℕ) (bid : ℕ) (u : IoUring)
    → contains t fds ≡ false
    → inbox t (broadcast env fds type text bid u).1 ≡ inbox t u
unfolding broadcast decrement_buffer_ref_count
broadcast-inbox env t [] type text bid u out = refl
broadcast-inbox env t (fd ∷ fds) type text bid u out =
    let v = increments (length (fd ∷ fds)) bid u in
    ground (
      arith,
      increments-calls (length (fd ∷ fds)) bid u,
      send_loop-inbox env t (fd ∷ fds) type text bid v,
    )

pub handle_write-inbox :
    (t res fd : ℤ) (bid : ℕ) (u : IoUring) → inbox t (handle_write res fd bid u) ≡ inbox t u
unfolding handle_write handle_write_complete decrement_buffer_ref_count release
handle_write-inbox t res fd bid u = ground arith
