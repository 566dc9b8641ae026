-- ===== src/System/Turns/Safety.antt =====
-- What holds of every state that the running server reaches when the threads take turns.
use tcpchatserver.Base.{ℕ, ◌≤◌, ◌≡◌, ◌≢◌, ◌^◌, true}
use tcpchatserver.Base.Int.{ℤ}
use tcpchatserver.Base.IntSet.{contains}
use tcpchatserver.Base.Action.{ok}
use tcpchatserver.Context.{get_context}
use tcpchatserver.Uring.{Env, IoUring, with_buffers, advance_cq, submit_and_wait_ring}
use tcpchatserver.Uring.Broadcast.{HasRoom}
use tcpchatserver.Uring.Inbox.{inbox}
use tcpchatserver.Session.{Session}
use tcpchatserver.Manager.{Setup, Manager, create, initialize, get_optimal_thread_count}
use tcpchatserver.Manager.Members.{IsExclusive, SessionAt, one_session}
use tcpchatserver.Manager.Startup.{initialize-sessions}
use tcpchatserver.Handlers.{Cqe, ring_at, process_event}
use tcpchatserver.Handlers.Frame.{IsStable, process_event-Keeps}
use tcpchatserver.Handlers.Privacy.{IsNamed, Apart, process_event-Unheard}
use tcpchatserver.Listener.{Listener, Server, SocketCalls}
use tcpchatserver.Listener.Frame.{accept_event-Keeps}
use tcpchatserver.Worker.Safety.{IsExclusive-stable}
use tcpchatserver.System.{start_server}
use tcpchatserver.System.Safety.{started-Keeps, initialized-IsExclusive}
use tcpchatserver.System.Naming.{IsNamed-stable, start-IsNamed}
use tcpchatserver.System.Turns.{
  Turn, event, advance, wait, fill, accept, advance_accepted, wait_accepted, Turns, none_yet, turn,
}

module _ (env : Env) (envs : ℕ → Env) (P : Manager → Type 0) (stable : IsStable envs P) where
  Turn-Keeps : {s t : Server} → Turn env envs s t → P s.manager → P t.manager
  Turn-Keeps {s} (event self cqe) p = process_event-Keeps envs P stable self cqe s.manager p
  Turn-Keeps {s} (advance self n) p =
      stable.ring self (advance_cq n (ring_at self s.manager)) s.manager p
  Turn-Keeps {s} (wait self) p =
      stable.ring self (submit_and_wait_ring (envs self) (ring_at self s.manager)).1 s.manager p
  Turn-Keeps {s} (fill self memory) p =
      let u = with_buffers (λ b. record b { memory = memory }) (ring_at self s.manager) in
      stable.ring self u s.manager p
  Turn-Keeps {s} (accept cqe) p = accept_event-Keeps env envs P stable cqe s p
  Turn-Keeps (advance_accepted n) p = p
  Turn-Keeps wait_accepted p = p

  Turns-Keeps : {s t : Server} → Turns env envs s t → P s.manager → P t.manager
  Turns-Keeps none_yet p = p
  Turns-Keeps (turn turns one) p = Turn-Keeps one (Turns-Keeps turns p)

-- The server is started on a machine with at most 2 ^ 31 threads to use, every ring could be made,
-- and entries of the submission queues are always free. Then after main's start, however that ended,
-- and any turns of the workers, the listener and the kernel, in any order and whatever the kernel
-- reports, a client that is in the sets of two sessions is in one session: they have the same id. A
-- turn is one event, one wait or one advance of a ring, or one write into the buffers.
pub Turns-one_session :
    (env : Env) (envs : ℕ → Env) (hw : ℕ) (heap : ℕ → Session) (rings : Setup) (calls : SocketCalls)
    (l : Listener) {t : Server} (fd i j : ℤ) (r q : ℕ)
    → ((ref : ℕ) → HasRoom (envs ref))
    → ((ref : ℕ) → (u : IoUring) × (rings.ring ref ≡ ok u))
    → get_optimal_thread_count hw ≤ 2 ^ 31
    → Turns env envs
        (start_server env envs hw rings calls (record { listener = l; manager = create hw heap })).1
        t
    → SessionAt i t.manager r
    → SessionAt j t.manager q
    → contains fd (t.manager.heap r).clients ≡ true
    → contains fd (t.manager.heap q).clients ≡ true
    → i ≡ j
Turns-one_session env envs hw heap rings calls l fd i j r q room made few turns at at' in_r in_q =
    let stable = IsExclusive-stable envs room in
    let started =
      started-Keeps env envs hw heap rings calls l made few IsExclusive stable
        (initialized-IsExclusive env envs hw heap rings calls l made few) in
    one_session fd i j r q (Turns-Keeps env envs IsExclusive stable turns started) at at' in_r in_q

-- Every session that is reached has the id that it is at.
pub Turns-IsNamed :
    (env : Env) (envs : ℕ → Env) (hw : ℕ) (heap : ℕ → Session) (rings : Setup) (calls : SocketCalls)
    (l : Listener) {s : Server}
    → ((r : ℕ) → (u : IoUring) × (rings.ring r ≡ ok u))
    → get_optimal_thread_count hw ≤ 2 ^ 31
    → Turns env envs
        (start_server env envs hw rings calls (record { listener = l; manager = create hw heap })).1
        s
    → IsNamed s.manager
Turns-IsNamed env envs hw heap rings calls l made few turns =
    let named : IsNamed (initialize rings (create hw heap)).1 =
      λ id ref at. (initialize-sessions rings made hw heap few id ref at).2 in
    let stable = IsNamed-stable envs in
    Turns-Keeps env envs IsNamed stable turns (
      started-Keeps env envs hw heap rings calls l made few IsNamed stable
        (start-IsNamed (initialize rings (create hw heap)).1 named))

-- The server is started on a machine with at most 2 ^ 31 threads to use, and every ring could be
-- made. Then after main's start, however that ended, and any turns of the workers, the listener and
-- the kernel, in any order and whatever the submission queues do: an event of any session queues no
-- message, on any ring, for a client other than the event's own that is not in the session the event's
-- client is registered for. A turn is one event, one wait or one advance of a ring, or one write into
-- the buffers.
pub Turns-Unheard :
    (env : Env) (envs : ℕ → Env) (hw : ℕ) (heap : ℕ → Session) (rings : Setup) (calls : SocketCalls)
    (l : Listener) {s : Server} (self ref : ℕ) (cqe : Cqe) (t : ℤ)
    → ((r : ℕ) → (u : IoUring) × (rings.ring r ≡ ok u))
    → get_optimal_thread_count hw ≤ 2 ^ 31
    → Turns env envs
        (start_server env envs hw rings calls (record { listener = l; manager = create hw heap })).1
        s
    → (get_context cqe.user_data).client_fd ≢ t
    → Apart t (get_context cqe.user_data).client_fd s.manager
    → let v = (process_event envs self cqe s.manager).1 in
      inbox t (ring_at ref v) ≡ inbox t (ring_at ref s.manager)
Turns-Unheard env envs hw heap rings calls l {s} self ref cqe t made few turns other apart =
    process_event-Unheard envs self cqe t s.manager
      (Turns-IsNamed env envs hw heap rings calls l made few turns) other apart ref
