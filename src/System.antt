-- ===== src/System.antt =====
-- server/main.cpp: how the server is started, and then everything that runs at the same time: the
-- rounds of the workers and of the listener, and the kernel that writes into the buffers, one step
-- after the other in any order.
pub mod Safety
pub mod Exhaustion
pub mod Naming
pub mod Threads
pub mod Turns
pub mod Main
use tcpchatserver.Base.{ℕ, zero, suc, ◌+◌, none, some, List}
use tcpchatserver.Base.Int.{ℤ}
use tcpchatserver.Base.Action.{Action, Done, Error, Result, ok, err, pure, modify, ◌>>=◌, ◌>>◌}
use tcpchatserver.Uring.{Env, IoUring, with_buffers}
use tcpchatserver.Session.{on_ring, Session, set_listening_socket}
use tcpchatserver.Manager.{
  Setup, Manager, create, initialize, start, get_optimal_thread_count, get_session_by_index,
  on_session,
}
use tcpchatserver.Handlers.{Cqe}
use tcpchatserver.Listener.{
  Listener, Server, on_manager, SocketCalls, start_listener, process_events_round,
}
use tcpchatserver.Worker.{worker_pass}

-- getListeningSocket
abbrev on_socket : (ℤ → Action Server Done) → Action Server Done
on_socket f s = f s.listener.listening_socket s

module _ (env : Env) (envs : ℕ → Env) where
  -- A round of main's loop over the sessions.
  unfoldable pub arm_session : ℕ → ℤ → Action Manager Done
  arm_session i socket w = elim (get_session_by_index i w) [
    | none ↦ (ok tt, w)
    | some ref ↦ on_session ref (set_listening_socket (envs ref) socket) w
  ]

  -- The loop, with `left` rounds to go at `i`.
  unfoldable pub arm_sessions : ℕ → ℕ → ℤ → Action Manager Done
  arm_sessions zero i socket = pure tt
  arm_sessions (suc left) i socket = arm_session i socket >> arm_sessions left (i + 1) socket

  -- main from the construction of the manager to its loop. `hw` is hardware_concurrency().
  unfoldable pub start_server : (hw : ℕ) (rings : Setup) (calls : SocketCalls) → Action Server Done
  start_server hw rings calls = do
    on_manager (initialize rings)
    on_manager (modify start)
    start_listener env envs calls
    on_socket λ socket. on_manager (arm_sessions (get_optimal_thread_count hw) 0 socket)

  -- The kernel writes into the buffers of the session at `self`.
  abbrev pub receive_into : ℕ → (ℕ → ℕ) → Manager → Manager
  receive_into self memory w =
      (on_session self (on_ring (modify (with_buffers (λ b. record b { memory = memory })))) w).1

  -- One step of the running server; what liburing reports is arbitrary. The workers' rounds that run
  -- while main still arms the sessions are taken to come after it.
  pub data Step (s : Server) : Server → Type 0 where
    worker :
        (thread_id : ℕ) (peeked again : ℕ → List Cqe)
        → Step s (record s { manager = (worker_pass envs thread_id peeked again s.manager).1 })
    receive :
        (self : ℕ) (memory : ℕ → ℕ)
        → Step s (record s { manager = receive_into self memory s.manager })
    listen : (peeked again : List Cqe) → Step s (process_events_round env envs peeked again s).1

  pub data Reach (s : Server) : Server → Type 0 where
    here : Reach s s
    next : {t u : Server} → Reach s t → Step t u → Reach s u
