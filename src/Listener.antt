-- ===== src/Listener.antt =====
-- server/src/Listener.cpp and server/src/SocketManager.cpp: the listening socket, and the loop that
-- gives each accepted connection to a session.
pub mod Assign
pub mod Serving
pub mod Frame
pub mod Fairness
use tcpchatserver.Base.{ℕ, suc, Bool, true, false, List, [], ◌∷◌, ◌++◌, if◌then◌else◌, length}
use tcpchatserver.Base.Int.{ℤ, pos, negsuc, ltb_ℤ, leb_ℤ}
use tcpchatserver.Base.Action.{
  Action, Done, Error, Result, ok, err, pure, throw, gets, catch, modify, when, ◌>>=◌, ◌>>◌,
}
use tcpchatserver.Context.{OperationType, get_context}
use tcpchatserver.Uring.{Env, IoUring, eintr, prepare_accept, submit_and_wait_ring, advance_cq}
use tcpchatserver.Manager.{Manager, join_session, get_next_available_session}
use tcpchatserver.Handlers.{Cqe}

-- What the calls of createListeningSocket return: socket, setsockopt, bind and listen.
pub record SocketCalls : Type 0 where
  pub socket : ℤ
  pub setsockopt : ℤ
  pub bind : ℤ
  pub listen : ℤ

-- createListeningSocket: the return value, and `listening_socket_` after it.
unfoldable pub create_listening_socket : SocketCalls → ℤ × ℤ
create_listening_socket calls =
    if ltb_ℤ calls.socket (pos 0)
    then (negsuc 0, calls.socket)
    else if ltb_ℤ calls.setsockopt (pos 0)
    then (negsuc 0, calls.socket)
    else if ltb_ℤ calls.bind (pos 0)
    then (negsuc 0, calls.socket)
    else if ltb_ℤ calls.listen (pos 0)
    then (negsuc 0, calls.socket)
    else (calls.socket, calls.socket)

-- The listener with its SocketManager. `has_ring` says whether `io_ring_` points to a ring; `closed` has
-- the descriptors that were closed, newest first.
pub record Listener : Type 0 where
  pub running : Bool
  pub has_ring : Bool
  pub io_ring : IoUring
  pub listening_socket : ℤ
  pub closed : List ℤ

-- The listener beside the manager.
pub record Server : Type 0 where
  pub listener : Listener
  pub manager : Manager

abbrev pub on_manager : {A : Type 0} → Action Manager A → Action Server A
on_manager m s = let (r, w) = m s.manager in (r, record s { manager = w })

abbrev pub on_listener : {A : Type 0} → Action IoUring A → Action Server A
on_listener m s =
    let (r, u) = m s.listener.io_ring in
    (r, record s { listener = record (s.listener) { io_ring = u } })

abbrev close_fd : ℤ → Server → Server
close_fd fd s = record s { listener = record (s.listener) { closed = fd ∷ s.listener.closed } }

module _ (env : Env) (envs : ℕ → Env) where
  unfoldable pub start_listener : SocketCalls → Action Server Done
  start_listener calls s =
      let (listening_socket, member) = create_listening_socket calls in
      let s' = record s { listener = record (s.listener) { listening_socket = member } } in
      let up = record s' { listener = record (s'.listener) { running = true } } in
      if s.listener.running
      then (ok tt, s)
      else if ltb_ℤ listening_socket (pos 0)
      then (err Error.listen_failed, s')
      else on_listener (prepare_accept env listening_socket) up

  -- The `try` in processEvents.
  assign_body : ℤ → Action Manager Done
  assign_body client_fd = do
    session_id ← get_next_available_session
    join_session envs client_fd session_id

  pub assign : ℤ → Action Server Done
  assign client_fd = catch (on_manager (assign_body client_fd)) (λ e. modify (close_fd client_fd))

  pub accept_by : OperationType → ℤ → Action Server Done
  accept_by OperationType.accept res = if ltb_ℤ res (pos 0) then pure tt else assign res
  accept_by _ res = pure tt

  -- A round of the loop over the completions.
  unfoldable pub accept_event : Cqe → Action Server Done
  unfolding accept_by assign assign_body
  accept_event cqe = accept_by (get_context cqe.user_data).op_type cqe.res

  unfoldable pub accept_events : List Cqe → Action Server Done
  accept_events [] = pure tt
  accept_events (cqe ∷ cqes) = accept_event cqe >> accept_events cqes

  unfoldable pub accept_batch : List Cqe → Action Server Done
  accept_batch [] = pure tt
  accept_batch (cqe ∷ cqes) = do
    accept_events (cqe ∷ cqes)
    on_listener (modify (advance_cq (length (cqe ∷ cqes))))

  -- A round of the loop of processEvents: `peeked` is what the first peekCQE returns, `again` what
  -- the one after submitAndWait returns.
  unfoldable pub process_events_round : List Cqe → List Cqe → Action Server Done
  unfolding accept_batch accept_events
  process_events_round (cqe ∷ cqes) again s = accept_batch (cqe ∷ cqes) s
  process_events_round [] again s =
      let (result, u) = submit_and_wait_ring env s.listener.io_ring in
      let s' = record s { listener = record (s.listener) { io_ring = u } } in
      if ltb_ℤ result (pos 0) then (ok tt, s') else accept_batch again s'

-- SocketManager::SocketManager, and Listener::Listener on a ring that could be made.
unfoldable pub new_listener : IoUring → Listener
new_listener ring = record {
  running = false;
  has_ring = true;
  io_ring = ring;
  listening_socket = negsuc 0;
  closed = [];
}

-- `io_ring_.reset()` destroys the ring.
unfoldable pub stop_listener : Listener → Listener
stop_listener l = if l.running then record l { running = false; has_ring = false } else l

unfoldable pub close_socket : ℤ → Listener → Listener
close_socket fd l = record l { closed = fd ∷ l.closed }

-- SocketManager::~SocketManager
unfoldable pub destroy_socket_manager : Listener → Listener
destroy_socket_manager l =
    if leb_ℤ (pos 0) l.listening_socket then close_socket l.listening_socket l else l
