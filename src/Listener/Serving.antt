-- ===== src/Listener/Serving.antt =====
-- The listener's loop goes on.
use tcpchatserver.Base.{ℕ, ◌≡◌, refl, List, [], ◌∷◌, arith, true, inl, inr}
use tcpchatserver.Base.Int.{ℤ}
use tcpchatserver.Base.Action.{ok, Result-cases}
use tcpchatserver.Context.{OperationType, get_context}
use tcpchatserver.Uring.{Env, submit_and_wait_ring}
use tcpchatserver.Handlers.{Cqe}
use tcpchatserver.Listener.{
  Server, SocketCalls, assign_body, assign, accept_by, accept_event, accept_events, accept_batch,
  process_events_round, start_listener,
}

module _ (env : Env) (envs : ℕ → Env) where
  assign-serves :
      (fd : ℤ) (s : Server)
      → let (r, t) = assign env envs fd s in (r ≡ ok tt) × (t.listener.running ≡ s.listener.running)
  unfolding assign
  assign-serves fd s = elim (Result-cases (assign_body env envs fd s.manager).0) [
    | inl (d, e) ↦ ground arith
    | inr (x, e) ↦ ground arith
  ]

  pub accept_by-serves :
      (type : OperationType) (res : ℤ) (s : Server)
      → let (r, t) = accept_by env envs type res s in
        (r ≡ ok tt) × (t.listener.running ≡ s.listener.running)
  unfolding accept_by
  accept_by-serves OperationType.accept res s = ground (arith, assign-serves res s)
  accept_by-serves _ res s = (refl, refl)

  accept_events-serves :
      (cqes : List Cqe) (s : Server)
      → let (r, t) = accept_events env envs cqes s in
        (r ≡ ok tt) × (t.listener.running ≡ s.listener.running)
  unfolding accept_events accept_event
  accept_events-serves [] s = (refl, refl)
  accept_events-serves (cqe ∷ cqes) s =
      let type = (get_context cqe.user_data).op_type in
      ground (
        arith,
        accept_by-serves type cqe.res s,
        accept_events-serves cqes (accept_by env envs type cqe.res s).1,
      )

  accept_batch-serves :
      (cqes : List Cqe) (s : Server)
      → let (r, t) = accept_batch env envs cqes s in
        (r ≡ ok tt) × (t.listener.running ≡ s.listener.running)
  unfolding accept_batch
  accept_batch-serves [] s = (refl, refl)
  accept_batch-serves (cqe ∷ cqes) s = ground (arith, accept_events-serves (cqe ∷ cqes) s)

  -- A round never throws, and leaves the listener running as it was.
  pub process_events_round-serves :
      (peeked again : List Cqe) (s : Server)
      → let (r, t) = process_events_round env envs peeked again s in
        (r ≡ ok tt) × (t.listener.running ≡ s.listener.running)
  unfolding process_events_round
  process_events_round-serves (cqe ∷ cqes) again s = accept_batch-serves (cqe ∷ cqes) s
  process_events_round-serves [] again s =
      let u = (submit_and_wait_ring env s.listener.io_ring).1 in
      let t = record s { listener = record (s.listener) { io_ring = u } } in
      ground (arith, accept_batch-serves again t)

pub start_listener-running :
    (env : Env) (envs : ℕ → Env) (calls : SocketCalls) (s : Server)
    → let (r, t) = start_listener env envs calls s in r ≡ ok tt → t.listener.running ≡ true
unfolding start_listener
start_listener-running env envs calls s done = ground arith
