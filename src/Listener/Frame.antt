-- ===== src/Listener/Frame.antt =====
-- The listener's loop keeps what every event of a session keeps.
use tcpchatserver.Base.{ℕ, List, [], ◌∷◌, arith, inl, inr}
use tcpchatserver.Base.Int.{ℤ}
use tcpchatserver.Base.Action.{Result-cases}
use tcpchatserver.Uring.{Env, submit_and_wait_ring}
use tcpchatserver.Context.{OperationType, get_context}
use tcpchatserver.Manager.{Manager, join_session, get_next_available_session}
use tcpchatserver.Handlers.{Cqe}
use tcpchatserver.Handlers.Frame.{IsStable, Anyone, Keeps}
use tcpchatserver.Listener.{
  Server, assign_body, assign, accept_by, accept_event, accept_events, accept_batch,
  process_events_round,
}

-- What clients that may join keep when they do.
abbrev pub IsJoinable : (ℕ → Env) → (ℤ → Type 0) → (Manager → Type 0) → Type 0
IsJoinable envs Who P = (fd id : ℤ) → Who fd → Keeps P (join_session envs fd id)

module _ (env : Env) (envs : ℕ → Env) (Who : ℤ → Type 0) (P : Manager → Type 0)
    (join : IsJoinable envs Who P) where
  get_next-Keeps : Keeps P get_next_available_session
  unfolding get_next_available_session
  get_next-Keeps w p = ground arith

  assign_body-Keeps : (fd : ℤ) → Who fd → Keeps P (assign_body env envs fd)
  unfolding assign_body
  assign_body-Keeps fd h w p = elim (Result-cases (get_next_available_session w).0) [
    | inl (id, e) ↦
        ground (arith, get_next-Keeps w p, join fd id h (get_next_available_session w).1)
    | inr (x, e) ↦ ground (arith, get_next-Keeps w p)
  ]

  assign-Keeps : (fd : ℤ) (s : Server) → Who fd → P s.manager → P (assign env envs fd s).1.manager
  unfolding assign
  assign-Keeps fd s h p = ground (arith, assign_body-Keeps fd h s.manager p)

  accept_by-Keeps :
      (type : OperationType) (res : ℤ) (s : Server)
      → Who res
      → P s.manager
      → P (accept_by env envs type res s).1.manager
  unfolding accept_by
  accept_by-Keeps OperationType.accept res s h p = ground (arith, assign-Keeps res s h p)
  accept_by-Keeps _ res s h p = p

  pub accept_event-KeepsFor :
      (cqe : Cqe) (s : Server)
      → Who cqe.res
      → P s.manager
      → P (accept_event env envs cqe s).1.manager
  unfolding accept_event
  accept_event-KeepsFor cqe s h p =
      accept_by-Keeps (get_context cqe.user_data).op_type cqe.res s h p

module _ (env : Env) (envs : ℕ → Env) (P : Manager → Type 0) (stable : IsStable envs P) where
  pub accept_event-Keeps :
      (cqe : Cqe) (s : Server) → P s.manager → P (accept_event env envs cqe s).1.manager
  accept_event-Keeps cqe s p =
      let join : IsJoinable envs Anyone P = λ fd id h. stable.join fd id in
      accept_event-KeepsFor env envs Anyone P join cqe s tt p

  accept_events-Keeps :
      (cqes : List Cqe) (s : Server) → P s.manager → P (accept_events env envs cqes s).1.manager
  unfolding accept_events
  accept_events-Keeps [] s p = p
  accept_events-Keeps (cqe ∷ cqes) s p =
      ground (
        arith,
        accept_event-Keeps cqe s p,
        accept_events-Keeps cqes (accept_event env envs cqe s).1,
      )

  accept_batch-Keeps :
      (cqes : List Cqe) (s : Server) → P s.manager → P (accept_batch env envs cqes s).1.manager
  unfolding accept_batch
  accept_batch-Keeps [] s p = p
  accept_batch-Keeps (cqe ∷ cqes) s p = ground (arith, accept_events-Keeps (cqe ∷ cqes) s p)

  pub round-Keeps :
      (peeked again : List Cqe) (s : Server)
      → P s.manager
      → P (process_events_round env envs peeked again s).1.manager
  unfolding process_events_round
  round-Keeps (cqe ∷ cqes) again s p = accept_batch-Keeps (cqe ∷ cqes) s p
  round-Keeps [] again s p =
      let (result, u) = submit_and_wait_ring env s.listener.io_ring in
      let t = record s { listener = record (s.listener) { io_ring = u } } in
      ground (arith, accept_batch-Keeps again t p)
