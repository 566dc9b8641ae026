-- ===== src/Listener/Assign.antt =====
-- An accepted connection is given to a session or closed.
use tcpchatserver.Base.{ℕ, ◌≤◌, ◌<◌, ◌≡◌, ◌≢◌, ◌⊎◌, inl, inr, some, none, arith, All, ◌∷◌}
use tcpchatserver.Base.Int.{ℤ, pos, negsuc, ◌≤ℤ◌, ℤ_discrete}
use tcpchatserver.Base.Map.{lookup, lookup-insert}
use tcpchatserver.Base.Action.{ok}
use tcpchatserver.Context.{OperationType, get_context}
use tcpchatserver.Uring.{Env}
use tcpchatserver.Manager.{size_max}
use tcpchatserver.Manager.Members.{join_session_cases}
use tcpchatserver.Manager.Balance.{Has, count_at, get_next_available_session_least}
use tcpchatserver.Handlers.{Cqe}
use tcpchatserver.Listener.{Server, assign_body, assign, accept_by, accept_event}

-- A connection is accepted, no session's count reaches SIZE_MAX and none has the id -1. The event
-- ends without an error, in one of two ways. Either the connection's descriptor was not registered,
-- and it is then registered for a session that had at most as many clients as any other, and nothing
-- is closed; or it is closed, and every registration is as it was.
pub accept_event_cases :
    (env : Env) (envs : ℕ → Env) (cqe : Cqe) (s : Server)
    → (get_context cqe.user_data).op_type ≡ OperationType.accept
    → pos 0 ≤ℤ cqe.res
    → All (λ e. count_at s.manager.heap e.1 < size_max) s.manager.sessions
    → All (λ e. e.0 ≢ negsuc 0) s.manager.sessions
    → let (r, t) = accept_event env envs cqe s in
      (r ≡ ok tt)
      × (((lookup ℤ_discrete cqe.res s.manager.client_sessions ≡ none)
            × (t.listener.closed ≡ s.listener.closed)
            × ((id : ℤ) × (ref : ℕ) × Has id ref s.manager.sessions
                × All
                    (λ e. count_at s.manager.heap ref ≤ count_at s.manager.heap e.1)
                    s.manager.sessions
                × (lookup ℤ_discrete cqe.res t.manager.client_sessions ≡ some id)))
          ⊎ ((t.listener.closed ≡ cqe.res ∷ s.listener.closed)
              × (t.manager.client_sessions ≡ s.manager.client_sessions)))
unfolding accept_event accept_by assign assign_body
accept_event_cases env envs cqe s type arrived small ids =
    let w = s.manager in
    elim (get_next_available_session_least w small ids) [
      | inl (gone, e) ↦ (ground arith, inr (ground arith, ground arith))
      | inr (id, ref, has, least, e) ↦ elim (join_session_cases envs cqe.res id w) [
        | inl (taken, refused, same) ↦ (ground arith, inr (ground arith, ground arith))
        | inr (free, inl (gone, refused, same)) ↦ (ground arith, inr (ground arith, ground arith))
        | inr (free, inr (at, there, set, kept, inl (done, put, entry))) ↦ (
          ground arith,
          inl (
            free,
            ground arith,
            (
              id,
              ref,
              has,
              least,
              ground (arith, lookup-insert ℤ_discrete cqe.res cqe.res id w.client_sessions),
            ),
          ),
        )
        | inr (free, inr (at, there, set, kept, inr (failed, same, full))) ↦
            (ground arith, inr (ground arith, ground arith))
      ]
    ]
