-- ===== src/System/Exhaustion.antt =====
-- The running server when the last of its sessions has been taken out of the map.
use tcpchatserver.Base.{ℕ, ◌≡◌, inl, inr, subst, [], ◌∷◌, arith, ◌∙◌}
use tcpchatserver.Base.Int.{ℤ, pos, ◌≤ℤ◌}
use tcpchatserver.Base.Map.{lookup, erase}
use tcpchatserver.Base.Action.{ok}
use tcpchatserver.Context.{OperationType, get_context}
use tcpchatserver.Uring.{Env}
use tcpchatserver.Session.{handle_close}
use tcpchatserver.Manager.{Manager, join_session, remove_session}
use tcpchatserver.Manager.Members.{join_session_cases}
use tcpchatserver.Manager.Leave.{remove_session_cases}
use tcpchatserver.Manager.Balance.{Has}
use tcpchatserver.Handlers.{Cqe}
use tcpchatserver.Handlers.Frame.{IsStable}
use tcpchatserver.Listener.{Server, accept_event}
use tcpchatserver.Listener.Assign.{accept_event_cases}
use tcpchatserver.System.{Reach}
use tcpchatserver.System.Safety.{Reach-Keeps}

abbrev NoSessions : Manager → Type 0
NoSessions w = w.sessions ≡ []

join_session-NoSessions :
    (envs : ℕ → Env) (fd id : ℤ) (w : Manager)
    → NoSessions w
    → NoSessions (join_session envs fd id w).1
join_session-NoSessions envs fd id w e = elim (join_session_cases envs fd id w) [
  | inl (taken, refused, same) ↦ ground arith
  | inr (free, inl (gone, refused, same)) ↦ ground arith
  | inr (free, inr (ref, found, set, kept, rest)) ↦ kept ∙ e
]

remove_session-NoSessions : (fd : ℤ) (w : Manager) → NoSessions w → NoSessions (remove_session fd w)
unfolding erase lookup
remove_session-NoSessions fd w e = elim (remove_session_cases fd w) [
  | inl (free, same) ↦ ground arith
  | inr (id, reg, out, inl (gone, heap, same)) ↦ same ∙ e
  | inr (id, reg, out, inr (ref, found, heap, inl (empty, less))) ↦ ground arith
  | inr (id, reg, out, inr (ref, found, heap, inr (left, same))) ↦ same ∙ e
]

NoSessions-stable : (envs : ℕ → Env) → IsStable envs NoSessions
unfolding handle_close
NoSessions-stable envs = record {
  ring = λ self u w e. e;
  join = join_session-NoSessions envs;
  remove = remove_session-NoSessions;
  close = λ self fd w e. e;
}

-- Once no session is left there is never one again, whatever rounds of the workers and of the
-- listener and writes of the kernel into the buffers follow: a connection that is accepted then
-- is closed, and nobody is registered for it.
pub Reach-no_sessions :
    (env : Env) (envs : ℕ → Env) {s t : Server} (cqe : Cqe)
    → s.manager.sessions ≡ []
    → Reach env envs s t
    → (get_context cqe.user_data).op_type ≡ OperationType.accept
    → pos 0 ≤ℤ cqe.res
    → let (r, v) = accept_event env envs cqe t in
      (t.manager.sessions ≡ [])
      × (r ≡ ok tt)
      × (v.listener.closed ≡ cqe.res ∷ t.listener.closed)
      × (v.manager.client_sessions ≡ t.manager.client_sessions)
Reach-no_sessions env envs {s} {t} cqe e reach type arrived =
    let none_left = Reach-Keeps env envs NoSessions (NoSessions-stable envs) reach e in
    let (done, how) =
      accept_event_cases env envs cqe t type arrived (ground arith) (ground arith) in
    elim how [
      | inl (free, kept, (id, ref, has, least, reg)) ↦ absurd (subst (Has id ref) none_left has)
      | inr (closed, same) ↦ (none_left, done, closed, same)
    ]
