-- ===== src/System/Naming.antt =====
-- The sessions stand in the map under their own ids, whatever the running server does.
use tcpchatserver.Base.{ℕ, sym, subst, arith, Option-cases, inl, inr}
use tcpchatserver.Base.Int.{ℤ, ℤ_discrete}
use tcpchatserver.Base.Map.{lookup, lookup-erase}
use tcpchatserver.Uring.{Env}
use tcpchatserver.Session.{handle_close, remove_client}
use tcpchatserver.Session.Join.{add_client-clients}
use tcpchatserver.Manager.{Manager, start, join_session, remove_session}
use tcpchatserver.Manager.Leave.{remove_session_cases}
use tcpchatserver.Handlers.Frame.{IsStable}
use tcpchatserver.Handlers.Privacy.{IsNamed}

join_session-IsNamed :
    (envs : ℕ → Env) (fd id : ℤ) (w : Manager) → IsNamed w → IsNamed (join_session envs fd id w).1
unfolding join_session
join_session-IsNamed envs fd id w named j r at =
    elim (Option-cases (lookup ℤ_discrete fd w.client_sessions)) [
      | inr (k, e) ↦ ground (arith, named j r)
      | inl free ↦ elim (Option-cases (lookup ℤ_discrete id w.sessions)) [
        | inl gone ↦ ground (arith, named j r)
        | inr (ref, e) ↦ ground (arith, named j r, add_client-clients (envs ref) fd (w.heap ref))
      ]
    ]

remove_session-IsNamed : (fd : ℤ) (w : Manager) → IsNamed w → IsNamed (remove_session fd w)
unfolding remove_client
remove_session-IsNamed fd w named j r at = elim (remove_session_cases fd w) [
  | inl (free, same) ↦ subst IsNamed (sym same) named j r at
  | inr (id, reg, out, inl (gone, heap, same)) ↦ ground (arith, named j r)
  | inr (id, reg, out, inr (ref, there, heap, inl (empty, same))) ↦
      ground (arith, named j r, lookup-erase ℤ_discrete j id w.sessions)
  | inr (id, reg, out, inr (ref, there, heap, inr (left, same))) ↦ ground (arith, named j r)
]

pub IsNamed-stable : (envs : ℕ → Env) → IsStable envs IsNamed
unfolding handle_close remove_client
IsNamed-stable envs = record {
  ring = λ self u w named id ref at. ground (arith, named id ref at);
  join = join_session-IsNamed envs;
  remove = remove_session-IsNamed;
  close = λ self fd w named id ref at. ground (arith, named id ref at);
}

pub start-IsNamed : (w : Manager) → IsNamed w → IsNamed (start w)
unfolding start
start-IsNamed w named = named
