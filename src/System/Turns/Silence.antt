-- ===== src/System/Turns/Silence.antt =====
-- Who the running server sends nothing to, over whole executions.
use tcpchatserver.Base.{
  ℕ, ◌≤◌, ◌≡◌, ◌≢◌, ◌^◌, refl, false, arith, none, Option-cases, Bool-cases, inl, inr, ◌∙◌,
}
use tcpchatserver.Base.Int.{ℤ, ℤ_discrete}
use tcpchatserver.Base.IntSet.{contains, contains-insert, contains-erase}
use tcpchatserver.Base.Map.{lookup, lookup-erase}
use tcpchatserver.Base.Action.{ok}
use tcpchatserver.Context.{get_context}
use tcpchatserver.Uring.{Env, IoUring, advance_cq, submit_and_wait_ring, with_buffers}
use tcpchatserver.Uring.Inbox.{inbox}
use tcpchatserver.Session.{Session, handle_close, remove_client}
use tcpchatserver.Session.Join.{add_client-clients}
use tcpchatserver.Manager.{Setup, Manager, create, get_optimal_thread_count, join_session}
use tcpchatserver.Manager.Leave.{remove_session_cases}
use tcpchatserver.Manager.Members.{SessionAt, IsExclusive}
use tcpchatserver.Handlers.{process_event, Cqe, ring_at}
use tcpchatserver.Handlers.Frame.{
  IsStableFor, Keeps, put_ring, process_event-Keeps, process_event-KeepsFor,
}
use tcpchatserver.Handlers.Privacy.{
  IsNamed, Apart, Unheard, get_session-SessionAt, join_session-Unheard, process_event-Unheard,
}
use tcpchatserver.Listener.{Listener, Server, SocketCalls}
use tcpchatserver.Listener.Frame.{accept_event-KeepsFor}
use tcpchatserver.System.{start_server}
use tcpchatserver.System.Naming.{IsNamed-stable}
use tcpchatserver.System.Turns.{
  Turn, event, advance, wait, fill, accept, advance_accepted, wait_accepted, Turns, none_yet, turn,
}
use tcpchatserver.System.Turns.Safety.{Turns-IsNamed}

-- A client is in none of the sessions.
abbrev pub Outside : ℤ → Manager → Type 0
Outside t w = (id : ℤ) (ref : ℕ) → SessionAt id w ref → contains t (w.heap ref).clients ≡ false

abbrev pub Other : ℤ → ℤ → Type 0
Other t fd = fd ≢ t

Outside-stable : (envs : ℕ → Env) (t : ℤ) → IsStableFor envs (Other t) (Outside t)
unfolding handle_close remove_client join_session
Outside-stable envs t = record {
  ring_for = λ self u w out i ref at. ground (arith, out i ref);
  join_for = λ fd id w other out i ref at.
      elim (Option-cases (lookup ℤ_discrete fd w.client_sessions)) [
        | inr (j, e) ↦ ground (arith, out i ref)
        | inl free ↦ elim (Option-cases (lookup ℤ_discrete id w.sessions)) [
          | inl gone ↦ ground (arith, out i ref)
          | inr (r, e) ↦ ground (
            arith,
            out i ref,
            add_client-clients (envs r) fd (w.heap r),
            contains-insert t fd (w.heap r).clients,
          )
        ]
      ];
  remove_for = λ fd w out i ref at. elim (remove_session_cases fd w) [
    | inl (free, same) ↦ ground (arith, out i ref)
    | inr (id, reg, gone, inl (lost, heap, same)) ↦ ground (arith, out i ref)
    | inr (id, reg, gone, inr (r, there, heap, rest)) ↦ ground (
      arith,
      out i ref,
      contains-erase t fd (w.heap r).clients,
      lookup-erase ℤ_discrete i id w.sessions,
    )
  ];
  close_for = λ self fd w out i ref at.
      ground (arith, out i ref, contains-erase t fd (w.heap self).clients);
}

-- So is a client that is not registered, where the sets of the clients are as the registry says.
pub unregistered-Outside :
    (t : ℤ) (w : Manager)
    → IsExclusive w
    → lookup ℤ_discrete t w.client_sessions ≡ none
    → Outside t w
unregistered-Outside t w x free id ref at = elim (Bool-cases (contains t (w.heap ref).clients)) [
  | inl there ↦ ground (arith, x.registered t id ref at there)
  | inr gone ↦ gone
]

-- What an execution without events of the client keeps: `start` is the manager at its begin.
abbrev Silent : ℤ → Manager → Manager → Type 0
Silent t start w = IsNamed w × Outside t w × Unheard t start w

module _ (envs : ℕ → Env) (t : ℤ) (start : Manager) where
  put-Silent :
      (self : ℕ) (u : IoUring) (w : Manager)
      → inbox t u ≡ inbox t (ring_at self w)
      → Silent t start w
      → Silent t start (put_ring self u w)
  put-Silent self u w same (named, out, quiet) = (
    (IsNamed-stable envs).ring self u w named,
    (Outside-stable envs t).ring_for self u w out,
    λ ref. ground (arith, same, quiet ref),
  )

  event-Silent :
      (self : ℕ) (cqe : Cqe)
      → Other t (get_context cqe.user_data).client_fd
      → Keeps (Silent t start) (process_event envs self cqe)
  event-Silent self cqe other w (named, out, quiet) =
      let apart : Apart t (get_context cqe.user_data).client_fd w = λ ref e.
        let (id, reg, at) = get_session-SessionAt (get_context cqe.user_data).client_fd w ref e in
        out id ref at in
      (
        process_event-Keeps envs IsNamed (IsNamed-stable envs) self cqe w named,
        process_event-KeepsFor envs (Other t) (Outside t) (Outside-stable envs t) self cqe other w
            out,
        λ ref. process_event-Unheard envs self cqe t w named other apart ref ∙ quiet ref,
      )

  Silent-join : (fd id : ℤ) → Other t fd → Keeps (Silent t start) (join_session envs fd id)
  Silent-join fd id other w (named, out, quiet) = (
    (IsNamed-stable envs).join fd id w named,
    (Outside-stable envs t).join_for fd id w other out,
    λ ref. join_session-Unheard envs t fd id w other ref ∙ quiet ref,
  )

-- A turn is not an event of the client, and no connection that it accepts gets the client's descriptor.
abbrev pub IsOthers : {env : Env} {envs : ℕ → Env} → ℤ → {s u : Server} → Turn env envs s u → Type 0
IsOthers t (event self cqe) = Other t (get_context cqe.user_data).client_fd
IsOthers t (accept cqe) = Other t cqe.res
IsOthers t _ = Unit

abbrev pub AreOthers :
    {env : Env} {envs : ℕ → Env} → ℤ → {s u : Server} → Turns env envs s u → Type 0
AreOthers t none_yet = Unit
AreOthers t (turn turns one) = AreOthers t turns × IsOthers t one

module _ (env : Env) (envs : ℕ → Env) (t : ℤ) (start : Manager) where
  Turn-Silent :
      {s u : Server} (one : Turn env envs s u)
      → IsOthers t one
      → Silent t start s.manager
      → Silent t start u.manager
  unfolding advance_cq submit_and_wait_ring
  Turn-Silent {s} (event self cqe) other p = event-Silent envs t start self cqe other s.manager p
  Turn-Silent {s} (advance self n) other p =
      put-Silent envs t start self (advance_cq n (ring_at self s.manager)) s.manager refl p
  Turn-Silent {s} (wait self) other p =
      put-Silent envs t start self (submit_and_wait_ring (envs self) (ring_at self s.manager)).1
        s.manager (ground arith) p
  Turn-Silent {s} (fill self memory) other p =
      let u = with_buffers (λ b. record b { memory = memory }) (ring_at self s.manager) in
      put-Silent envs t start self u s.manager refl p
  Turn-Silent {s} (accept cqe) other p =
      accept_event-KeepsFor env envs (Other t) (Silent t start) (Silent-join envs t start) cqe s
        other p
  Turn-Silent (advance_accepted n) other p = p
  Turn-Silent wait_accepted other p = p

  Turns-Silent :
      {s u : Server} (turns : Turns env envs s u)
      → AreOthers t turns
      → Silent t start s.manager
      → Silent t start u.manager
  Turns-Silent none_yet others p = p
  Turns-Silent (turn turns one) (others, other) p =
      Turn-Silent one other (Turns-Silent turns others p)

-- The server is started on a machine with at most 2 ^ 31 threads to use, every ring could be made, and
-- in some state that it has reached a client is in no session. Then after any further turns of the
-- workers, the listener and the kernel, in any order and whatever the submission queues do, as long as
-- no event is the client's own and no accepted connection gets the client's descriptor: no message has
-- been queued for the client on any ring, and it is in no session.
-- A turn is one event, one wait or one advance of a ring, or one write into the buffers.
pub Turns-Outside :
    (env : Env) (envs : ℕ → Env) (hw : ℕ) (heap : ℕ → Session) (rings : Setup) (calls : SocketCalls)
    (l : Listener) {s u : Server} (t : ℤ)
    → ((r : ℕ) → (u : IoUring) × (rings.ring r ≡ ok u))
    → get_optimal_thread_count hw ≤ 2 ^ 31
    → Turns env envs
        (start_server env envs hw rings calls (record { listener = l; manager = create hw heap })).1
        s
    → Outside t s.manager
    → (later : Turns env envs s u) → AreOthers t later
    → Unheard t s.manager u.manager × Outside t u.manager
Turns-Outside env envs hw heap rings calls l {s} t made few turns out later others =
    let named = Turns-IsNamed env envs hw heap rings calls l made few turns in
    let (named', out', quiet) =
      Turns-Silent env envs t s.manager later others (named, out, λ ref. refl) in
    (quiet, out')
