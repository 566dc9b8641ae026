-- ===== src/System/Turns.antt =====
-- The running server with the threads taking turns after every single event: what one thread does to
-- an event is one step, and between any two of them the others may run.
pub mod Safety
pub mod Silence
use tcpchatserver.Base.{
  ℕ, ◌≤◌, ◌≡◌, ◌^◌, refl, sym, subst, true, none, some, List, [], ◌∷◌, arith, length, Option-cases,
  Bool-cases, get_elem?, inl, inr,
}
use tcpchatserver.Base.Int.{ℤ, pos, ltb_ℤ}
use tcpchatserver.Base.IntSet.{contains}
use tcpchatserver.Base.Action.{Result, ok, modify, Action, Result-cases, ◌>>=◌}
use tcpchatserver.Uring.{Env, IoUring, advance_cq, submit_and_wait_ring}
use tcpchatserver.Uring.Broadcast.{HasRoom}
use tcpchatserver.Session.{Session}
use tcpchatserver.Manager.{Manager, create, get_optimal_thread_count}
use tcpchatserver.Manager.Members.{IsExclusive, SessionAt, one_session}
use tcpchatserver.Handlers.{Cqe, on_io, ring_at, process_event}
use tcpchatserver.Handlers.Frame.{IsStable, put_ring, process_event-Keeps}
use tcpchatserver.Listener.{
  Listener, Server, SocketCalls, on_listener, accept_event, accept_events, accept_batch,
  process_events_round,
}
use tcpchatserver.Listener.Frame.{round-Keeps}
use tcpchatserver.Worker.{process_batch, handle_batch, session_round, session_rounds, worker_pass}
use tcpchatserver.System.{
  Step, worker, receive, listen, receive_into, Reach, here, next, start_server,
}

module _ (env : Env) (envs : ℕ → Env) where
  pub data Turn (s : Server) : Server → Type 0 where
    event :
        (self : ℕ) (cqe : Cqe)
        → Turn s (record s { manager = (process_event envs self cqe s.manager).1 })
    advance :
        (self n : ℕ)
        → Turn s (record s { manager = (on_io self (modify (advance_cq n)) s.manager).1 })
    wait :
        (self : ℕ)
        → Turn s (record s {
          manager =
              put_ring self (submit_and_wait_ring (envs self) (ring_at self s.manager)).1 s.manager;
        })
    fill :
        (self : ℕ) (memory : ℕ → ℕ)
        → Turn s (record s { manager = receive_into env envs self memory s.manager })
    accept : (cqe : Cqe) → Turn s (accept_event env envs cqe s).1
    advance_accepted : (n : ℕ) → Turn s (on_listener (modify (advance_cq n)) s).1
    wait_accepted : Turn s (record s {
      listener = record (s.listener) { io_ring = (submit_and_wait_ring env s.listener.io_ring).1 };
    })

  pub data Turns (s : Server) : Server → Type 0 where
    none_yet : Turns s s
    turn : {t u : Server} → Turns s t → Turn t u → Turns s u

  Turns-trans : {s t u : Server} → Turns s t → Turns t u → Turns s u
  Turns-trans h none_yet = h
  Turns-trans h (turn k one) = turn (Turns-trans h k) one

  -- What a computation on the manager, or on the server, does is done by turns, also when it throws.
  abbrev with_manager : Server → Manager → Server
  with_manager s w = record s { manager = w }

  abbrev Runs : {A : Type 0} → Action Manager A → Type 0
  Runs m = (s : Server) → Turns s (with_manager s (m s.manager).1)

  abbrev Listens : {A : Type 0} → Action Server A → Type 0
  Listens m = (s : Server) → Turns s (m s).1

  ends :
      {w v : Manager} (s : Server) → Turns s (with_manager s w) → w ≡ v → Turns s (with_manager s v)
  ends s h e = subst (λ v. Turns s (with_manager s v)) e h

  bind-Runs :
      {A B : Type 0} (m : Action Manager A) (f : A → Action Manager B)
      → Runs m
      → ((a : A) → Runs (f a))
      → Runs (m >>= f)
  bind-Runs m f h k s = elim (Result-cases (m s.manager).0) [
    | inl (a, e) ↦ rw (e, ◌>>=◌) (Turns-trans (h s) (k a (with_manager s (m s.manager).1)))
    | inr (x, e) ↦ rw (e, ◌>>=◌) (h s)
  ]

  bind-Listens :
      {A B : Type 0} (m : Action Server A) (f : A → Action Server B)
      → Listens m
      → ((a : A) → Listens (f a))
      → Listens (m >>= f)
  bind-Listens m f h k s = elim (Result-cases (m s).0) [
    | inl (a, e) ↦ rw (e, ◌>>=◌) (Turns-trans (h s) (k a (m s).1))
    | inr (x, e) ↦ rw (e, ◌>>=◌) (h s)
  ]

  process_batch-Runs : (self : ℕ) (cqes : List Cqe) → Runs (process_batch envs self cqes)
  unfolding process_batch
  process_batch-Runs self [] = λ s. none_yet
  process_batch-Runs self (cqe ∷ cqes) =
      bind-Runs (process_event envs self cqe) (λ _. process_batch envs self cqes)
        (λ s. turn none_yet (event self cqe)) (λ _. process_batch-Runs self cqes)

  handle_batch-Runs : (self : ℕ) (cqes : List Cqe) → Runs (handle_batch envs self cqes)
  unfolding handle_batch
  handle_batch-Runs self [] = λ s. none_yet
  handle_batch-Runs self (cqe ∷ cqes) =
      let n = length (cqe ∷ cqes) in
      bind-Runs (process_batch envs self (cqe ∷ cqes)) (λ _. on_io self (modify (advance_cq n)))
        (process_batch-Runs self (cqe ∷ cqes)) (λ _ s. turn none_yet (advance self n))

  session_round-Runs :
      (self : ℕ) (peeked again : List Cqe) → Runs (session_round envs self peeked again)
  unfolding session_round
  session_round-Runs self (cqe ∷ cqes) again s = handle_batch-Runs self (cqe ∷ cqes) s
  session_round-Runs self [] again s =
      let u = (submit_and_wait_ring (envs self) (ring_at self s.manager)).1 in
      let result = (submit_and_wait_ring (envs self) (ring_at self s.manager)).0 in
      let t = with_manager s (put_ring self u s.manager) in
      let waited : Turns s t = turn none_yet (wait self) in
      elim (Bool-cases (ltb_ℤ result (pos 0))) [
        | inl failed ↦ ends s waited (ground arith)
        | inr done ↦ ends s (Turns-trans waited (handle_batch-Runs self again t)) (ground arith)
      ]

  session_rounds-Runs :
      (refs : List ℕ) (peeked again : ℕ → List Cqe) → Runs (session_rounds envs refs peeked again)
  unfolding session_rounds
  session_rounds-Runs [] peeked again = λ s. none_yet
  session_rounds-Runs (self ∷ refs) peeked again =
      bind-Runs (session_round envs self (peeked self) (again self))
        (λ _. session_rounds envs refs peeked again)
        (session_round-Runs self (peeked self) (again self))
        (λ _. session_rounds-Runs refs peeked again)

  worker_pass-Runs :
      (thread_id : ℕ) (peeked again : ℕ → List Cqe) → Runs (worker_pass envs thread_id peeked again)
  unfolding worker_pass
  worker_pass-Runs thread_id peeked again s =
      elim (Option-cases (get_elem? s.manager.thread_sessions thread_id)) [
        | inl gone ↦ ends s none_yet (ground arith)
        | inr (refs, e) ↦ elim (Bool-cases s.manager.should_stop) [
          | inl stopped ↦ ends s none_yet (ground arith)
          | inr running ↦ ends s (session_rounds-Runs refs peeked again s) (ground arith)
        ]
      ]

  accept_events-Listens : (cqes : List Cqe) → Listens (accept_events env envs cqes)
  unfolding accept_events
  accept_events-Listens [] = λ s. none_yet
  accept_events-Listens (cqe ∷ cqes) =
      bind-Listens (accept_event env envs cqe) (λ _. accept_events env envs cqes)
        (λ s. turn none_yet (accept cqe)) (λ _. accept_events-Listens cqes)

  accept_batch-Listens : (cqes : List Cqe) → Listens (accept_batch env envs cqes)
  unfolding accept_batch
  accept_batch-Listens [] = λ s. none_yet
  accept_batch-Listens (cqe ∷ cqes) =
      let n = length (cqe ∷ cqes) in
      bind-Listens (accept_events env envs (cqe ∷ cqes)) (λ _. on_listener (modify (advance_cq n)))
        (accept_events-Listens (cqe ∷ cqes)) (λ _ s. turn none_yet (advance_accepted n))

  round-Listens : (peeked again : List Cqe) → Listens (process_events_round env envs peeked again)
  unfolding process_events_round
  round-Listens (cqe ∷ cqes) again s = accept_batch-Listens (cqe ∷ cqes) s
  round-Listens [] again s =
      let (result, u) = submit_and_wait_ring env s.listener.io_ring in
      let t : Server = record s { listener = record (s.listener) { io_ring = u } } in
      let waited : Turns s t = turn none_yet wait_accepted in
      elim (Bool-cases (ltb_ℤ result (pos 0))) [
        | inl failed ↦
            let same : t ≡ (process_events_round env envs [] again s).1 = ground arith in
            subst (Turns s) same waited
        | inr done ↦
            let v = (accept_batch env envs again t).1 in
            let same : v ≡ (process_events_round env envs [] again s).1 = ground arith in
            subst (Turns s) same (Turns-trans waited (accept_batch-Listens again t))
      ]

  Step-Turns : {s u : Server} → Step env envs s u → Turns s u
  Step-Turns {s} (worker thread_id peeked again) = worker_pass-Runs thread_id peeked again s
  Step-Turns {s} (receive self memory) = turn none_yet (fill self memory)
  Step-Turns {s} (listen peeked again) = round-Listens peeked again s

  -- What the workers and the listener do in rounds, in any order of the rounds, they do in turns, each
  -- of one event, one wait or one advance of a ring, or one write of the kernel into the buffers: also
  -- where an event ends in an exception, or a wait fails.
  pub Reach-Turns : {s u : Server} → Reach env envs s u → Turns s u
  Reach-Turns here = none_yet
  Reach-Turns (next reach step) = Turns-trans (Reach-Turns reach) (Step-Turns step)
