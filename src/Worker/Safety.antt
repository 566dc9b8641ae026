-- ===== src/Worker/Safety.antt =====
-- The rounds of a worker: what they keep of the manager.
use tcpchatserver.Base.{ℕ, List, [], ◌∷◌, arith, length, Option-cases, inl, inr, get_elem?}
use tcpchatserver.Base.Int.{ℤ}
use tcpchatserver.Base.IntSet.{contains-erase}
use tcpchatserver.Uring.{Env, IoUring, advance_cq, submit_and_wait_ring}
use tcpchatserver.Uring.Broadcast.{HasRoom}
use tcpchatserver.Session.{remove_client, handle_close}
use tcpchatserver.Manager.{Manager, on_session}
use tcpchatserver.Manager.Members.{IsExclusive, join_session-IsExclusive}
use tcpchatserver.Manager.Leave.{remove_session-IsExclusive}
use tcpchatserver.Handlers.{Cqe, process_event}
use tcpchatserver.Handlers.Frame.{IsStable, Keeps, put_ring, process_event-Keeps}
use tcpchatserver.Worker.{process_batch, handle_batch, session_round, session_rounds, worker_pass}

module _ (envs : ℕ → Env) (P : Manager → Type 0) (stable : IsStable envs P) where
  process_batch-Keeps : (self : ℕ) (cqes : List Cqe) → Keeps P (process_batch envs self cqes)
  unfolding process_batch
  process_batch-Keeps self [] w p = p
  process_batch-Keeps self (cqe ∷ cqes) w p = ground (
    arith,
    process_event-Keeps envs P stable self cqe w p,
    process_batch-Keeps self cqes (process_event envs self cqe w).1,
  )

  handle_batch-Keeps : (self : ℕ) (cqes : List Cqe) → Keeps P (handle_batch envs self cqes)
  unfolding handle_batch
  handle_batch-Keeps self [] w p = p
  handle_batch-Keeps self (cqe ∷ cqes) w p =
      let v = (process_batch envs self (cqe ∷ cqes) w).1 in
      let q = process_batch-Keeps self (cqe ∷ cqes) w p in
      ground
        (arith, q, stable.ring self (advance_cq (length (cqe ∷ cqes)) (v.heap self).io_ring) v q)

  session_round-Keeps :
      (self : ℕ) (peeked again : List Cqe) → Keeps P (session_round envs self peeked again)
  unfolding session_round
  session_round-Keeps self (cqe ∷ cqes) again w p = handle_batch-Keeps self (cqe ∷ cqes) w p
  session_round-Keeps self [] again w p =
      let u = (submit_and_wait_ring (envs self) (w.heap self).io_ring).1 in
      let q = stable.ring self u w p in
      ground (arith, q, handle_batch-Keeps self again (put_ring self u w) q)

  session_rounds-Keeps :
      (refs : List ℕ) (peeked again : ℕ → List Cqe)
      → Keeps P (session_rounds envs refs peeked again)
  unfolding session_rounds
  session_rounds-Keeps [] peeked again w p = p
  session_rounds-Keeps (self ∷ refs) peeked again w p = ground (
    arith,
    session_round-Keeps self (peeked self) (again self) w p,
    session_rounds-Keeps refs peeked again (session_round envs self (peeked self) (again self) w).1,
  )

  pub worker_pass-Keeps :
      (thread_id : ℕ) (peeked again : ℕ → List Cqe)
      → Keeps P (worker_pass envs thread_id peeked again)
  unfolding worker_pass
  worker_pass-Keeps thread_id peeked again w p =
      elim (Option-cases (get_elem? w.thread_sessions thread_id)) [
        | inl none_there ↦ ground arith
        | inr (refs, e) ↦ ground (arith, session_rounds-Keeps refs peeked again w p)
      ]

put_ring-IsExclusive :
    (self : ℕ) (u : IoUring) (w : Manager) → IsExclusive w → IsExclusive (put_ring self u w)
put_ring-IsExclusive self u w x = record {
  registered = λ d j r h c. x.registered d j r h (ground arith);
  distinct = x.distinct;
}

handle_close-IsExclusive :
    (env : Env) (self : ℕ) (fd : ℤ) (w : Manager)
    → IsExclusive w
    → IsExclusive (on_session self (handle_close env fd) w).1
unfolding handle_close remove_client
handle_close-IsExclusive env self fd w x = record {
  registered =
      λ d j r h c. x.registered d j r h (ground (arith, contains-erase d fd (w.heap r).clients));
  distinct = x.distinct;
}

pub IsExclusive-stable :
    (envs : ℕ → Env) → ((ref : ℕ) → HasRoom (envs ref)) → IsStable envs IsExclusive
IsExclusive-stable envs room = record {
  ring = put_ring-IsExclusive;
  join = λ fd id w. join_session-IsExclusive envs fd id w room;
  remove = remove_session-IsExclusive;
  close = λ self fd w. handle_close-IsExclusive (envs self) self fd w;
}
