-- ===== src/Worker.antt =====
-- SessionManager::workerThread: the rounds of a worker over the rings of its sessions. Workers run
-- side by side; an execution is a sequence of rounds, of any threads in any order.
pub mod Safety
pub mod Success
use tcpchatserver.Base.{ℕ, none, some, List, [], ◌∷◌, if◌then◌else◌, length, get_elem?}
use tcpchatserver.Base.Int.{pos, ltb_ℤ}
use tcpchatserver.Base.Action.{Action, Done, ok, pure, modify, ◌>>◌}
use tcpchatserver.Uring.{Env, submit_and_wait_ring, advance_cq}
use tcpchatserver.Manager.{Manager, store}
use tcpchatserver.Handlers.{Cqe, on_io, process_event}

module _ (envs : ℕ → Env) where
  unfoldable pub process_batch : ℕ → List Cqe → Action Manager Done
  process_batch self [] = pure tt
  process_batch self (cqe ∷ cqes) = process_event envs self cqe >> process_batch self cqes

  unfoldable pub handle_batch : ℕ → List Cqe → Action Manager Done
  handle_batch self [] = pure tt
  handle_batch self (cqe ∷ cqes) = do
    process_batch self (cqe ∷ cqes)
    on_io self (modify (advance_cq (length (cqe ∷ cqes))))

  -- The body of the loop over a thread's sessions: `peeked` is what the first peekCQE returns,
  -- `again` what the one after submitAndWait returns.
  unfoldable pub session_round : ℕ → List Cqe → List Cqe → Action Manager Done
  unfolding handle_batch process_batch
  session_round self (cqe ∷ cqes) again w = handle_batch self (cqe ∷ cqes) w
  session_round self [] again w =
      let (result, u) = submit_and_wait_ring (envs self) (w.heap self).io_ring in
      let w' = record w { heap = store w.heap self (record (w.heap self) { io_ring = u }) } in
      if ltb_ℤ result (pos 0) then (ok tt, w') else handle_batch self again w'

  -- One pass of thread `thread_id` over its sessions; `peeked` and `again` answer for each of them.
  unfoldable pub session_rounds : List ℕ → (ℕ → List Cqe) → (ℕ → List Cqe) → Action Manager Done
  session_rounds [] peeked again = pure tt
  session_rounds (self ∷ rest) peeked again =
      session_round self (peeked self) (again self) >> session_rounds rest peeked again

  unfoldable pub worker_pass : ℕ → (ℕ → List Cqe) → (ℕ → List Cqe) → Action Manager Done
  unfolding session_rounds
  worker_pass thread_id peeked again w = elim (get_elem? w.thread_sessions thread_id) [
    | none ↦ (ok tt, w)
    | some refs ↦ if w.should_stop then (ok tt, w) else session_rounds refs peeked again w
  ]
