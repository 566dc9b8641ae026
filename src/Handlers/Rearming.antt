-- ===== src/Handlers/Rearming.antt =====
-- The multishot reads that are armed for a client.
use tcpchatserver.Base.{
  ℕ, ◌+◌, ◌<◌, ◌≡◌, true, List, [], ◌∷◌, arith, if◌then◌else◌, inl, inr, Option-cases,
}
use tcpchatserver.Base.Int.{ℤ, pos, ◌<ℤ◌}
use tcpchatserver.Base.IntSet.{contains}
use tcpchatserver.Base.Action.{ok}
use tcpchatserver.Context.{OperationType, get_context}
use tcpchatserver.Buffer.{num_io_buffers}
use tcpchatserver.Uring.{
  Env, IoUring, Call, queued, submit, submit_and_wait, cq_advance, accept, recv, write, close,
  prepare_read, get_sqe, release,
}
use tcpchatserver.Uring.Broadcast.{HasRoom}
use tcpchatserver.Manager.{Manager}
use tcpchatserver.Handlers.{
  Cqe, has_buffer, has_more, buffer_of, ring_at, process_event, event_by, event_read, release_at,
}
use tcpchatserver.Handlers.Read.{
  message_in, marked, handle_read-message, check_message-refused, rearmed, IsRefused,
}

-- How many reads have been queued.
abbrev pub reads : List Call → ℕ
reads [] = 0
reads (queued (recv fd select group) w ∷ cs) = 1 + reads cs
reads (queued (write fd message len) w ∷ cs) = reads cs
reads (queued (accept fd flags) w ∷ cs) = reads cs
reads (queued (close fd) w ∷ cs) = reads cs
reads (submit ∷ cs) = reads cs
reads (submit_and_wait n ∷ cs) = reads cs
reads (cq_advance n ∷ cs) = reads cs

prepare_read-reads :
    (env : Env) (fd : ℤ) (u : IoUring)
    → HasRoom env
    → let (r, v) = prepare_read env fd u in (r ≡ ok tt) × (reads v.calls ≡ 1 + reads u.calls)
unfolding prepare_read get_sqe
prepare_read-reads env fd u room = elim (Option-cases (env.next_sqe u.calls)) [
  | inl full ↦ absurd (room u.calls full)
  | inr (w, e) ↦ ground arith
]

-- A message that is refused arrives from a member of the session, where entries are always free.
-- Where the kernel says that the multishot read goes on (IORING_CQE_F_MORE), one more read is queued
-- all the same; where it does not, two are.
pub process_event_rearms :
    (envs : ℕ → Env) (self : ℕ) (cqe : Cqe) (fd : ℤ) (w : Manager)
    → HasRoom (envs self)
    → (get_context cqe.user_data).op_type ≡ OperationType.read
    → (get_context cqe.user_data).client_fd ≡ fd
    → pos 0 <ℤ cqe.res
    → has_buffer cqe ≡ true
    → buffer_of cqe < num_io_buffers
    → IsRefused (message_in (buffer_of cqe) (ring_at self w))
    → contains fd (w.heap self).clients ≡ true
    → let v = (process_event envs self cqe w).1 in
      reads (ring_at self v).calls ≡ (if has_more cqe then 1 else 2) + reads (ring_at self w).calls
unfolding process_event event_by event_read release
process_event_rearms envs self cqe fd w room type at arrived has b bad member =
    let bid = buffer_of cqe in
    let taken = marked self bid fd w in
    let freed = (release_at self bid taken).1 in
    let e =
      handle_read-message envs self cqe fd w freed arrived has
        (check_message-refused envs self fd bid (message_in bid (ring_at self w)) taken bad) b in
    let first = prepare_read-reads (envs self) fd (ring_at self freed) room in
    let again = (rearmed envs self cqe fd freed).1 in
    let second = prepare_read-reads (envs self) fd (ring_at self again) room in ground arith
