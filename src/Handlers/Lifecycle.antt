-- ===== src/Handlers/Lifecycle.antt =====
-- processEvent and handleRead at the end of a membership: a client that leaves, and a connection
-- that ends.
use tcpchatserver.Base.{ℕ, ◌≤◌, ◌<◌, ◌≡◌, inl, inr, some, none, true, false, arith, Option-cases}
use tcpchatserver.Base.Int.{ℤ, pos, ◌<ℤ◌, ◌≤ℤ◌, uint16, ℤ_discrete}
use tcpchatserver.Base.Map.{lookup}
use tcpchatserver.Base.IntSet.{contains, contains-erase}
use tcpchatserver.Base.Action.{ok, err, Error}
use tcpchatserver.Context.{
  MessageType, OperationType, ChatMessage, max_data, get_context, message_byte,
}
use tcpchatserver.Buffer.{num_io_buffers}
use tcpchatserver.Uring.{Env}
use tcpchatserver.Session.{remove_client, handle_close}
use tcpchatserver.Manager.{Manager, get_session, join_session}
use tcpchatserver.Manager.Leave.{
  remove_session_cases, remove_session-io_ring, remove_session-get_session,
}
use tcpchatserver.Handlers.{
  Cqe, has_buffer, buffer_of, ring_at, handle_read, check_message, process_message, process_by,
  handle_leave_session, process_event, event_by, event_read,
}
use tcpchatserver.Handlers.Read.{
  message_in, marked, mark-lem, rearmed-lem, rearmed-SameSets, handle_read-message, IsUsedAt,
}

left_by :
    (envs : ℕ → Env) (self : ℕ) (fd : ℤ) (w : Manager)
    → let (r, v) = handle_leave_session envs self fd w in
      (r ≡ ok tt) × (ring_at self v ≡ ring_at self w) × (get_session fd v ≡ none)
unfolding handle_leave_session
left_by envs self fd w = elim (Option-cases (get_session fd w)) [
  | inl out ↦ ground arith
  | inr (ref, e) ↦ ground (arith, remove_session-io_ring fd self w, remove_session-get_session fd w)
]

left_set :
    (envs : ℕ → Env) (self : ℕ) (fd : ℤ) (ref : ℕ) (w : Manager)
    → get_session fd w ≡ some ref
    → contains fd ((handle_leave_session envs self fd w).1.heap ref).clients ≡ false
unfolding handle_leave_session get_session remove_client
left_set envs self fd ref w at = elim (remove_session_cases fd w) [
  | inl (free, same) ↦ absurd (ground arith)
  | inr (id, reg, out, inl (gone, heap, same)) ↦ absurd (ground arith)
  | inr (id, reg, out, inr (r, there, heap, rest)) ↦
      ground (arith, contains-erase fd fd (w.heap ref).clients)
]

check_message-leave :
    (envs : ℕ → Env) (self : ℕ) (fd : ℤ) (bid : ℕ) (m : ChatMessage) (w : Manager)
    → m.type ≡ MessageType.client_leave
    → 0 < m.len
    → m.len ≤ max_data
    → check_message envs self fd bid m w ≡ handle_leave_session envs self fd w
unfolding check_message process_message process_by message_byte
check_message-leave envs self fd bid m w e low high = ground arith

-- A message by which a client leaves has arrived, of 1 to 512 bytes: the client is registered
-- for no session any more, and not in the set of the session that it was registered for; but the buffer that the message came in stays in use and nothing is handed back to the kernel.
pub handle_read_leave :
    (envs : ℕ → Env) (self : ℕ) (cqe : Cqe) (client_fd : ℤ) (w : Manager)
    → pos 0 <ℤ cqe.res
    → has_buffer cqe ≡ true
    → buffer_of cqe < num_io_buffers
    → (message_in (buffer_of cqe) (ring_at self w)).type ≡ MessageType.client_leave
    → 0 < (message_in (buffer_of cqe) (ring_at self w)).len
    → (message_in (buffer_of cqe) (ring_at self w)).len ≤ max_data
    → let v = (handle_read envs self cqe client_fd w).1 in
      (get_session client_fd v ≡ none)
      × ((ref : ℕ)
          → get_session client_fd w ≡ some ref
          → contains client_fd (v.heap ref).clients ≡ false)
      × IsUsedAt self (buffer_of cqe) v
      × ((ring_at self v).buffer_manager.ring_calls ≡ (ring_at self w).buffer_manager.ring_calls)
unfolding get_session
handle_read_leave envs self cqe client_fd w arrived has b type low high =
    let bid = buffer_of cqe in
    let taken = marked self bid client_fd w in
    let gone = (handle_leave_session envs self client_fd taken).1 in
    let (done, rings, out) = left_by envs self client_fd taken in
    let m = mark-lem bid (uint16 client_fd) (ring_at self w).buffer_manager b in
    let checked =
      check_message-leave envs self client_fd bid (message_in bid (ring_at self w)) taken type low
        high in
    let e = handle_read-message envs self cqe client_fd w gone arrived has (ground arith) b in
    let after = rearmed-lem envs self cqe client_fd gone in
    let sets = rearmed-SameSets envs self cqe client_fd gone in
    (
      ground arith,
      λ ref at. ground (arith, sets ref, left_set envs self client_fd ref taken),
      ground arith,
      ground arith,
    )

-- A read of a client ends with an end of file or an error. The client is taken out of the session's
-- set, but it stays registered: whatever session it joins afterwards, it is refused.
pub process_event_closed :
    (envs : ℕ → Env) (self : ℕ) (cqe : Cqe) (fd id j : ℤ) (w : Manager)
    → (get_context cqe.user_data).op_type ≡ OperationType.read
    → (get_context cqe.user_data).client_fd ≡ fd
    → cqe.res ≤ℤ pos 0
    → lookup ℤ_discrete fd w.client_sessions ≡ some id
    → let v = (process_event envs self cqe w).1 in
      (contains fd (v.heap self).clients ≡ false)
      × (join_session envs fd j v ≡ (err Error.already_in_session, v))
unfolding process_event event_by event_read handle_close remove_client join_session
process_event_closed envs self cqe fd id j w type at ended reg =
    (ground (arith, contains-erase fd fd (w.heap self).clients), ground arith)
