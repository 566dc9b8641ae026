-- ===== src/Tests/Events.antt =====
-- The handlers of events.
use tcpchatserver.Base.{some, ℕ, ◌-◌, ◌≡◌, ◌≢◌, ◌⊎◌, refl, arith, none, false, [], ◌∷◌, inl, inr}
use tcpchatserver.Base.Int.{ℤ, pos, ℤ_discrete}
use tcpchatserver.Base.Map.{lookup}
use tcpchatserver.Base.IntSet.{contains}
use tcpchatserver.Base.Action.{ok, err, Error}
use tcpchatserver.Base.Text.{codes}
use tcpchatserver.Context.{
  MessageType, OperationType, ChatMessage, get_context, set_context, operation_type, operation_byte,
  message_at, message_type,
}
use tcpchatserver.Buffer.{
  add, advance, num_io_buffers, io_buffer_size, get_buffer_addr, is_buffer_in_use, get_ref_count,
}
use tcpchatserver.Uring.{make_message}
use tcpchatserver.Uring.Broadcast.{deliveries}
use tcpchatserver.Session.Join.{NoEntry}
use tcpchatserver.Manager.{Manager, get_session, join_session}
use tcpchatserver.Manager.Members.{SameSets, SessionAt}
use tcpchatserver.Manager.Members.{join_session_cases}
use tcpchatserver.Base.IntSet
use tcpchatserver.Base.Map.{insert}
use tcpchatserver.Handlers.{Cqe, ring_at, handle_read, process_event}
use tcpchatserver.Handlers.Read.{IsUsedAt, handle_read_refused}
use tcpchatserver.Handlers.Lifecycle.{handle_read_leave, process_event_closed}
use tcpchatserver.Tests.{roomy, roomy_everywhere, idle_ring, message_ring, two_sessions, cqe_of}

-- A ring in whose buffer 0 lies a message of a type and a length.
abbrev with_message : ℕ → ℕ → Manager
with_message type len = two_sessions (message_ring type len)

abbrev arrived : ℤ → Cqe
arrived res = cqe_of OperationType.read res

abbrev said : ChatMessage
said = make_message MessageType.client_chat (codes "hi")

abbrev there : Manager
there = two_sessions idle_ring

handle_read_refused_example :
    let v = (handle_read roomy_everywhere 0 (arrived (pos 515)) (pos 7) (with_message 0x13 0)).1 in
    (deliveries (ring_at 0 v).calls ≡ [])
    × (v.client_sessions ≡ there.client_sessions)
    × (v.sessions ≡ there.sessions)
    × SameSets (with_message 0x13 0) v
    × (is_buffer_in_use 0 (ring_at 0 v).buffer_manager ≡ false)
    × ((ring_at 0 v).buffer_manager.ring_calls
        ≡ advance 1 ∷ add (get_buffer_addr 0 0) io_buffer_size 0 (num_io_buffers - 1) 0 ∷ [])
unfolding get_ref_count message_at get_buffer_addr
handle_read_refused_example =
    handle_read_refused roomy_everywhere 0 (arrived (pos 515)) (pos 7) (with_message 0x13 0)
      (omega arith) refl (omega arith) refl (inr (inr (inl refl)))

handle_read_leave_example :
    let v = (handle_read roomy_everywhere 0 (arrived (pos 515)) (pos 7) (with_message 0x12 1)).1 in
    (get_session (pos 7) v ≡ none)
    × ((ref : ℕ)
        → get_session (pos 7) (with_message 0x12 1) ≡ some ref
        → contains (pos 7) (v.heap ref).clients ≡ false)
    × IsUsedAt 0 0 v
    × ((ring_at 0 v).buffer_manager.ring_calls ≡ [])
unfolding message_at get_buffer_addr message_type
handle_read_leave_example =
    handle_read_leave roomy_everywhere 0 (arrived (pos 515)) (pos 7) (with_message 0x12 1)
      (omega arith) refl (omega arith) refl (omega arith) (omega arith)

process_event_closed_example :
    let v = (process_event roomy_everywhere 0 (arrived (pos 0)) there).1 in
    (contains (pos 7) (v.heap 0).clients ≡ false)
    × (join_session roomy_everywhere (pos 7) (pos 1) v ≡ (err Error.already_in_session, v))
unfolding get_context set_context operation_type operation_byte lookup ℤ_discrete
process_event_closed_example =
    process_event_closed roomy_everywhere 0 (arrived (pos 0)) (pos 7) (pos 0) (pos 1) there refl
      refl (omega arith) refl

join_session_cases_example :
    let (r, v) = join_session roomy_everywhere (pos 9) (pos 1) there in
    ((lookup ℤ_discrete (pos 9) there.client_sessions ≢ none)
      × (r ≡ err Error.already_in_session)
      × (v ≡ there))
    ⊎ ((lookup ℤ_discrete (pos 9) there.client_sessions ≡ none)
        × (((lookup ℤ_discrete (pos 1) there.sessions ≡ none)
              × (r ≡ err Error.invalid_session_id)
              × (v ≡ there))
            ⊎ ((ref : ℕ) × SessionAt (pos 1) there ref
                × ((v.heap ref).clients ≡ IntSet.insert (pos 9) (there.heap ref).clients)
                × (v.sessions ≡ there.sessions)
                × (((r ≡ ok tt)
                      × (v.client_sessions
                          ≡ insert ℤ_discrete (pos 9) (pos 1) there.client_sessions)
                      × ¬ NoEntry roomy (pos 9) (there.heap ref))
                    ⊎ ((r ≡ err Error.sqe_unavailable)
                        × (v.client_sessions ≡ there.client_sessions)
                        × NoEntry roomy (pos 9) (there.heap ref))))))
join_session_cases_example = join_session_cases roomy_everywhere (pos 9) (pos 1) there
