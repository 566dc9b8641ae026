-- ===== src/Tests/Requests.antt =====
-- Requests that arrive in a buffer.
use tcpchatserver.Base.{
  ℕ, ◌+◌, ◌≤◌, ◌≡◌, ◌≢◌, ◌⊎◌, refl, arith, none, some, false, [], ◌∷◌, inl, inr,
}
use tcpchatserver.Base.Int.{ℤ, pos, ℤ_discrete}
use tcpchatserver.Base.IntSet
use tcpchatserver.Base.Map.{lookup}
use tcpchatserver.Base.IntSet.{contains}
use tcpchatserver.Base.Action.{ok, Error}
use tcpchatserver.Context.{
  MessageType, OperationType, ChatMessage, get_context, set_context, operation_type, operation_byte,
  message_at, message_type,
}
use tcpchatserver.Buffer.{get_buffer_addr, is_buffer_in_use, get_ref_count}
use tcpchatserver.Uring.{make_message}
use tcpchatserver.Uring.Broadcast.{refs, deliveries, to_each}
use tcpchatserver.Manager.{Manager, get_session, get_session_clients}
use tcpchatserver.Manager.Members.{SameSets, SessionAt}
use tcpchatserver.Handlers.{Cqe, ring_at, filter_text, is_kept, handle_read, process_event}
use tcpchatserver.Tests.{roomy_everywhere, idle_ring, message_ring, two_sessions, cqe_of}
use tcpchatserver.Base.{if◌then◌else◌, List}
use tcpchatserver.Handlers.Delivery.{text_of, handle_read_chat, handle_read_chat_outside}
use tcpchatserver.Handlers.Requests.{handle_join_session_answers}
use tcpchatserver.Handlers.Rearming.{reads, process_event_rearms}
use tcpchatserver.Handlers.Read.{message_in, IsUsedAt}
use tcpchatserver.Handlers.{join_text, join_error_text, handle_join_session, has_more}
use tcpchatserver.Uring.Completion.{IsUsed, completions}
use tcpchatserver.Context.{int32_at}

-- In buffer 0 lies a chat message of one byte; or one of no bytes, which is refused.
abbrev chatting : Manager
chatting = two_sessions (message_ring 0x13 1)

abbrev refusing : Manager
refusing = two_sessions (message_ring 0x13 0)

abbrev arrived : Cqe
arrived = cqe_of OperationType.read (pos 515)

handle_read_chat_example :
    let v = (handle_read roomy_everywhere 0 arrived (pos 7) chatting).1 in
    let text = text_of (message_in 0 (ring_at 0 chatting)) in
    (deliveries (ring_at 0 v).calls
      ≡ to_each (pos 7 ∷ pos 8 ∷ []) (make_message MessageType.server_chat text) [])
    × (refs 0 (ring_at 0 v) ≡ 2)
    × IsUsed 0 (completions 1 0 (ring_at 0 v))
    × (is_buffer_in_use 0 (completions 2 0 (ring_at 0 v)).buffer_manager ≡ false)
unfolding message_at get_buffer_addr message_type get_ref_count get_session get_session_clients
    lookup ℤ_discrete filter_text is_kept
handle_read_chat_example =
    handle_read_chat roomy_everywhere 0 arrived (pos 7) (pos 7) (pos 8 ∷ []) 0 1 chatting
      (λ cs e. cc) (omega arith) refl (omega arith) refl refl (omega arith) (omega arith) (λ e. cc)
      refl (omega arith) refl (omega arith) (omega arith)

handle_read_chat_outside_example :
    let v = (handle_read roomy_everywhere 0 arrived (pos 9) chatting).1 in
    (deliveries (ring_at 0 v).calls ≡ [])
    × (refs 0 (ring_at 0 v) ≡ 0)
    × IsUsedAt 0 0 v
    × ((ring_at 0 v).buffer_manager.ring_calls ≡ [])
unfolding message_at get_buffer_addr message_type get_ref_count get_session lookup ℤ_discrete
handle_read_chat_outside_example =
    handle_read_chat_outside roomy_everywhere 0 arrived (pos 9) chatting (omega arith) refl
      (omega arith) refl refl (omega arith) (omega arith) refl

process_event_rearms_example :
    let v = (process_event roomy_everywhere 0 arrived refusing).1 in
    reads (ring_at 0 v).calls ≡ (if has_more arrived then 1 else 2) + 0
unfolding get_context set_context operation_type operation_byte message_at get_buffer_addr contains
    ℤ_discrete
process_event_rearms_example =
    process_event_rearms roomy_everywhere 0 arrived (pos 7) refusing (λ cs e. cc) refl refl
      (omega arith) refl (omega arith) (inr (inr (inl refl))) refl

abbrev there : Manager
there = two_sessions idle_ring

abbrev asking : ChatMessage
asking = make_message MessageType.client_join (1 ∷ 0 ∷ 0 ∷ 0 ∷ [])

asking-len : 4 ≤ asking.len
unfolding make_message
asking-len = omega arith

handle_join_session_answers_example :
    let (r, v) = handle_join_session roomy_everywhere 0 (pos 9) asking 3 there in
    let id = int32_at asking.content in
    (r ≡ ok tt)
    × (((lookup ℤ_discrete (pos 9) there.client_sessions ≢ none)
          × (v.client_sessions ≡ there.client_sessions)
          × (v.sessions ≡ there.sessions)
          × SameSets there v
          × (deliveries (ring_at 0 v).calls
              ≡ (
                pos 9,
                make_message MessageType.server_error (join_error_text Error.already_in_session),
              )
                ∷ []))
        ⊎ (((lookup ℤ_discrete (pos 9) there.client_sessions ≡ none)
              × (lookup ℤ_discrete id there.sessions ≡ none)
              × (v.client_sessions ≡ there.client_sessions)
              × (v.sessions ≡ there.sessions)
              × SameSets there v
              × (deliveries (ring_at 0 v).calls
                  ≡ (
                    pos 9,
                    make_message MessageType.server_error
                        (join_error_text Error.invalid_session_id),
                  )
                    ∷ []))
            ⊎ ((lookup ℤ_discrete (pos 9) there.client_sessions ≡ none)
                × ((ref : ℕ) × SessionAt id there ref
                    × ((v.heap ref).clients ≡ IntSet.insert (pos 9) (there.heap ref).clients))
                × (lookup ℤ_discrete (pos 9) v.client_sessions ≡ some id)
                × ((ds : List (ℤ × ChatMessage)) × (deliveries (ring_at 0 v).calls
                      ≡ (pos 9, make_message MessageType.server_ack (join_text id)) ∷ ds)))))
handle_join_session_answers_example =
    handle_join_session_answers roomy_everywhere 0 (pos 9) asking 3 there (λ ref cs e. cc)
      asking-len
