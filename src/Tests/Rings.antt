-- ===== src/Tests/Rings.antt =====
-- Sends and broadcasts on one ring.
use tcpchatserver.Base.{
  ℕ, ◌≡◌, ◌≤◌, ◌<◌, ◌+◌, ◌-◌, ◌*◌, ◌/◌, ◌^◌, ◌≢◌, refl, arith, length, false, none, List, [], ◌∷◌,
}
use tcpchatserver.Base.Int.{ℤ, pos, negsuc}
use tcpchatserver.Base.Text.{codes}
use tcpchatserver.Base.Action.{ok, Result, Done}
use tcpchatserver.Context.{MessageType, OperationType, set_context, get_context}
use tcpchatserver.Context.RoundTrip.{get_context-set_context}
use tcpchatserver.Buffer.{is_buffer_in_use, get_ref_count}
use tcpchatserver.Uring.{
  IoUring, broadcast, get_sqe, send_message, prepare_write, Call, send_loop, send_round, increments,
  decrement_buffer_ref_count,
}
use tcpchatserver.Uring.Broadcast.{refs, deliveries, broadcast-Sent}
use tcpchatserver.Uring.Completion.{
  IsUsed, completions, queued_since, broadcast-completions, broadcast_released_early,
}
use tcpchatserver.Tests.{roomy, two_entries, taken_ring}

abbrev three : List ℤ
three = pos 7 ∷ pos 8 ∷ pos 9 ∷ []

abbrev hi : List ℕ
hi = codes "hi"

abbrev told : IoUring
told = (broadcast roomy three MessageType.server_chat hi 5 taken_ring).1

abbrev told_two : IoUring
told_two = (broadcast two_entries three MessageType.server_chat hi 5 taken_ring).1

abbrev to_8_9 : List ℤ
to_8_9 = pos 8 ∷ pos 9 ∷ []

abbrev chat : MessageType
chat = MessageType.server_chat

always : (ref : ℕ) (cs : List Call) → roomy.next_sqe cs ≢ none
always ref cs e = cc

broadcast-completions_example :
    IsUsed 5 (completions 2 5 told)
    × (is_buffer_in_use 5 (completions 3 5 told).buffer_manager ≡ false)
unfolding is_buffer_in_use get_ref_count
broadcast-completions_example =
    broadcast-completions roomy (pos 7) to_8_9 chat hi 5 2 taken_ring (always 0) (omega arith)
      (omega arith) (omega arith) refl refl (omega arith)

broadcast_released_early_example :
    (k : ℕ) × (k < queued_since taken_ring told_two)
    × (is_buffer_in_use 5 (completions k 5 told_two).buffer_manager ≡ false)
unfolding is_buffer_in_use get_ref_count broadcast send_loop send_round send_message prepare_write
    get_sqe increments decrement_buffer_ref_count
broadcast_released_early_example =
    broadcast_released_early two_entries (pos 7) to_8_9 chat hi 5 taken_ring told_two (omega arith)
      (omega arith) (omega arith) refl refl refl (omega arith) (omega arith)

broadcast-Sent_example :
    (◌≡◌ {A = Result Done} (broadcast two_entries three chat hi 5 taken_ring).0 (ok tt))
    × ((failed : ℕ) × ((failed ≤ 3)
          × (refs 5 told_two ≡ refs 5 taken_ring + 3 - 2 * failed)
          × (length (deliveries told_two.calls) + failed ≡ 3)
          × (is_buffer_in_use 5 told_two.buffer_manager
              ≡ is_buffer_in_use 5 taken_ring.buffer_manager)))
unfolding get_ref_count
broadcast-Sent_example =
    broadcast-Sent two_entries (pos 7) to_8_9 chat hi 5 taken_ring (omega arith) (omega arith)
      (omega arith)

get_context-set_context_example :
    (get_context (set_context (2 ^ 60) OperationType.write (negsuc 0) 4095)
      ≡ record { client_fd = negsuc 0; op_type = OperationType.write; buffer_idx = 4095 })
    × (set_context (2 ^ 60) OperationType.write (negsuc 0) 4095 / 2 ^ 56 ≡ 2 ^ 60 / 2 ^ 56)
get_context-set_context_example =
    get_context-set_context (2 ^ 60) OperationType.write (negsuc 0) 4095 tt (omega arith)
      (omega arith)
