-- ===== src/Uring/Send.antt =====
-- getSQE, the prepare methods and sendMessage, on every branch.
use tcpchatserver.Base.{
  ℕ, ◌+◌, ◌%◌, ◌^◌, ◌≤◌, ◌<◌, ◌≡◌, refl, ◌⊎◌, inl, inr, true, none, some, List, ◌∷◌, arith, length,
  Option-cases,
}
use tcpchatserver.Base.Int.{ℤ, IsInt32}
use tcpchatserver.Base.Action.{Done, Error, ok, err, Result}
use tcpchatserver.Context.{
  MessageType, OperationType, ChatMessage, Operation, max_data, message_size, set_context,
  get_context,
}
use tcpchatserver.Context.RoundTrip.{get_context-set_context}
use tcpchatserver.Buffer.{decrement_ref_count, u64}
use tcpchatserver.Uring.{
  Env, IoUring, Call, Request, queued, submit, recv, write, close, log, with_buffers, get_sqe,
  prepare_read, prepare_write, prepare_close, make_message, send_message,
  decrement_buffer_ref_count,
}

-- getSQE takes an entry at once, or after one submit, or throws after one submit; nothing else of
-- the ring changes.
pub get_sqe_cases :
    (env : Env) (u : IoUring)
    → ((w : ℕ) × (env.next_sqe u.calls ≡ some w) × (get_sqe env u ≡ (ok w, u)))
      ⊎ (((w : ℕ) × (env.next_sqe u.calls ≡ none)
            × (env.next_sqe (submit ∷ u.calls) ≡ some w)
            × (get_sqe env u ≡ (ok w, log submit u)))
          ⊎ ((env.next_sqe u.calls ≡ none)
              × (env.next_sqe (submit ∷ u.calls) ≡ none)
              × (get_sqe env u ≡ (err Error.sqe_unavailable, log submit u))))
unfolding get_sqe
get_sqe_cases env u = elim (Option-cases (env.next_sqe u.calls)) [
  | inr (w, e) ↦ inl (w, e, ground arith)
  | inl full ↦ elim (Option-cases (env.next_sqe (submit ∷ u.calls))) [
    | inr (w, e) ↦ inr (inl (w, full, e, ground arith))
    | inl e ↦ inr (inr (full, e, ground arith))
  ]
]

-- The ways in which a send can end.
abbrev pub Sends : Env → ℤ → ChatMessage → ℕ → IoUring → Result Done × IoUring → Type 0
Sends env fd message bid u r =
    ((w : ℕ) × (cs : List Call) × ((cs ≡ u.calls) ⊎ (cs ≡ submit ∷ u.calls))
      × (r ≡ (
        ok tt,
        record u {
          calls =
              queued (write fd message message_size) (
                set_context (env.prep (write fd message message_size) w) OperationType.write fd bid)
              ∷ cs;
          total_messages = (u.total_messages + 1) % u64;
        },
      )))
    ⊎ ((env.next_sqe u.calls ≡ none)
        × (r ≡ (
          err Error.sqe_unavailable,
          record u {
            calls = submit ∷ u.calls;
            buffer_manager = decrement_ref_count bid u.buffer_manager;
          },
        )))

-- A send of at most 512 bytes ends in one of two ways. Either one write of the whole message to the
-- client is queued, behind at most one submit, tagged with the client and the buffer, and the
-- message is counted; or no entry was free at once, one submit was made, the error is thrown on, and
-- the buffer has lost one reference.
pub send_message-Sends :
    (env : Env) (fd : ℤ) (type : MessageType) (text : List ℕ) (bid : ℕ) (u : IoUring)
    → length text ≤ max_data
    → Sends env fd (make_message type text) bid u (send_message env fd type text bid u)
unfolding send_message prepare_write get_sqe decrement_buffer_ref_count
send_message-Sends env fd type text bid u h = elim (Option-cases (env.next_sqe u.calls)) [
  | inr (w, e) ↦ inl (w, u.calls, inl refl, ground arith)
  | inl full ↦ elim (Option-cases (env.next_sqe (submit ∷ u.calls))) [
    | inr (w, e) ↦ inl (w, submit ∷ u.calls, inr refl, ground arith)
    | inl e ↦ inr (full, ground arith)
  ]
]

-- A message of more than 512 bytes is refused with nothing queued, but the buffer loses two
-- references: one where the size is refused and one where the error is caught.
pub send_message_too_long :
    (env : Env) (fd : ℤ) (type : MessageType) (text : List ℕ) (bid : ℕ) (u : IoUring)
    → max_data < length text
    → send_message env fd type text bid u ≡ (
      err Error.message_too_long,
      with_buffers (λ b. decrement_ref_count bid (decrement_ref_count bid b)) u,
    )
unfolding send_message decrement_buffer_ref_count
send_message_too_long env fd type text bid u h = ground arith

-- The entry that a prepare method queued last.
abbrev pub last_context : List Call → Operation
last_context (queued request user_data ∷ cs) = get_context user_data
last_context _ = get_context 0

-- Where the prep helpers leave `user_data` alone and an entry is free: what a read, a write and a
-- close put into the entry is read back by getContext as that operation on that client, with the
-- buffer of the write.
pub prepare_context :
    (env : Env) (fd : ℤ) (message : ChatMessage) (len bid w : ℕ) (u : IoUring)
    → ((r : Request) (v : ℕ) → env.prep r v ≡ v)
    → env.next_sqe u.calls ≡ some w
    → IsInt32 fd
    → bid < 2 ^ 16
    → (last_context (prepare_read env fd u).1.calls
        ≡ record { client_fd = fd; op_type = OperationType.read; buffer_idx = 0 })
      × (last_context (prepare_write env fd message len bid u).1.calls
          ≡ record { client_fd = fd; op_type = OperationType.write; buffer_idx = bid })
      × (last_context (prepare_close env fd u).1.calls
          ≡ record { client_fd = fd; op_type = OperationType.close; buffer_idx = 0 })
unfolding prepare_read prepare_write prepare_close get_sqe
prepare_context env fd message len bid w u keep free h b = (
  ground (
    arith,
    keep (recv fd true 1) (set_context w OperationType.read fd 0),
    (get_context-set_context w OperationType.read fd 0 tt h (omega arith)).0,
  ),
  ground (
    arith,
    keep (write fd message len) w,
    (get_context-set_context w OperationType.write fd bid tt h b).0,
  ),
  ground (
    arith,
    keep (close fd) (set_context w OperationType.close fd 0),
    (get_context-set_context w OperationType.close fd 0 tt h (omega arith)).0,
  ),
)
