-- ===== src/Context/RoundTrip.antt =====
-- setContext against getContext.
use tcpchatserver.Base.{ℕ, ◌+◌, ◌*◌, ◌/◌, ◌%◌, ◌^◌, ◌<◌, ◌≡◌, ◌≢◌, arith}
use tcpchatserver.Base.Int.{ℤ, IsInt32, bits32, bits32-lt, int32-bits32}
use tcpchatserver.Context.{
  OperationType, message_byte, message_type, operation_byte, operation_type, set_context,
  get_context,
}

-- A byte that is no enumerator's; the enumerators are bytes as they stand.
abbrev pub IsOperationType : OperationType → Type 0
IsOperationType (OperationType.unknown b) = (b < 256) × (b ≢ 1) × (b ≢ 2) × (b ≢ 3) × (b ≢ 4)
IsOperationType _ = Unit

operation_byte-lt : (t : OperationType) → IsOperationType t → operation_byte t < 256
unfolding operation_byte
operation_byte-lt OperationType.accept h = omega arith
operation_byte-lt OperationType.read h = omega arith
operation_byte-lt OperationType.write h = omega arith
operation_byte-lt OperationType.close h = omega arith
operation_byte-lt (OperationType.unknown b) h = h.0

operation_type-byte :
    (t : OperationType) → IsOperationType t → operation_type (operation_byte t) ≡ t
unfolding operation_byte operation_type
operation_type-byte OperationType.accept h = ground arith
operation_type-byte OperationType.read h = ground arith
operation_type-byte OperationType.write h = ground arith
operation_type-byte OperationType.close h = ground arith
operation_type-byte (OperationType.unknown b) h = ground arith

-- Every byte is read as a message type whose byte it is.
pub message_byte-type : (b : ℕ) → message_byte (message_type b) ≡ b
unfolding message_byte message_type
message_byte-type b = ground arith

module _ (f o b w : ℕ) (hf : f < 2 ^ 32) (ho : o < 256) (hb : b < 2 ^ 16) where
  fd_of_word : (f + o * 2 ^ 32 + b % 2 ^ 16 * 2 ^ 40 + w / 2 ^ 56 * 2 ^ 56) % 2 ^ 32 ≡ f
  fd_of_word = omega arith

  op_of_word : (f + o * 2 ^ 32 + b % 2 ^ 16 * 2 ^ 40 + w / 2 ^ 56 * 2 ^ 56) / 2 ^ 32 % 2 ^ 8 ≡ o
  op_of_word = omega arith

  bid_of_word : (f + o * 2 ^ 32 + b % 2 ^ 16 * 2 ^ 40 + w / 2 ^ 56 * 2 ^ 56) / 2 ^ 40 % 2 ^ 16 ≡ b
  bid_of_word = omega arith

-- For every descriptor that is an int32_t, every operation type and every uint16_t buffer index,
-- getContext reads from the word that setContext wrote exactly what was packed, whatever the SQE's
-- word held before; and the word's top byte is the one it had.
pub get_context-set_context :
    (w : ℕ) (t : OperationType) (fd : ℤ) (bid : ℕ)
    → IsOperationType t
    → IsInt32 fd
    → bid < 2 ^ 16
    → (get_context (set_context w t fd bid)
        ≡ record { client_fd = fd; op_type = t; buffer_idx = bid })
      × (set_context w t fd bid / 2 ^ 56 ≡ w / 2 ^ 56)
unfolding get_context set_context
get_context-set_context w t fd bid ht hf hb =
    let o = operation_byte-lt t ht in
    let f = bits32-lt fd in
    (
      rw (
        fd_of_word (bits32 fd) (operation_byte t) bid w f o hb,
        op_of_word (bits32 fd) (operation_byte t) bid w f o hb,
        bid_of_word (bits32 fd) (operation_byte t) bid w f o hb,
        int32-bits32 fd hf,
        operation_type-byte t ht,
      ),
      omega arith,
    )
