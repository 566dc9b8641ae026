-- ===== src/Context/Wire.antt =====
-- A message as bytes, and how the server and the client read them back.
use tcpchatserver.Base.{
  ℕ, zero, suc, ◌+◌, ◌*◌, ◌/◌, ◌%◌, ◌^◌, ◌<◌, ◌≡◌, ◌≢◌, refl, subst, ap, List, [], ◌∷◌, arith,
  length, take, slice, get_or,
}
use tcpchatserver.Context.{
  MessageType, ChatMessage, message_byte, message_type, message_bytes, message_of_bytes, message_at,
  max_data, message_size,
}

-- A byte that is no enumerator's.
abbrev pub IsMessageType : MessageType → Type 0
IsMessageType (MessageType.unknown b) =
    (b < 256)
    × (b ≢ 1)
    × (b ≢ 2)
    × (b ≢ 3)
    × (b ≢ 4)
    × (b ≢ 0x11)
    × (b ≢ 0x12)
    × (b ≢ 0x13)
    × (b ≢ 0x14)
IsMessageType _ = Unit

-- A value of the struct: its type is a byte, its length 16 bits, its array 512 bytes.
pub record IsWhole (m : ChatMessage) : Type 0 where
  pub type : IsMessageType m.type
  pub len : m.len < 2 ^ 16
  pub content : length m.content ≡ max_data

-- The bytes that lie in memory from an address on.
abbrev pub Holds : (ℕ → ℕ) → ℕ → List ℕ → Type 0
Holds memory addr [] = Unit
Holds memory addr (b ∷ bs) = (memory addr ≡ b) × Holds memory (suc addr) bs

message_type-byte : (t : MessageType) → IsMessageType t → message_type (message_byte t) ≡ t
unfolding message_byte message_type
message_type-byte MessageType.server_ack h = ground arith
message_type-byte MessageType.server_error h = ground arith
message_type-byte MessageType.server_chat h = ground arith
message_type-byte MessageType.server_notification h = ground arith
message_type-byte MessageType.client_join h = ground arith
message_type-byte MessageType.client_leave h = ground arith
message_type-byte MessageType.client_chat h = ground arith
message_type-byte MessageType.client_command h = ground arith
message_type-byte (MessageType.unknown b) h = ground arith

pub take-length {ℓ} : {A : Type ℓ} (n : ℕ) (xs : List A) → length xs ≡ n → take n xs ≡ xs
take-length zero [] e = refl
take-length zero (x ∷ xs) e = absurd (omega arith)
take-length (suc n) [] e = refl
take-length (suc n) (x ∷ xs) e = ap (◌∷◌ x) (take-length n xs (omega arith))

slice-Holds :
    (memory : ℕ → ℕ) (n addr : ℕ) (bs : List ℕ)
    → length bs ≡ n
    → Holds memory addr bs
    → slice memory addr n ≡ bs
slice-Holds memory zero addr [] e h = refl
slice-Holds memory zero addr (b ∷ bs) e h = absurd (omega arith)
slice-Holds memory (suc n) addr [] e h = absurd (omega arith)
slice-Holds memory (suc n) addr (b ∷ bs) e h =
    cc (h.0, slice-Holds memory n (suc addr) bs (omega arith) h.1)

pub length-message_bytes : (m : ChatMessage) → IsWhole m → length (message_bytes m) ≡ message_size
unfolding message_bytes
length-message_bytes m h = omega (arith, h.content)

pub message_of_bytes-message_bytes :
    (m : ChatMessage) → IsWhole m → message_of_bytes (message_bytes m) ≡ m
unfolding message_of_bytes message_bytes
message_of_bytes-message_bytes m h =
    let size : m.len % 256 + 256 * (m.len / 256) ≡ m.len = omega arith in
    ground (arith, message_type-byte m.type h.type, take-length max_data m.content h.content)

pub message_at-message_bytes :
    (memory : ℕ → ℕ) (addr : ℕ) (m : ChatMessage)
    → IsWhole m
    → Holds memory addr (message_bytes m)
    → message_at memory addr ≡ m
unfolding message_at message_bytes
message_at-message_bytes memory addr m h (t, (low, (high, rest))) =
    let size : m.len % 256 + 256 * (m.len / 256) ≡ m.len = omega arith in
    let at_data : Holds memory (addr + 3) m.content =
      subst (λ a. Holds memory a m.content) (omega arith) rest in
    let at_low : memory (addr + 1) ≡ m.len % 256 =
      subst (λ a. memory a ≡ m.len % 256) (omega arith) low in
    let at_high : memory (addr + 2) ≡ m.len / 256 =
      subst (λ a. memory a ≡ m.len / 256) (omega arith) high in
    ground (
      arith,
      message_type-byte m.type h.type,
      slice-Holds memory max_data (addr + 3) m.content h.content at_data,
    )

-- A message is read back by both sides: the client, from the bytes that came in, and the server, from
-- the memory that they lie in, get the message that was sent.
pub message_bytes_lem :
    (memory : ℕ → ℕ) (addr : ℕ) (m : ChatMessage)
    → IsWhole m
    → Holds memory addr (message_bytes m)
    → (message_of_bytes (message_bytes m) ≡ m)
      × (message_at memory addr ≡ m)
      × (length (message_bytes m) ≡ message_size)
message_bytes_lem memory addr m whole held = (
  message_of_bytes-message_bytes m whole,
  message_at-message_bytes memory addr m whole held,
  length-message_bytes m whole,
)

-- A memory that has the bytes from an address on, one by one, holds them.
pub Holds-get_or :
    (memory : ℕ → ℕ) (addr : ℕ) (bs : List ℕ)
    → ((i : ℕ) → memory (addr + i) ≡ get_or bs i 0)
    → Holds memory addr bs
Holds-get_or memory addr [] h = tt
Holds-get_or memory addr (b ∷ bs) h =
    let here : addr + 0 ≡ addr = omega arith in
    (
      subst (λ a. memory a ≡ b) here (h 0),
      Holds-get_or memory (suc addr) bs (λ i.
          let later : addr + suc i ≡ suc addr + i = omega arith in
          subst (λ a. memory a ≡ get_or bs i 0) later (h (suc i))),
    )
