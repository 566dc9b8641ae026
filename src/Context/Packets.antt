-- ===== src/Context/Packets.antt =====
-- The messages and the packets of sizeof(ChatMessage) bytes are the same.
use mathlib.Core.Equiv.{IsEquiv, Iso, iso_to_equiv}
use mathlib.Core.HLevel.{Σ_prop_path}
use native.Mathlib.Bridge.{le_prop}
use native.Mathlib.Nat.{ℕ_set}
use tcpchatserver.Base.{
  ℕ, ◌+◌, ◌*◌, ◌/◌, ◌%◌, ◌<◌, ◌≡◌, refl, sym, subst, List, [], ◌∷◌, arith, length, All, Bool, true,
  false, ◌==◌, if◌then◌else◌,
}
use tcpchatserver.Context.{
  MessageType, ChatMessage, message_byte, message_type, message_bytes, message_of_bytes, max_data,
  message_size,
}
use tcpchatserver.Context.Wire.{
  IsMessageType, IsWhole, take-length, length-message_bytes, message_of_bytes-message_bytes,
}

abbrev pub AreBytes : List ℕ → Type 0
AreBytes bs = All (λ b. b < 256) bs

-- The values of the struct ChatMessage, and the memory that one takes.
abbrev pub Message : Type 0
Message = (m : ChatMessage) × (IsWhole m × AreBytes m.content)

abbrev pub Packet : Type 0
Packet = (bs : List ℕ) × ((length bs ≡ message_size) × AreBytes bs)

AreBytes-prop : (bs : List ℕ) → IsProp (AreBytes bs)
AreBytes-prop [] = hlevel
AreBytes-prop (b ∷ bs) = hlevel (le_prop, AreBytes-prop bs)

IsMessageType-prop : (t : MessageType) → IsProp (IsMessageType t)
IsMessageType-prop (MessageType.unknown b) = hlevel le_prop
IsMessageType-prop _ = hlevel

IsWhole-prop : (m : ChatMessage) → IsProp (IsWhole m)
IsWhole-prop m h k i = record {
  type = IsMessageType-prop m.type h.type k.type i;
  len = le_prop h.len k.len i;
  content = ℕ_set (length m.content) max_data h.content k.content i;
}

either :
    (c : Bool) (s t : MessageType)
    → (c ≡ true → IsMessageType s)
    → (c ≡ false → IsMessageType t)
    → IsMessageType (if c then s else t)
either true s t h k = h refl
either false s t h k = k refl

message_type-IsMessageType : (b : ℕ) → b < 256 → IsMessageType (message_type b)
unfolding message_type
message_type-IsMessageType b h =
    either (b == 0x01) _ _ (λ e0. tt)
      λ e0.
        either (b == 0x02) _ _ (λ e1. tt)
          λ e1.
            either (b == 0x03) _ _ (λ e2. tt)
              λ e2.
                either (b == 0x04) _ _ (λ e3. tt)
                  λ e3.
                    either (b == 0x11) _ _ (λ e4. tt)
                      λ e4.
                        either (b == 0x12) _ _ (λ e5. tt)
                          λ e5.
                            either (b == 0x13) _ _ (λ e6. tt)
                              λ e6.
                                either (b == 0x14) _ _ (λ e7. tt)
                                  λ e7. (
                                    h,
                                    ground arith,
                                    ground arith,
                                    ground arith,
                                    ground arith,
                                    ground arith,
                                    ground arith,
                                    ground arith,
                                    ground arith,
                                  )

message_byte-lt : (t : MessageType) → IsMessageType t → message_byte t < 256
unfolding message_byte
message_byte-lt (MessageType.unknown b) h = h.0
message_byte-lt _ h = omega arith

message_byte-message_type : (b : ℕ) → message_byte (message_type b) ≡ b
unfolding message_byte message_type
message_byte-message_type b = ground arith

-- What 515 bytes are read as is a value of the struct, and it is written as those bytes.
packet-lem :
    (t low high : ℕ) (rest : List ℕ)
    → AreBytes (t ∷ low ∷ high ∷ rest)
    → length rest ≡ max_data
    → let m = message_of_bytes (t ∷ low ∷ high ∷ rest) in
      IsWhole m × AreBytes m.content × (message_bytes m ≡ t ∷ low ∷ high ∷ rest)
unfolding message_of_bytes message_bytes
packet-lem t low high rest (ht, (hl, (hh, hr))) e =
    let all = take-length max_data rest e in
    let same : message_byte (message_type t) ≡ t = message_byte-message_type t in
    let lo : (low + 256 * high) % 256 ≡ low = omega arith in
    let hi : (low + 256 * high) / 256 ≡ high = omega arith in
    (
      record { type = message_type-IsMessageType t ht; len = omega arith; content = ground arith },
      subst AreBytes (sym all) hr,
      ground arith,
    )

packet-cases :
    (bs : List ℕ)
    → length bs ≡ message_size
    → AreBytes bs
    → IsWhole (message_of_bytes bs)
      × AreBytes (message_of_bytes bs).content
      × (message_bytes (message_of_bytes bs) ≡ bs)
packet-cases [] e h = absurd (omega arith)
packet-cases (t ∷ []) e h = absurd (omega arith)
packet-cases (t ∷ low ∷ []) e h = absurd (omega arith)
packet-cases (t ∷ low ∷ high ∷ rest) e h = packet-lem t low high rest h (omega arith)

pub message_bytes-AreBytes :
    (m : ChatMessage) → IsWhole m → AreBytes m.content → AreBytes (message_bytes m)
unfolding message_bytes
message_bytes-AreBytes m whole h =
    let len = whole.len in (message_byte-lt m.type whole.type, (omega arith, (omega arith, h)))

-- A message as the packet that is sent for it.
unfoldable pub to_packet : Message → Packet
to_packet (m, (whole, bytes)) =
    (message_bytes m, (length-message_bytes m whole, message_bytes-AreBytes m whole bytes))

of_packet : Packet → Message
of_packet (bs, (e, h)) =
    let (whole, bytes, same) = packet-cases bs e h in (message_of_bytes bs, (whole, bytes))

-- Every 515 bytes are the packet of exactly one value of ChatMessage: no message is sent in two ways,
-- two messages are never sent alike, and nothing that can arrive is without a meaning.
pub to_packet-IsEquiv : IsEquiv to_packet
unfolding to_packet of_packet
to_packet-IsEquiv =
    let iso : Iso Message Packet = record {
      fun = to_packet;
      inv = of_packet;
      rinv = λ p.
          Σ_prop_path (λ bs. hlevel (ℕ_set, AreBytes-prop bs)) (packet-cases p.0 p.1.0 p.1.1).2;
      linv = λ m.
          Σ_prop_path (λ m. hlevel (IsWhole-prop m, AreBytes-prop m.content))
            (message_of_bytes-message_bytes m.0 m.1.0);
    } in
    (iso_to_equiv iso).1
