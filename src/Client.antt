-- ===== src/Client.antt =====
-- client/src/ChatClient.cpp and client/main.cpp: the client in the terminal.
-- `sent` has the messages given to send() with what it returned, `printed` what was written to
-- std::cout and std::cerr, and `closed` the descriptors closed, all newest first.
pub mod Text
pub mod Loop
pub mod Command
pub mod Transcript
pub mod Silence
pub mod Typing
pub mod Notice
use tcpchatserver.Base.{
  ℕ, ◌+◌, ◌-◌, ◌/◌, ◌%◌, ◌^◌, Option, none, some, Bool, true, false, List, [], ◌∷◌, ◌++◌, ltb, leb,
  ◌==◌, ◌&&◌, ◌||◌, not, if◌then◌else◌, length, replicate, take, drop,
}
use tcpchatserver.Base.Int.{ℤ, pos, negsuc, ltb_ℤ, leb_ℤ, ℤ_discrete, bits32}
use tcpchatserver.Base.Text.{codes, to_string}
use tcpchatserver.Context.{
  MessageType, ChatMessage, message_byte, message_size, max_data, message_of_bytes,
}
use tcpchatserver.Uring.{eintr, make_message}
use tcpchatserver.Client.Text.{find, substr, starts_with}

pub data Output : Type 0 where
  cout cerr : List ℕ → Output

pub record Client : Type 0 where
  pub socket : ℤ
  pub running : Bool
  pub sent : List (ChatMessage × ℤ)
  pub printed : List Output
  pub closed : List ℤ

-- ChatClient::ChatClient
unfoldable pub new_client : Client
new_client = record { socket = negsuc 0; running = false; sent = []; printed = []; closed = [] }

abbrev pub print : Output → Client → Client
print o c = record c { printed = o ∷ c.printed }

abbrev pub line : List ℕ → List ℕ
line text = text ++ 10 ∷ []

unfoldable pub disconnect : Client → Client
disconnect c =
    if leb_ℤ (pos 0) c.socket
    then record c { running = false; closed = c.socket ∷ c.closed; socket = negsuc 0 }
    else c

-- The four bytes of an int32_t, little endian.
unfoldable pub int32_bytes : ℤ → List ℕ
int32_bytes i = let w = bits32 i in w % 256 ∷ w / 2 ^ 8 % 256 ∷ w / 2 ^ 16 % 256 ∷ w / 2 ^ 24 ∷ []

abbrev is_whole : ℤ → Bool
is_whole n = elim (ℤ_discrete n (pos message_size)) [ yes _ ↦ true | no _ ↦ false ]

-- `send ms m` is what send() returns for `m` after the messages `ms`.
module _ (send : List (ChatMessage × ℤ) → ChatMessage → ℤ) where
  -- `content` is what `data` points to; nullptr has length 0.
  unfoldable pub send_message : MessageType → List ℕ → Client → Bool × Client
  send_message type content c =
      if ltb_ℤ c.socket (pos 0) || not c.running
      then (false, c)
      else if ltb max_data (length content)
      then (false, c)
      else let message = make_message type content in
        let bytes_sent = send c.sent message in
        (is_whole bytes_sent, record c { sent = (message, bytes_sent) ∷ c.sent })

  unfoldable pub join_session : ℤ → Client → Bool × Client
  join_session session_id = send_message MessageType.client_join (int32_bytes session_id)

  unfoldable pub leave_session : Client → Bool × Client
  leave_session = send_message MessageType.client_leave []

  unfoldable pub send_chat : List ℕ → Client → Bool × Client
  send_chat text = send_message MessageType.client_chat text

-- The UTF-8 of the texts that are looked for, and of what is printed for an unknown type.
abbrev pub joined_session : List ℕ
joined_session =
    0xec ∷ 0x84 ∷ 0xb8 ∷ 0xec ∷ 0x85 ∷ 0x98 ∷ 0xec ∷ 0x97 ∷ 0x90 ∷ 0x20 ∷ 0xec ∷ 0xb0 ∷ 0xb8 ∷ 0xec
    ∷ 0x97 ∷ 0xac ∷ []

abbrev pub session_word : List ℕ
session_word = 0xec ∷ 0x84 ∷ 0xb8 ∷ 0xec ∷ 0x85 ∷ 0x98 ∷ 0x20 ∷ []

abbrev pub unknown_type : List ℕ
unknown_type =
    0xec ∷ 0x95 ∷ 0x8c ∷ 0x20 ∷ 0xec ∷ 0x88 ∷ 0x98 ∷ 0x20 ∷ 0xec ∷ 0x97 ∷ 0x86 ∷ 0xeb ∷ 0x8a ∷ 0x94
    ∷ 0x20 ∷ 0xeb ∷ 0xa9 ∷ 0x94 ∷ 0xec ∷ 0x8b ∷ 0x9c ∷ 0xec ∷ 0xa7 ∷ 0x80 ∷ 0x20 ∷ 0xed ∷ 0x83
    ∷ 0x80 ∷ 0xec ∷ 0x9e ∷ 0x85 ∷ 0x3a ∷ 0x20 ∷ 0x30 ∷ 0x78 ∷ []

-- `s.substr(3, s.find(" ", 3) - 3)`; npos - 3 is more than any length.
unfoldable pub session_name : List ℕ → List ℕ
session_name s = elim (find (b' ' ∷ []) (drop 3 s)) [ none ↦ drop 3 s | some i ↦ substr 3 i s ]

-- handleMessage's case SERVER_NOTIFICATION, which may print nothing.
unfoldable pub notice : List ℕ → List Output
notice text = elim (find joined_session text) [
  | none ↦ cout (line text) ∷ []
  | some _ ↦ elim (find session_word text) [
    | none ↦ []
    | some i ↦ cout (line (codes "joined session:" ++ session_name (drop i text))) ∷ []
  ]
]

-- The default case; `none` is the std::length_error of a string of 2 - 3 characters.
unfoldable pub unknown_notice : ℕ → Option (List Output)
unknown_notice byte =
    let digits = to_string (pos byte) in
    if ltb 2 (length digits)
    then none
    else some (cerr (line (unknown_type ++ replicate (2 - length digits) b'0' ++ digits)) ∷ [])

-- What handleMessage prints, newest first, or `none` where it throws.
unfoldable pub shown_as : MessageType → List ℕ → Option (List Output)
shown_as MessageType.server_chat text = some (cout (line text) ∷ [])
shown_as MessageType.server_notification text = some (notice text)
shown_as MessageType.server_ack text = some (cout (line text) ∷ [])
shown_as MessageType.server_error text = some (cerr (line (codes "ERROR: " ++ text)) ∷ [])
shown_as type text = unknown_notice (message_byte type)

unfoldable pub shown : ChatMessage → Option (List Output)
shown m = shown_as m.type (take m.len m.content)
