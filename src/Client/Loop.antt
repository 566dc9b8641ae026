-- ===== src/Client/Loop.antt =====
-- ChatClient::connect and ChatClient::mainLoop. What the system answers in a round of the loop is a
-- `Tick`; an execution is a list of them, and a loop that has not ended with them is waiting.
use tcpchatserver.Base.{
  ℕ, Option, none, some, Bool, true, false, List, [], ◌∷◌, ◌++◌, ltb, ◌==◌, if◌then◌else◌, length,
}
use tcpchatserver.Base.Int.{ℤ, pos, ltb_ℤ, leb_ℤ}
use tcpchatserver.Base.Text.{codes, to_string}
use tcpchatserver.Base.Action.{Done}
use tcpchatserver.Context.{ChatMessage, message_byte, message_size, max_data, message_of_bytes}
use tcpchatserver.Client.{Client, cerr, print, line, shown, send_chat}

-- What select, recv and fgets do in a round: `error` for select's -1 with an errno other than EINTR,
-- `interrupted` for EINTR; else which descriptors are ready. `received` has the bytes that recv
-- stored, `none` for -1; `typed` the bytes that fgets stored, `none` for nullptr.
pub data Tick : Type 0 where
  error interrupted : Tick
  ready :
      (socket : Bool) (received : Option (List ℕ)) (stdin : Bool) (typed : Option (List ℕ)) → Tick

-- How a call that may not return ends: `killed` where an exception leaves it.
pub data Run (A : Type 0) : Type 0 where
  returned : A → Client → Run A
  waiting : Client → Run A
  killed : Run A

-- "비정상 메시지 수신: type=", and " (최대 허용=".
abbrev pub abnormal_message : List ℕ
abnormal_message =
    0xeb ∷ 0xb9 ∷ 0x84 ∷ 0xec ∷ 0xa0 ∷ 0x95 ∷ 0xec ∷ 0x83 ∷ 0x81 ∷ 0x20 ∷ 0xeb ∷ 0xa9 ∷ 0x94 ∷ 0xec
    ∷ 0x8b ∷ 0x9c ∷ 0xec ∷ 0xa7 ∷ 0x80 ∷ 0x20 ∷ 0xec ∷ 0x88 ∷ 0x98 ∷ 0xec ∷ 0x8b ∷ 0xa0 ∷ 0x3a
    ∷ 0x20 ∷ 0x74 ∷ 0x79 ∷ 0x70 ∷ 0x65 ∷ 0x3d ∷ []

abbrev pub at_most : List ℕ
at_most =
    0x20 ∷ 0x28 ∷ 0xec ∷ 0xb5 ∷ 0x9c ∷ 0xeb ∷ 0x8c ∷ 0x80 ∷ 0x20 ∷ 0xed ∷ 0x97 ∷ 0x88 ∷ 0xec ∷ 0x9a
    ∷ 0xa9 ∷ 0x3d ∷ []

unfoldable pub abnormal_text : ChatMessage → List ℕ
abnormal_text m =
    abnormal_message
    ++ (to_string (pos (message_byte m.type))
        ++ (codes ", length="
            ++ (to_string (pos m.len) ++ (at_most ++ (to_string (pos max_data) ++ codes ")")))))

-- The std::string of a C string: up to its first NUL.
abbrev pub c_string : List ℕ → List ℕ
c_string [] = []
c_string (c ∷ cs) = elim (c == 0) [ true ↦ [] | false ↦ c ∷ c_string cs ]

-- `if (input.back() == '\n') input.pop_back()`
abbrev pub chomp : List ℕ → List ℕ
chomp [] = []
chomp (c ∷ []) = if c == 10 then [] else c ∷ []
chomp (c ∷ d ∷ cs) = c ∷ chomp (d ∷ cs)

module _ (send : List (ChatMessage × ℤ) → ChatMessage → ℤ) where
  -- The part of a round behind recv: the standard input.
  unfoldable pub read_stdin : Bool → Option (List ℕ) → Client → Client
  read_stdin false typed c = c
  read_stdin true none c = c
  read_stdin true (some buffer) c =
      let input = c_string buffer in
      if length input == 0 then c else (send_chat send (chomp input) c).1

  -- handleMessage
  unfoldable pub handle_message : ChatMessage → Client → Option Client
  handle_message m c = elim (shown m) [
    | none ↦ none
    | some outs ↦ some (record c { printed = outs ++ c.printed })
  ]

  -- The part of a round behind a recv of some bytes: what is done with a whole message, and then the
  -- standard input; but a message with a length that is too large starts the next round.
  unfoldable pub receive : List ℕ → Bool → Option (List ℕ) → Client → Run Done
  receive bytes stdin typed c =
      let m = message_of_bytes bytes in
      if ltb (length bytes) message_size
      then waiting (read_stdin stdin typed c)
      else if ltb max_data m.len
      then waiting (print (cerr (line (abnormal_text m))) c)
      else elim (handle_message m c) [
        | none ↦ killed
        | some c' ↦ waiting (read_stdin stdin typed c')
      ]

  -- A round; `returned` where it breaks.
  unfoldable pub loop_round : Tick → Client → Run Done
  loop_round error c = returned tt c
  loop_round interrupted c = waiting c
  loop_round (ready false received stdin typed) c = waiting (read_stdin stdin typed c)
  loop_round (ready true none stdin typed) c = returned tt c
  loop_round (ready true (some []) stdin typed) c = returned tt c
  loop_round (ready true (some (b ∷ bs)) stdin typed) c = receive (b ∷ bs) stdin typed c

  abbrev pub stopped : Client → Client
  stopped c = record c { running = false }

  unfoldable pub main_loop : List Tick → Client → Run Done
  main_loop [] c = if c.running then waiting c else returned tt (stopped c)
  main_loop (t ∷ ts) c = elim c.running [
    | false ↦ returned tt (stopped c)
    | true ↦ elim (loop_round t c) [
      | returned x c' ↦ returned tt (stopped c')
      | waiting c' ↦ main_loop ts c'
      | killed ↦ killed
    ]
  ]

-- What socket, inet_pton and ::connect return.
pub record Dial : Type 0 where
  pub socket : ℤ
  pub inet_pton : ℤ
  pub connect : ℤ

module _ (send : List (ChatMessage × ℤ) → ChatMessage → ℤ) where
  unfoldable pub connect : Dial → List Tick → Client → Run Bool
  connect dial ticks c =
      let c' = record c { socket = dial.socket } in
      let failed = returned false (record c' { closed = dial.socket ∷ c'.closed }) in
      if ltb_ℤ dial.socket (pos 0)
      then returned false c'
      else if leb_ℤ dial.inet_pton (pos 0)
      then failed
      else if ltb_ℤ dial.connect (pos 0)
      then failed
      else elim (main_loop send ticks (record c' { running = true })) [
        | returned x c'' ↦ returned true c''
        | waiting c'' ↦ waiting c''
        | killed ↦ killed
      ]
