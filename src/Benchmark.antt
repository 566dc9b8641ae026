-- ===== src/Benchmark.antt =====
-- client/benchmark.cpp: the benchmark of the client. Times of steady_clock are in nanoseconds and never
-- go back. `Stats` is shared by all clients under a mutex; a run of one of them is modelled here.
pub mod Echo
pub mod Idle
pub mod Rate
pub mod Usage
use tcpchatserver.Base.{
  ℕ, ◌+◌, ◌-◌, ◌*◌, ◌/◌, ◌%◌, ◌^◌, Option, none, some, Bool, true, false, List, [], ◌∷◌, ◌++◌, ltb,
  ◌==◌, not, if◌then◌else◌, replicate, drop, ℕ_discrete,
}
use tcpchatserver.Base.Int.{ℤ, pos, negsuc}
use tcpchatserver.Base.Map.{lookup, insert, erase}
use tcpchatserver.Base.Text.{codes, to_string}
use tcpchatserver.Base.Decimal.{to_string_u64, stoull, number, invalid_argument, out_of_range}
use tcpchatserver.Context.{ChatMessage}
use tcpchatserver.Client.Text.{find, starts_with}
use tcpchatserver.Client.{
  Client, Output, cerr, line, print, new_client, disconnect, join_session, leave_session, send_chat,
}
use tcpchatserver.Client.Loop.{Tick, Run, returned, waiting, killed, Dial, connect}

pub record TestMessage : Type 0 where
  pub message_id : ℕ
  pub send_time : ℕ
  pub client_id : ℕ

pub record Stats : Type 0 where
  pub messages_sent : ℕ
  pub messages_received : ℕ
  pub total_latency_ms : ℕ
  pub message_id_counter : ℕ
  pub pending_messages : List (ℕ × TestMessage)

pub record RateLimiter : Type 0 where
  pub messages_per_second : ℕ
  pub last_send_time : ℕ

-- `wait`, for a rate above 0: the milliseconds it sleeps, with the time it reads first and last. An
-- elapsed number of milliseconds is below 1000.0 / rate exactly where its product is below 1000.
unfoldable pub wait : (now later : ℕ) → RateLimiter → ℕ × RateLimiter
wait now later l =
    let elapsed = (now - l.last_send_time) / 10 ^ 6 in
    let rate = l.messages_per_second in
    (
      if ltb (elapsed * rate) 1000 then (1000 - elapsed * rate) / rate else 0,
      record l { last_send_time = later },
    )

abbrev pub parse_error : List ℕ
parse_error =
    0xeb ∷ 0xa9 ∷ 0x94 ∷ 0xec ∷ 0x8b ∷ 0x9c ∷ 0xec ∷ 0xa7 ∷ 0x80 ∷ 0x20 ∷ 0xed ∷ 0x8c ∷ 0x8c ∷ 0xec
    ∷ 0x8b ∷ 0xb1 ∷ 0x20 ∷ 0xec ∷ 0x98 ∷ 0xa4 ∷ 0xeb ∷ 0xa5 ∷ 0x98 ∷ 0x3a ∷ 0x20 ∷ []

abbrev pub client_word : List ℕ
client_word =
    0xed ∷ 0x81 ∷ 0xb4 ∷ 0xeb ∷ 0x9d ∷ 0xbc ∷ 0xec ∷ 0x9d ∷ 0xb4 ∷ 0xec ∷ 0x96 ∷ 0xb8 ∷ 0xed ∷ 0x8a
    ∷ 0xb8 ∷ 0x20 ∷ []

abbrev pub connect_failed : List ℕ
connect_failed =
    0x20 ∷ 0xec ∷ 0x97 ∷ 0xb0 ∷ 0xea ∷ 0xb2 ∷ 0xb0 ∷ 0x20 ∷ 0xec ∷ 0x8b ∷ 0xa4 ∷ 0xed ∷ 0x8c ∷ 0xa8
    ∷ []

abbrev pub join_failed : List ℕ
join_failed =
    0x20 ∷ 0xec ∷ 0x84 ∷ 0xb8 ∷ 0xec ∷ 0x85 ∷ 0x98 ∷ 0x20 ∷ 0xec ∷ 0xb0 ∷ 0xb8 ∷ 0xec ∷ 0x97 ∷ 0xac
    ∷ 0x20 ∷ 0xec ∷ 0x8b ∷ 0xa4 ∷ 0xed ∷ 0x8c ∷ 0xa8 ∷ []

abbrev pub u64 : ℕ
u64 = 2 ^ 64

-- A message with an id that is awaited.
unfoldable pub count_reply : (now msg_id : ℕ) → Stats → Stats
count_reply now msg_id s = elim (lookup ℕ_discrete msg_id s.pending_messages) [
  | none ↦ s
  | some it ↦ record s {
    total_latency_ms = (s.total_latency_ms + (now - it.send_time) / 10 ^ 6) % u64;
    messages_received = (s.messages_received + 1) % u64;
    pending_messages = erase ℕ_discrete msg_id s.pending_messages;
  }
]

-- The callback for a message: the statistics after it, and what is printed. `what` is what() of the
-- exceptions of std::stoull.
unfoldable pub on_message : (what : List ℕ) (now : ℕ) (msg : List ℕ) → Stats → Stats × List Output
on_message what now msg s =
    let content = drop 13 msg in
    let unparsed : Stats × List Output = (s, cerr (line (parse_error ++ what)) ∷ []) in
    if not (starts_with (codes "test_message_") msg)
    then (s, [])
    else elim (find (codes "msg_id:") content) [
      | none ↦ (s, [])
      | some i ↦ elim (stoull (drop (i + 7) content)) [
        | number msg_id ↦ (count_reply now msg_id s, [])
        | invalid_argument ↦ unparsed
        | out_of_range ↦ unparsed
      ]
    ]

-- The message with an id; `none` where a size below 50 makes std::string throw std::length_error.
unfoldable pub test_text : (msg_id : ℕ) (client_id : ℤ) (msg_size : ℕ) → Option (List ℕ)
test_text msg_id client_id msg_size =
    if ltb msg_size 50
    then none
    else some (
        codes "test_message_msg_id:"
        ++ (to_string_u64 msg_id
            ++ (codes ",client:"
                ++ (to_string client_id ++ (codes ",data:" ++ replicate (msg_size - 50) b'a')))))

-- `static_cast<size_t>` of an int.
abbrev size : ℤ → ℕ
size (pos n) = n
size (negsuc n) = u64 - 1 - n

-- The times that a round of the sending loop reads: two in `wait`, and the time of sending.
pub record Beat : Type 0 where
  pub now : ℕ
  pub later : ℕ
  pub sent_at : ℕ

module _ (send : List (ChatMessage × ℤ) → ChatMessage → ℤ) where
  -- A round of the sending loop; `none` where an exception leaves it.
  unfoldable pub send_beat :
      (client_id : ℤ) (msg_size : ℕ) → Beat → Client → Stats → Option (Client × Stats)
  send_beat client_id msg_size b c s =
      let msg_id = (s.message_id_counter + 1) % u64 in
      let s' = record s { message_id_counter = msg_id } in
      let awaited : TestMessage = record {
        message_id = msg_id;
        send_time = b.sent_at;
        client_id = size client_id;
      } in
      elim (test_text msg_id client_id msg_size) [
        | none ↦ none
        | some text ↦
            let (sent, c') = send_chat send text c in
            if sent
            then some (
              c',
              record s' {
                pending_messages = insert ℕ_discrete msg_id awaited s.pending_messages;
                messages_sent = (s.messages_sent + 1) % u64;
              },
            )
            else some (c', s')
      ]

  -- The rounds before stop_flag is seen; then the session is left and the connection closed.
  unfoldable pub send_beats :
      (client_id : ℤ) (msg_size : ℕ) → List Beat → RateLimiter → Client → Stats → Run Stats
  send_beats client_id msg_size [] l c s = returned s (disconnect (leave_session send c).1)
  send_beats client_id msg_size (b ∷ beats) l c s = elim (send_beat client_id msg_size b c s) [
    | none ↦ killed
    | some (c', s') ↦ send_beats client_id msg_size beats (wait b.now b.later l).1 c' s'
  ]

  abbrev complaint : List ℕ → ℤ → Client → Client
  complaint text client_id = print (cerr (line (client_word ++ (to_string client_id ++ text))))

  unfoldable pub run_client :
      (dial : Dial) (ticks : List Tick) (client_id : ℤ) (msg_size rate start : ℕ)
      (beats : List Beat)
      → Stats
      → Run Stats
  run_client dial ticks client_id msg_size rate start beats s =
      elim (connect send dial ticks new_client) [
        | returned connected c ↦
            let (joined, c') = join_session send (pos 1) c in
            if not connected
            then returned s (disconnect (complaint connect_failed client_id c))
            else if not joined
            then returned s (disconnect (complaint join_failed client_id c'))
            else send_beats client_id msg_size beats
                (record { messages_per_second = rate; last_send_time = start }) c' s
        | waiting c ↦ waiting c
        | killed ↦ killed
      ]

-- How main stands: it has returned a status, also from its handler, it is inside connect, or it is in
-- its endless loop; or an exception that nothing catches ended it.
pub data Benchmark : Type 0 where
  exits : ℕ → Client → Benchmark
  caught : ℕ → Benchmark
  connecting sleeping : Client → Benchmark
  terminated : Benchmark

module _ (send : List (ChatMessage × ℤ) → ChatMessage → ℤ) where
  -- main on `argc` arguments, where std::stoi reads the port as `port`, or throws.
  unfoldable pub benchmark_main :
      (argc : ℕ) (program : List ℕ) (port : Option ℤ) (dial : Dial) (ticks : List Tick) → Benchmark
  benchmark_main argc program port dial ticks =
      let failed : List ℕ → Client → Benchmark =
        λ text c. Benchmark.exits 1 (disconnect (print (cerr (line text)) c)) in
      if not (argc == 3)
      then Benchmark.exits 1
          (print (cerr (line (codes "Usage: " ++ (program ++ codes " <host> <port>")))) new_client)
      else elim port [
        | none ↦ Benchmark.terminated
        | some _ ↦ elim (connect send dial ticks new_client) [
          | returned connected c ↦
              let (joined, c') = join_session send (pos 1) c in
              if not connected
              then failed (codes "Failed to connect to server") c
              else if not joined
              then failed (codes "Failed to join session") c'
              else Benchmark.sleeping c'
          | waiting c ↦ Benchmark.connecting c
          | killed ↦ Benchmark.caught 1
        ]
      ]
