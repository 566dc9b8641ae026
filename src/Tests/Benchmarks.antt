-- ===== src/Tests/Benchmarks.antt =====
-- The benchmark, the log and the older client on concrete inputs.
use tcpchatserver.Base.{
  ℕ, ◌≡◌, ◌≤◌, ◌+◌, ◌*◌, ◌-◌, ◌/◌, ◌%◌, ◌^◌, refl, arith, none, some, true, false, List, [], ◌∷◌,
  ◌++◌, ite, ℕ_discrete,
}
use tcpchatserver.Base.Int.{ℤ, pos}
use tcpchatserver.Base.Map.{lookup}
use tcpchatserver.Base.Text.{codes, to_string}
use tcpchatserver.Base.Decimal.{to_string_u64}
use tcpchatserver.Context.{ChatMessage}
use tcpchatserver.Client.{Client, cout, new_client}
use tcpchatserver.Client.Loop.{ready, returned, Dial, connect, main_loop, loop_round}
use tcpchatserver.Benchmark.{
  TestMessage, Stats, Benchmark, RateLimiter, Beat, wait, on_message, test_text, u64, run_client,
  benchmark_main,
}
use tcpchatserver.Benchmark.Echo.{on_message-test_text}
use tcpchatserver.Benchmark.Idle.{run_client-idle}
use tcpchatserver.Benchmark.Rate.{interval, after, after-interval}
use tcpchatserver.Logger.{Entry, LogLevel, new_logger, log, log_line, get_level_string}
use tcpchatserver.LineClient.{new_line_client, received, waits, receive_loop, handle_line, in_recv}

-- A network that takes every message whole.
abbrev whole : List (ChatMessage × ℤ) → ChatMessage → ℤ
whole sent m = pos 515

abbrev awaited : TestMessage
awaited = record { message_id = 42; send_time = 1000000; client_id = 3 }

abbrev stats : Stats
stats = record {
  messages_sent = 1;
  messages_received = 0;
  total_latency_ms = 0;
  message_id_counter = 42;
  pending_messages = (42, awaited) ∷ [];
}

abbrev echo : List ℕ
echo = codes "test_message_msg_id:42,client:3,data:aaaaaaaaaa"

on_message-test_text_example :
    let (t, printed) = on_message (codes "stoull") 8000000 echo stats in
    (printed ≡ [])
    × (t.messages_received ≡ (stats.messages_received + 1) % u64)
    × (t.total_latency_ms ≡ (stats.total_latency_ms + (8000000 - awaited.send_time) / 10 ^ 6) % u64)
    × (t.messages_sent ≡ stats.messages_sent)
    × ((k : ℕ)
        → lookup ℕ_discrete k t.pending_messages
          ≡ ite (ℕ_discrete k 42) none (lookup ℕ_discrete k stats.pending_messages))
unfolding test_text to_string to_string_u64 lookup ℕ_discrete
on_message-test_text_example =
    on_message-test_text (codes "stoull") 8000000 42 (pos 3) 60 echo stats awaited (omega arith)
      refl refl

abbrev dialling : Dial
dialling = record { socket = pos 5; inet_pton = pos 1; connect = pos 0 }

abbrev finished : Client
finished = record { socket = pos 5; running = false; sent = []; printed = []; closed = [] }

run_client-idle_example :
    ((d : Client) × (run_client whole dialling
          (ready true none false none ∷ [])
          (pos 1)
          512
          2
          0
          []
          stats
        ≡ returned stats d)
      × (d.sent ≡ [])
      × (d.closed ≡ pos 5 ∷ []))
    × ((d : Client) × (benchmark_main whole 3
            (codes "bench")
            (some (pos 80))
            dialling
            (ready true none false none ∷ [])
          ≡ Benchmark.exits 1 d)
        × (d.sent ≡ [])
        × (d.closed ≡ pos 5 ∷ []))
unfolding connect main_loop loop_round new_client
run_client-idle_example =
    run_client-idle whole dialling (ready true none false none ∷ []) (pos 1) 512 2 0 [] stats
      (codes "bench") (pos 80) finished refl

abbrev entry : LogLevel → Entry
entry level = record {
  level = level;
  file = codes "main.cpp";
  line_number = pos 7;
  text = codes "up";
}

-- The level that the log starts with keeps debug messages out.
logged :
    (log (entry LogLevel.info) (log (entry LogLevel.debug) new_logger)).lines
    ≡ (codes "[INFO ] [main.cpp:7] up" ++ 10 ∷ []) ∷ []
unfolding log new_logger log_line get_level_string to_string
logged = refl

-- Two chunks; the second has no newline and gets one.
received_lines :
    receive_loop (received (some (97 ∷ 10 ∷ [])) ∷ received (some (98 ∷ [])) ∷ []) new_line_client
    ≡ waits (record new_line_client {
      printed = cout (10 ∷ []) ∷ cout (98 ∷ []) ∷ cout (97 ∷ 10 ∷ []) ∷ [];
    })
unfolding receive_loop in_recv handle_line new_line_client
received_lines = refl

-- Two waits at three messages a second: one comes 100 ms after the last message, one 500 ms.
abbrev limiter : RateLimiter
limiter = record { messages_per_second = 3; last_send_time = 0 }

abbrev beats : List Beat
beats =
    record { now = 100000000; later = 333000000; sent_at = 333000000 }
    ∷ record { now = 833000000; later = 833000000; sent_at = 833000000 }
    ∷ []

after-interval_example :
    limiter.last_send_time + 2 * interval limiter ≤ (after limiter beats).last_send_time
unfolding wait
after-interval_example =
    after-interval limiter beats (omega arith)
      ((omega arith, omega arith), ((omega arith, omega arith), tt))
