-- ===== src/Benchmark/Idle.antt =====
-- The benchmark once connect has returned.
use tcpchatserver.Base.{ℕ, ◌≡◌, some, true, List, ◌∷◌, arith}
use tcpchatserver.Base.Int.{ℤ, pos}
use tcpchatserver.Base.Text.{codes}
use tcpchatserver.Context.{ChatMessage, MessageType}
use tcpchatserver.Client.{
  Client, new_client, disconnect, print, line, cerr, join_session, int32_bytes,
}
use tcpchatserver.Client.Loop.{Tick, returned, Dial, connect}
use tcpchatserver.Client.Silence.{connect-returned, send_message-stopped}
use tcpchatserver.Benchmark.{
  Stats, Beat, Benchmark, complaint, join_failed, run_client, benchmark_main,
}

-- When connect returns true, the connection is over already: a client of the benchmark then fails to
-- join, sends nothing, leaves the statistics as they were and closes its socket, whatever the rate, the
-- size and the duration; and the benchmark's main returns 1 and sends nothing either.
pub run_client-idle :
    (send : List (ChatMessage × ℤ) → ChatMessage → ℤ) (dial : Dial) (ticks : List Tick)
    (client_id : ℤ) (msg_size rate start : ℕ) (beats : List Beat) (s : Stats) (program : List ℕ)
    (port : ℤ) (c : Client)
    → connect send dial ticks new_client ≡ returned true c
    → ((d : Client) × (run_client send dial ticks client_id msg_size rate start beats s
          ≡ returned s d)
        × (d.sent ≡ c.sent)
        × (d.closed ≡ c.socket ∷ c.closed))
      × ((d : Client) × (benchmark_main send 3 program (some port) dial ticks ≡ Benchmark.exits 1 d)
          × (d.sent ≡ c.sent)
          × (d.closed ≡ c.socket ∷ c.closed))
unfolding run_client benchmark_main join_session disconnect
run_client-idle send dial ticks client_id msg_size rate start beats s program port c e =
    let (stop, made) = connect-returned send dial ticks new_client c e in
    let refused = send_message-stopped send MessageType.client_join (int32_bytes (pos 1)) c stop in
    (
      (
        disconnect (complaint send join_failed client_id c),
        ground arith,
        ground arith,
        ground arith,
      ),
      (
        disconnect (print (cerr (line (codes "Failed to join session"))) c),
        ground arith,
        ground arith,
        ground arith,
      ),
    )
