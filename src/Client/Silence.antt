-- ===== src/Client/Silence.antt =====
-- The client once connect has returned.
use tcpchatserver.Base.{
  ℕ, ◌≡◌, refl, Option, none, some, Bool, true, false, List, [], ◌∷◌, arith, Option-cases, inl, inr,
  ◌⊎◌, ◌++◌,
}
use tcpchatserver.Base.Int.{ℤ, pos, ◌≤ℤ◌, ◌<ℤ◌}
use tcpchatserver.Base.Action.{Done}
use tcpchatserver.Context.{ChatMessage, MessageType, message_of_bytes}
use tcpchatserver.Client.{
  Client, new_client, disconnect, send_message, leave_session, send_chat, print, cout, shown,
}
use tcpchatserver.Base.Text.{codes}
use tcpchatserver.Client.Loop.{
  Tick, Run, returned, waiting, killed, Dial, connect, main_loop, loop_round, read_stdin, receive,
  handle_message, error, interrupted, ready,
}
use tcpchatserver.Client.Command.{run_command, say, run_lines, terminal_main, greeting}

Run-cases :
    {A : Type 0} (r : Run A)
    → ((a : A) × (c : Client) × (r ≡ returned a c))
      ⊎ (((c : Client) × (r ≡ waiting c)) ⊎ (r ≡ killed))
Run-cases (returned a c) = inl (a, c, refl)
Run-cases (waiting c) = inr (inl (c, refl))
Run-cases killed = inr (inr refl)

module _ (send : List (ChatMessage × ℤ) → ChatMessage → ℤ) where
  read_stdin-socket :
      (stdin : Bool) (typed : Option (List ℕ)) (c : Client)
      → (read_stdin send stdin typed c).socket ≡ c.socket
  unfolding read_stdin send_chat send_message
  read_stdin-socket false typed c = refl
  read_stdin-socket true none c = refl
  read_stdin-socket true (some buffer) c = ground arith

  abbrev Ends : Client → Run Done → Type 0
  Ends c (returned x d) = d.socket ≡ c.socket
  Ends c (waiting d) = d.socket ≡ c.socket
  Ends c killed = Unit

  receive-socket :
      (bytes : List ℕ) (stdin : Bool) (typed : Option (List ℕ)) (c : Client)
      → Ends c (receive send bytes stdin typed c)
  unfolding receive handle_message
  receive-socket bytes stdin typed c =
      let m = message_of_bytes bytes in
      elim (Option-cases (shown m)) [
        | inl throws ↦ ground (arith, read_stdin-socket stdin typed c)
        | inr (outs, e) ↦ ground (
          arith,
          read_stdin-socket stdin typed c,
          read_stdin-socket stdin typed (record c { printed = outs ++ c.printed }),
        )
      ]

  loop_round-socket : (t : Tick) (c : Client) → Ends c (loop_round send t c)
  unfolding loop_round
  loop_round-socket error c = refl
  loop_round-socket interrupted c = refl
  loop_round-socket (ready false received stdin typed) c = read_stdin-socket stdin typed c
  loop_round-socket (ready true none stdin typed) c = refl
  loop_round-socket (ready true (some []) stdin typed) c = refl
  loop_round-socket (ready true (some (b ∷ bs)) stdin typed) c =
      receive-socket (b ∷ bs) stdin typed c

  -- Where the loop ends, the client is not running, and has its socket.
  main_loop-returned :
      (ts : List Tick) (c d : Client)
      → main_loop send ts c ≡ returned tt d
      → (d.running ≡ false) × (d.socket ≡ c.socket)
  unfolding main_loop
  main_loop-returned [] c d e = ground arith
  main_loop-returned (t ∷ ts) c d e =
      let kept = loop_round-socket t c in
      elim (Run-cases (loop_round send t c)) [
        | inl (x, c', r) ↦ let same : c'.socket ≡ c.socket = rw r at kept in ground arith
        | inr (inl (c', r)) ↦
            let same : c'.socket ≡ c.socket = rw r at kept in
            ground (arith, main_loop-returned ts c' d)
        | inr (inr r) ↦ ground arith
      ]

  pub connect-returned :
      (dial : Dial) (ts : List Tick) (c d : Client)
      → connect send dial ts c ≡ returned true d
      → (d.running ≡ false) × (pos 0 ≤ℤ d.socket)
  unfolding connect
  connect-returned dial ts c d e =
      let up = record c { socket = dial.socket; running = true } in
      elim (Run-cases (main_loop send ts up)) [
        | inl (x, c', r) ↦ ground (arith, main_loop-returned ts up c')
        | inr (inl (c', r)) ↦ ground arith
        | inr (inr r) ↦ ground arith
      ]

  -- A client that is not running sends nothing, whatever is asked of it.
  pub send_message-stopped :
      (type : MessageType) (content : List ℕ) (c : Client)
      → c.running ≡ false
      → send_message send type content c ≡ (false, c)
  unfolding send_message
  send_message-stopped type content c stop = ground arith

  abbrev Quiet : Client → Client → Type 0
  Quiet c d =
      (d.running ≡ false) × (d.sent ≡ c.sent) × (d.closed ≡ c.closed) × (d.socket ≡ c.socket)

  run_command-Quiet :
      (cmd : List ℕ) (c : Client) → c.running ≡ false → Quiet c (run_command send cmd c)
  unfolding run_command leave_session
  run_command-Quiet cmd c stop = ground (arith, send_message-stopped MessageType.client_leave [] c)

  say-Quiet : (input : List ℕ) (c : Client) → c.running ≡ false → Quiet c (say send input c)
  unfolding say send_chat
  say-Quiet input c stop = ground (
    arith,
    send_message-stopped MessageType.client_chat input c,
    send_message-stopped MessageType.client_chat (codes "test_message_" ++ input) c,
  )

  run_lines-Quiet :
      (lines : List (List ℕ)) (c : Client) → c.running ≡ false → Quiet c (run_lines send lines c)
  unfolding run_lines
  run_lines-Quiet [] c stop = (stop, refl, refl, refl)
  run_lines-Quiet ([] ∷ rest) c stop = run_lines-Quiet rest c stop
  run_lines-Quiet ((h ∷ cmd) ∷ rest) c stop =
      let one = run_command-Quiet cmd c stop in
      let two = say-Quiet (h ∷ cmd) c stop in
      ground (
        arith,
        run_lines-Quiet rest (run_command send cmd c),
        run_lines-Quiet rest (say send (h ∷ cmd) c),
      )

-- When connect returns true, the connection is over already: main then goes through whatever lines
-- are typed to the end, sends nothing for any of them, /leave included, closes the socket and
-- returns 0.
pub terminal_main-silent :
    (send : List (ChatMessage × ℤ) → ChatMessage → ℤ) (program : List ℕ) (port : ℤ) (dial : Dial)
    (ticks : List Tick) (lines : List (List ℕ)) (c : Client)
    → connect send dial ticks new_client ≡ returned true c
    → (d : Client) × (terminal_main send 3 program (some port) dial ticks lines ≡ returned 0 d)
      × (d.sent ≡ c.sent)
      × (d.closed ≡ c.socket ∷ c.closed)
unfolding terminal_main disconnect
terminal_main-silent send program port dial ticks lines c e =
    let (stop, made) = connect-returned send dial ticks new_client c e in
    let quiet = run_lines-Quiet send lines (print (cout greeting) c) stop in
    (
      disconnect (run_lines send lines (print (cout greeting) c)),
      ground arith,
      ground arith,
      ground arith,
    )

-- Where a socket could be made but not connected, connect closes it and keeps its number, and
-- disconnect, which the destructor calls, closes the same number again.
pub disconnect-connect_failed :
    (send : List (ChatMessage × ℤ) → ChatMessage → ℤ) (dial : Dial) (ticks : List Tick) (c : Client)
    → pos 0 ≤ℤ dial.socket
    → (dial.inet_pton ≤ℤ pos 0) ⊎ (dial.connect <ℤ pos 0)
    → (d : Client) × (connect send dial ticks c ≡ returned false d)
      × ((disconnect d).closed ≡ dial.socket ∷ dial.socket ∷ c.closed)
unfolding connect disconnect
disconnect-connect_failed send dial ticks c made failed =
    (record c { socket = dial.socket; closed = dial.socket ∷ c.closed }, ground arith, ground arith)
