-- ===== src/Client/Command.antt =====
-- client/main.cpp: the command line of the client, behind ChatClient::connect.
use tcpchatserver.Base.{
  ℕ, Option, none, some, Bool, List, [], ◌∷◌, ◌++◌, ◌==◌, ◌&&◌, if◌then◌else◌, length,
}
use tcpchatserver.Base.Int.{ℤ}
use tcpchatserver.Base.Text.{codes}
use tcpchatserver.Context.{ChatMessage}
use tcpchatserver.Client.Text.{starts_with}
use tcpchatserver.Client.{Client, cout, print, new_client, disconnect, leave_session, send_chat}
use tcpchatserver.Client.Loop.{Tick, Run, returned, waiting, killed, Dial, connect}

-- The UTF-8 of what printHelp and main print.
abbrev pub help_text : List ℕ
help_text =
    0x0a ∷ 0xec ∷ 0x82 ∷ 0xac ∷ 0xec ∷ 0x9a ∷ 0xa9 ∷ 0x20 ∷ 0xea ∷ 0xb0 ∷ 0x80 ∷ 0xeb ∷ 0x8a ∷ 0xa5
    ∷ 0xed ∷ 0x95 ∷ 0x9c ∷ 0x20 ∷ 0xeb ∷ 0xaa ∷ 0x85 ∷ 0xeb ∷ 0xa0 ∷ 0xb9 ∷ 0xec ∷ 0x96 ∷ 0xb4
    ∷ 0x3a ∷ 0x0a ∷ 0x2f ∷ 0x6c ∷ 0x65 ∷ 0x61 ∷ 0x76 ∷ 0x65 ∷ 0x20 ∷ 0x2d ∷ 0x20 ∷ 0xec ∷ 0xb1
    ∷ 0x84 ∷ 0xed ∷ 0x8c ∷ 0x85 ∷ 0xeb ∷ 0xb0 ∷ 0xa9 ∷ 0x20 ∷ 0xeb ∷ 0x82 ∷ 0x98 ∷ 0xea ∷ 0xb0
    ∷ 0x80 ∷ 0xea ∷ 0xb8 ∷ 0xb0 ∷ 0x0a ∷ 0x2f ∷ 0x71 ∷ 0x75 ∷ 0x69 ∷ 0x74 ∷ 0x20 ∷ 0x2d ∷ 0x20
    ∷ 0xed ∷ 0x94 ∷ 0x84 ∷ 0xeb ∷ 0xa1 ∷ 0x9c ∷ 0xea ∷ 0xb7 ∷ 0xb8 ∷ 0xeb ∷ 0x9e ∷ 0xa8 ∷ 0x20
    ∷ 0xec ∷ 0xa2 ∷ 0x85 ∷ 0xeb ∷ 0xa3 ∷ 0x8c ∷ 0x0a ∷ 0x2f ∷ 0x68 ∷ 0x65 ∷ 0x6c ∷ 0x70 ∷ 0x20
    ∷ 0x2d ∷ 0x20 ∷ 0xeb ∷ 0x8f ∷ 0x84 ∷ 0xec ∷ 0x9b ∷ 0x80 ∷ 0xeb ∷ 0xa7 ∷ 0x90 ∷ 0x20 ∷ 0xeb
    ∷ 0xb3 ∷ 0xb4 ∷ 0xea ∷ 0xb8 ∷ 0xb0 ∷ 0x0a ∷ 0x0a ∷ []

abbrev pub usage : List ℕ
usage = 0xec ∷ 0x82 ∷ 0xac ∷ 0xec ∷ 0x9a ∷ 0xa9 ∷ 0xeb ∷ 0xb2 ∷ 0x95 ∷ 0x3a ∷ 0x20 ∷ []

abbrev pub ip_and_port : List ℕ
ip_and_port =
    0x20 ∷ 0x3c ∷ 0xec ∷ 0x84 ∷ 0x9c ∷ 0xeb ∷ 0xb2 ∷ 0x84 ∷ 0x49 ∷ 0x50 ∷ 0x3e ∷ 0x20 ∷ 0x3c ∷ 0xed
    ∷ 0x8f ∷ 0xac ∷ 0xed ∷ 0x8a ∷ 0xb8 ∷ 0x3e ∷ 0x0a ∷ []

abbrev pub greeting : List ℕ
greeting =
    0xec ∷ 0xb1 ∷ 0x84 ∷ 0xed ∷ 0x8c ∷ 0x85 ∷ 0x20 ∷ 0xed ∷ 0x81 ∷ 0xb4 ∷ 0xeb ∷ 0x9d ∷ 0xbc ∷ 0xec
    ∷ 0x9d ∷ 0xb4 ∷ 0xec ∷ 0x96 ∷ 0xb8 ∷ 0xed ∷ 0x8a ∷ 0xb8 ∷ 0xea ∷ 0xb0 ∷ 0x80 ∷ 0x20 ∷ 0xec
    ∷ 0x8b ∷ 0x9c ∷ 0xec ∷ 0x9e ∷ 0x91 ∷ 0xeb ∷ 0x90 ∷ 0x98 ∷ 0xec ∷ 0x97 ∷ 0x88 ∷ 0xec ∷ 0x8a
    ∷ 0xb5 ∷ 0xeb ∷ 0x8b ∷ 0x88 ∷ 0xeb ∷ 0x8b ∷ 0xa4 ∷ 0x2e ∷ 0x0a ∷ 0xeb ∷ 0xaa ∷ 0x85 ∷ 0xeb
    ∷ 0xa0 ∷ 0xb9 ∷ 0xec ∷ 0x96 ∷ 0xb4 ∷ 0x20 ∷ 0xeb ∷ 0xaa ∷ 0xa9 ∷ 0xeb ∷ 0xa1 ∷ 0x9d ∷ 0xec
    ∷ 0x9d ∷ 0x84 ∷ 0x20 ∷ 0xeb ∷ 0xb3 ∷ 0xb4 ∷ 0xeb ∷ 0xa0 ∷ 0xa4 ∷ 0xeb ∷ 0xa9 ∷ 0xb4 ∷ 0x20
    ∷ 0x2f ∷ 0x68 ∷ 0x65 ∷ 0x6c ∷ 0x70 ∷ 0xeb ∷ 0xa5 ∷ 0xbc ∷ 0x20 ∷ 0xec ∷ 0x9e ∷ 0x85 ∷ 0xeb
    ∷ 0xa0 ∷ 0xa5 ∷ 0xed ∷ 0x95 ∷ 0x98 ∷ 0xec ∷ 0x84 ∷ 0xb8 ∷ 0xec ∷ 0x9a ∷ 0x94 ∷ 0x2e ∷ []

abbrev pub unknown_command : List ℕ
unknown_command =
    0xec ∷ 0x95 ∷ 0x8c ∷ 0x20 ∷ 0xec ∷ 0x88 ∷ 0x98 ∷ 0x20 ∷ 0xec ∷ 0x97 ∷ 0x86 ∷ 0xeb ∷ 0x8a ∷ 0x94
    ∷ 0x20 ∷ 0xeb ∷ 0xaa ∷ 0x85 ∷ 0xeb ∷ 0xa0 ∷ 0xb9 ∷ 0xec ∷ 0x96 ∷ 0xb4 ∷ 0xec ∷ 0x9e ∷ 0x85
    ∷ 0xeb ∷ 0x8b ∷ 0x88 ∷ 0xeb ∷ 0x8b ∷ 0xa4 ∷ 0x2e ∷ 0x20 ∷ 0x2f ∷ 0x68 ∷ 0x65 ∷ 0x6c ∷ 0x70
    ∷ 0xeb ∷ 0xa5 ∷ 0xbc ∷ 0x20 ∷ 0xec ∷ 0x9e ∷ 0x85 ∷ 0xeb ∷ 0xa0 ∷ 0xa5 ∷ 0xed ∷ 0x95 ∷ 0x98
    ∷ 0xec ∷ 0x97 ∷ 0xac ∷ 0x20 ∷ 0xeb ∷ 0x8f ∷ 0x84 ∷ 0xec ∷ 0x9b ∷ 0x80 ∷ 0xeb ∷ 0xa7 ∷ 0x90
    ∷ 0xec ∷ 0x9d ∷ 0x84 ∷ 0x20 ∷ 0xed ∷ 0x99 ∷ 0x95 ∷ 0xec ∷ 0x9d ∷ 0xb8 ∷ 0xed ∷ 0x95 ∷ 0x98
    ∷ 0xec ∷ 0x84 ∷ 0xb8 ∷ 0xec ∷ 0x9a ∷ 0x94 ∷ 0x2e ∷ []

abbrev same : List ℕ → List ℕ → Bool
same s t = length s == length t && starts_with s t

abbrev test_message : List ℕ
test_message = codes "test_message_"

module _ (send : List (ChatMessage × ℤ) → ChatMessage → ℤ) where
  -- A command that is not `quit`.
  unfoldable pub run_command : List ℕ → Client → Client
  run_command cmd c =
      if same cmd (codes "help")
      then print (cout help_text) c
      else if same cmd (codes "leave")
      then (leave_session send c).1
      else print (cout unknown_command) c

  -- A line that is no command.
  unfoldable pub say : List ℕ → Client → Client
  say input c =
      if starts_with test_message input
      then (send_chat send input c).1
      else (send_chat send (test_message ++ input) c).1

  -- The loop over the lines of std::cin, to its end or to /quit.
  unfoldable pub run_lines : List (List ℕ) → Client → Client
  run_lines [] c = c
  run_lines ([] ∷ rest) c = run_lines rest c
  run_lines ((h ∷ cmd) ∷ rest) c =
      let more = run_lines rest (run_command cmd c) in
      let said = run_lines rest (say (h ∷ cmd) c) in
      if h == b'/' then (if same cmd (codes "quit") then c else more) else said

  -- main on `argc` arguments, where std::stoi reads the port as `port`, or throws (`none`). The client
  -- is destroyed where main returns.
  unfoldable pub terminal_main :
      (argc : ℕ) (program : List ℕ) (port : Option ℤ) (dial : Dial) (ticks : List Tick)
      (lines : List (List ℕ))
      → Run ℕ
  terminal_main argc program none dial ticks lines =
      if argc == 3
      then killed
      else returned 1 (print (cout (usage ++ (program ++ ip_and_port))) new_client)
  terminal_main argc program (some port) dial ticks lines =
      if argc == 3
      then elim (connect send dial ticks new_client) [
        | returned connected c ↦
            if connected
            then returned 0 (disconnect (run_lines lines (print (cout greeting) c)))
            else returned 1 (disconnect c)
        | waiting c ↦ waiting c
        | killed ↦ killed
      ]
      else returned 1 (print (cout (usage ++ (program ++ ip_and_port))) new_client)
