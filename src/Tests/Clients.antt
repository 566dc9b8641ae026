-- ===== src/Tests/Clients.antt =====
-- The client in the terminal, alone and with the server.
use tcpchatserver.Base.{
  ℕ, ◌+◌, ◌≡◌, refl, arith, none, some, true, false, List, [], ◌∷◌, ◌++◌, map, get_or, ap,
}
use tcpchatserver.Base.Int.{ℤ, pos, negsuc, ℤ_discrete}
use tcpchatserver.Base.Map.{lookup}
use tcpchatserver.Base.Text.{codes}
use tcpchatserver.Context.{
  MessageType, OperationType, ChatMessage, message_bytes, message_at, int32_at,
}
use tcpchatserver.Buffer.{get_ref_count, get_buffer_addr}
use tcpchatserver.Uring.{make_message}
use tcpchatserver.Uring.Broadcast.{deliveries, to_each}
use tcpchatserver.Manager.{Manager, get_session, get_session_clients}
use tcpchatserver.Handlers.{ring_at, handle_read}
use tcpchatserver.Client.{
  Client, cout, line, new_client, join_session, joined_session, session_word,
}
use tcpchatserver.Base.Action.{ok}
use tcpchatserver.Session.{session_text, add_client}
use tcpchatserver.Conversation.Greeting.{add_client-shown}
use tcpchatserver.Client.Loop.{ready, returned, waiting, Dial, connect, main_loop, loop_round}
use tcpchatserver.Client.Command.{terminal_main}
use tcpchatserver.Client.Typing.{types}
use tcpchatserver.Session.Join.{joining}
use tcpchatserver.Base.IntSet
use tcpchatserver.Client.Transcript.{arrives, main_loop-pieces}
use tcpchatserver.Client.Silence.{terminal_main-silent}
use tcpchatserver.Conversation.{join_request, join_session-int32_at, chat_reaches_members}
use tcpchatserver.Context.Wire.{Holds-get_or}
use tcpchatserver.Tests.{
  roomy, idle_ring, roomy_everywhere, two_sessions, ring_with, buffers_in, cqe_of,
}
use tcpchatserver.Buffer.{fresh_info}

-- A network that takes every message whole.
abbrev taken : List (ChatMessage × ℤ) → ChatMessage → ℤ
taken sent m = pos 515

abbrev connected : Client
connected = record { socket = pos 5; running = true; sent = []; printed = []; closed = [] }

abbrev hi : List ℕ
hi = codes "hi"

abbrev said : ChatMessage
said = make_message MessageType.client_chat hi

abbrev reply : ChatMessage
reply = make_message MessageType.server_chat hi

-- The server with the bytes of the message in buffer 0.
abbrev receiving : Manager
receiving = two_sessions (ring_with (buffers_in fresh_info (λ a. get_or (message_bytes said) a 0)))

held :
    (bs : List ℕ) (i : ℕ) → let memory = λ (a : ℕ). get_or bs a 0 in memory (0 + i) ≡ get_or bs i 0
held bs i = let same : 0 + i ≡ i = omega arith in ap (λ j. get_or bs j 0) same

chat_reaches_members_example :
    let v =
      (handle_read roomy_everywhere 0 (cqe_of OperationType.read (pos 515)) (pos 7) receiving).1 in
    (main_loop taken (types hi ∷ []) connected
      ≡ waiting (record connected { sent = (said, pos 515) ∷ [] }))
    × (deliveries (ring_at 0 v).calls ≡ to_each (pos 7 ∷ pos 8 ∷ []) reply [])
    × (main_loop taken (arrives (message_bytes reply) ∷ []) connected
        ≡ waiting (record connected { printed = cout (line hi) ∷ [] }))
unfolding get_ref_count get_buffer_addr get_session get_session_clients lookup ℤ_discrete
chat_reaches_members_example =
    chat_reaches_members taken roomy_everywhere 0 (cqe_of OperationType.read (pos 515)) (pos 7)
      (pos 7) (pos 8 ∷ []) 0 receiving connected connected hi refl (omega arith) refl (λ e. cc)
      (omega arith) (ground arith) (ground arith) (λ cs e. cc) (omega arith) refl (omega arith) refl
      (Holds-get_or (λ a. get_or (message_bytes said) a 0) 0 (message_bytes said)
        (held (message_bytes said)))
      refl (omega arith) refl (omega arith)

abbrev asked : ChatMessage
asked = join_request (negsuc 0)

join_session-int32_at_example :
    let memory = λ (a : ℕ). get_or (message_bytes asked) a 0 in
    ((join_session taken (negsuc 0) connected).1.sent ≡ (asked, pos 515) ∷ [])
    × ((message_at memory 0).type ≡ MessageType.client_join)
    × ((message_at memory 0).len ≡ 4)
    × (int32_at (message_at memory 0).content ≡ negsuc 0)
join_session-int32_at_example =
    join_session-int32_at taken (negsuc 0) (λ a. get_or (message_bytes asked) a 0) 0 connected
      (omega arith) refl (omega arith)
      (Holds-get_or (λ a. get_or (message_bytes asked) a 0) 0 (message_bytes asked)
        (held (message_bytes asked)))

main_loop-pieces_example :
    main_loop taken (map arrives ((3 ∷ 2 ∷ []) ∷ (0 ∷ 104 ∷ 105 ∷ []) ∷ [])) connected
    ≡ waiting connected
main_loop-pieces_example =
    main_loop-pieces taken ((3 ∷ 2 ∷ []) ∷ (0 ∷ 104 ∷ 105 ∷ []) ∷ []) connected refl (omega arith)

-- "세션 3 세션에 참여"
abbrev korean : List ℕ
korean = session_word ++ b'3' ∷ b' ' ∷ joined_session

abbrev strange : ChatMessage
strange = record { type = MessageType.unknown 200; len = 0; content = [] }

abbrev dialled : Dial
dialled = record { socket = pos 5; inet_pton = pos 1; connect = pos 0 }

abbrev over : Client
over = record connected { running = false }

terminal_main-silent_example :
    (d : Client) × (terminal_main taken 3
        (codes "chat")
        (some (pos 80))
        dialled
        (ready true none false none ∷ [])
        (codes "hello" ∷ codes "/leave" ∷ [])
      ≡ returned 0 d)
    × (d.sent ≡ [])
    × (d.closed ≡ pos 5 ∷ [])
unfolding connect main_loop loop_round new_client
terminal_main-silent_example =
    terminal_main-silent taken (codes "chat") (pos 80) dialled (ready true none false none ∷ [])
      (codes "hello" ∷ codes "/leave" ∷ []) over refl

add_client-shown_example :
    let (r, t) = add_client roomy (pos 9) ((two_sessions idle_ring).heap 0) in
    let greeting = make_message MessageType.server_notification (session_text (pos 0)) in
    (r ≡ ok tt)
    × (t.io_ring.buffer_manager ≡ idle_ring.buffer_manager)
    × (deliveries t.io_ring.calls ≡ (pos 9, greeting) ∷ [])
    × (t.clients ≡ IntSet.insert (pos 9) (pos 7 ∷ pos 8 ∷ []))
    × ((read : ℕ) × (written : ℕ) × (t.io_ring.calls
          ≡ joining roomy (pos 9) (pos 0) read written []))
    × (main_loop taken (arrives (message_bytes greeting) ∷ []) connected
        ≡ waiting (record connected { printed = cout (line (session_text (pos 0))) ∷ [] }))
add_client-shown_example =
    add_client-shown roomy (pos 9) ((two_sessions idle_ring).heap 0) taken connected (λ cs e. cc)
      refl
