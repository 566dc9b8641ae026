-- ===== src/Conversation.antt =====
-- The client and the server together: what is typed at one client, through the server's handlers, to
-- what the other clients print. The network is taken to carry a message's bytes as they are.
pub mod Greeting
use tcpchatserver.Base.{
  ℕ, zero, ◌+◌, ◌-◌, ◌*◌, ◌/◌, ◌%◌, ◌^◌, ◌≤◌, ◌<◌, ◌≡◌, ◌≢◌, refl, some, true, List, [], ◌∷◌, ◌++◌,
  arith, length, take, ap, All, replicate, length-append, length-replicate,
}
use tcpchatserver.Base.Int.{ℤ, pos, ◌≤ℤ◌, ◌<ℤ◌, IsInt32, bits32, bits32-lt, int32-bits32}
use tcpchatserver.Context.{MessageType, ChatMessage, max_data, message_bytes, message_at, int32_at}
use tcpchatserver.Context.Wire.{IsMessageType, IsWhole, Holds, message_at-message_bytes}
use tcpchatserver.Buffer.{num_io_buffers, u32, get_buffer_addr}
use tcpchatserver.Uring.{Env, make_message}
use tcpchatserver.Uring.Broadcast.{refs, deliveries, to_each, HasRoom}
use tcpchatserver.Manager.{Manager, get_session, get_session_clients}
use tcpchatserver.Handlers.{Cqe, has_buffer, buffer_of, ring_at, handle_read}
use tcpchatserver.Handlers.Chat.{IsPrintable, filter_text-printable}
use tcpchatserver.Handlers.Read.{message_in}
use tcpchatserver.Handlers.Delivery.{text_of, handle_read_chat}
use tcpchatserver.Client.{
  Client, cout, line, send_chat, send_message, shown, shown_as, int32_bytes, join_session,
}
use tcpchatserver.Client.Loop.{waiting, main_loop}
use tcpchatserver.Client.Typing.{IsOneLine, types, main_loop-types}
use tcpchatserver.Client.Transcript.{arrives, main_loop-transcript}

take-append : (xs ys : List ℕ) → take (length xs) (xs ++ ys) ≡ xs
take-append [] ys = refl
take-append (x ∷ xs) ys = ap (◌∷◌ x) (take-append xs ys)

pub make_message-IsWhole :
    (type : MessageType) (text : List ℕ)
    → IsMessageType type
    → length text ≤ max_data
    → IsWhole (make_message type text)
unfolding make_message
make_message-IsWhole type text valid h = record {
  type = valid;
  len = omega arith;
  content = omega (
    arith,
    length-append text (replicate (max_data - length text) 0),
    length-replicate (max_data - length text) (zero),
  );
}

pub make_message-text :
    (type : MessageType) (text : List ℕ)
    → length text ≤ max_data
    → let m = make_message type text in
      (m.type ≡ type) × (m.len ≡ length text) × (take m.len m.content ≡ text)
unfolding make_message
make_message-text type text h =
    let size : length text % 2 ^ 16 ≡ length text = omega arith in
    (refl, size, rw size (take-append text (replicate (max_data - length text) 0)))

abbrev pub join_request : ℤ → ChatMessage
join_request session_id = make_message MessageType.client_join (int32_bytes session_id)

int32_at-int32_bytes : (i : ℤ) (rest : List ℕ) → IsInt32 i → int32_at (int32_bytes i ++ rest) ≡ i
unfolding int32_at int32_bytes
int32_at-int32_bytes i rest range =
    let lt = bits32-lt i in
    let w = bits32 i in
    let same : w % 256
          + 2 ^ 8 * (w / 2 ^ 8 % 256)
          + 2 ^ 16 * (w / 2 ^ 16 % 256)
          + 2 ^ 24 * (w / 2 ^ 24)
        ≡ w =
      omega arith in
    rw same (int32-bits32 i range)

length-int32_bytes : (i : ℤ) → length (int32_bytes i) ≡ 4
unfolding int32_bytes
length-int32_bytes i = refl

-- A connected client asks to join a session, for any int32_t: it sends one request, and where the
-- bytes of the request lie in a buffer, the server reads a request of four bytes with that id.
pub join_session-int32_at :
    (send : List (ChatMessage × ℤ) → ChatMessage → ℤ) (session_id : ℤ) (memory : ℕ → ℕ) (addr : ℕ)
    (c : Client)
    → IsInt32 session_id
    → c.running ≡ true
    → pos 0 ≤ℤ c.socket
    → Holds memory addr (message_bytes (join_request session_id))
    → ((join_session send session_id c).1.sent
        ≡ (join_request session_id, send c.sent (join_request session_id)) ∷ c.sent)
      × ((message_at memory addr).type ≡ MessageType.client_join)
      × ((message_at memory addr).len ≡ 4)
      × (int32_at (message_at memory addr).content ≡ session_id)
unfolding join_session send_message make_message
join_session-int32_at send session_id memory addr c range run up held =
    let bytes = int32_bytes session_id in
    let four = length-int32_bytes session_id in
    let whole = make_message-IsWhole MessageType.client_join bytes tt (omega arith) in
    let same = message_at-message_bytes memory addr (join_request session_id) whole held in
    let id = int32_at-int32_bytes session_id (replicate (max_data - length bytes) 0) range in
    (ground arith, ground arith, ground arith, ground arith)

-- What a server's message looks like in a client.
shown-server_chat :
    (text : List ℕ)
    → length text ≤ max_data
    → shown (make_message MessageType.server_chat text) ≡ some (cout (line text) ∷ [])
unfolding shown shown_as
shown-server_chat text h =
    let (type, len, same) = make_message-text MessageType.server_chat text h in ground arith

-- A line of 1 to 512 printable bytes is typed at a running client with a socket. The client's loop
-- sends it in one message, without its newline. Where that message lies whole in a buffer of the
-- server without references, entries of the submission queue are always free, and a member of a
-- session is read from: for each client of the session, the member included, one write is queued, of
-- the same text as a SERVER_CHAT message, as that stands when the write is queued. And any running
-- client that receives such a message prints the text and a newline, and nothing else.
pub chat_reaches_members :
    (send : List (ChatMessage × ℤ) → ChatMessage → ℤ) (envs : ℕ → Env) (self : ℕ) (cqe : Cqe)
    (client_fd fd : ℤ) (fds : List ℤ) (ref : ℕ) (w : Manager) (speaker listener : Client)
    (text : List ℕ)
    → speaker.running ≡ true
    → pos 0 ≤ℤ speaker.socket
    → listener.running ≡ true
    → text ≢ []
    → length text ≤ max_data
    → All IsPrintable text
    → IsOneLine text
    → HasRoom (envs self)
    → pos 0 <ℤ cqe.res
    → has_buffer cqe ≡ true
    → buffer_of cqe < num_io_buffers
    → refs (buffer_of cqe) (ring_at self w) ≡ 0
    → Holds
        (ring_at self w).buffer_manager.memory
        (get_buffer_addr (buffer_of cqe) (ring_at self w).buffer_manager.base_addr)
        (message_bytes (make_message MessageType.client_chat text))
    → get_session client_fd w ≡ some ref
    → pos 0 ≤ℤ (w.heap ref).session_id
    → get_session_clients (w.heap ref).session_id w ≡ fd ∷ fds
    → length (fd ∷ fds) < u32
    → let said = make_message MessageType.client_chat text in
      let reply = make_message MessageType.server_chat text in
      let v = (handle_read envs self cqe client_fd w).1 in
      (main_loop send (types text ∷ []) speaker
        ≡ waiting (record speaker { sent = (said, send speaker.sent said) ∷ speaker.sent }))
      × (deliveries (ring_at self v).calls
          ≡ to_each (fd ∷ fds) reply (deliveries (ring_at self w).calls))
      × (main_loop send (arrives (message_bytes reply) ∷ []) listener
          ≡ waiting (record listener { printed = cout (line text) ∷ listener.printed }))
unfolding send_chat send_message
chat_reaches_members send envs self cqe client_fd fd fds ref w speaker listener text run up up'
      some_text short printable one room arrived has b zero_refs held in_session id members lim =
    let said = make_message MessageType.client_chat text in
    let reply = make_message MessageType.server_chat text in
    let whole = make_message-IsWhole MessageType.client_chat text tt short in
    let answer = make_message-IsWhole MessageType.server_chat text tt short in
    let (type, len, same) = make_message-text MessageType.client_chat text short in
    let (type', len', same') = make_message-text MessageType.server_chat text short in
    let m = message_in (buffer_of cqe) (ring_at self w) in
    let read : m ≡ said =
      message_at-message_bytes (ring_at self w).buffer_manager.memory
        (get_buffer_addr (buffer_of cqe) (ring_at self w).buffer_manager.base_addr) said whole
        held in
    let kept : text_of m ≡ text = ground (arith, filter_text-printable text printable) in
    let sent =
      handle_read_chat envs self cqe client_fd fd fds ref 0 w room arrived has b zero_refs
        (ground arith) (ground arith) (ground arith) (ground arith) in_session id members lim
        (omega arith) in
    let heard = main_loop-transcript send (reply ∷ []) listener up' ((answer, ground arith), tt) in
    let show = shown-server_chat text short in
    let typed = main_loop-types send text speaker run one in
    (ground arith, ground arith, ground arith)
