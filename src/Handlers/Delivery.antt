-- ===== src/Handlers/Delivery.antt =====
-- From the completion of a read to the last completion of a write: a chat message on its way.
use tcpchatserver.Base.{
  ℕ, zero, suc, ◌≤◌, ◌<◌, ◌≡◌, ◌≢◌, refl, none, some, true, false, List, [], ◌∷◌, arith, length,
  take, ◌∙◌,
}
use tcpchatserver.Base.Int.{ℤ, pos, ◌≤ℤ◌, ◌<ℤ◌, uint16}
use tcpchatserver.Base.Action.{ok}
use tcpchatserver.Context.{MessageType, ChatMessage, max_data, message_byte}
use tcpchatserver.Buffer.{num_io_buffers, u32, is_buffer_in_use, UringBuffer, decrement_ref_count}
use tcpchatserver.Uring.{
  Env, IoUring, make_message, broadcast, handle_write_complete, decrement_buffer_ref_count, release,
}
use tcpchatserver.Uring.Broadcast.{
  refs, deliveries, to_each, HasRoom, broadcast-to_each, broadcast-Sent, decrement-refs,
}
use tcpchatserver.Uring.Completion.{IsUsed, completions, broadcast-completions}
use tcpchatserver.Manager.{Manager, get_session, get_session_clients}
use tcpchatserver.Handlers.{
  Cqe, has_buffer, buffer_of, ring_at, on_io, filter_text, handle_read, check_message,
  process_message, process_by, handle_chat_message, chat_in_session, drop_ref,
}
use tcpchatserver.Handlers.Chat.{length-filter_text-le}
use tcpchatserver.Handlers.Read.{
  message_in, marked, mark-lem, rearmed-lem, handle_read-message, IsUsedAt,
}

-- What a member's message is turned into.
abbrev pub text_of : ChatMessage → List ℕ
text_of message = filter_text (take message.len message.content)

handle_chat_message-broadcast :
    (envs : ℕ → Env) (self : ℕ) (client_fd fd : ℤ) (fds : List ℤ) (message : ChatMessage)
    (bid ref : ℕ) (w : Manager)
    → get_session client_fd w ≡ some ref
    → pos 0 ≤ℤ (w.heap ref).session_id
    → get_session_clients (w.heap ref).session_id w ≡ fd ∷ fds
    → 0 < message.len
    → message.len ≤ max_data
    → text_of message ≢ []
    → handle_chat_message envs self client_fd message bid w
      ≡ on_io self
          (broadcast (envs self) (fd ∷ fds) MessageType.server_chat (text_of message) bid)
          w
unfolding handle_chat_message chat_in_session
handle_chat_message-broadcast envs self client_fd fd fds message bid ref w in_session id members
      some_bytes few printable =
    ground arith

check_message-chat :
    (envs : ℕ → Env) (self : ℕ) (fd : ℤ) (bid : ℕ) (m : ChatMessage) (w : Manager)
    → m.type ≡ MessageType.client_chat
    → 0 < m.len
    → m.len ≤ max_data
    → check_message envs self fd bid m w ≡ handle_chat_message envs self fd m bid w
unfolding check_message process_message process_by message_byte
check_message-chat envs self fd bid m w e low high = ground arith

-- Taking a buffer moves no client.
marked-members :
    (self bid ref : ℕ) (fd d : ℤ) (w : Manager)
    → (get_session d (marked self bid fd w) ≡ get_session d w)
      × (((marked self bid fd w).heap ref).session_id ≡ (w.heap ref).session_id)
unfolding get_session
marked-members self bid ref fd d w = (refl, ground arith)

marked-clients :
    (self bid : ℕ) (fd id : ℤ) (w : Manager)
    → get_session_clients id (marked self bid fd w) ≡ get_session_clients id w
unfolding get_session_clients
marked-clients self bid fd id w = ground arith

completions-buffers :
    (k bid : ℕ) (u v : IoUring)
    → u.buffer_manager ≡ v.buffer_manager
    → (completions k bid u).buffer_manager ≡ (completions k bid v).buffer_manager
unfolding completions handle_write_complete decrement_buffer_ref_count release
completions-buffers zero bid u v e = e
completions-buffers (suc k) bid u v e =
    completions-buffers k bid (handle_write_complete bid u) (handle_write_complete bid v)
      (ground arith)

-- A chat message of 1 to 512 bytes, in which something is printable, arrives from a member of a
-- session in a buffer without references, and entries are always free. Then each client of the
-- session is sent the filtered text once, as a SERVER_CHAT message; the buffer has one reference for
-- each of them; through any k completions of writes, fewer than there are clients, it stays in use;
-- and with the completion of the last one it is not in use any more.
pub handle_read_chat :
    (envs : ℕ → Env) (self : ℕ) (cqe : Cqe) (client_fd fd : ℤ) (fds : List ℤ) (ref k : ℕ)
    (w : Manager)
    → HasRoom (envs self)
    → pos 0 <ℤ cqe.res
    → has_buffer cqe ≡ true
    → buffer_of cqe < num_io_buffers
    → refs (buffer_of cqe) (ring_at self w) ≡ 0
    → (message_in (buffer_of cqe) (ring_at self w)).type ≡ MessageType.client_chat
    → 0 < (message_in (buffer_of cqe) (ring_at self w)).len
    → (message_in (buffer_of cqe) (ring_at self w)).len ≤ max_data
    → text_of (message_in (buffer_of cqe) (ring_at self w)) ≢ []
    → get_session client_fd w ≡ some ref
    → pos 0 ≤ℤ (w.heap ref).session_id
    → get_session_clients (w.heap ref).session_id w ≡ fd ∷ fds
    → length (fd ∷ fds) < u32
    → k < length (fd ∷ fds)
    → let v = (handle_read envs self cqe client_fd w).1 in
      let text = text_of (message_in (buffer_of cqe) (ring_at self w)) in
      (deliveries (ring_at self v).calls
        ≡ to_each
            (fd ∷ fds)
            (make_message MessageType.server_chat text)
            (deliveries (ring_at self w).calls))
      × (refs (buffer_of cqe) (ring_at self v) ≡ length (fd ∷ fds))
      × IsUsed (buffer_of cqe) (completions k (buffer_of cqe) (ring_at self v))
      × (is_buffer_in_use
            (buffer_of cqe)
            (completions (length (fd ∷ fds)) (buffer_of cqe) (ring_at self v)).buffer_manager
          ≡ false)
handle_read_chat envs self cqe client_fd fd fds ref k w room arrived has b zero_refs type some_bytes
      few printable in_session id members lim less =
    let bid = buffer_of cqe in
    let m = message_in bid (ring_at self w) in
    let clients = fd ∷ fds in
    let taken = marked self bid client_fd w in
    let u = ring_at self taken in
    let text = text_of m in
    let short : length text ≤ max_data = omega (arith, length-filter_text-le m.len m.content) in
    let mark = mark-lem bid (uint16 client_fd) (ring_at self w).buffer_manager b in
    let same = marked-members self bid ref client_fd client_fd w in
    let sent =
      (on_io self (broadcast (envs self) clients MessageType.server_chat text bid) taken).1 in
    let x = (broadcast (envs self) clients MessageType.server_chat text bid u).1 in
    let chat : handle_chat_message envs self client_fd m bid taken
        ≡ on_io self (broadcast (envs self) clients MessageType.server_chat text bid) taken =
      handle_chat_message-broadcast envs self client_fd fd fds m bid ref taken (same.0 ∙ in_session)
        (ground arith) (ground (arith, marked-clients self bid client_fd (w.heap ref).session_id w))
        some_bytes few printable in
    let done =
      (broadcast-Sent (envs self) fd fds MessageType.server_chat text bid u short b
        (ground arith)).0 in
    let each =
      broadcast-to_each (envs self) fd fds MessageType.server_chat text bid u room short b
        (ground arith) in
    let ends =
      broadcast-completions (envs self) fd fds MessageType.server_chat text bid k u room short b lim
        (ground (arith, mark.0)) (ground (arith, mark.1, zero_refs)) less in
    let checked : check_message envs self client_fd bid m taken ≡ (ok tt, sent) =
      check_message-chat envs self client_fd bid m taken type some_bytes few
      ∙ chat
      ∙ ground arith in
    let e = handle_read-message envs self cqe client_fd w sent arrived has checked b in
    let after = rearmed-lem envs self cqe client_fd sent in
    let v = (handle_read envs self cqe client_fd w).1 in
    let buffers : (ring_at self v).buffer_manager ≡ x.buffer_manager = ground arith in
    (
      ground arith,
      ground arith,
      ground (arith, completions-buffers k bid (ring_at self v) x buffers),
      ground (arith, completions-buffers (length clients) bid (ring_at self v) x buffers),
    )

decrement-ring_calls :
    (bid : ℕ) (b : UringBuffer) → (decrement_ref_count bid b).ring_calls ≡ b.ring_calls
unfolding decrement_ref_count
decrement-ring_calls bid b = ground arith

handle_chat_message-outside :
    (envs : ℕ → Env) (self : ℕ) (fd : ℤ) (message : ChatMessage) (bid : ℕ) (w : Manager)
    → get_session fd w ≡ none
    → handle_chat_message envs self fd message bid w ≡ drop_ref self bid w
unfolding handle_chat_message
handle_chat_message-outside envs self fd message bid w out = ground arith

-- A chat message of 1 to 512 bytes arrives, in a buffer without references, from a client that is in
-- no session. Nobody is sent anything, but the buffer stays in use without references, and nothing
-- is handed back to the kernel.
pub handle_read_chat_outside :
    (envs : ℕ → Env) (self : ℕ) (cqe : Cqe) (client_fd : ℤ) (w : Manager)
    → pos 0 <ℤ cqe.res
    → has_buffer cqe ≡ true
    → buffer_of cqe < num_io_buffers
    → refs (buffer_of cqe) (ring_at self w) ≡ 0
    → (message_in (buffer_of cqe) (ring_at self w)).type ≡ MessageType.client_chat
    → 0 < (message_in (buffer_of cqe) (ring_at self w)).len
    → (message_in (buffer_of cqe) (ring_at self w)).len ≤ max_data
    → get_session client_fd w ≡ none
    → let v = (handle_read envs self cqe client_fd w).1 in
      (deliveries (ring_at self v).calls ≡ deliveries (ring_at self w).calls)
      × (refs (buffer_of cqe) (ring_at self v) ≡ 0)
      × IsUsedAt self (buffer_of cqe) v
      × ((ring_at self v).buffer_manager.ring_calls ≡ (ring_at self w).buffer_manager.ring_calls)
unfolding decrement_buffer_ref_count
handle_read_chat_outside envs self cqe client_fd w arrived has b zero_refs type some_bytes few out =
    let bid = buffer_of cqe in
    let m = message_in bid (ring_at self w) in
    let taken = marked self bid client_fd w in
    let left = (drop_ref self bid taken).1 in
    let mark = mark-lem bid (uint16 client_fd) (ring_at self w).buffer_manager b in
    let same = marked-members self bid 0 client_fd client_fd w in
    let calls = decrement-ring_calls bid (ring_at self taken).buffer_manager in
    let less = decrement-refs bid (ring_at self taken).buffer_manager in
    let checked : check_message envs self client_fd bid m taken ≡ (ok tt, left) =
      check_message-chat envs self client_fd bid m taken type some_bytes few
      ∙ handle_chat_message-outside envs self client_fd m bid taken (same.0 ∙ out) in
    let e = handle_read-message envs self cqe client_fd w left arrived has checked b in
    let after = rearmed-lem envs self cqe client_fd left in
    (ground arith, ground arith, ground arith, ground arith)
