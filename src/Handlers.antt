-- ===== src/Handlers.antt =====
-- The event handlers: IOUring::handleRead, processMessage and the handlers of the messages, and
-- Session::processEvent. `self` is the address of the session on whose ring the event arrived; the
-- handlers reach other sessions through the manager, so each is a step of the whole manager.
pub mod Frame
pub mod Chat
pub mod Read
pub mod Lifecycle
pub mod Success
pub mod Privacy
pub mod Delivery
pub mod Requests
pub mod Rearming
use tcpchatserver.Base.{
  ℕ, ◌+◌, ◌*◌, ◌/◌, ◌%◌, ◌^◌, Option, none, some, Bool, true, false, List, [], ◌∷◌, ◌++◌, ltb, leb,
  ◌==◌, ◌&&◌, ◌||◌, not, if◌then◌else◌, length, take,
}
use tcpchatserver.Base.Int.{ℤ, pos, negsuc, ltb_ℤ, leb_ℤ, uint16}
use tcpchatserver.Base.IntSet
use tcpchatserver.Base.Text.{codes, to_string}
use tcpchatserver.Base.Action.{
  Action, Done, Error, Result, ok, err, pure, throw, gets, catch, modify, when, ◌>>=◌, ◌>>◌,
}
use tcpchatserver.Context.{
  MessageType, OperationType, ChatMessage, message_byte, max_data, max_message_size, get_context,
  message_at, int32_at,
}
use tcpchatserver.Buffer.{
  UringBuffer, no_buffer, mark_buffer_in_use, find_client_buffer, get_buffer_addr,
}
use tcpchatserver.Uring.{
  Env, IoUring, with_buffers, release, decrement_buffer_ref_count, prepare_read, prepare_close,
  send_message, broadcast, handle_write,
}
use tcpchatserver.Session.{Session, on_ring, handle_close}
use tcpchatserver.Manager.{
  Manager, on_session, join_session, remove_session, get_session, get_session_clients,
}

-- io_uring_cqe
pub record Cqe : Type 0 where
  pub res : ℤ
  pub flags : ℕ
  pub user_data : ℕ

-- IORING_CQE_F_BUFFER and IORING_CQE_F_MORE, bits 0 and 1.
abbrev pub has_buffer : Cqe → Bool
has_buffer cqe = cqe.flags % 2 == 1

abbrev pub has_more : Cqe → Bool
has_more cqe = cqe.flags / 2 % 2 == 1

-- `const uint16_t bid = cqe->flags >> 16`
abbrev pub buffer_of : Cqe → ℕ
buffer_of cqe = cqe.flags / 2 ^ 16 % 2 ^ 16

-- `what()` of the errors; message_too_long has its Korean text in UTF-8.
unfoldable pub what : Error → List ℕ
what Error.ring_init_failed = codes "Failed to initialize io_uring"
what Error.mmap_failed = codes "Failed to mmap buffer ring"
what Error.register_failed = codes "Failed to register buffer ring"
what Error.sqe_unavailable = codes "Failed to get SQE"
what Error.message_too_long =
    0xeb ∷ 0xa9 ∷ 0x94 ∷ 0xec ∷ 0x8b ∷ 0x9c ∷ 0xec ∷ 0xa7 ∷ 0x80 ∷ 0x20 ∷ 0xed ∷ 0x81 ∷ 0xac ∷ 0xea
    ∷ 0xb8 ∷ 0xb0 ∷ 0x20 ∷ 0xec ∷ 0xb4 ∷ 0x88 ∷ 0xea ∷ 0xb3 ∷ 0xbc ∷ []
what Error.already_in_session = codes "Client already in a session"
what Error.invalid_session_id = codes "Invalid session ID"
what Error.no_available_sessions = codes "No available sessions"
what Error.listen_failed = codes "Failed to create listening socket"

unfoldable pub join_text : ℤ → List ℕ
join_text session_id = codes "Successfully joined session " ++ to_string session_id

unfoldable pub join_error_text : Error → List ℕ
unfolding what
join_error_text e = codes "Failed to join session: " ++ what e

-- The characters that handleChatMessage keeps: printable ASCII, newline, return and tab, and every
-- byte from 128 on (a negative `char`).
unfoldable pub is_kept : ℕ → Bool
is_kept c = (leb 32 c && leb c 126) || c == 10 || c == 13 || c == 9 || leb 128 c

unfoldable pub filter_text : List ℕ → List ℕ
unfolding is_kept
filter_text [] = []
filter_text (c ∷ cs) = let rest = filter_text cs in if is_kept c then c ∷ rest else rest

abbrev pub on_io : {A : Type 0} → ℕ → Action IoUring A → Action Manager A
on_io self m = on_session self (on_ring m)

abbrev pub on_buffers : ℕ → (UringBuffer → UringBuffer) → Action Manager Done
on_buffers self f = on_io self (modify (with_buffers f))

abbrev pub release_at : ℕ → ℕ → Action Manager Done
release_at self bid = on_io self (modify (release bid))

abbrev pub drop_ref : ℕ → ℕ → Action Manager Done
drop_ref self bid = on_io self (modify (decrement_buffer_ref_count bid))

abbrev pub ring_at : ℕ → Manager → IoUring
ring_at self w = (w.heap self).io_ring

module _ (envs : ℕ → Env) (self : ℕ) where
  abbrev pub send : ℤ → MessageType → List ℕ → ℕ → Action Manager Done
  send client_fd type text bid = on_io self (send_message (envs self) client_fd type text bid)

  -- The body of the `try` of handleJoinSession.
  unfoldable pub join_body : ℤ → ℤ → ℕ → Action Manager Done
  join_body client_fd session_id bid = do
    join_session envs client_fd session_id
    send client_fd MessageType.server_ack (join_text session_id) bid

  unfoldable pub handle_join_session : ℤ → ChatMessage → ℕ → Action Manager Done
  handle_join_session client_fd message bid =
      if ltb message.len 4
      then release_at self bid
      else catch (join_body client_fd (int32_at message.content) bid)
          λ e. send client_fd MessageType.server_error (join_error_text e) bid

  -- The message and its buffer are not looked at.
  unfoldable pub handle_leave_session : ℤ → Action Manager Done
  handle_leave_session client_fd w = elim (get_session client_fd w) [
    | none ↦ (ok tt, w)
    | some ref ↦ (ok tt, remove_session client_fd w)
  ]

  -- handleChatMessage from the check of the length on, in a session with this id.
  unfoldable pub chat_in_session : ℤ → ChatMessage → ℕ → Action Manager Done
  chat_in_session session_id message bid w =
      let filtered = filter_text (take message.len message.content) in
      let clients = get_session_clients session_id w in
      if message.len == 0
        || ltb max_message_size message.len
        || length filtered == 0
        || length clients == 0
      then drop_ref self bid w
      else on_io self (broadcast (envs self) clients MessageType.server_chat filtered bid) w

  unfoldable pub handle_chat_message : ℤ → ChatMessage → ℕ → Action Manager Done
  handle_chat_message client_fd message bid w = elim (get_session client_fd w) [
    | none ↦ drop_ref self bid w
    | some ref ↦
        let session_id = (w.heap ref).session_id in
        if ltb_ℤ session_id (pos 0)
        then drop_ref self bid w
        else chat_in_session session_id message bid w
  ]

  unfoldable pub process_by : MessageType → ℤ → ChatMessage → ℕ → Action Manager Done
  process_by MessageType.client_join client_fd message bid =
      handle_join_session client_fd message bid
  process_by MessageType.client_leave client_fd message bid = handle_leave_session client_fd
  process_by MessageType.client_chat client_fd message bid =
      handle_chat_message client_fd message bid
  process_by _ client_fd message bid = release_at self bid

  unfoldable pub process_message : ℤ → ChatMessage → ℕ → Action Manager Done
  process_message client_fd message bid = process_by message.type client_fd message bid

  -- In the branch of handleRead for an end of file or an error: the client leaves its session.
  unfoldable pub forget_client : ℤ → Manager → Manager
  forget_client client_fd w = elim (get_session client_fd w) [
    | none ↦ w
    | some ref ↦ if leb_ℤ (pos 0) (w.heap ref).session_id then remove_session client_fd w else w
  ]

  -- There too: the buffer that is found for the client is released.
  unfoldable pub free_client_buffer : ℤ → Action Manager Done
  free_client_buffer client_fd w =
      let bid = find_client_buffer (uint16 client_fd) (ring_at self w).buffer_manager in
      if bid == no_buffer then (ok tt, w) else release_at self bid w

  unfoldable pub read_failed : ℤ → Action Manager Done
  read_failed client_fd = do
    modify (forget_client client_fd)
    free_client_buffer client_fd
    on_io self (prepare_close (envs self) client_fd)

  -- handleRead's checks of the message, and its dispatch.
  unfoldable pub check_message : ℤ → ℕ → ChatMessage → Action Manager Done
  check_message client_fd bid message =
      let msg_type = message_byte message.type in
      if ltb msg_type 0x10 || ltb 0x14 msg_type || ltb max_data message.len || message.len == 0
      then release_at self bid
      else process_message client_fd message bid

  -- The branch of handleRead for a message in buffer `bid`, which is read where it lies.
  unfoldable pub read_message : ℤ → ℕ → Action Manager Done
  read_message client_fd bid = do
    on_buffers self (mark_buffer_in_use bid (uint16 client_fd))
    b ← gets (λ v. (ring_at self v).buffer_manager)
    check_message client_fd bid (message_at b.memory (get_buffer_addr bid b.base_addr))

  unfoldable pub handle_read : Cqe → ℤ → Action Manager Done
  handle_read cqe client_fd =
      if leb_ℤ cqe.res (pos 0)
      then read_failed client_fd
      else if has_buffer cqe
      then read_message client_fd (buffer_of cqe)
        >> when (not (has_more cqe)) (on_io self (prepare_read (envs self) client_fd))
      else on_io self (prepare_close (envs self) client_fd)

  -- processEvent's case READ.
  unfoldable pub event_read : Cqe → ℤ → Action Manager Done
  event_read cqe client_fd =
      if leb_ℤ cqe.res (pos 0) then on_session self (handle_close (envs self) client_fd) else do
        handle_read cqe client_fd
        clients ← gets (λ w. (w.heap self).clients)
        when (IntSet.contains client_fd clients) (on_io self (prepare_read (envs self) client_fd))

  unfoldable pub event_by : OperationType → Cqe → ℤ → ℕ → Action Manager Done
  event_by OperationType.read cqe client_fd bid = event_read cqe client_fd
  event_by OperationType.write cqe client_fd bid =
      on_io self (modify (handle_write cqe.res client_fd bid))
  event_by _ cqe client_fd bid = pure tt

  unfoldable pub process_event : Cqe → Action Manager Done
  process_event cqe =
      let ctx = get_context cqe.user_data in event_by ctx.op_type cqe ctx.client_fd ctx.buffer_idx
