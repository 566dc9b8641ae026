-- ===== src/Handlers/Success.antt =====
-- Where entries are always free: which handlers end without an exception.
use tcpchatserver.Base.{
  ℕ, ◌≡◌, refl, List, [], ◌∷◌, arith, Option-cases, Bool-cases, inl, inr, ltb, Bool, not, take,
  length,
}
use tcpchatserver.Base.Int.{ℤ}
use tcpchatserver.Base.Action.{Action, Done, Error, ok, Result-cases, catch, modify, when, ◌>>◌}
use tcpchatserver.Context.{MessageType, ChatMessage, OperationType, get_context, message_at}
use tcpchatserver.Buffer.{mark_buffer_in_use, get_buffer_addr}
use tcpchatserver.Uring.{
  Env, IoUring, broadcast, send_loop, increments, count_broadcast, decrement_buffer_ref_count,
  prepare_read, prepare_close,
}
use tcpchatserver.Uring.Broadcast.{HasRoom}
use tcpchatserver.Uring.Prepare.{prepare_read-room, prepare_close-room}
use tcpchatserver.Session.{handle_close, remove_client}
use tcpchatserver.Manager.{get_session, get_session_clients}
use tcpchatserver.Handlers.{
  Cqe, ring_at, on_io, has_more, filter_text, uint16, buffer_of, on_buffers, handle_join_session,
  handle_leave_session, chat_in_session, handle_chat_message, process_by, process_message,
  forget_client, free_client_buffer, read_failed, check_message, read_message, handle_read,
  event_read, event_by, process_event,
}
use tcpchatserver.Handlers.Requests.{handle_join_session_answers}

abbrev pub Succeeds : {S : Type 0} → Action S Done → Type 0
Succeeds {S} m = (s : S) → (m s).0 ≡ ok tt

catch-Succeeds :
    {S : Type 0} (m : Action S Done) (handler : Error → Action S Done)
    → ((e : Error) → Succeeds (handler e))
    → Succeeds (catch m handler)
catch-Succeeds m handler h s = elim (Result-cases (m s).0) [
  | inl (a, e) ↦ ground arith
  | inr (x, e) ↦ ground (arith, h x (m s).1)
]

pub then-Succeeds : {S : Type 0} (m k : Action S Done) → Succeeds m → Succeeds k → Succeeds (m >> k)
then-Succeeds m k h j s = ground (arith, h s, j (m s).1)

when-Succeeds : {S : Type 0} (b : Bool) (m : Action S Done) → Succeeds m → Succeeds (when b m)
when-Succeeds b m h s = ground (arith, h s)

on_io-Succeeds : (self : ℕ) (m : Action IoUring Done) → Succeeds m → Succeeds (on_io self m)
on_io-Succeeds self m h w = ground (arith, h (ring_at self w))

broadcast-Succeeds :
    (env : Env) (fds : List ℤ) (type : MessageType) (text : List ℕ) (bid : ℕ)
    → Succeeds (broadcast env fds type text bid)
unfolding broadcast
broadcast-Succeeds env [] type text bid u = refl
broadcast-Succeeds env (fd ∷ fds) type text bid u =
    catch-Succeeds
      (modify (increments (length (fd ∷ fds)) bid)
        >> send_loop env (fd ∷ fds) type text bid
        >> modify count_broadcast)
      (λ e. modify (decrement_buffer_ref_count bid)) (λ e v. refl) u

module _ (envs : ℕ → Env) (room : (ref : ℕ) → HasRoom (envs ref)) (self : ℕ) where
  join-Succeeds :
      (fd : ℤ) (message : ChatMessage) (bid : ℕ)
      → Succeeds (handle_join_session envs self fd message bid)
  unfolding handle_join_session
  join-Succeeds fd message bid w = elim (Bool-cases (ltb message.len 4)) [
    | inl short ↦ ground arith
    | inr long ↦ (handle_join_session_answers envs self fd message bid w room (ground arith)).0
  ]

  leave-Succeeds : (fd : ℤ) → Succeeds (handle_leave_session envs self fd)
  unfolding handle_leave_session
  leave-Succeeds fd w = elim (Option-cases (get_session fd w)) [
    | inl nowhere ↦ ground arith
    | inr (ref, e) ↦ ground arith
  ]

  chat_in-Succeeds :
      (id : ℤ) (message : ChatMessage) (bid : ℕ)
      → Succeeds (chat_in_session envs self id message bid)
  unfolding chat_in_session
  chat_in-Succeeds id message bid w =
      let text = filter_text (take message.len message.content) in
      ground (
        arith,
        broadcast-Succeeds (envs self) (get_session_clients id w) MessageType.server_chat text bid
            (ring_at self w),
      )

  chat-Succeeds :
      (fd : ℤ) (message : ChatMessage) (bid : ℕ)
      → Succeeds (handle_chat_message envs self fd message bid)
  unfolding handle_chat_message
  chat-Succeeds fd message bid w = elim (Option-cases (get_session fd w)) [
    | inl nowhere ↦ ground arith
    | inr (ref, e) ↦ ground (arith, chat_in-Succeeds (w.heap ref).session_id message bid w)
  ]

  process_by-Succeeds :
      (type : MessageType) (fd : ℤ) (message : ChatMessage) (bid : ℕ)
      → Succeeds (process_by envs self type fd message bid)
  unfolding process_by
  process_by-Succeeds MessageType.client_join fd message bid = join-Succeeds fd message bid
  process_by-Succeeds MessageType.client_leave fd message bid = leave-Succeeds fd
  process_by-Succeeds MessageType.client_chat fd message bid = chat-Succeeds fd message bid
  process_by-Succeeds _ fd message bid = λ w. refl

  check-Succeeds :
      (fd : ℤ) (bid : ℕ) (message : ChatMessage) → Succeeds (check_message envs self fd bid message)
  unfolding check_message process_message
  check-Succeeds fd bid message w =
      ground (arith, process_by-Succeeds message.type fd message bid w)

  read-Succeeds : (fd : ℤ) (bid : ℕ) → Succeeds (read_message envs self fd bid)
  unfolding read_message
  read-Succeeds fd bid w =
      let v = (on_buffers self (mark_buffer_in_use bid (uint16 fd)) w).1 in
      let b = (ring_at self v).buffer_manager in
      check-Succeeds fd bid (message_at b.memory (get_buffer_addr bid b.base_addr)) v

  close-Succeeds : (fd : ℤ) → Succeeds (on_io self (prepare_close (envs self) fd))
  close-Succeeds fd =
      on_io-Succeeds self (prepare_close (envs self) fd)
        (λ u. (prepare_close-room (envs self) fd u (room self)).0)

  arm-Succeeds : (fd : ℤ) → Succeeds (on_io self (prepare_read (envs self) fd))
  arm-Succeeds fd =
      on_io-Succeeds self (prepare_read (envs self) fd)
        (λ u. (prepare_read-room (envs self) fd u (room self)).0)

  read_failed-Succeeds : (fd : ℤ) → Succeeds (read_failed envs self fd)
  unfolding read_failed free_client_buffer
  read_failed-Succeeds fd =
      then-Succeeds (modify (forget_client envs self fd))
        (free_client_buffer envs self fd >> on_io self (prepare_close (envs self) fd)) (λ w. refl)
        (then-Succeeds (free_client_buffer envs self fd) (on_io self (prepare_close (envs self) fd))
          (λ w. ground arith) (close-Succeeds fd))

  handle_read-Succeeds : (cqe : Cqe) (fd : ℤ) → Succeeds (handle_read envs self cqe fd)
  unfolding handle_read
  handle_read-Succeeds cqe fd w =
      let more = when (not (has_more cqe)) (on_io self (prepare_read (envs self) fd)) in
      ground (
        arith,
        read_failed-Succeeds fd w,
        close-Succeeds fd w,
        then-Succeeds (read_message envs self fd (buffer_of cqe)) more
            (read-Succeeds fd (buffer_of cqe))
            (when-Succeeds (not (has_more cqe)) (on_io self (prepare_read (envs self) fd))
              (arm-Succeeds fd))
            w,
      )

  event_read-Succeeds : (cqe : Cqe) (fd : ℤ) → Succeeds (event_read envs self cqe fd)
  unfolding event_read handle_close
  event_read-Succeeds cqe fd w =
      let v = (handle_read envs self cqe fd w).1 in
      let closed = remove_client fd (w.heap self) in
      ground (
        arith,
        (prepare_close-room (envs self) fd closed.io_ring (room self)).0,
        handle_read-Succeeds cqe fd w,
        arm-Succeeds fd v,
      )

  event_by-Succeeds :
      (type : OperationType) (cqe : Cqe) (fd : ℤ) (bid : ℕ)
      → Succeeds (event_by envs self type cqe fd bid)
  unfolding event_by
  event_by-Succeeds OperationType.read cqe fd bid = event_read-Succeeds cqe fd
  event_by-Succeeds OperationType.write cqe fd bid = λ w. refl
  event_by-Succeeds _ cqe fd bid = λ w. refl

  -- Whatever the completion is, the session handles it without an exception.
  pub process_event-Succeeds : (cqe : Cqe) → Succeeds (process_event envs self cqe)
  unfolding process_event
  process_event-Succeeds cqe =
      let ctx = get_context cqe.user_data in
      event_by-Succeeds ctx.op_type cqe ctx.client_fd ctx.buffer_idx
