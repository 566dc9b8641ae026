-- ===== src/Handlers/Frame.antt =====
-- What every event of a session keeps of the manager.
use tcpchatserver.Base.{
  ℕ, if◌then◌else◌, ltb, take, Bool, true, false, inl, inr, not, arith, Option-cases,
}
use tcpchatserver.Base.Int.{ℤ, uint16}
use tcpchatserver.Base.IntSet
use tcpchatserver.Base.Action.{Action, Done, Error, catch, modify, when, ◌>>=◌, Result-cases}
use tcpchatserver.Context.{
  OperationType, MessageType, ChatMessage, int32_at, message_at, get_context,
}
use tcpchatserver.Buffer.{mark_buffer_in_use, get_buffer_addr, find_client_buffer}
use tcpchatserver.Uring.{
  Env, IoUring, send_message, broadcast, release, with_buffers, decrement_buffer_ref_count,
  prepare_read, prepare_close, handle_write,
}
use tcpchatserver.Session.{handle_close}
use tcpchatserver.Manager.{
  Manager, store, on_session, join_session, remove_session, get_session, get_session_clients,
}
use tcpchatserver.Handlers.{
  Cqe, forget_client, free_client_buffer, on_io, on_buffers, release_at, ring_at, join_text,
  join_error_text, filter_text, has_more, buffer_of, join_body, handle_join_session,
  handle_leave_session, chat_in_session, handle_chat_message, process_by, process_message,
  read_failed, check_message, read_message, handle_read, event_read, event_by, process_event,
}

abbrev pub put_ring : ℕ → IoUring → Manager → Manager
put_ring self u w = record w { heap = store w.heap self (record (w.heap self) { io_ring = u }) }

-- What the operations keep of the manager, where only some clients join.
pub record IsStableFor (envs : ℕ → Env) (Who : ℤ → Type 0) (P : Manager → Type 0) : Type 0 where
  pub ring_for : (self : ℕ) (u : IoUring) (w : Manager) → P w → P (put_ring self u w)
  pub join_for : (fd id : ℤ) (w : Manager) → Who fd → P w → P (join_session envs fd id w).1
  pub remove_for : (fd : ℤ) (w : Manager) → P w → P (remove_session fd w)
  pub close_for :
      (self : ℕ) (fd : ℤ) (w : Manager)
      → P w
      → P (on_session self (handle_close (envs self) fd) w).1

-- The same for any client.
pub record IsStable (envs : ℕ → Env) (P : Manager → Type 0) : Type 0 where
  pub ring : (self : ℕ) (u : IoUring) (w : Manager) → P w → P (put_ring self u w)
  pub join : (fd id : ℤ) (w : Manager) → P w → P (join_session envs fd id w).1
  pub remove : (fd : ℤ) (w : Manager) → P w → P (remove_session fd w)
  pub close :
      (self : ℕ) (fd : ℤ) (w : Manager)
      → P w
      → P (on_session self (handle_close (envs self) fd) w).1

-- A computation on the manager keeps a property, also when it throws.
abbrev pub Keeps : (Manager → Type 0) → {A : Type 0} → Action Manager A → Type 0
Keeps P m = (w : Manager) → P w → P (m w).1

module _ (P : Manager → Type 0) {A B : Type 0} where
  pub bind-Keeps :
      (m : Action Manager A) (f : A → Action Manager B)
      → Keeps P m
      → ((a : A) → Keeps P (f a))
      → Keeps P (m >>= f)
  bind-Keeps m f h k w p = elim (Result-cases (m w).0) [
    | inl (a, e) ↦ rw (e, ◌>>=◌) (k a (m w).1 (h w p))
    | inr (x, e) ↦ rw (e, ◌>>=◌) (h w p)
  ]

module _ (P : Manager → Type 0) {A : Type 0} where
  pub catch-Keeps :
      (m : Action Manager A) (handler : Error → Action Manager A)
      → Keeps P m
      → ((e : Error) → Keeps P (handler e))
      → Keeps P (catch m handler)
  catch-Keeps m handler h k w p = elim (Result-cases (m w).0) [
    | inl (a, e) ↦ rw (e, catch) (h w p)
    | inr (x, e) ↦ rw (e, catch) (k x (m w).1 (h w p))
  ]

  pub if-Keeps :
      (b : Bool) (m n : Action Manager A) → Keeps P m → Keeps P n → Keeps P (if b then m else n)
  if-Keeps true m n h k = h
  if-Keeps false m n h k = k

module _ (envs : ℕ → Env) (Who : ℤ → Type 0) (P : Manager → Type 0)
    (stable : IsStableFor envs Who P) (self : ℕ) where
  io : {A : Type 0} (m : Action IoUring A) → Keeps P (on_io self m)
  io m w p = stable.ring_for self (m (w.heap self).io_ring).1 w p

  join_body-Keeps : (fd id : ℤ) (bid : ℕ) → Who fd → Keeps P (join_body envs self fd id bid)
  unfolding join_body
  join_body-Keeps fd id bid h =
      let ack = send_message (envs self) fd MessageType.server_ack (join_text id) bid in
      bind-Keeps P (join_session envs fd id) (λ _. on_io self ack)
        (λ w p. stable.join_for fd id w h p) (λ _. io ack)

  handle_join_session-Keeps :
      (fd : ℤ) (message : ChatMessage) (bid : ℕ)
      → Who fd
      → Keeps P (handle_join_session envs self fd message bid)
  unfolding handle_join_session
  handle_join_session-Keeps fd message bid h =
      let body = join_body envs self fd (int32_at message.content) bid in
      let refuse = λ (e : Error).
        send_message (envs self) fd MessageType.server_error (join_error_text e) bid in
      if-Keeps P (ltb message.len 4) (release_at self bid) (catch body (λ e. on_io self (refuse e)))
        (io (modify (release bid)))
        (catch-Keeps P body (λ e. on_io self (refuse e))
          (join_body-Keeps fd (int32_at message.content) bid h) (λ e. io (refuse e)))

  handle_leave_session-Keeps : (fd : ℤ) → Keeps P (handle_leave_session envs self fd)
  unfolding handle_leave_session
  handle_leave_session-Keeps fd w p = ground (arith, stable.remove_for fd w p)

  chat_in_session-Keeps :
      (id : ℤ) (message : ChatMessage) (bid : ℕ)
      → Keeps P (chat_in_session envs self id message bid)
  unfolding chat_in_session
  chat_in_session-Keeps id message bid w p =
      let text = filter_text (take message.len message.content) in
      let all = broadcast (envs self) (get_session_clients id w) MessageType.server_chat text bid in
      ground (arith, io (modify (decrement_buffer_ref_count bid)) w p, io all w p)

  handle_chat_message-Keeps :
      (fd : ℤ) (message : ChatMessage) (bid : ℕ)
      → Keeps P (handle_chat_message envs self fd message bid)
  unfolding handle_chat_message
  handle_chat_message-Keeps fd message bid w p = elim (Option-cases (get_session fd w)) [
    | inl out ↦ ground (arith, io (modify (decrement_buffer_ref_count bid)) w p)
    | inr (ref, e) ↦ ground (
      arith,
      io (modify (decrement_buffer_ref_count bid)) w p,
      chat_in_session-Keeps (w.heap ref).session_id message bid w p,
    )
  ]

  process_by-Keeps :
      (type : MessageType) (fd : ℤ) (message : ChatMessage) (bid : ℕ)
      → Who fd
      → Keeps P (process_by envs self type fd message bid)
  unfolding process_by
  process_by-Keeps MessageType.client_join fd message bid h =
      handle_join_session-Keeps fd message bid h
  process_by-Keeps MessageType.client_leave fd message bid h = handle_leave_session-Keeps fd
  process_by-Keeps MessageType.client_chat fd message bid h =
      handle_chat_message-Keeps fd message bid
  process_by-Keeps _ fd message bid h = io (modify (release bid))

  check_message-Keeps :
      (fd : ℤ) (bid : ℕ) (message : ChatMessage)
      → Who fd
      → Keeps P (check_message envs self fd bid message)
  unfolding check_message process_message
  check_message-Keeps fd bid message h w p =
      ground
        (arith, io (modify (release bid)) w p, process_by-Keeps message.type fd message bid h w p)

  read_message-Keeps : (fd : ℤ) (bid : ℕ) → Who fd → Keeps P (read_message envs self fd bid)
  unfolding read_message
  read_message-Keeps fd bid h w p =
      let marked = mark_buffer_in_use bid (uint16 fd) in
      let v = (on_buffers self marked w).1 in
      let b = (ring_at self v).buffer_manager in
      check_message-Keeps fd bid (message_at b.memory (get_buffer_addr bid b.base_addr)) h v
        (io (modify (with_buffers marked)) w p)

  forget_client-Keeps : (fd : ℤ) → Keeps P {A = Done} (modify (forget_client envs self fd))
  unfolding forget_client
  forget_client-Keeps fd w p = ground (arith, stable.remove_for fd w p)

  free_client_buffer-Keeps : (fd : ℤ) → Keeps P (free_client_buffer envs self fd)
  unfolding free_client_buffer
  free_client_buffer-Keeps fd w p =
      let bid = find_client_buffer (uint16 fd) (ring_at self w).buffer_manager in
      ground (arith, io (modify (release bid)) w p)

  read_failed-Keeps : (fd : ℤ) → Keeps P (read_failed envs self fd)
  unfolding read_failed
  read_failed-Keeps fd w p =
      let v = forget_client envs self fd w in
      let close = on_io self (prepare_close (envs self) fd) in
      bind-Keeps P (free_client_buffer envs self fd) (λ _. close) (free_client_buffer-Keeps fd)
        (λ _. io (prepare_close (envs self) fd)) v (forget_client-Keeps fd w p)

  rearm-Keeps : (b : Bool) (fd : ℤ) → Keeps P (when b (on_io self (prepare_read (envs self) fd)))
  rearm-Keeps true fd w p = io (prepare_read (envs self) fd) w p
  rearm-Keeps false fd w p = p

  handle_read-Keeps : (cqe : Cqe) (fd : ℤ) → Who fd → Keeps P (handle_read envs self cqe fd)
  unfolding handle_read
  handle_read-Keeps cqe fd h w p =
      let rearm = when (not (has_more cqe)) (on_io self (prepare_read (envs self) fd)) in
      ground (
        arith,
        read_failed-Keeps fd w p,
        bind-Keeps P (read_message envs self fd (buffer_of cqe)) (λ _. rearm)
            (read_message-Keeps fd (buffer_of cqe) h) (λ _. rearm-Keeps (not (has_more cqe)) fd) w
            p,
        io (prepare_close (envs self) fd) w p,
      )

  event_read-Keeps : (cqe : Cqe) (fd : ℤ) → Who fd → Keeps P (event_read envs self cqe fd)
  unfolding event_read
  event_read-Keeps cqe fd h w p =
      let again = λ (v : Manager).
        when (IntSet.contains fd (v.heap self).clients) (on_io self (prepare_read (envs self) fd))
          v in
      ground (
        arith,
        stable.close_for self fd w p,
        bind-Keeps P (handle_read envs self cqe fd) (λ _. again) (handle_read-Keeps cqe fd h)
            (λ _ v. rearm-Keeps (IntSet.contains fd (v.heap self).clients) fd v) w p,
      )

  event_by-Keeps :
      (type : OperationType) (cqe : Cqe) (fd : ℤ) (bid : ℕ)
      → Who fd
      → Keeps P (event_by envs self type cqe fd bid)
  unfolding event_by
  event_by-Keeps OperationType.read cqe fd bid h w p = event_read-Keeps cqe fd h w p
  event_by-Keeps OperationType.write cqe fd bid h w p =
      io (modify (handle_write cqe.res fd bid)) w p
  event_by-Keeps _ cqe fd bid h w p = p

  -- The event of a client that may join keeps what is stable, also when the event ends in an error.
  pub process_event-KeepsFor :
      (cqe : Cqe)
      → Who (get_context cqe.user_data).client_fd
      → Keeps P (process_event envs self cqe)
  unfolding process_event
  process_event-KeepsFor cqe h =
      let ctx = get_context cqe.user_data in
      event_by-Keeps ctx.op_type cqe ctx.client_fd ctx.buffer_idx h

abbrev pub Anyone : ℤ → Type 0
Anyone fd = Unit

pub process_event-Keeps :
    (envs : ℕ → Env) (P : Manager → Type 0)
    → IsStable envs P
    → (self : ℕ) (cqe : Cqe) → Keeps P (process_event envs self cqe)
process_event-Keeps envs P stable self cqe =
    let all : IsStableFor envs Anyone P = record {
      ring_for = stable.ring;
      join_for = λ fd id w h p. stable.join fd id w p;
      remove_for = stable.remove;
      close_for = stable.close;
    } in
    process_event-KeepsFor envs Anyone P all self cqe tt
