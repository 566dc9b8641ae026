-- ===== src/Handlers/Privacy.antt =====
-- Who is sent a message by the events of a session, whatever the submission queues do.
use tcpchatserver.Base.{
  ℕ, ◌≡◌, ◌≢◌, Bool, refl, true, false, some, List, arith, inl, inr, Option-cases, ltb, take, not,
  ◌∙◌,
}
use tcpchatserver.Base.Int.{ℤ, ℤ_discrete, uint16}
use tcpchatserver.Base.Map.{lookup}
use tcpchatserver.Base.IntSet.{contains}
use tcpchatserver.Base.Action.{Action, Done, Error, catch, modify, when, ◌>>◌}
use tcpchatserver.Context.{
  MessageType, ChatMessage, OperationType, get_context, message_at, int32_at,
}
use tcpchatserver.Buffer.{mark_buffer_in_use, get_buffer_addr, find_client_buffer}
use tcpchatserver.Uring.{
  Env, IoUring, broadcast, prepare_read, prepare_close, send_message, submit_ring, release,
  decrement_buffer_ref_count,
}
use tcpchatserver.Uring.Inbox.{
  inbox, send_message-inbox, prepare_read-inbox, prepare_close-inbox, broadcast-inbox,
  handle_write-inbox,
}
use tcpchatserver.Session.{Session, add_client, handle_close, remove_client, session_text}
use tcpchatserver.Manager.{
  Manager, on_session, join_session, remove_session, get_session, get_session_clients,
}
use tcpchatserver.Manager.Leave.{remove_session-io_ring}
use tcpchatserver.Manager.Members.{SessionAt}
use tcpchatserver.Handlers.Frame.{Keeps, bind-Keeps, catch-Keeps, if-Keeps}
use tcpchatserver.Handlers.{
  Cqe, ring_at, on_io, has_more, filter_text, buffer_of, on_buffers, join_body, join_text,
  join_error_text, handle_join_session, handle_leave_session, chat_in_session, handle_chat_message,
  process_by, process_message, forget_client, free_client_buffer, read_failed, check_message,
  read_message, handle_read, event_read, event_by, process_event,
}

-- No ring has more or fewer messages queued for a client than before.
abbrev pub Unheard : ℤ → Manager → Manager → Type 0
Unheard t w v = (ref : ℕ) → inbox t (ring_at ref v) ≡ inbox t (ring_at ref w)

-- A client is not in the session that another one is registered for.
abbrev pub Apart : ℤ → ℤ → Manager → Type 0
Apart t fd w = (ref : ℕ) → get_session fd w ≡ some ref → contains t (w.heap ref).clients ≡ false

-- The session at an id has that id.
abbrev pub IsNamed : Manager → Type 0
IsNamed w = (id : ℤ) (ref : ℕ) → SessionAt id w ref → (w.heap ref).session_id ≡ id

Unheard-trans : (t : ℤ) (u v w : Manager) → Unheard t u v → Unheard t v w → Unheard t u w
Unheard-trans t u v w h k ref = k ref ∙ h ref

add_client-inbox :
    (env : Env) (t fd : ℤ) (s : Session)
    → fd ≢ t
    → inbox t (add_client env fd s).1.io_ring ≡ inbox t s.io_ring
unfolding add_client submit_ring
add_client-inbox env t fd s other =
    let u = (prepare_read env fd s.io_ring).1 in
    ground (
      arith,
      prepare_read-inbox env t fd s.io_ring,
      send_message-inbox env t fd MessageType.server_notification (session_text s.session_id) 0 u,
    )

pub join_session-Unheard :
    (envs : ℕ → Env) (t fd id : ℤ) (w : Manager)
    → fd ≢ t
    → Unheard t w (join_session envs fd id w).1
unfolding join_session
join_session-Unheard envs t fd id w other ref =
    elim (Option-cases (lookup ℤ_discrete fd w.client_sessions)) [
      | inr (j, e) ↦ ground arith
      | inl free ↦ elim (Option-cases (lookup ℤ_discrete id w.sessions)) [
        | inl gone ↦ ground arith
        | inr (r, e) ↦ ground (arith, add_client-inbox (envs r) t fd (w.heap r) other)
      ]
    ]

remove_session-Unheard : (t fd : ℤ) (w : Manager) → Unheard t w (remove_session fd w)
remove_session-Unheard t fd w ref = ground (arith, remove_session-io_ring fd ref w)

-- What is queued on a ring for other clients only. From here on, `start` is the manager before.
module _ (start : Manager) (self : ℕ) (t : ℤ) where
  io-Unheard :
      {A : Type 0} (m : Action IoUring A)
      → ((u : IoUring) → inbox t (m u).1 ≡ inbox t u)
      → Keeps (Unheard t start) (on_io self m)
  io-Unheard m h w p ref = ground (arith, h (ring_at self w), p ref)

  release-Unheard : (bid : ℕ) → Keeps (Unheard t start) (on_io self (modify (release bid)))
  unfolding release
  release-Unheard bid = io-Unheard (modify (release bid)) (λ u. refl)

module _ (envs : ℕ → Env) (start : Manager) (self : ℕ) (t fd : ℤ) (other : fd ≢ t) where
  send-Unheard :
      (type : MessageType) (text : List ℕ) (bid : ℕ)
      → Keeps (Unheard t start) (on_io self (send_message (envs self) fd type text bid))
  send-Unheard type text bid =
      io-Unheard start self t (send_message (envs self) fd type text bid)
        (λ u. send_message-inbox (envs self) t fd type text bid u other)

  join_session-Keeps : (id : ℤ) → Keeps (Unheard t start) (join_session envs fd id)
  join_session-Keeps id w p =
      Unheard-trans t start w (join_session envs fd id w).1 p
        (join_session-Unheard envs t fd id w other)

  join-Unheard :
      (message : ChatMessage) (bid : ℕ)
      → Keeps (Unheard t start) (handle_join_session envs self fd message bid)
  unfolding handle_join_session join_body
  join-Unheard message bid =
      let P = Unheard t start in
      let id = int32_at message.content in
      let ack =
        on_io self (send_message (envs self) fd MessageType.server_ack (join_text id) bid) in
      let refuse = λ (e : Error).
        on_io self (send_message (envs self) fd MessageType.server_error (join_error_text e) bid) in
      if-Keeps P (ltb message.len 4) (on_io self (modify (release bid)))
        (catch (join_session envs fd id >> ack) refuse) (release-Unheard start self t bid)
        (catch-Keeps P (join_session envs fd id >> ack) refuse
          (bind-Keeps P (join_session envs fd id) (λ _. ack) (join_session-Keeps id)
            (λ _. send-Unheard MessageType.server_ack (join_text id) bid))
          (λ e. send-Unheard MessageType.server_error (join_error_text e) bid))

  remove-Keeps : Keeps (Unheard t start) {A = Done} (modify (remove_session fd))
  remove-Keeps w p ref = ground (arith, remove_session-io_ring fd ref w, p ref)

  leave-Unheard : Keeps (Unheard t start) (handle_leave_session envs self fd)
  unfolding handle_leave_session
  leave-Unheard w p = ground (arith, remove-Keeps w p)

  close-Unheard : Keeps (Unheard t start) (on_io self (prepare_close (envs self) fd))
  close-Unheard =
      io-Unheard start self t (prepare_close (envs self) fd)
        (λ u. prepare_close-inbox (envs self) t fd u)

  arm-Unheard :
      (b : Bool) → Keeps (Unheard t start) (when b (on_io self (prepare_read (envs self) fd)))
  arm-Unheard true w p =
      io-Unheard start self t (prepare_read (envs self) fd)
        (λ u. prepare_read-inbox (envs self) t fd u) w p
  arm-Unheard false w p = p

  read_failed-Unheard : Keeps (Unheard t start) (read_failed envs self fd)
  unfolding read_failed forget_client free_client_buffer
  read_failed-Unheard =
      let P = Unheard t start in
      let free = free_client_buffer envs self fd in
      let close = on_io self (prepare_close (envs self) fd) in
      bind-Keeps P (modify (forget_client envs self fd)) (λ _. free >> close)
        (λ w p. ground (arith, remove-Keeps w p))
        (λ _.
          bind-Keeps P free (λ _. close)
            (λ w p. ground (
              arith,
              release-Unheard start self t
                  (find_client_buffer (uint16 fd) (ring_at self w).buffer_manager) w p,
            ))
            (λ _. close-Unheard))

  handle_close-Unheard : Keeps (Unheard t start) (on_session self (handle_close (envs self) fd))
  unfolding handle_close remove_client
  handle_close-Unheard w p ref =
      ground (arith, p ref, prepare_close-inbox (envs self) t fd (ring_at self w))

pub get_session-SessionAt :
    (fd : ℤ) (w : Manager) (ref : ℕ)
    → get_session fd w ≡ some ref
    → (id : ℤ) × (lookup ℤ_discrete fd w.client_sessions ≡ some id) × SessionAt id w ref
unfolding get_session
get_session-SessionAt fd w ref e = elim (Option-cases (lookup ℤ_discrete fd w.client_sessions)) [
  | inl free ↦ absurd (cc)
  | inr (id, reg) ↦ (id, reg, ground arith)
]

-- The clients that a chat message is broadcast to are those of the sender's session.
room-clients :
    (fd : ℤ) (w : Manager) (ref : ℕ)
    → IsNamed w
    → get_session fd w ≡ some ref
    → get_session_clients (w.heap ref).session_id w ≡ (w.heap ref).clients
unfolding get_session_clients
room-clients fd w ref named e =
    let (id, reg, at) = get_session-SessionAt fd w ref e in ground (arith, named id ref at)

module _ (envs : ℕ → Env) (self : ℕ) (t fd : ℤ) (other : fd ≢ t) where
  drop-Unheard :
      (bid : ℕ) (w : Manager)
      → Unheard t w (on_io self (modify (decrement_buffer_ref_count bid)) w).1
  unfolding decrement_buffer_ref_count
  drop-Unheard bid w =
      io-Unheard w self t (modify (decrement_buffer_ref_count bid)) (λ u. refl) w (λ ref. refl)

  chat_in-Unheard :
      (id : ℤ) (message : ChatMessage) (bid : ℕ) (w : Manager)
      → contains t (get_session_clients id w) ≡ false
      → Unheard t w (chat_in_session envs self id message bid w).1
  unfolding chat_in_session
  chat_in-Unheard id message bid w out =
      let text = filter_text (take message.len message.content) in
      let all = broadcast (envs self) (get_session_clients id w) MessageType.server_chat text bid in
      ground (
        arith,
        drop-Unheard bid w,
        io-Unheard w self t all
            (λ u.
              broadcast-inbox (envs self) t (get_session_clients id w) MessageType.server_chat text
                bid u out)
            w (λ ref. refl),
      )

  chat-Unheard :
      (message : ChatMessage) (bid : ℕ) (w : Manager)
      → IsNamed w
      → Apart t fd w
      → Unheard t w (handle_chat_message envs self fd message bid w).1
  unfolding handle_chat_message
  chat-Unheard message bid w named apart = elim (Option-cases (get_session fd w)) [
    | inl nowhere ↦ ground (arith, drop-Unheard bid w)
    | inr (ref, e) ↦
        let id = (w.heap ref).session_id in
        let all = room-clients fd w ref named e in
        let out : contains t (get_session_clients id w) ≡ false = rw all (apart ref e) in
        ground (arith, drop-Unheard bid w, chat_in-Unheard id message bid w out)
  ]

  process_by-Unheard :
      (type : MessageType) (message : ChatMessage) (bid : ℕ) (w : Manager)
      → IsNamed w
      → Apart t fd w
      → Unheard t w (process_by envs self type fd message bid w).1
  unfolding process_by
  process_by-Unheard MessageType.client_join message bid w named apart =
      join-Unheard envs w self t fd other message bid w (λ ref. refl)
  process_by-Unheard MessageType.client_leave message bid w named apart =
      leave-Unheard envs w self t fd other w (λ ref. refl)
  process_by-Unheard MessageType.client_chat message bid w named apart =
      chat-Unheard message bid w named apart
  process_by-Unheard _ message bid w named apart = release-Unheard w self t bid w (λ ref. refl)

  check-Unheard :
      (bid : ℕ) (message : ChatMessage) (w : Manager)
      → IsNamed w
      → Apart t fd w
      → Unheard t w (check_message envs self fd bid message w).1
  unfolding check_message process_message
  check-Unheard bid message w named apart = ground (
    arith,
    release-Unheard w self t bid w (λ ref. refl),
    process_by-Unheard message.type message bid w named apart,
  )

  read_message-Unheard :
      (bid : ℕ) (w : Manager)
      → IsNamed w
      → Apart t fd w
      → Unheard t w (read_message envs self fd bid w).1
  unfolding read_message get_session
  read_message-Unheard bid w named apart =
      let v = (on_buffers self (mark_buffer_in_use bid (uint16 fd)) w).1 in
      let b = (ring_at self v).buffer_manager in
      let m = message_at b.memory (get_buffer_addr bid b.base_addr) in
      let named' : IsNamed v = λ id ref at. ground (arith, named id ref at) in
      let apart' : Apart t fd v = λ ref e. ground (arith, apart ref e) in
      let marked : Unheard t w v = λ ref. ground arith in
      Unheard-trans t w v (check_message envs self fd bid m v).1 marked
        (check-Unheard bid m v named' apart')

  handle_read-Unheard :
      (cqe : Cqe) (w : Manager)
      → IsNamed w
      → Apart t fd w
      → Unheard t w (handle_read envs self cqe fd w).1
  unfolding handle_read
  handle_read-Unheard cqe w named apart =
      let v = (read_message envs self fd (buffer_of cqe) w).1 in
      let read = read_message-Unheard (buffer_of cqe) w named apart in
      ground (
        arith,
        read_failed-Unheard envs w self t fd other w (λ ref. refl),
        read,
        arm-Unheard envs w self t fd other (not (has_more cqe)) v read,
        close-Unheard envs w self t fd other w (λ ref. refl),
      )

  event_read-Unheard :
      (cqe : Cqe) (w : Manager)
      → IsNamed w
      → Apart t fd w
      → Unheard t w (event_read envs self cqe fd w).1
  unfolding event_read
  event_read-Unheard cqe w named apart =
      let v = (handle_read envs self cqe fd w).1 in
      let read = handle_read-Unheard cqe w named apart in
      ground (
        arith,
        handle_close-Unheard envs w self t fd other w (λ ref. refl),
        read,
        arm-Unheard envs w self t fd other (contains fd (v.heap self).clients) v read,
      )

  event_by-Unheard :
      (type : OperationType) (cqe : Cqe) (bid : ℕ) (w : Manager)
      → IsNamed w
      → Apart t fd w
      → Unheard t w (event_by envs self type cqe fd bid w).1
  unfolding event_by
  event_by-Unheard OperationType.read cqe bid w named apart ref =
      event_read-Unheard cqe w named apart ref
  event_by-Unheard OperationType.write cqe bid w named apart ref =
      ground (arith, handle_write-inbox t cqe.res fd bid (ring_at self w))
  event_by-Unheard _ cqe bid w named apart ref = refl

-- Whatever the event of a session is, and whatever the submission queues do: on no ring is a message
-- queued for a client other than the event's own that is not in the session the event's client is
-- registered for.
pub process_event-Unheard :
    (envs : ℕ → Env) (self : ℕ) (cqe : Cqe) (t : ℤ) (w : Manager)
    → IsNamed w
    → let fd = (get_context cqe.user_data).client_fd in
      fd ≢ t → Apart t fd w → Unheard t w (process_event envs self cqe w).1
unfolding process_event
process_event-Unheard envs self cqe t w named other apart =
    let ctx = get_context cqe.user_data in
    event_by-Unheard envs self t ctx.client_fd other ctx.op_type cqe ctx.buffer_idx w named apart
