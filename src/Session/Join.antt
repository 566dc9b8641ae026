-- ===== src/Session/Join.antt =====
-- addClient: what a client that is assigned to a session is promised.
use tcpchatserver.Base.{
  ℕ, none, true, List, Option-cases, inl, inr, ◌≤◌, ◌≡◌, ◌⊎◌, some, ◌∷◌, arith, length,
  length-append,
}
use tcpchatserver.Base.Int.{ℤ}
use tcpchatserver.Base.IntSet
use tcpchatserver.Base.Text.{codes, to_string, length-to_string-le}
use tcpchatserver.Base.Action.{ok, err, Error}
use tcpchatserver.Context.{MessageType, OperationType, max_data, message_size, set_context}
use tcpchatserver.Uring.{
  Env, IoUring, Call, queued, write, recv, submit, get_sqe, send_message, prepare_write,
  make_message, prepare_read, submit_ring,
}
use tcpchatserver.Uring.Send.{send_message-Sends}
use tcpchatserver.Uring.Prepare.{prepare_read-Queues, prepare_read-room}
use tcpchatserver.Uring.Broadcast.{deliveries, HasRoom}
use tcpchatserver.Session.{Session, session_text, add_client}
use mathlib.Core.List.{head?}

pub length-session_text-le : (id : ℤ) → length (session_text id) ≤ max_data
unfolding session_text
length-session_text-le id =
    omega (arith, length-append (codes "joined session:") (to_string id), length-to_string-le id)

-- However addClient ends, the client is in the set, the session keeps its id, and the only error is
-- that no entry is free.
pub add_client-clients :
    (env : Env) (fd : ℤ) (s : Session)
    → let (r, t) = add_client env fd s in
      (t.clients ≡ IntSet.insert fd s.clients)
      × (t.session_id ≡ s.session_id)
      × ((r ≡ ok tt) ⊎ (r ≡ err Error.sqe_unavailable))
unfolding add_client
add_client-clients env fd s =
    let u = (prepare_read env fd s.io_ring).1 in
    ground (
      arith,
      prepare_read-Queues env fd s.io_ring,
      send_message-Sends env fd MessageType.server_notification (session_text s.session_id) 0 u
          (length-session_text-le s.session_id),
    )

-- Where entries are free, a client that joins is read from, is told the session's id in one
-- notification, and all of it is submitted at once. The buffers are not touched: the notification
-- is tagged with buffer 0, which gains no reference for it.
pub add_client-room :
    (env : Env) (fd : ℤ) (s : Session)
    → HasRoom env
    → let (r, t) = add_client env fd s in
      (r ≡ ok tt)
      × (t.io_ring.buffer_manager ≡ s.io_ring.buffer_manager)
      × (deliveries t.io_ring.calls
          ≡ (fd, make_message MessageType.server_notification (session_text s.session_id))
            ∷ deliveries s.io_ring.calls)
      × (head? t.io_ring.calls ≡ some submit)
unfolding add_client submit_ring
add_client-room env fd s room =
    let u = (prepare_read env fd s.io_ring).1 in
    ground (
      arith,
      prepare_read-Queues env fd s.io_ring,
      prepare_read-room env fd s.io_ring room,
      send_message-Sends env fd MessageType.server_notification (session_text s.session_id) 0 u
          (length-session_text-le s.session_id),
      room u.calls,
    )

-- The entries of a client that joins: a read of it, and a write of the notification.
abbrev pub joining : Env → ℤ → ℤ → (read written : ℕ) → List Call → List Call
joining env fd id read written cs =
    submit
    ∷ queued
        (write fd (make_message MessageType.server_notification (session_text id)) message_size)
        (set_context written OperationType.write fd 0)
    ∷ queued (recv fd true 1) (env.prep (recv fd true 1) (set_context read OperationType.read fd 0))
    ∷ cs

prepare_read-entry :
    (env : Env) (fd : ℤ) (u : IoUring) (w : ℕ)
    → env.next_sqe u.calls ≡ some w
    → let (r, v) = prepare_read env fd u in
      (r ≡ ok tt)
      × (v.calls
          ≡ queued
              (recv fd true 1)
              (env.prep (recv fd true 1) (set_context w OperationType.read fd 0))
            ∷ u.calls)
unfolding prepare_read get_sqe
prepare_read-entry env fd u w e = ground arith

send_message-entry :
    (env : Env) (fd id : ℤ) (u : IoUring) (w : ℕ)
    → env.next_sqe u.calls ≡ some w
    → let message = make_message MessageType.server_notification (session_text id) in
      let v = (send_message env fd MessageType.server_notification (session_text id) 0 u).1 in
      v.calls
      ≡ queued
          (write fd message message_size)
          (set_context (env.prep (write fd message message_size) w) OperationType.write fd 0)
        ∷ u.calls
unfolding send_message prepare_write get_sqe
send_message-entry env fd id u w e = let short = length-session_text-le id in ground arith

pub add_client-calls :
    (env : Env) (fd : ℤ) (s : Session)
    → HasRoom env
    → (read : ℕ) × (written : ℕ) × ((add_client env fd s).1.io_ring.calls
        ≡ joining env fd s.session_id read written s.io_ring.calls)
unfolding add_client submit_ring
add_client-calls env fd s room =
    let text = session_text s.session_id in
    let message = make_message MessageType.server_notification text in
    let u = (prepare_read env fd s.io_ring).1 in
    let sends =
      send_message-Sends env fd MessageType.server_notification text 0 u
        (length-session_text-le s.session_id) in
    elim (Option-cases (env.next_sqe s.io_ring.calls)) [
      | inl full ↦ absurd (room s.io_ring.calls full)
      | inr (w, e) ↦ elim (Option-cases (env.next_sqe u.calls)) [
        | inl full ↦ absurd (room u.calls full)
        | inr (v, e') ↦ (
          w,
          env.prep (write fd message message_size) v,
          ground (
            arith,
            room u.calls,
            sends,
            prepare_read-entry env fd s.io_ring w e,
            send_message-entry env fd s.session_id u v e',
          ),
        )
      ]
    ]

-- No entry is free, before the submit that getSQE makes then, nor after it.
abbrev pub IsFull : Env → List Call → Type 0
IsFull env cs = (env.next_sqe cs ≡ none) × (env.next_sqe (submit ∷ cs) ≡ none)

IsFull-or : (env : Env) (cs : List Call) → IsFull env cs ⊎ (¬ IsFull env cs)
IsFull-or env cs = elim (Option-cases (env.next_sqe cs)) [
  | inr (w, e) ↦ inr (λ full. ground (arith, full.0))
  | inl e ↦ elim (Option-cases (env.next_sqe (submit ∷ cs))) [
    | inr (w, f) ↦ inr (λ full. ground (arith, full.1))
    | inl f ↦ inl (e, f)
  ]
]

prepare_read-IsFull :
    (env : Env) (fd : ℤ) (u : IoUring)
    → let r = (prepare_read env fd u).0 in
      ((r ≡ ok tt) × ¬ IsFull env u.calls) ⊎ ((r ≡ err Error.sqe_unavailable) × IsFull env u.calls)
unfolding prepare_read get_sqe
prepare_read-IsFull env fd u = elim (IsFull-or env u.calls) [
  | inl full ↦ inr (ground arith, full)
  | inr free ↦ inl (ground arith, free)
]

send_message-IsFull :
    (env : Env) (fd id : ℤ) (u : IoUring)
    → let r = (send_message env fd MessageType.server_notification (session_text id) 0 u).0 in
      ((r ≡ ok tt) × ¬ IsFull env u.calls) ⊎ ((r ≡ err Error.sqe_unavailable) × IsFull env u.calls)
unfolding send_message prepare_write get_sqe
send_message-IsFull env fd id u =
    let short = length-session_text-le id in
    elim (IsFull-or env u.calls) [
      | inl full ↦ inr (ground arith, full)
      | inr free ↦ inl (ground arith, free)
    ]

-- No entry is free for the read that addClient queues, or for the notification that it queues after it.
abbrev pub NoEntry : Env → ℤ → Session → Type 0
NoEntry env fd s = IsFull env s.io_ring.calls ⊎ IsFull env (prepare_read env fd s.io_ring).1.calls

-- addClient fails exactly there.
pub add_client-NoEntry :
    (env : Env) (fd : ℤ) (s : Session)
    → let r = (add_client env fd s).0 in
      ((r ≡ ok tt) × ¬ NoEntry env fd s) ⊎ ((r ≡ err Error.sqe_unavailable) × NoEntry env fd s)
unfolding add_client submit_ring
add_client-NoEntry env fd s =
    let u = (prepare_read env fd s.io_ring).1 in
    elim (prepare_read-IsFull env fd s.io_ring) [
      | inr (failed, full) ↦ inr (ground arith, inl full)
      | inl (read, free) ↦ elim (send_message-IsFull env fd s.session_id u) [
        | inr (failed, full) ↦ inr (ground arith, inr full)
        | inl (sent, free') ↦
            inl (ground arith, λ none_free. elim none_free [ inl f ↦ free f | inr f ↦ free' f ])
      ]
    ]
