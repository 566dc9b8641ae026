-- ===== src/Uring/Broadcast.antt =====
-- broadcastToSession: who receives the message, and how many references the buffer ends with.
use tcpchatserver.Base.{
  ℕ, zero, suc, ◌+◌, ◌-◌, ◌*◌, ◌≤◌, ◌<◌, ◌≡◌, refl, ap, inl, inr, none, List, [], ◌∷◌, arith,
  length, ◌≢◌,
}
use tcpchatserver.Base.Int.{ℤ}
use tcpchatserver.Base.Action.{ok}
use tcpchatserver.Context.{MessageType, ChatMessage, max_data}
use tcpchatserver.Buffer.{
  UringBuffer, num_io_buffers, u32, get_ref_count, increment_ref_count, decrement_ref_count,
  is_buffer_in_use,
}
use tcpchatserver.Uring.{
  Env, IoUring, Call, Request, send_round, queued, submit, submit_and_wait, cq_advance, accept,
  recv, write, close, with_buffers, make_message, increments, send_loop, broadcast,
  decrement_buffer_ref_count,
}
use tcpchatserver.Uring.Send.{send_message-Sends}

-- The writes that are queued, newest first.
abbrev pub delivery : Request → List (ℤ × ChatMessage) → List (ℤ × ChatMessage)
delivery (write fd message len) ds = (fd, message) ∷ ds
delivery (accept fd flags) ds = ds
delivery (recv fd select group) ds = ds
delivery (close fd) ds = ds

abbrev pub deliveries : List Call → List (ℤ × ChatMessage)
deliveries [] = []
deliveries (queued request w ∷ cs) = delivery request (deliveries cs)
deliveries (submit ∷ cs) = deliveries cs
deliveries (submit_and_wait n ∷ cs) = deliveries cs
deliveries (cq_advance n ∷ cs) = deliveries cs

-- One delivery of a message to each client, in their order, on top of earlier ones.
abbrev pub to_each : List ℤ → ChatMessage → List (ℤ × ChatMessage) → List (ℤ × ChatMessage)
to_each [] message ds = ds
to_each (fd ∷ fds) message ds = to_each fds message ((fd, message) ∷ ds)

abbrev pub refs : ℕ → IoUring → ℕ
refs bid u = get_ref_count bid u.buffer_manager

-- The manager with one reference less, seen at any buffer.
pub decrement-refs :
    (bid : ℕ) (b : UringBuffer)
    → (get_ref_count bid (decrement_ref_count bid b) ≡ get_ref_count bid b - 1)
      × (is_buffer_in_use bid (decrement_ref_count bid b) ≡ is_buffer_in_use bid b)
unfolding get_ref_count decrement_ref_count is_buffer_in_use
decrement-refs bid b = ground arith

increment-refs :
    (bid : ℕ) (b : UringBuffer)
    → bid < num_io_buffers
    → get_ref_count bid b + 1 < u32
    → (get_ref_count bid (increment_ref_count bid b) ≡ get_ref_count bid b + 1)
      × (is_buffer_in_use bid (increment_ref_count bid b) ≡ is_buffer_in_use bid b)
unfolding get_ref_count increment_ref_count is_buffer_in_use
increment-refs bid b h k = ground arith

increments-refs :
    (n bid : ℕ) (u : IoUring)
    → bid < num_io_buffers
    → refs bid u + n < u32
    → let w = increments n bid u in
      (refs bid w ≡ refs bid u + n)
      × (is_buffer_in_use bid w.buffer_manager ≡ is_buffer_in_use bid u.buffer_manager)
      × (w.calls ≡ u.calls)
unfolding increments
increments-refs zero bid u h k = (omega arith, refl, refl)
increments-refs (suc n) bid u h k = ground (
  arith,
  increment-refs bid u.buffer_manager h,
  increments-refs n bid (with_buffers (increment_ref_count bid) u) h,
)

-- Of the sends in the loop, `failed` throw; each of those costs two references, each other one
-- queues one write. The loop itself never throws.
abbrev pub Sent : ℕ → ℕ → IoUring → IoUring → ℕ → Type 0
Sent n bid u w failed =
    (failed ≤ n)
    × (refs bid w ≡ refs bid u - 2 * failed)
    × (length (deliveries w.calls) + failed ≡ length (deliveries u.calls) + n)
    × (is_buffer_in_use bid w.buffer_manager ≡ is_buffer_in_use bid u.buffer_manager)

send_round-Sent :
    (env : Env) (fd : ℤ) (type : MessageType) (text : List ℕ) (bid : ℕ) (u : IoUring)
    → length text ≤ max_data
    → let (r, v) = send_round env fd type text bid u in
      (r ≡ ok tt) × ((failed : ℕ) × Sent 1 bid u v failed)
unfolding send_round decrement_buffer_ref_count
send_round-Sent env fd type text bid u h = elim (send_message-Sends env fd type text bid u h) [
  | inl (w, cs, from, e) ↦
      (ground arith, (0, (ground arith, ground arith, ground arith, ground arith)))
  | inr (full, e) ↦
      let b = u.buffer_manager in
      let once = decrement-refs bid b in
      let twice = decrement-refs bid (decrement_ref_count bid b) in
      (ground arith, (1, (ground arith, ground arith, ground arith, ground arith)))
]

send_loop-Sent :
    (env : Env) (fds : List ℤ) (type : MessageType) (text : List ℕ) (bid : ℕ) (u : IoUring)
    → length text ≤ max_data
    → let (r, w) = send_loop env fds type text bid u in
      (r ≡ ok tt) × ((failed : ℕ) × Sent (length fds) bid u w failed)
unfolding send_loop
send_loop-Sent env [] type text bid u h = (refl, (0, (omega arith, omega arith, omega arith, refl)))
send_loop-Sent env (fd ∷ fds) type text bid u h =
    let v = (send_round env fd type text bid u).1 in
    let (done, (f, one)) = send_round-Sent env fd type text bid u h in
    let (rest, (g, more)) = send_loop-Sent env fds type text bid v h in
    (ground arith, (f + g, (omega arith, ground arith, ground arith, ground arith)))

-- A broadcast of at most 512 bytes to one or more clients returns without an error, whatever the
-- submission queue does. Some number of sends fails: the others have each queued one write, and the
-- buffer ends with as many references as before and as there are clients, less two for each failure
-- (one failed send gives up two references). Whether the buffer is in use does not change.
pub broadcast-Sent :
    (env : Env) (fd : ℤ) (fds : List ℤ) (type : MessageType) (text : List ℕ) (bid : ℕ) (u : IoUring)
    → length text ≤ max_data
    → bid < num_io_buffers
    → refs bid u + length (fd ∷ fds) < u32
    → let (r, w) = broadcast env (fd ∷ fds) type text bid u in
      (r ≡ ok tt)
      × ((failed : ℕ) × ((failed ≤ length (fd ∷ fds))
            × (refs bid w ≡ refs bid u + length (fd ∷ fds) - 2 * failed)
            × (length (deliveries w.calls) + failed
                ≡ length (deliveries u.calls) + length (fd ∷ fds))
            × (is_buffer_in_use bid w.buffer_manager ≡ is_buffer_in_use bid u.buffer_manager)))
unfolding broadcast
broadcast-Sent env fd fds type text bid u h b k =
    let v = increments (length (fd ∷ fds)) bid u in
    let up = increments-refs (length (fd ∷ fds)) bid u b k in
    let (done, (f, sent)) = send_loop-Sent env (fd ∷ fds) type text bid v h in
    (ground arith, (f, (ground arith, ground arith, ground arith, ground arith)))

-- An entry is free whatever calls came before.
abbrev pub HasRoom : Env → Type 0
HasRoom env = (cs : List Call) → env.next_sqe cs ≢ none

send_round-room :
    (env : Env) (fd : ℤ) (type : MessageType) (text : List ℕ) (bid : ℕ) (u : IoUring)
    → HasRoom env
    → length text ≤ max_data
    → let (r, v) = send_round env fd type text bid u in
      (r ≡ ok tt)
      × (v.buffer_manager ≡ u.buffer_manager)
      × (deliveries v.calls ≡ (fd, make_message type text) ∷ deliveries u.calls)
unfolding send_round
send_round-room env fd type text bid u room h = elim (send_message-Sends env fd type text bid u h) [
  | inl (w, cs, from, e) ↦ (ground arith, ground arith, ground arith)
  | inr (full, e) ↦ absurd (room u.calls full)
]

send_loop-room :
    (env : Env) (fds : List ℤ) (type : MessageType) (text : List ℕ) (bid : ℕ) (u : IoUring)
    → HasRoom env
    → length text ≤ max_data
    → let (r, w) = send_loop env fds type text bid u in
      (w.buffer_manager ≡ u.buffer_manager)
      × (deliveries w.calls ≡ to_each fds (make_message type text) (deliveries u.calls))
unfolding send_loop
send_loop-room env [] type text bid u room h = (refl, refl)
send_loop-room env (fd ∷ fds) type text bid u room h =
    let v = (send_round env fd type text bid u).1 in
    let one = send_round-room env fd type text bid u room h in
    let more = send_loop-room env fds type text bid v room h in
    (ground arith, ground (arith, more, one, ap (to_each fds (make_message type text)) one.2))

-- Where entries are always free, every client of the list is sent the whole message once, in the
-- order of the list, and the buffer gains one reference for each of them.
pub broadcast-to_each :
    (env : Env) (fd : ℤ) (fds : List ℤ) (type : MessageType) (text : List ℕ) (bid : ℕ) (u : IoUring)
    → HasRoom env
    → length text ≤ max_data
    → bid < num_io_buffers
    → refs bid u + length (fd ∷ fds) < u32
    → let (r, w) = broadcast env (fd ∷ fds) type text bid u in
      (deliveries w.calls ≡ to_each (fd ∷ fds) (make_message type text) (deliveries u.calls))
      × (refs bid w ≡ refs bid u + length (fd ∷ fds))
unfolding broadcast
broadcast-to_each env fd fds type text bid u room h b k =
    let v = increments (length (fd ∷ fds)) bid u in
    let up = increments-refs (length (fd ∷ fds)) bid u b k in
    let done = (send_loop-Sent env (fd ∷ fds) type text bid v h).0 in
    let all = send_loop-room env (fd ∷ fds) type text bid v room h in
    (
      ground (arith, ap (λ cs. to_each (fd ∷ fds) (make_message type text) (deliveries cs)) up.2),
      ground arith,
    )
