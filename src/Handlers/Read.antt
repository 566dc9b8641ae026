-- ===== src/Handlers/Read.antt =====
-- handleRead: the checks of a received message, and what becomes of its buffer.
use tcpchatserver.Base.{ℕ, ◌-◌, ◌≤◌, ◌<◌, ◌≡◌, ◌⊎◌, true, false, ◌∷◌, arith, not, ◌∙◌}
use tcpchatserver.Base.Int.{ℤ, pos, ◌<ℤ◌, uint16}
use tcpchatserver.Base.Action.{ok, when, Result}
use tcpchatserver.Context.{ChatMessage, message_byte, max_data, message_at}
use tcpchatserver.Buffer.{
  UringBuffer, add, advance, num_io_buffers, io_buffer_size, mark_buffer_in_use, release_buffer,
  is_buffer_in_use, get_ref_count, get_buffer_addr,
}
use tcpchatserver.Uring.{Env, IoUring, with_buffers, release, prepare_read}
use tcpchatserver.Uring.Broadcast.{refs, deliveries}
use tcpchatserver.Uring.Prepare.{prepare_read-Queues}
use tcpchatserver.Manager.{Manager, store}
use tcpchatserver.Manager.Members.{SameSets}
use tcpchatserver.Handlers.{
  Cqe, release_at, has_buffer, has_more, buffer_of, ring_at, on_io, handle_read, read_message,
  check_message,
}

-- The message that lies in a buffer of a ring.
abbrev pub message_in : ℕ → IoUring → ChatMessage
message_in bid u =
    message_at u.buffer_manager.memory (get_buffer_addr bid u.buffer_manager.base_addr)

-- A message that the server takes: a client's type, and a length of 1 to 512.
abbrev pub IsAccepted : ChatMessage → Type 0
IsAccepted m =
    (0x10 ≤ message_byte m.type) × (message_byte m.type ≤ 0x14) × (0 < m.len) × (m.len ≤ max_data)

abbrev pub IsRefused : ChatMessage → Type 0
IsRefused m =
    (message_byte m.type < 0x10)
    ⊎ ((0x14 < message_byte m.type) ⊎ ((m.len ≡ 0) ⊎ (max_data < m.len)))

pub mark-lem :
    (bid fd : ℕ) (b : UringBuffer)
    → bid < num_io_buffers
    → let c = mark_buffer_in_use bid fd b in
      (is_buffer_in_use bid c ≡ true)
      × (get_ref_count bid c ≡ get_ref_count bid b)
      × (c.memory ≡ b.memory)
      × (c.base_addr ≡ b.base_addr)
      × (c.ring_calls ≡ b.ring_calls)
unfolding mark_buffer_in_use is_buffer_in_use get_ref_count
mark-lem bid fd b h = ground arith

pub release-lem :
    (bid base : ℕ) (b : UringBuffer)
    → is_buffer_in_use bid b ≡ true
    → get_ref_count bid b ≡ 0
    → let c = release_buffer bid base b in
      (is_buffer_in_use bid c ≡ false)
      × (c.ring_calls
          ≡ advance 1
            ∷ add (get_buffer_addr bid base) io_buffer_size bid (num_io_buffers - 1) 0
            ∷ b.ring_calls)
unfolding release_buffer is_buffer_in_use get_ref_count
release-lem bid base b h r = ground arith

-- The state of a ring's buffer `bid`, and the calls on the buffer ring.
abbrev pub IsUsedAt : ℕ → ℕ → Manager → Type 0
IsUsedAt self bid w = is_buffer_in_use bid (ring_at self w).buffer_manager ≡ true

-- The ring with the buffer taken for the client: the first thing that handleRead does.
abbrev pub marked : ℕ → ℕ → ℤ → Manager → Manager
marked self bid client_fd w = record w {
  heap = store w.heap self (record (w.heap self) {
    io_ring = with_buffers (mark_buffer_in_use bid (uint16 client_fd)) (w.heap self).io_ring;
  });
}

-- Re-arming the read afterwards touches no buffer and no client.
abbrev pub rearmed : (ℕ → Env) → ℕ → Cqe → ℤ → Manager → Result (Unit {0}) × Manager
rearmed envs self cqe client_fd =
    when (not (has_more cqe)) (on_io self (prepare_read (envs self) client_fd))

pub rearmed-lem :
    (envs : ℕ → Env) (self : ℕ) (cqe : Cqe) (client_fd : ℤ) (w : Manager)
    → let v = (rearmed envs self cqe client_fd w).1 in
      ((ring_at self v).buffer_manager ≡ (ring_at self w).buffer_manager)
      × (deliveries (ring_at self v).calls ≡ deliveries (ring_at self w).calls)
      × (v.client_sessions ≡ w.client_sessions)
      × (v.sessions ≡ w.sessions)
rearmed-lem envs self cqe client_fd w =
    ground (arith, prepare_read-Queues (envs self) client_fd (ring_at self w))

pub rearmed-SameSets :
    (envs : ℕ → Env) (self : ℕ) (cqe : Cqe) (client_fd : ℤ) (w : Manager)
    → SameSets w (rearmed envs self cqe client_fd w).1
rearmed-SameSets envs self cqe client_fd w r = ground arith

-- Once the message in the buffer has been dealt with, only the re-arming is left.
pub handle_read-message :
    (envs : ℕ → Env) (self : ℕ) (cqe : Cqe) (client_fd : ℤ) (w v : Manager)
    → pos 0 <ℤ cqe.res
    → has_buffer cqe ≡ true
    → check_message envs self client_fd
        (buffer_of cqe)
        (message_in (buffer_of cqe) (ring_at self w))
        (marked self (buffer_of cqe) client_fd w)
      ≡ (ok tt, v)
    → buffer_of cqe < num_io_buffers
    → handle_read envs self cqe client_fd w ≡ rearmed envs self cqe client_fd v
unfolding handle_read read_message
handle_read-message envs self cqe client_fd w v arrived has e b =
    let m = mark-lem (buffer_of cqe) (uint16 client_fd) (ring_at self w).buffer_manager b in
    ground arith

pub check_message-refused :
    (envs : ℕ → Env) (self : ℕ) (client_fd : ℤ) (bid : ℕ) (m : ChatMessage) (w : Manager)
    → IsRefused m
    → check_message envs self client_fd bid m w ≡ release_at self bid w
unfolding check_message
check_message-refused envs self client_fd bid m w bad = ground arith

-- A received message that is refused, in a buffer without references: nobody is sent anything, no
-- registration, no session's set of clients and no entry of the map of sessions changes, the buffer is not in use any more, and it has been handed
-- back to the kernel at its own address by the last two calls on the buffer ring.
pub handle_read_refused :
    (envs : ℕ → Env) (self : ℕ) (cqe : Cqe) (client_fd : ℤ) (w : Manager)
    → pos 0 <ℤ cqe.res
    → has_buffer cqe ≡ true
    → buffer_of cqe < num_io_buffers
    → refs (buffer_of cqe) (ring_at self w) ≡ 0
    → IsRefused (message_in (buffer_of cqe) (ring_at self w))
    → let v = (handle_read envs self cqe client_fd w).1 in
      let b = (ring_at self w).buffer_manager in
      (deliveries (ring_at self v).calls ≡ deliveries (ring_at self w).calls)
      × (v.client_sessions ≡ w.client_sessions)
      × (v.sessions ≡ w.sessions)
      × SameSets w v
      × (is_buffer_in_use (buffer_of cqe) (ring_at self v).buffer_manager ≡ false)
      × ((ring_at self v).buffer_manager.ring_calls
          ≡ advance 1
            ∷ add
                (get_buffer_addr (buffer_of cqe) b.base_addr)
                io_buffer_size
                (buffer_of cqe)
                (num_io_buffers - 1)
                0
            ∷ b.ring_calls)
unfolding release
handle_read_refused envs self cqe client_fd w arrived has b zero_refs bad =
    let bid = buffer_of cqe in
    let u = ring_at self w in
    let taken = marked self bid client_fd w in
    let freed = (release_at self bid taken).1 in
    let m = mark-lem bid (uint16 client_fd) u.buffer_manager b in
    let c = mark_buffer_in_use bid (uint16 client_fd) u.buffer_manager in
    let r = release-lem bid c.base_addr c m.0 (m.1 ∙ zero_refs) in
    let e =
      handle_read-message envs self cqe client_fd w freed arrived has
        (check_message-refused envs self client_fd bid (message_in bid u) taken bad) b in
    let after = rearmed-lem envs self cqe client_fd freed in
    let sets = rearmed-SameSets envs self cqe client_fd freed in
    (
      ground arith,
      ground arith,
      ground arith,
      λ r. ground (arith, sets r),
      ground arith,
      ground arith,
    )
