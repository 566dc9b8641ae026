-- ===== src/Uring/Completion.antt =====
-- handleWriteComplete: when the buffer that a message came in is given back to the kernel.
use tcpchatserver.Base.{
  ℕ, zero, suc, ◌+◌, ◌-◌, ◌≤◌, ◌<◌, ◌≡◌, refl, true, false, List, ◌∷◌, arith, length, ◌∙◌, ◌⊎◌, inl,
  inr,
}
use tcpchatserver.Base.Int.{ℤ}
use tcpchatserver.Context.{MessageType, max_data}
use tcpchatserver.Buffer.{
  num_io_buffers, io_buffer_size, u32, add, advance, get_ref_count, decrement_ref_count,
  is_buffer_in_use, release_buffer, get_buffer_addr,
}
use tcpchatserver.Uring.{
  Env, IoUring, broadcast, handle_write_complete, decrement_buffer_ref_count, release,
}
use tcpchatserver.Uring.Broadcast.{refs, deliveries, HasRoom, broadcast-Sent, broadcast-to_each}

abbrev pub IsUsed : ℕ → IoUring → Type 0
IsUsed bid u = is_buffer_in_use bid u.buffer_manager ≡ true

-- While more than one reference is left, a completion only takes one away.
complete_more :
    (bid n : ℕ) (u : IoUring)
    → refs bid u ≡ suc (suc n)
    → let w = handle_write_complete bid u in
      (refs bid w ≡ suc n)
      × (is_buffer_in_use bid w.buffer_manager ≡ is_buffer_in_use bid u.buffer_manager)
      × (w.buffer_manager.ring_calls ≡ u.buffer_manager.ring_calls)
      × (w.buffer_manager.base_addr ≡ u.buffer_manager.base_addr)
unfolding handle_write_complete decrement_buffer_ref_count decrement_ref_count get_ref_count
    is_buffer_in_use
complete_more bid n u e = ground arith

-- The last one frees the buffer and hands it to the kernel at its own address.
complete_last :
    (bid : ℕ) (u : IoUring)
    → refs bid u ≤ 1
    → IsUsed bid u
    → let w = handle_write_complete bid u in
      (is_buffer_in_use bid w.buffer_manager ≡ false)
      × (w.buffer_manager.ring_calls
          ≡ advance 1
            ∷ add
                (get_buffer_addr bid u.buffer_manager.base_addr)
                io_buffer_size
                bid
                (num_io_buffers - 1)
                0
            ∷ u.buffer_manager.ring_calls)
unfolding handle_write_complete decrement_buffer_ref_count decrement_ref_count get_ref_count
    is_buffer_in_use release release_buffer
complete_last bid u h used = ground arith

-- So many completions of writes of one buffer, one after the other.
unfoldable pub completions : ℕ → ℕ → IoUring → IoUring
completions zero bid u = u
completions (suc k) bid u = completions k bid (handle_write_complete bid u)

completions-pending :
    (k n bid : ℕ) (u : IoUring)
    → refs bid u ≡ suc (n + k)
    → IsUsed bid u
    → let w = completions k bid u in
      (refs bid w ≡ suc n)
      × IsUsed bid w
      × (w.buffer_manager.ring_calls ≡ u.buffer_manager.ring_calls)
unfolding completions
completions-pending zero n bid u e used = (omega arith, used, refl)
completions-pending (suc k) n bid u e used =
    ground (
      arith,
      complete_more bid (n + k) u,
      completions-pending k n bid (handle_write_complete bid u),
    )

completions-last :
    (n bid : ℕ) (u : IoUring)
    → refs bid u ≡ suc n
    → IsUsed bid u
    → let w = completions (suc n) bid u in
      (is_buffer_in_use bid w.buffer_manager ≡ false)
      × (w.buffer_manager.ring_calls
          ≡ advance 1
            ∷ add
                (get_buffer_addr bid u.buffer_manager.base_addr)
                io_buffer_size
                bid
                (num_io_buffers - 1)
                0
            ∷ u.buffer_manager.ring_calls)
unfolding completions
completions-last zero bid u e used = complete_last bid u (omega arith) used
completions-last (suc n) bid u e used =
    ground (arith, complete_more bid n u, completions-last n bid (handle_write_complete bid u))

zero_or_suc : (n : ℕ) → (n ≡ 0) ⊎ ((k : ℕ) × (n ≡ suc k))
zero_or_suc zero = inl refl
zero_or_suc (suc k) = inr (k, refl)

-- A message is broadcast out of a buffer that is in use without references, to n clients, and
-- entries are always free. Then through any k < n write completions the buffer stays in use, and
-- with the n-th it is not in use any more.
pub broadcast-completions :
    (env : Env) (fd : ℤ) (fds : List ℤ) (type : MessageType) (text : List ℕ) (bid k : ℕ)
    (u : IoUring)
    → HasRoom env
    → length text ≤ max_data
    → bid < num_io_buffers
    → length (fd ∷ fds) < u32
    → IsUsed bid u
    → refs bid u ≡ 0
    → k < length (fd ∷ fds)
    → let w = (broadcast env (fd ∷ fds) type text bid u).1 in
      IsUsed bid (completions k bid w)
      × (is_buffer_in_use bid (completions (length (fd ∷ fds)) bid w).buffer_manager ≡ false)
broadcast-completions env fd fds type text bid k u room h b lim used zero_refs less =
    let w = (broadcast env (fd ∷ fds) type text bid u).1 in
    let total = (broadcast-to_each env fd fds type text bid u room h b (omega arith)).1 in
    let (done, (f, sent)) = broadcast-Sent env fd fds type text bid u h b (omega arith) in
    let used' : IsUsed bid w = sent.3 ∙ used in
    (
      (completions-pending k (length fds - k) bid w (omega arith) used').1,
      (completions-last (length fds) bid w (omega arith) used').0,
    )

-- The number of writes that the second ring has queued and the first has not.
abbrev pub queued_since : IoUring → IoUring → ℕ
queued_since u w = length (deliveries w.calls) - length (deliveries u.calls)

-- The double decrement: where fewer writes were queued by a broadcast than there are clients, but
-- at least two, the buffer is not in use any more after fewer completions than writes were queued.
pub broadcast_released_early :
    (env : Env) (fd : ℤ) (fds : List ℤ) (type : MessageType) (text : List ℕ) (bid : ℕ)
    (u w : IoUring)
    → length text ≤ max_data
    → bid < num_io_buffers
    → length (fd ∷ fds) < u32
    → IsUsed bid u
    → refs bid u ≡ 0
    → (broadcast env (fd ∷ fds) type text bid u).1 ≡ w
    → queued_since u w < length (fd ∷ fds)
    → 1 < queued_since u w
    → (k : ℕ) × (k < queued_since u w)
      × (is_buffer_in_use bid (completions k bid w).buffer_manager ≡ false)
unfolding completions
broadcast_released_early env fd fds type text bid u w h b lim used zero_refs e short many =
    let (done, (f, sent)) = rw e at (broadcast-Sent env fd fds type text bid u h b (omega arith)) in
    let used' : IsUsed bid w = sent.3 ∙ used in
    elim (zero_or_suc (refs bid w)) [
      | inl none_left ↦ (1, omega arith, (complete_last bid w (omega arith) used').0)
      | inr (n, left) ↦ (suc n, omega arith, (completions-last n bid w left used').0)
    ]
