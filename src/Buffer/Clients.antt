-- ===== src/Buffer/Clients.antt =====
-- What one call does to the whole manager, on every branch; the map from clients to buffers.
use tcpchatserver.Base.{
  ℕ, ◌-◌, ◌≤◌, ◌<◌, ◌≡◌, ◌≢◌, ◌⊎◌, inl, inr, true, false, ◌∷◌, arith, ltb, ◌==◌, ◌&&◌, ℕ_discrete,
  Bool-cases,
}
use tcpchatserver.Base.Map.{insert, lookup-erase_self}
use tcpchatserver.Buffer.{
  UringBuffer, add, advance, num_io_buffers, io_buffer_size, no_buffer, mark_buffer_in_use,
  release_buffer, is_buffer_in_use, get_buffer_client, find_client_buffer, get_buffer_addr,
}

-- A call of releaseBuffer either frees a buffer that is in use and without references: it is no
-- longer in use, one entry with its address and one advance are appended for the kernel, its client
-- finds no buffer any more, and any other buffer `j` is as it was; or, where the index is out of
-- range, the buffer is not in use, or it has references, the call changes nothing.
pub release_buffer_cases :
    (idx base j : ℕ) (u : UringBuffer)
    → let w = release_buffer idx base u in
      ((idx < num_io_buffers)
        × ((u.buffers idx).in_use ≡ true)
        × ((u.buffers idx).ref_count ≡ 0)
        × (is_buffer_in_use idx w ≡ false)
        × (w.ring_calls
            ≡ advance 1
              ∷ add (get_buffer_addr idx base) io_buffer_size idx (num_io_buffers - 1) 0
              ∷ u.ring_calls)
        × (find_client_buffer (get_buffer_client idx u) w ≡ no_buffer)
        × ((j ≡ idx) ⊎ (w.buffers j ≡ u.buffers j)))
      ⊎ (((num_io_buffers ≤ idx)
            ⊎ ((u.buffers idx).in_use ≡ false)
            ⊎ (0 < (u.buffers idx).ref_count))
          × (w ≡ u))
unfolding release_buffer is_buffer_in_use find_client_buffer get_buffer_client
release_buffer_cases idx base j u =
    let c = (u.buffers idx).client_fd in
    elim (Bool-cases
      (ltb idx num_io_buffers && (u.buffers idx).in_use && (u.buffers idx).ref_count == 0)) [
        | inl free ↦ inl (
          ground arith,
          ground arith,
          ground arith,
          ground arith,
          ground arith,
          ground (arith, lookup-erase_self ℕ_discrete c u.client_buffers),
          ground arith,
        )
        | inr kept ↦ inr (ground arith, ground arith)
      ]

-- A client that has two buffers in use loses track of one when the other is released: nothing is
-- found for it although the second is still in use.
pub release_forgets :
    (i j fd base : ℕ) (u : UringBuffer)
    → i < num_io_buffers
    → j < num_io_buffers
    → i ≢ j
    → (u.buffers i).ref_count ≡ 0
    → let w = release_buffer i base (mark_buffer_in_use j fd (mark_buffer_in_use i fd u)) in
      (find_client_buffer fd w ≡ no_buffer)
      × (is_buffer_in_use j w ≡ true)
      × (get_buffer_client j w ≡ fd)
unfolding release_buffer mark_buffer_in_use is_buffer_in_use find_client_buffer get_buffer_client
release_forgets i j fd base u hi hj ne r =
    let m = insert ℕ_discrete fd j (insert ℕ_discrete fd i u.client_buffers) in
    (ground (arith, lookup-erase_self ℕ_discrete fd m), ground arith, ground arith)
