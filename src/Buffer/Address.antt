-- ===== src/Buffer/Address.antt =====
-- Where the buffers lie: `log2`, and the addresses that getBufferAddr computes.
use tcpchatserver.Base.{
  ℕ, ◌+◌, ◌*◌, ◌^◌, ◌≤◌, ◌<◌, ◌≡◌, ◌==◌, refl, subst, true, List, [], ◌∷◌, All, arith, Bool-cases,
  inl, inr,
}
use tcpchatserver.Context.{message_size}
use tcpchatserver.Buffer.{
  log2, log2_loop, is_power_of_two, is_one_of, powers_of_two, io_buffer_size, num_io_buffers,
  io_uring_buf_size, buffer_ring_size, get_buffer_base_addr, get_buffer_addr,
}

is_one_of-All : (P : ℕ → Type 0) (n : ℕ) (ks : List ℕ) → All P ks → is_one_of n ks ≡ true → P n
is_one_of-All P n [] h e = absurd (cc)
is_one_of-All P n (k ∷ ks) (here, later) e = elim (Bool-cases (n == k)) [
  | inl same ↦ let eq : k ≡ n = ground arith in subst P eq here
  | inr other ↦ is_one_of-All P n ks later (ground arith)
]

All-refl : (ks : List ℕ) → All (λ k. k ≡ k) ks
All-refl [] = tt
All-refl (k ∷ ks) = (refl, All-refl ks)

-- What is_power_of_two accepts is a power of two, and log2 gives its exponent.
pub is_power_of_two-log2 :
    (n : ℕ) (small : n ≤ 32768) (e : is_power_of_two n ≡ true) → 2 ^ log2 n small e ≡ n
unfolding is_power_of_two log2 log2_loop
is_power_of_two-log2 n small e =
    is_one_of-All (λ k. 2 ^ log2_loop 32 k 0 ≡ k) n powers_of_two (All-refl powers_of_two) e

get_buffer_addr_lem : (idx base : ℕ) → get_buffer_addr idx base ≡ base + idx * 2048
unfolding get_buffer_addr log2 log2_loop
get_buffer_addr_lem idx base = omega arith

-- For any two of the buffers, in order: the first ends before the second begins; both lie behind
-- the ring's entries and inside the mapped region; and a whole ChatMessage fits in one.
pub get_buffer_addr_region :
    (ring_addr i j : ℕ)
    → i < j
    → j < num_io_buffers
    → let base = get_buffer_base_addr ring_addr in
      (ring_addr + io_uring_buf_size * num_io_buffers ≤ get_buffer_addr i base)
      × (get_buffer_addr i base + io_buffer_size ≤ get_buffer_addr j base)
      × (get_buffer_addr j base + io_buffer_size ≤ ring_addr + buffer_ring_size)
      × (get_buffer_addr i base + message_size ≤ get_buffer_addr j base)
unfolding get_buffer_base_addr buffer_ring_size
get_buffer_addr_region ring_addr i j h k = omega (
  arith,
  get_buffer_addr_lem i (get_buffer_base_addr ring_addr),
  get_buffer_addr_lem j (get_buffer_base_addr ring_addr),
)
