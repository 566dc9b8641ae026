-- ===== src/Buffer.antt =====
-- server/src/UringBuffer.cpp and server/include/UringBuffer.h: the buffers that the kernel receives
-- into. allocation_time, which only reaches the log, is left out.
-- `buffers` is the vector of num_io_buffers entries, as a function on the indices; `memory` is the
-- process's memory by address; `ring_calls` has the calls of liburing on `buf_ring_`, newest first.
pub mod Address
pub mod Ownership
pub mod Clients
pub mod Status
use tcpchatserver.Base.{
  ◌≤◌, ◌≡◌, refl, arith, ℕ, zero, suc, ◌+◌, ◌-◌, ◌*◌, ◌/◌, ◌%◌, ◌^◌, Option, none, some, Bool, true,
  false, List, [], ◌∷◌, ltb, ◌==◌, if◌then◌else◌, ℕ_discrete, ◌&&◌, ◌||◌,
}
use tcpchatserver.Base.Int.{ℤ, pos, ltb_ℤ}
use tcpchatserver.Base.Action.{Error, Result, ok, err}
use tcpchatserver.Base.Map.{lookup, insert, erase}

pub record BufferInfo : Type 0 where
  pub in_use : Bool
  pub client_fd : ℕ
  pub bytes_used : ℕ
  pub total_uses : ℕ
  pub ref_count : ℕ

-- Calls of liburing's buffer ring: an entry that is added, and the tail that moves on.
pub data RingCall : Type 0 where
  add : (addr len bid mask offset : ℕ) → RingCall
  advance : ℕ → RingCall

pub record UringBuffer : Type 0 where
  pub buffers : ℕ → BufferInfo
  pub client_buffers : List (ℕ × ℕ)
  pub base_addr : ℕ
  pub memory : ℕ → ℕ
  pub ring_calls : List RingCall

abbrev pub io_buffer_size : ℕ
io_buffer_size = 2048

abbrev pub num_io_buffers : ℕ
num_io_buffers = 4096

-- sizeof(io_uring_buf)
abbrev pub io_uring_buf_size : ℕ
io_uring_buf_size = 16

abbrev pub no_buffer : ℕ
no_buffer = 65535

abbrev pub u64 : ℕ
u64 = 2 ^ 64

abbrev pub u32 : ℕ
u32 = 2 ^ 32

abbrev pub powers_of_two : List ℕ
powers_of_two =
    1 ∷ 2 ∷ 4 ∷ 8 ∷ 16 ∷ 32 ∷ 64 ∷ 128 ∷ 256 ∷ 512 ∷ 1024 ∷ 2048 ∷ 4096 ∷ 8192 ∷ 16384 ∷ 32768 ∷ []

abbrev pub is_one_of : ℕ → List ℕ → Bool
is_one_of n [] = false
is_one_of n (k ∷ ks) = n == k || is_one_of n ks

-- `is_power_of_two<N>()`, for N up to 32768.
unfoldable pub is_power_of_two : ℕ → Bool
is_power_of_two n = is_one_of n powers_of_two

-- The loop of `log2<N>()` on `val` and `ret`; a 32-bit value is halved 32 times at most.
log2_loop : ℕ → ℕ → ℕ → ℕ
log2_loop zero val ret = ret
log2_loop (suc fuel) val ret =
    let rest = log2_loop fuel (val / 2) (ret + 1) in if ltb 1 val then rest else ret

-- `log2<N>()`, where the static_asserts let it compile.
unfoldable pub log2 : (n : ℕ) → n ≤ 32768 → is_power_of_two n ≡ true → ℕ
unfolding log2_loop
log2 n small power = log2_loop 32 n 0

unfoldable pub buffer_ring_size : ℕ
buffer_ring_size = (io_buffer_size + io_uring_buf_size) * num_io_buffers

unfoldable pub get_buffer_base_addr : ℕ → ℕ
get_buffer_base_addr ring_addr = ring_addr + io_uring_buf_size * num_io_buffers

unfoldable pub get_buffer_addr : ℕ → ℕ → ℕ
unfolding log2 is_power_of_two
get_buffer_addr idx buf_base_addr = buf_base_addr + idx * 2 ^ log2 io_buffer_size (omega arith) refl

abbrev pub update : (ℕ → BufferInfo) → ℕ → BufferInfo → ℕ → BufferInfo
update f i v j = if i == j then v else f j

abbrev pub fresh_info : BufferInfo
fresh_info = record { in_use = false; client_fd = 0; bytes_used = 0; total_uses = 0; ref_count = 0 }

-- A round of the loop of initBufferRing.
abbrev init_round : ℕ → UringBuffer → UringBuffer
init_round i u = record u {
  buffers = update u.buffers i fresh_info;
  ring_calls =
      add (get_buffer_addr i u.base_addr) io_buffer_size i (num_io_buffers - 1) i ∷ u.ring_calls;
}

-- The loop over `i`, with `left` rounds to go.
init_loop : ℕ → ℕ → UringBuffer → UringBuffer
init_loop zero i u = u
init_loop (suc left) i u = init_loop left (suc i) (init_round i u)

-- initBufferRing on a `base_addr` that is mapped and registered.
unfoldable pub fill_buffer_ring : ℕ → (ℕ → ℕ) → UringBuffer
unfolding init_loop get_buffer_base_addr
fill_buffer_ring ring_addr memory =
    let u = init_loop num_io_buffers 0 (record {
      buffers = λ _. fresh_info;
      client_buffers = [];
      base_addr = get_buffer_base_addr ring_addr;
      memory = memory;
      ring_calls = [];
    }) in
    record u { ring_calls = advance num_io_buffers ∷ u.ring_calls }

-- The constructor with initBufferRing: `mapped` is what mmap returned (`none` for MAP_FAILED),
-- `registered` what io_uring_register_buf_ring did.
unfoldable pub init_buffer_ring : Option ℕ → ℤ → (ℕ → ℕ) → Result UringBuffer
init_buffer_ring none registered memory = err Error.mmap_failed
init_buffer_ring (some ring_addr) registered memory =
    if ltb_ℤ registered (pos 0)
    then err Error.register_failed
    else ok (fill_buffer_ring ring_addr memory)

unfoldable pub mark_buffer_in_use : ℕ → ℕ → UringBuffer → UringBuffer
mark_buffer_in_use idx client_fd u =
    if ltb idx num_io_buffers
    then record u {
      buffers = update u.buffers idx (record (u.buffers idx) {
        in_use = true;
        client_fd = client_fd;
        total_uses = ((u.buffers idx).total_uses + 1) % u64;
      });
      client_buffers = insert ℕ_discrete client_fd idx u.client_buffers;
    }
    else u

unfoldable pub release_buffer : ℕ → ℕ → UringBuffer → UringBuffer
release_buffer idx buf_base_addr u =
    if ltb idx num_io_buffers && (u.buffers idx).in_use && (u.buffers idx).ref_count == 0
    then record u {
      buffers =
          update u.buffers idx
            (record (u.buffers idx) { in_use = false; client_fd = 0; bytes_used = 0 });
      client_buffers = erase ℕ_discrete (u.buffers idx).client_fd u.client_buffers;
      ring_calls =
          advance 1
          ∷ add (get_buffer_addr idx buf_base_addr) io_buffer_size idx (num_io_buffers - 1) 0
          ∷ u.ring_calls;
    }
    else u

unfoldable pub update_buffer_bytes : ℕ → ℕ → UringBuffer → UringBuffer
update_buffer_bytes idx bytes u =
    if ltb idx num_io_buffers
    then record u { buffers = update u.buffers idx (record (u.buffers idx) { bytes_used = bytes }) }
    else u

unfoldable pub increment_ref_count : ℕ → UringBuffer → UringBuffer
increment_ref_count idx u =
    if ltb idx num_io_buffers
    then record u {
      buffers =
          update u.buffers idx
            (record (u.buffers idx) { ref_count = ((u.buffers idx).ref_count + 1) % u32 });
    }
    else u

unfoldable pub decrement_ref_count : ℕ → UringBuffer → UringBuffer
decrement_ref_count idx u =
    if ltb idx num_io_buffers && ltb 0 (u.buffers idx).ref_count
    then record u {
      buffers =
          update u.buffers idx
            (record (u.buffers idx) { ref_count = (u.buffers idx).ref_count - 1 });
    }
    else u

unfoldable pub get_ref_count : ℕ → UringBuffer → ℕ
get_ref_count idx u = if ltb idx num_io_buffers then (u.buffers idx).ref_count else 0

unfoldable pub is_buffer_in_use : ℕ → UringBuffer → Bool
is_buffer_in_use idx u = ltb idx num_io_buffers && (u.buffers idx).in_use

unfoldable pub get_buffer_client : ℕ → UringBuffer → ℕ
get_buffer_client idx u = if ltb idx num_io_buffers then (u.buffers idx).client_fd else 0

unfoldable pub get_buffer_bytes_used : ℕ → UringBuffer → ℕ
get_buffer_bytes_used idx u = if ltb idx num_io_buffers then (u.buffers idx).bytes_used else 0

unfoldable pub find_client_buffer : ℕ → UringBuffer → ℕ
find_client_buffer client_fd u = elim (lookup ℕ_discrete client_fd u.client_buffers) [
  | none ↦ no_buffer
  | some idx ↦ idx
]
