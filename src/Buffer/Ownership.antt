-- ===== src/Buffer/Ownership.antt =====
-- Who owns a buffer: the exchange of buffers with the kernel over all sequences of operations.
use tcpchatserver.Base.{
  ℕ, zero, suc, ◌+◌, ◌-◌, subst, ◌≤◌, ◌<◌, ◌≡◌, refl, true, false, List, [], ◌∷◌, arith, ltb, leb,
  ◌==◌, if◌then◌else◌, ◌&&◌, some, ℕ_discrete,
}
use tcpchatserver.Base.Map.{lookup, lookup-insert, lookup-erase}
use tcpchatserver.Buffer.{
  RingCall, add, advance, UringBuffer, u64, num_io_buffers, io_buffer_size, fresh_info, init_round,
  get_buffer_addr, get_buffer_base_addr, init_loop, fill_buffer_ring, mark_buffer_in_use,
  release_buffer, update_buffer_bytes, increment_ref_count, decrement_ref_count,
}

-- How often buffer `i` has been added to the ring.
abbrev pub given : ℕ → List RingCall → ℕ
given i [] = 0
given i (add addr len bid mask offset ∷ cs) = (if bid == i then 1 else 0) + given i cs
given i (advance n ∷ cs) = given i cs

-- Every entry gives a buffer of the server by its own address and size.
abbrev pub AddsOwn : ℕ → List RingCall → Type 0
AddsOwn base [] = Unit
AddsOwn base (add addr len bid mask offset ∷ cs) =
    (addr ≡ get_buffer_addr bid base)
    × (len ≡ io_buffer_size)
    × (bid < num_io_buffers)
    × AddsOwn base cs
AddsOwn base (advance n ∷ cs) = AddsOwn base cs

-- What the kernel may take: the calls, newest first, are made of runs, in which entries are put at the
-- offsets 0, 1, ... behind the tail, under the ring's mask, and an advance then moves the tail over
-- exactly these. `due` entries are still to be read before the run's begin.
abbrev pub AreHanded : (due : ℕ) → List RingCall → Type 0
AreHanded zero [] = Unit
AreHanded zero (advance n ∷ cs) = AreHanded n cs
AreHanded zero (add addr len bid mask offset ∷ cs) = ⊥
AreHanded (suc due) [] = ⊥
AreHanded (suc due) (advance n ∷ cs) = ⊥
AreHanded (suc due) (add addr len bid mask offset ∷ cs) =
    (offset ≡ due) × (mask ≡ num_io_buffers - 1) × AreHanded due cs

abbrev pub held : UringBuffer → ℕ → ℕ
held u i = if (u.buffers i).in_use then 0 else 1

-- Every entry has been handed to the kernel by an advance. Each buffer has been given as often as it was taken, and once more while it is not
-- in use; and a client's entry names a buffer that this client has in use.
pub record IsValid (u : UringBuffer) : Type 0 where
  pub balanced :
      (i : ℕ) → i < num_io_buffers → given i u.ring_calls ≡ (u.buffers i).total_uses + held u i
  pub own : AddsOwn u.base_addr u.ring_calls
  pub handed : AreHanded 0 u.ring_calls
  pub mapped :
      (fd i : ℕ)
      → lookup ℕ_discrete fd u.client_buffers ≡ some i
      → (i < num_io_buffers) × ((u.buffers i).in_use ≡ true) × ((u.buffers i).client_fd ≡ fd)

-- What happens to a manager. The kernel takes only a buffer that it holds, so `mark` is met on
-- such a one; its 64-bit count of uses has room. The other operations are
-- free, and the kernel may write into the memory.
pub data Step (u : UringBuffer) : UringBuffer → Type 0 where
  mark :
      (idx fd : ℕ)
      → (u.buffers idx).in_use ≡ false
      → (u.buffers idx).total_uses + 1 < u64
      → Step u (mark_buffer_in_use idx fd u)
  release : (idx : ℕ) → Step u (release_buffer idx u.base_addr u)
  bytes : (idx n : ℕ) → Step u (update_buffer_bytes idx n u)
  increment : (idx : ℕ) → Step u (increment_ref_count idx u)
  decrement : (idx : ℕ) → Step u (decrement_ref_count idx u)
  receive : (memory : ℕ → ℕ) → Step u (record u { memory = memory })

pub data Reach (u : UringBuffer) : UringBuffer → Type 0 where
  here : Reach u u
  next : {v w : UringBuffer} → Reach u v → Step v w → Reach u w

mark-balanced :
    (u : UringBuffer) (idx fd i : ℕ)
    → (u.buffers idx).in_use ≡ false
    → (u.buffers idx).total_uses + 1 < u64
    → given i u.ring_calls ≡ (u.buffers i).total_uses + held u i
    → let w = mark_buffer_in_use idx fd u in
      given i w.ring_calls ≡ (w.buffers i).total_uses + held w i
unfolding mark_buffer_in_use
mark-balanced u idx fd i f r b = ground arith

mark-mapped :
    (u : UringBuffer) (idx fd d i : ℕ)
    → (u.buffers idx).in_use ≡ false
    → (lookup ℕ_discrete d u.client_buffers ≡ some i
        → (i < num_io_buffers) × ((u.buffers i).in_use ≡ true) × ((u.buffers i).client_fd ≡ d))
    → let w = mark_buffer_in_use idx fd u in
      lookup ℕ_discrete d w.client_buffers ≡ some i
      → (i < num_io_buffers) × ((w.buffers i).in_use ≡ true) × ((w.buffers i).client_fd ≡ d)
unfolding mark_buffer_in_use
mark-mapped u idx fd d i f m l = ground (arith, lookup-insert ℕ_discrete d fd idx u.client_buffers)

release-balanced :
    (u : UringBuffer) (idx i : ℕ)
    → given i u.ring_calls ≡ (u.buffers i).total_uses + held u i
    → let w = release_buffer idx u.base_addr u in
      given i w.ring_calls ≡ (w.buffers i).total_uses + held w i
unfolding release_buffer
release-balanced u idx i b = ground arith

release-mapped :
    (u : UringBuffer) (idx d i : ℕ)
    → (lookup ℕ_discrete d u.client_buffers ≡ some i
        → (i < num_io_buffers) × ((u.buffers i).in_use ≡ true) × ((u.buffers i).client_fd ≡ d))
    → let w = release_buffer idx u.base_addr u in
      lookup ℕ_discrete d w.client_buffers ≡ some i
      → (i < num_io_buffers) × ((w.buffers i).in_use ≡ true) × ((w.buffers i).client_fd ≡ d)
unfolding release_buffer
release-mapped u idx d i m l =
    ground (arith, lookup-erase ℕ_discrete d (u.buffers idx).client_fd u.client_buffers)

mark-own :
    (u : UringBuffer) (idx fd : ℕ)
    → AddsOwn u.base_addr u.ring_calls
    → let w = mark_buffer_in_use idx fd u in AddsOwn w.base_addr w.ring_calls
unfolding mark_buffer_in_use
mark-own u idx fd o = ground arith

release-own :
    (u : UringBuffer) (idx : ℕ)
    → AddsOwn u.base_addr u.ring_calls
    → let w = release_buffer idx u.base_addr u in AddsOwn w.base_addr w.ring_calls
unfolding release_buffer
release-own u idx o = ground arith

mark-handed :
    (u : UringBuffer) (idx fd : ℕ)
    → AreHanded 0 u.ring_calls
    → AreHanded 0 (mark_buffer_in_use idx fd u).ring_calls
unfolding mark_buffer_in_use
mark-handed u idx fd o = ground arith

release-handed :
    (u : UringBuffer) (idx : ℕ)
    → AreHanded 0 u.ring_calls
    → AreHanded 0 (release_buffer idx u.base_addr u).ring_calls
unfolding release_buffer
release-handed u idx o = ground arith

-- Every operation keeps the invariant.
pub Step-IsValid : {u w : UringBuffer} → Step u w → IsValid u → IsValid w
unfolding update_buffer_bytes increment_ref_count decrement_ref_count
Step-IsValid {u} (mark idx fd f r) v = record {
  balanced = λ i h. mark-balanced u idx fd i f r (v.balanced i h);
  own = mark-own u idx fd v.own;
  handed = mark-handed u idx fd v.handed;
  mapped = λ d i. mark-mapped u idx fd d i f (v.mapped d i);
}
Step-IsValid {u} (release idx) v = record {
  balanced = λ i h. release-balanced u idx i (v.balanced i h);
  own = release-own u idx v.own;
  handed = release-handed u idx v.handed;
  mapped = λ d i. release-mapped u idx d i (v.mapped d i);
}
Step-IsValid {u} (bytes idx n) v = record {
  balanced = λ i h. ground (arith, v.balanced i h);
  own = ground (arith, v.own);
  handed = ground (arith, v.handed);
  mapped = λ d i l. ground (arith, v.mapped d i);
}
Step-IsValid {u} (increment idx) v = record {
  balanced = λ i h. ground (arith, v.balanced i h);
  own = ground (arith, v.own);
  handed = ground (arith, v.handed);
  mapped = λ d i l. ground (arith, v.mapped d i);
}
Step-IsValid {u} (receive memory) v = record {
  balanced = v.balanced;
  own = v.own;
  handed = v.handed;
  mapped = v.mapped;
}
Step-IsValid {u} (decrement idx) v = record {
  balanced = λ i h. ground (arith, v.balanced i h);
  own = ground (arith, v.own);
  handed = ground (arith, v.handed);
  mapped = λ d i l. ground (arith, v.mapped d i);
}

Reach-IsValid : {u w : UringBuffer} → IsValid u → Reach u w → IsValid w
Reach-IsValid v here = v
Reach-IsValid v (next r s) = Step-IsValid s (Reach-IsValid v r)

-- The loop of initBufferRing: with `left` rounds to go at `i`.
init_loop-given :
    (left i j : ℕ) (u : UringBuffer)
    → given j (init_loop left i u).ring_calls
      ≡ given j u.ring_calls + (if leb i j && ltb j (i + left) then 1 else 0)
unfolding init_loop
init_loop-given zero i j u = ground arith
init_loop-given (suc left) i j u = ground (arith, init_loop-given left (suc i) j (init_round i u))

init_loop-own :
    (left i : ℕ) (u : UringBuffer)
    → i + left ≤ num_io_buffers
    → AddsOwn u.base_addr u.ring_calls
    → AddsOwn u.base_addr (init_loop left i u).ring_calls
unfolding init_loop
init_loop-own zero i u h o = o
init_loop-own (suc left) i u h o =
    init_loop-own left (suc i) (init_round i u) (omega arith) (refl, refl, omega arith, o)

init_loop-handed :
    (left i j : ℕ) (u : UringBuffer)
    → j ≡ i + left
    → AreHanded i u.ring_calls
    → AreHanded j (init_loop left i u).ring_calls
unfolding init_loop
init_loop-handed zero i j u e h =
    let same : i ≡ j = omega arith in subst (λ k. AreHanded k u.ring_calls) same h
init_loop-handed (suc left) i j u e h =
    init_loop-handed left (suc i) j (init_round i u) (omega arith) (refl, refl, h)

abbrev SameRest : UringBuffer → UringBuffer → Type 0
SameRest u w =
    (u.client_buffers ≡ w.client_buffers)
    × (u.base_addr ≡ w.base_addr)
    × ((j : ℕ) → u.buffers j ≡ fresh_info → w.buffers j ≡ fresh_info)

init_loop-rest : (left i : ℕ) (u : UringBuffer) → SameRest u (init_loop left i u)
unfolding init_loop
init_loop-rest zero i u = (refl, refl, λ j e. e)
init_loop-rest (suc left) i u =
    let (c, b, f) = init_loop-rest left (suc i) (init_round i u) in
    (c, b, λ j e. f j (ground arith))

abbrev blank : ℕ → (ℕ → ℕ) → UringBuffer
blank ring_addr memory = record {
  buffers = λ _. fresh_info;
  client_buffers = [];
  base_addr = get_buffer_base_addr ring_addr;
  memory = memory;
  ring_calls = [];
}

start-IsValid :
    (ring_addr : ℕ) (memory : ℕ → ℕ) (left : ℕ)
    → left ≡ num_io_buffers
    → let u = init_loop left 0 (blank ring_addr memory) in
      IsValid (record u { ring_calls = advance num_io_buffers ∷ u.ring_calls })
unfolding lookup
start-IsValid ring_addr memory left e =
    let (c, b, f) = init_loop-rest left 0 (blank ring_addr memory) in
    record {
      balanced = λ i h. ground (arith, init_loop-given left 0 i (blank ring_addr memory), f i refl);
      own = ground (arith, b, init_loop-own left 0 (blank ring_addr memory) (omega arith) tt);
      handed = init_loop-handed left 0 num_io_buffers (blank ring_addr memory) (omega arith) tt;
      mapped = λ d i l. ground (arith, c);
    }

-- From the constructor on, after any operations in any order: a buffer has been put into the
-- kernel's ring exactly as often as it was taken, and once more exactly while it is not in use; all
-- entries carry the buffer's own address and size; every entry was put at the next offset behind the
-- tail, under the ring's mask, and the tail has been advanced over it, so the kernel may take it; and every entry of the client map names a buffer
-- that this client has in use. The kernel is assumed to take only buffers not in use.
pub Reach-fill-IsValid :
    (ring_addr : ℕ) (memory : ℕ → ℕ) {w : UringBuffer}
    → Reach (fill_buffer_ring ring_addr memory) w
    → IsValid w
unfolding fill_buffer_ring
Reach-fill-IsValid ring_addr memory r =
    Reach-IsValid (start-IsValid ring_addr memory num_io_buffers refl) r
