-- ===== src/Benchmark/Rate.antt =====
-- RateLimiter: how far apart the messages of a client are.
use tcpchatserver.Base.{
  ℕ, ◌+◌, ◌-◌, ◌*◌, ◌/◌, ◌^◌, ◌≤◌, ◌<◌, ◌≡◌, ap, ◌∙◌, subst, List, [], ◌∷◌, arith, length, ltb,
  Bool-cases, inl, inr,
}
use native.Mathlib.Nat.{add-mul, add-mul-div_right, div-le_of_le-mul, mul_comm}
use tcpchatserver.Benchmark.{RateLimiter, Beat, wait}

-- A wait begins after the last time, and sleeps at least as long as it asks to.
abbrev pub IsWait : RateLimiter → Beat → Type 0
IsWait l b = (l.last_send_time ≤ b.now) × (b.now + (wait b.now b.later l).0 * 10 ^ 6 ≤ b.later)

-- The whole milliseconds between two messages, in nanoseconds.
abbrev pub interval : RateLimiter → ℕ
interval l = 1000 / l.messages_per_second * 10 ^ 6

wait-interval :
    (l : RateLimiter) (b : Beat)
    → 0 < l.messages_per_second
    → IsWait l b
    → l.last_send_time + interval l ≤ b.later
unfolding wait
wait-interval l b h (begins, sleeps) =
    let r = l.messages_per_second in
    let e = (b.now - l.last_send_time) / 10 ^ 6 in
    let past : l.last_send_time + e * 10 ^ 6 ≤ b.now = omega arith in
    elim (Bool-cases (ltb (e * r) 1000)) [
      | inl early ↦
          let less : e * r < 1000 = ground arith in
          let whole : (1000 - e * r) + e * r ≡ 1000 = omega arith in
          let sum : 1000 / r ≡ (1000 - e * r) / r + e =
            subst (λ k. k / r ≡ (1000 - e * r) / r + e) whole
              (add-mul-div_right (1000 - e * r) e h) in
          let slept : b.now + (1000 - e * r) / r * 10 ^ 6 ≤ b.later = ground arith in
          omega (arith, sum, slept, past)
      | inr late ↦
          let more : 1000 ≤ r * e = subst (λ k. 1000 ≤ k) (mul_comm e r) (ground arith) in
          let few : 1000 / r ≤ e = div-le_of_le-mul r more in
          let slept : b.now ≤ b.later = ground arith in omega (arith, few, slept, past)
    ]

abbrev pub after : RateLimiter → List Beat → RateLimiter
after l [] = l
after l (b ∷ beats) = after (wait b.now b.later l).1 beats

abbrev pub AreWaits : RateLimiter → List Beat → Type 0
AreWaits l [] = Unit
AreWaits l (b ∷ beats) = IsWait l b × AreWaits (wait b.now b.later l).1 beats

-- A client of the benchmark waits before each message. At a rate above 0, n waits take at least n
-- times the whole milliseconds of 1000 / rate, however long what is done between them takes.
pub after-interval :
    (l : RateLimiter) (beats : List Beat)
    → 0 < l.messages_per_second
    → AreWaits l beats
    → l.last_send_time + length beats * interval l ≤ (after l beats).last_send_time
unfolding wait
after-interval l [] h waits = omega arith
after-interval l (b ∷ beats) h (one, rest) =
    let l' : RateLimiter = (wait b.now b.later l).1 in
    let first : l.last_send_time + interval l ≤ b.later = wait-interval l b h one in
    let more : b.later + length beats * interval l ≤ (after l' beats).last_send_time =
      after-interval l' beats h rest in
    let split : (1 + length beats) * interval l ≡ interval l + length beats * interval l =
      add-mul 1 (length beats) (interval l)
      ∙ ap (λ k. k + length beats * interval l) (omega arith) in
    omega (arith, first, more, split)
