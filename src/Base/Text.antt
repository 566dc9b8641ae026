-- ===== src/Base/Text.antt =====
-- std::string as the list of its bytes, and std::to_string on an int.
use tcpchatserver.Base.Tests.{ltb, if◌then◌else◌}
use tcpchatserver.Base.Lists.{length, length-append}
use tcpchatserver.Base.Int.{ℤ, pos, negsuc}
use Prim.Native.Char.{code}
use Prim.Native.String.{String}
use Prim.Native.Nat.{ℕ, zero, suc, ◌+◌, ◌/◌, ◌%◌, ◌≤◌, ◌<◌}
use mathlib.Core.List.{List, [], ◌∷◌, ◌++◌}
use mathlib.Core.Logic.{◌↔◌}
use native.Mathlib.Omega.{arith}

-- The bytes of an ASCII text.
abbrev pub codes : String → List ℕ
codes String.[] = []
codes (String.◌∷◌ c s) = code c ∷ codes s

-- The decimal digits of a number below 10 ^ fuel.
unfoldable pub digits : ℕ → ℕ → List ℕ
digits zero n = []
digits (suc fuel) n =
    let rest = digits fuel (n / 10) ++ (b'0' + n % 10) ∷ [] in
    if ltb n 10 then (b'0' + n) ∷ [] else rest

-- `std::to_string` on an int, whose magnitude has ten digits at most.
unfoldable pub to_string : ℤ → List ℕ
unfolding digits
to_string (pos n) = digits 10 n
to_string (negsuc n) = b'-' ∷ digits 10 (n + 1)

length-digits-le : (fuel n : ℕ) → length (digits fuel n) ≤ fuel
unfolding digits
length-digits-le zero n = omega arith
length-digits-le (suc fuel) n = ground (
  arith,
  length-append (digits fuel (n / 10)) ((b'0' + n % 10) ∷ []),
  length-digits-le fuel (n / 10),
)

pub length-to_string-le : (i : ℤ) → length (to_string i) ≤ 11
unfolding to_string
length-to_string-le (pos n) = omega (arith, length-digits-le 10 n)
length-to_string-le (negsuc n) = omega (arith, length-digits-le 10 (n + 1))

length-digits : (fuel n : ℕ) → n < 1000 → (2 < length (digits (suc (suc (suc fuel))) n)) ↔ (100 ≤ n)
unfolding digits
length-digits fuel n h = (λ k. ground arith, λ k. ground arith)

-- A number below 1000 has a third digit exactly from 100 on.
pub length-to_string : (n : ℕ) → n < 1000 → (2 < length (to_string (pos n))) ↔ (100 ≤ n)
unfolding to_string
length-to_string n h = length-digits 7 n h
