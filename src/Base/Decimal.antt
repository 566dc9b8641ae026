-- ===== src/Base/Decimal.antt =====
-- std::to_string on an unsigned 64-bit integer, and std::stoull.
use tcpchatserver.Base.Tests.{ltb, leb, ◌==◌, if◌then◌else◌, Bool-cases}
use tcpchatserver.Base.Text.{digits}
use Prim.Native.Nat.{ℕ, zero, suc, ◌+◌, ◌-◌, ◌*◌, ◌/◌, ◌%◌, ◌^◌, ◌≤◌, ◌<◌}
use mathlib.Core.Path.{◌≡◌, refl, ◌∙◌, ap}
use mathlib.Core.Logic.{inl, inr}
use mathlib.Core.Bool.{Bool, false, ◌&&◌, ◌||◌}
use mathlib.Core.List.{List, [], ◌∷◌, ◌++◌}
use native.Mathlib.Omega.{arith}

unfoldable pub to_string_u64 : ℕ → List ℕ
to_string_u64 n = digits 20 n

-- What std::stoull does: a value, std::invalid_argument or std::out_of_range.
pub data Parsed : Type 0 where
  number : ℕ → Parsed
  invalid_argument out_of_range : Parsed

abbrev pub is_digit : ℕ → Bool
is_digit c = leb b'0' c && leb c b'9'

abbrev is_space : ℕ → Bool
is_space c = c == 32 || (leb 9 c && leb c 13)

skip_space : List ℕ → List ℕ
skip_space [] = []
skip_space (c ∷ cs) = let rest = skip_space cs in if is_space c then rest else c ∷ cs

-- The value of the digits that a text begins with, behind those that make up `n`.
value : ℕ → List ℕ → ℕ
value n [] = n
value n (c ∷ cs) = let rest = value (10 * n + (c - b'0')) cs in if is_digit c then rest else n

abbrev in_range : ℕ → Parsed
in_range n = if ltb n (2 ^ 64) then Parsed.number n else Parsed.out_of_range

unsigned : List ℕ → Parsed
unfolding value
unsigned [] = Parsed.invalid_argument
unsigned (c ∷ cs) = if is_digit c then in_range (value 0 (c ∷ cs)) else Parsed.invalid_argument

abbrev negated : Parsed → Parsed
negated (Parsed.number n) = Parsed.number ((2 ^ 64 - n) % 2 ^ 64)
negated p = p

signed : List ℕ → Parsed
unfolding unsigned
signed [] = Parsed.invalid_argument
signed (c ∷ cs) =
    if c == b'-'
    then negated (unsigned cs)
    else if c == b'+'
    then unsigned cs
    else unsigned (c ∷ cs)

unfoldable pub stoull : List ℕ → Parsed
unfolding signed skip_space
stoull s = signed (skip_space s)

append-digit : (xs ys : List ℕ) (d : ℕ) → (xs ++ d ∷ []) ++ ys ≡ xs ++ d ∷ ys
append-digit [] ys d = refl
append-digit (x ∷ xs) ys d = ap (◌∷◌ x) (append-digit xs ys d)

value-digits :
    (fuel n : ℕ) (rest : List ℕ)
    → n < 10 ^ suc fuel
    → value 0 (digits (suc fuel) n ++ rest) ≡ value n rest
unfolding digits value
value-digits zero n rest h = ground arith
value-digits (suc fuel) n rest h = ground (
  arith,
  append-digit (digits (suc fuel) (n / 10)) rest (b'0' + n % 10),
  value-digits fuel (n / 10) ((b'0' + n % 10) ∷ rest),
)

digits-head :
    (fuel n : ℕ)
    → (d : ℕ) × (tail : List ℕ) × (digits (suc fuel) n ≡ d ∷ tail) × (b'0' ≤ d) × (d ≤ b'9')
unfolding digits
digits-head zero n = elim (Bool-cases (ltb n 10)) [
  | inl few ↦ (b'0' + n, [], ground arith, omega arith, ground arith)
  | inr many ↦ (b'0' + n % 10, [], ground arith, omega arith, omega arith)
]
digits-head (suc fuel) n =
    let (d, tail, e, lo, hi) = digits-head fuel (n / 10) in
    elim (Bool-cases (ltb n 10)) [
      | inl few ↦ (b'0' + n, [], ground arith, omega arith, ground arith)
      | inr many ↦ (d, tail ++ (b'0' + n % 10) ∷ [], ground arith, lo, hi)
    ]

-- A number of 64 bits in decimal, followed by something that is no digit, is read back.
pub stoull-to_string :
    (n c : ℕ) (rest : List ℕ)
    → n < 2 ^ 64
    → is_digit c ≡ false
    → stoull (to_string_u64 n ++ c ∷ rest) ≡ Parsed.number n
unfolding stoull signed unsigned skip_space value to_string_u64
stoull-to_string n c rest h stop =
    let (d, tail, e, lo, hi) = digits-head 19 n in
    let read : value 0 (digits 20 n ++ c ∷ rest) ≡ n =
      value-digits 19 n (c ∷ rest) (omega arith) ∙ ground arith in
    ground arith
