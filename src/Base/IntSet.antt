-- ===== src/Base/IntSet.antt =====
-- std::set<int32_t>: the members in ascending order, each once.
use tcpchatserver.Base.Tests.{if◌then◌else◌}
use tcpchatserver.Base.Lists.{All, length}
use tcpchatserver.Base.Int.{ℤ, pos, negsuc, ℤ_discrete, ◌<ℤ◌, ltb_ℤ}
use mathlib.Core.Path.{◌≡◌, refl}
use mathlib.Core.Logic.{ite, ◌≢◌, ◌⊎◌, inr}
use Prim.Native.Nat.{◌+◌}
use mathlib.Core.Bool.{Bool, true, false}
use mathlib.Core.List.{List, [], ◌∷◌}
use native.Mathlib.Omega.{arith}

unfoldable pub contains : ℤ → List ℤ → Bool
contains x [] = false
contains x (y ∷ ys) = ite (ℤ_discrete x y) true (contains x ys)

unfoldable pub insert : ℤ → List ℤ → List ℤ
insert x [] = x ∷ []
insert x (y ∷ ys) =
    if ltb_ℤ x y then x ∷ y ∷ ys else ite (ℤ_discrete x y) (y ∷ ys) (y ∷ insert x ys)

unfoldable pub erase : ℤ → List ℤ → List ℤ
erase x [] = []
erase x (y ∷ ys) = ite (ℤ_discrete x y) (erase x ys) (y ∷ erase x ys)

pub contains-insert :
    (z x : ℤ) (ys : List ℤ) → contains z (insert x ys) ≡ ite (ℤ_discrete z x) true (contains z ys)
unfolding contains insert
contains-insert z x [] = refl
contains-insert z x (y ∷ ys) = ground (arith, contains-insert z x ys)

pub contains-erase :
    (z x : ℤ) (ys : List ℤ) → contains z (erase x ys) ≡ ite (ℤ_discrete z x) false (contains z ys)
unfolding contains erase
contains-erase z x [] = ground arith
contains-erase z x (y ∷ ys) = ground (arith, contains-erase z x ys)

abbrev pub IsAscending : List ℤ → Type 0
IsAscending [] = Unit
IsAscending (x ∷ xs) = All (λ y. x <ℤ y) xs × IsAscending xs

All-insert :
    (x y : ℤ) (ys : List ℤ) → y <ℤ x → All (λ z. y <ℤ z) ys → All (λ z. y <ℤ z) (insert x ys)
unfolding insert
All-insert x y [] h a = (h, tt)
All-insert x y (z ∷ zs) h a = ground (arith, All-insert x y zs h a.1)

All-lt_trans : (x y : ℤ) (ys : List ℤ) → x <ℤ y → All (λ z. y <ℤ z) ys → All (λ z. x <ℤ z) ys
All-lt_trans x y [] h a = tt
All-lt_trans x y (z ∷ zs) h a = (omega arith, All-lt_trans x y zs h a.1)

lt_of_not : (x y : ℤ) → ltb_ℤ x y ≡ false → x ≢ y → y <ℤ x
lt_of_not (pos a) (pos b) h n = ground arith
lt_of_not (pos a) (negsuc b) h n = ground arith
lt_of_not (negsuc a) (pos b) h n = ground arith
lt_of_not (negsuc a) (negsuc b) h n = ground arith

pub insert-IsAscending : (x : ℤ) (ys : List ℤ) → IsAscending ys → IsAscending (insert x ys)
unfolding insert
insert-IsAscending x [] a = (tt, tt)
insert-IsAscending x (y ∷ ys) a =
    ground
      (arith, insert-IsAscending x ys a.1, All-lt_trans x y ys, lt_of_not x y, All-insert x y ys)

All-erase : (x y : ℤ) (ys : List ℤ) → All (λ z. y <ℤ z) ys → All (λ z. y <ℤ z) (erase x ys)
unfolding erase
All-erase x y [] a = tt
All-erase x y (z ∷ zs) a = ground (arith, All-erase x y zs a.1)

pub erase-IsAscending : (x : ℤ) (ys : List ℤ) → IsAscending ys → IsAscending (erase x ys)
unfolding erase
erase-IsAscending x [] a = tt
erase-IsAscending x (y ∷ ys) a = ground (arith, erase-IsAscending x ys a.1, All-erase x y ys a.0)

pub length-insert :
    (x : ℤ) (ys : List ℤ)
    → (length (insert x ys) ≡ length ys) ⊎ (length (insert x ys) ≡ length ys + 1)
unfolding insert
length-insert x [] = inr (ground arith)
length-insert x (y ∷ ys) = ground (arith, length-insert x ys)
