-- ===== src/Base/Map.antt =====
-- std::unordered_map as an association list; the order of the list is the order of iteration.
use Prim.Native.Nat.{ℕ, zero, suc}
use mathlib.Core.Path.{◌≡◌, refl}
use mathlib.Core.Logic.{ite}
use mathlib.Core.List.{List, [], ◌∷◌}
use mathlib.Core.Option.{Option, none, some}
use native.Mathlib.Omega.{arith}

-- A list with another item at the given place, or at the end.
abbrev pub put_at {ℓ} : {A : Type ℓ} → ℕ → A → List A → List A
put_at zero a xs = a ∷ xs
put_at (suc n) a [] = a ∷ []
put_at (suc n) a (b ∷ xs) = b ∷ put_at n a xs

module _ {ℓ} {K V : Type ℓ} (d : Discrete K) where
  -- `find`; `none` is `end()`.
  unfoldable pub lookup : K → List (K × V) → Option V
  lookup k [] = none
  lookup k ((j, v) ∷ m) = ite (d k j) (some v) (lookup k m)

  -- `m[k] = v`
  unfoldable pub insert : K → V → List (K × V) → List (K × V)
  insert k v [] = (k, v) ∷ []
  insert k v ((j, w) ∷ m) = ite (d k j) ((k, v) ∷ m) ((j, w) ∷ insert k v m)

  -- `m[k] = v` where the iteration has a key that was not there at a place of its own.
  unfoldable pub insert_at : ℕ → K → V → List (K × V) → List (K × V)
  unfolding lookup
  insert_at n k v m = elim (lookup k m) [ none ↦ put_at n (k, v) m | some _ ↦ insert k v m ]

  -- `m.erase(k)`
  unfoldable pub erase : K → List (K × V) → List (K × V)
  erase k [] = []
  erase k ((j, w) ∷ m) = ite (d k j) (erase k m) ((j, w) ∷ erase k m)

  pub lookup-insert :
      (j k : K) (v : V) (m : List (K × V))
      → lookup j (insert k v m) ≡ ite (d j k) (some v) (lookup j m)
  unfolding lookup insert
  lookup-insert j k v [] = refl
  lookup-insert j k v ((i, w) ∷ m) = ground (arith, lookup-insert j k v m)

  pub lookup-erase :
      (j k : K) (m : List (K × V)) → lookup j (erase k m) ≡ ite (d j k) none (lookup j m)
  unfolding lookup erase
  lookup-erase j k [] = ground arith
  lookup-erase j k ((i, w) ∷ m) = ground (arith, lookup-erase j k m)

  pub lookup-erase_self : (k : K) (m : List (K × V)) → lookup k (erase k m) ≡ none
  lookup-erase_self k m = ground (arith, lookup-erase k k m)
