-- ===== src/Client/Text.antt =====
-- What the client uses of std::string: find and substr.
use tcpchatserver.Base.{
  ℕ, suc, Option, none, some, Bool, true, false, List, [], ◌∷◌, ◌==◌, ◌&&◌, if◌then◌else◌, take,
  drop,
}

abbrev pub starts_with : List ℕ → List ℕ → Bool
starts_with [] s = true
starts_with (p ∷ ps) [] = false
starts_with (p ∷ ps) (c ∷ cs) = p == c && starts_with ps cs

abbrev pub one_later : Option ℕ → Option ℕ
one_later none = none
one_later (some i) = some (suc i)

-- `s.find(p)`; `none` is npos.
unfoldable pub find : List ℕ → List ℕ → Option ℕ
find p [] = if starts_with p [] then some 0 else none
find p (c ∷ cs) =
    let rest = one_later (find p cs) in if starts_with p (c ∷ cs) then some 0 else rest

-- `s.substr(i, n)` for i up to the length of `s`.
abbrev pub substr : ℕ → ℕ → List ℕ → List ℕ
substr i n s = take n (drop i s)
