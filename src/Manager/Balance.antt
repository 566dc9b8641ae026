-- ===== src/Manager/Balance.antt =====
-- getNextAvailableSession: the session with the fewest clients.
use tcpchatserver.Base.{
  ℕ, ◌≤◌, ◌<◌, ◌≡◌, ◌≢◌, refl, sym, subst, ◌⊎◌, inl, inr, true, false, List, [], ◌∷◌, arith, ltb,
  All, Bool-cases,
}
use tcpchatserver.Base.Int.{ℤ, negsuc}
use tcpchatserver.Base.Action.{Error, ok, err}
use tcpchatserver.Session.{Session, get_client_count}
use tcpchatserver.Manager.{Manager, size_max, select, get_next_available_session}

abbrev pub Has : ℤ → ℕ → List (ℤ × ℕ) → Type 0
Has id ref [] = ⊥
Has id ref ((i, r) ∷ ss) = ((i ≡ id) × (r ≡ ref)) ⊎ Has id ref ss

abbrev pub count_at : (ℕ → Session) → ℕ → ℕ
count_at heap ref = get_client_count (heap ref)

-- What the loop has found when it ends.
abbrev Selects : (ℕ → Session) → List (ℤ × ℕ) → ℤ → ℕ → ℤ → Type 0
Selects heap ss selected least r =
    ((r ≡ selected) × All (λ e. least ≤ count_at heap e.1) ss)
    ⊎ ((ref : ℕ) × Has r ref ss
        × (count_at heap ref < least)
        × All (λ e. count_at heap ref ≤ count_at heap e.1) ss)

All-le_trans :
    (heap : ℕ → Session) (a b : ℕ) (ss : List (ℤ × ℕ))
    → a ≤ b
    → All (λ e. b ≤ count_at heap e.1) ss
    → All (λ e. a ≤ count_at heap e.1) ss
All-le_trans heap a b [] h l = tt
All-le_trans heap a b (e ∷ ss) h l = (omega arith, All-le_trans heap a b ss h l.1)

module _ (heap : ℕ → Session) (id : ℤ) (ref : ℕ) (ss : List (ℤ × ℕ)) (selected : ℤ)
    (least : ℕ) where
  select-better :
      ltb (count_at heap ref) least ≡ true
      → select heap ((id, ref) ∷ ss) selected least ≡ select heap ss id (count_at heap ref)
  unfolding select
  select-better h = ground arith

  select-worse :
      ltb (count_at heap ref) least ≡ false
      → select heap ((id, ref) ∷ ss) selected least ≡ select heap ss selected least
  unfolding select
  select-worse h = ground arith

select-nil :
    (heap : ℕ → Session) (selected : ℤ) (least : ℕ) → select heap [] selected least ≡ selected
unfolding select
select-nil heap selected least = refl

select-Selects :
    (heap : ℕ → Session) (ss : List (ℤ × ℕ)) (selected : ℤ) (least : ℕ)
    → Selects heap ss selected least (select heap ss selected least)
select-Selects heap [] selected least = inl (select-nil heap selected least, tt)
select-Selects heap ((id, ref) ∷ ss) selected least =
    let c = count_at heap ref in
    let P = Selects heap ((id, ref) ∷ ss) selected least in
    elim (Bool-cases (ltb c least)) [
      | inl better ↦
          subst P (sym (select-better heap id ref ss selected least better))
            (elim (select-Selects heap ss id c) [
              | inl (same, rest) ↦
                  inr (ref, inl (sym same, refl), ground arith, (omega arith, rest))
              | inr (r, has, less, rest) ↦ inr (r, inr has, ground arith, (omega arith, rest))
            ])
      | inr worse ↦
          subst P (sym (select-worse heap id ref ss selected least worse))
            (elim (select-Selects heap ss selected least) [
              | inl (same, rest) ↦ inl (same, (ground arith, rest))
              | inr (r, has, less, rest) ↦ inr (r, inr has, less, (ground arith, rest))
            ])
    ]

nothing_left :
    (heap : ℕ → Session) (ss : List (ℤ × ℕ))
    → All (λ e. count_at heap e.1 < size_max) ss
    → All (λ e. size_max ≤ count_at heap e.1) ss
    → ss ≡ []
nothing_left heap [] small full = refl
nothing_left heap (e ∷ ss) small full = absurd (omega arith)

not_excluded :
    (id : ℤ) (ref : ℕ) (ss : List (ℤ × ℕ))
    → All (λ e. e.0 ≢ negsuc 0) ss
    → Has id ref ss
    → id ≢ negsuc 0
not_excluded id ref [] ids has = absurd has
not_excluded id ref (e ∷ ss) ids (inl (same, at)) = rw same at (ids.0)
not_excluded id ref (e ∷ ss) ids (inr has) = not_excluded id ref ss ids.1 has

-- Where no session's count reaches SIZE_MAX and none has the id -1: the call changes nothing; with
-- no session it throws, and otherwise it returns the id of a session that has at most as many
-- clients as any other, whatever order the map is iterated in.
pub get_next_available_session_least :
    (w : Manager)
    → All (λ e. count_at w.heap e.1 < size_max) w.sessions
    → All (λ e. e.0 ≢ negsuc 0) w.sessions
    → ((w.sessions ≡ []) × (get_next_available_session w ≡ (err Error.no_available_sessions, w)))
      ⊎ ((id : ℤ) × (ref : ℕ) × Has id ref w.sessions
          × All (λ e. count_at w.heap ref ≤ count_at w.heap e.1) w.sessions
          × (get_next_available_session w ≡ (ok id, w)))
unfolding get_next_available_session
get_next_available_session_least w small ids =
    let heap = w.heap in
    elim (select-Selects heap w.sessions (negsuc 0) size_max) [
      | inl (none_left, full) ↦ inl (nothing_left heap w.sessions small full, ground arith)
      | inr (ref, has, less, rest) ↦
          let id = select heap w.sessions (negsuc 0) size_max in
          inr (id, ref, has, rest, ground (arith, not_excluded id ref w.sessions ids has))
    ]
