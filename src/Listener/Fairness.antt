-- ===== src/Listener/Fairness.antt =====
-- How the listener shares the connections among the sessions.
use tcpchatserver.Base.{
  ℕ, suc, ◌+◌, ◌-◌, ◌≤◌, ◌<◌, ◌≡◌, ◌≢◌, refl, sym, subst, ◌⊎◌, inl, inr, some, List, [], ◌∷◌, arith,
  length, All, Option-cases, Bool-cases, ◌==◌,
}
use tcpchatserver.Base.Int.{ℤ, negsuc, ℤ_discrete}
use tcpchatserver.Base.IntSet.{length-insert}
use tcpchatserver.Base.Map.{lookup}
use tcpchatserver.Base.Action.{Result-cases}
use tcpchatserver.Context.{OperationType, get_context}
use tcpchatserver.Uring.{Env, submit_and_wait_ring}
use tcpchatserver.Session.{Session, get_client_count}
use tcpchatserver.Session.Join.{add_client-clients}
use tcpchatserver.Manager.{Manager, size_max, join_session}
use tcpchatserver.Manager.Balance.{Has, count_at, get_next_available_session_least}
use tcpchatserver.Manager.Members.{SessionAt}
use tcpchatserver.Handlers.{Cqe}
use tcpchatserver.Listener.Serving.{accept_by-serves}
use tcpchatserver.Listener.{
  Server, assign_body, assign, accept_by, accept_event, accept_events, accept_batch,
  process_events_round,
}

-- The sessions' numbers of clients differ by one at most. The ids of the map are different from each
-- other and from -1.
pub record IsBalanced (w : Manager) : Type 0 where
  pub even :
      (i j : ℤ) (r q : ℕ)
      → SessionAt i w r
      → SessionAt j w q
      → count_at w.heap r ≤ count_at w.heap q + 1
  pub keys : (id : ℤ) (ref : ℕ) → Has id ref w.sessions → SessionAt id w ref
  pub ids : All (λ e. e.0 ≢ negsuc 0) w.sessions

-- At most one session gets another client, that with the id.
Grows : ℤ → Manager → Manager → Type 0
Grows id w v =
    (v.sessions ≡ w.sessions)
    × ((r : ℕ)
        → (count_at v.heap r ≡ count_at w.heap r)
          ⊎ (SessionAt id w r × (count_at v.heap r ≡ count_at w.heap r + 1)))

join_session-Grows :
    (envs : ℕ → Env) (fd id : ℤ) (w : Manager) → Grows id w (join_session envs fd id w).1
unfolding Grows join_session get_client_count
join_session-Grows envs fd id w = elim (Option-cases (lookup ℤ_discrete fd w.client_sessions)) [
  | inr (j, e) ↦ (ground arith, λ r. inl (ground arith))
  | inl free ↦ elim (Option-cases (lookup ℤ_discrete id w.sessions)) [
    | inl gone ↦ (ground arith, λ r. inl (ground arith))
    | inr (ref, e) ↦
        let added = add_client-clients (envs ref) fd (w.heap ref) in
        let more = length-insert fd (w.heap ref).clients in
        (
          ground arith,
          λ r. elim (Bool-cases (ref == r)) [
            | inr elsewhere ↦ inl (ground arith)
            | inl here ↦ elim more [
              | inl same ↦ inl (ground arith)
              | inr one ↦ inr (ground arith, ground arith)
            ]
          ],
        )
  ]
]

-- A session with the fewest clients may get one.
Grows-IsBalanced :
    (id : ℤ) (ref : ℕ) (w v : Manager)
    → IsBalanced w
    → SessionAt id w ref
    → ((j : ℤ) (q : ℕ) → SessionAt j w q → count_at w.heap ref ≤ count_at w.heap q)
    → Grows id w v
    → IsBalanced v
unfolding Grows
Grows-IsBalanced id ref w v b at least (same, more) = record {
  even = λ i j r q h k.
      let h' : SessionAt i w r = rw same at h in
      let k' : SessionAt j w q = rw same at k in
      ground (arith, b.even i j r q h' k', least i r h', least j q k', more r, more q);
  keys = λ j q h.
      subst (λ ss. lookup ℤ_discrete j ss ≡ some q) (sym same)
        (b.keys j q (subst (λ ss. Has j q ss) same h));
  ids = subst (λ ss. All (λ e. e.0 ≢ negsuc 0) ss) (sym same) b.ids;
}

-- A map with one value for each key has what is at a key in the list of its entries.
lookup-Has :
    (P : ℕ → Type 0) (id : ℤ) (ref : ℕ) (ss : List (ℤ × ℕ))
    → All (λ e. P e.1) ss
    → lookup ℤ_discrete id ss ≡ some ref
    → P ref
unfolding lookup
lookup-Has P id ref [] all e = absurd (cc)
lookup-Has P id ref ((j, r) ∷ ss) all e = elim (ℤ_discrete id j) [
  | yes here ↦ let eq : r ≡ ref = ground arith in subst P eq all.0
  | no there ↦ lookup-Has P id ref ss all.1 (ground arith)
]

-- No count is within `n` of SIZE_MAX.
abbrev pub HasRoomFor : ℕ → Manager → Type 0
HasRoomFor n w = All (λ e. count_at w.heap e.1 + n < size_max) w.sessions

HasRoomFor-less :
    (n : ℕ) (heap : ℕ → Session) (ss : List (ℤ × ℕ))
    → All (λ e. count_at heap e.1 + suc n < size_max) ss
    → All (λ e. count_at heap e.1 < size_max) ss × All (λ e. count_at heap e.1 + n < size_max) ss
HasRoomFor-less n heap [] h = (tt, tt)
HasRoomFor-less n heap (e ∷ ss) h =
    let rest = HasRoomFor-less n heap ss h.1 in
    let first : count_at heap e.1 + suc n < size_max = h.0 in
    ((omega arith, rest.0), (omega arith, rest.1))

HasRoomFor-Grows :
    (n : ℕ) (ss : List (ℤ × ℕ)) (f g : ℕ → Session)
    → ((r : ℕ) → (count_at g r ≡ count_at f r) ⊎ (count_at g r ≡ count_at f r + 1))
    → All (λ e. count_at f e.1 + suc n < size_max) ss
    → All (λ e. count_at g e.1 + n < size_max) ss
HasRoomFor-Grows n [] f g more h = tt
HasRoomFor-Grows n (e ∷ ss) f g more h =
    let first : count_at f e.1 + suc n < size_max = h.0 in
    (ground (arith, more e.1), HasRoomFor-Grows n ss f g more h.1)

-- After an accepted connection, and so whatever became of it.
Fair : ℕ → Manager → Type 0
Fair n w = IsBalanced w × HasRoomFor n w

spare-Fair : (n : ℕ) (w : Manager) → Fair (suc n) w → Fair n w
unfolding Fair
spare-Fair n w (b, space) = (b, (HasRoomFor-less n w.heap w.sessions space).1)

module _ (env : Env) (envs : ℕ → Env) where
  assign_body-Fair :
      (n : ℕ) (fd : ℤ) (w : Manager) → Fair (suc n) w → Fair n (assign_body env envs fd w).1
  unfolding Fair Grows assign_body
  assign_body-Fair n fd w (b, space) =
      let (small, spare) = HasRoomFor-less n w.heap w.sessions space in
      elim (get_next_available_session_least w small b.ids) [
        | inl (gone, e) ↦ subst (Fair n) (ground arith) (b, spare)
        | inr (id, ref, has, least, e) ↦
            let v = (join_session envs fd id w).1 in
            let grows = join_session-Grows envs fd id w in
            let same : (assign_body env envs fd w).1 ≡ v = ground arith in
            let all : (j : ℤ) (q : ℕ) → SessionAt j w q → count_at w.heap ref ≤ count_at w.heap q =
              λ j q at.
                lookup-Has (λ q. count_at w.heap ref ≤ count_at w.heap q) j q w.sessions least at in
            subst (Fair n) (sym same) (
              Grows-IsBalanced id ref w v b (b.keys id ref has) all grows,
              subst (λ ss. All (λ e. count_at v.heap e.1 + n < size_max) ss) (sym grows.0)
                  (HasRoomFor-Grows n w.sessions w.heap v.heap (λ r. ground (arith, grows.1 r))
                    space),
            )
      ]

  assign-Fair :
      (n : ℕ) (fd : ℤ) (s : Server)
      → Fair (suc n) s.manager
      → Fair n (assign env envs fd s).1.manager
  unfolding assign
  assign-Fair n fd s fair = elim (Result-cases (assign_body env envs fd s.manager).0) [
    | inl (d, e) ↦ ground (arith, assign_body-Fair n fd s.manager fair)
    | inr (x, e) ↦ ground (arith, assign_body-Fair n fd s.manager fair)
  ]

  accept_by-Fair :
      (n : ℕ) (type : OperationType) (res : ℤ) (s : Server)
      → Fair (suc n) s.manager
      → Fair n (accept_by env envs type res s).1.manager
  unfolding accept_by
  accept_by-Fair n OperationType.accept res s fair =
      ground (arith, assign-Fair n res s fair, spare-Fair n s.manager fair)
  accept_by-Fair n _ res s fair = spare-Fair n s.manager fair

  accept_events-Fair :
      (m n : ℕ) (cqes : List Cqe) (s : Server)
      → m ≡ length cqes + n
      → Fair m s.manager
      → Fair n (accept_events env envs cqes s).1.manager
  unfolding accept_events accept_event
  accept_events-Fair m n [] s e fair =
      let same : m ≡ n = omega arith in subst (λ k. Fair k s.manager) same fair
  accept_events-Fair m n (cqe ∷ cqes) s e fair =
      let type = (get_context cqe.user_data).op_type in
      let t = (accept_by env envs type cqe.res s).1 in
      let done = (accept_by-serves env envs type cqe.res s).0 in
      let more : m ≡ suc (length cqes + n) = omega arith in
      let fair' =
        accept_by-Fair (length cqes + n) type cqe.res s (subst (λ k. Fair k s.manager) more fair) in
      ground (arith, done, accept_events-Fair (length cqes + n) n cqes t refl fair')

  accept_batch-Fair :
      (m n : ℕ) (cqes : List Cqe) (s : Server)
      → m ≡ length cqes + n
      → Fair m s.manager
      → Fair n (accept_batch env envs cqes s).1.manager
  unfolding accept_batch accept_events
  accept_batch-Fair m n [] s e fair = accept_events-Fair m n [] s e fair
  accept_batch-Fair m n (cqe ∷ cqes) s e fair =
      ground (arith, accept_events-Fair m n (cqe ∷ cqes) s e fair)

  round-Fair :
      (m : ℕ) (peeked again : List Cqe) (s : Server)
      → length peeked ≤ m
      → length again ≤ m
      → Fair m s.manager
      → IsBalanced (process_events_round env envs peeked again s).1.manager
  unfolding process_events_round Fair
  round-Fair m (cqe ∷ cqes) again s h k fair =
      (accept_batch-Fair m (m - length (cqe ∷ cqes)) (cqe ∷ cqes) s (omega arith) fair).0
  round-Fair m [] again s h k fair =
      let u = (submit_and_wait_ring env s.listener.io_ring).1 in
      let t = record s { listener = record (s.listener) { io_ring = u } } in
      let batch = accept_batch-Fair m (m - length again) again t (omega arith) fair in
      ground (arith, batch.0, fair.0)

-- Before a round of the listener, the sessions' numbers of clients differ by one at most, the ids in
-- the map are different from each other and from -1, and no number reaches SIZE_MAX with as many more
-- clients as there are completions. Then, whatever the completions are, and whether the submission
-- queues have entries or not, the numbers differ by one at most after it.
pub process_events_round-IsBalanced :
    (env : Env) (envs : ℕ → Env) (m : ℕ) (peeked again : List Cqe) (s : Server)
    → length peeked ≤ m
    → length again ≤ m
    → HasRoomFor m s.manager
    → IsBalanced s.manager
    → IsBalanced (process_events_round env envs peeked again s).1.manager
unfolding Fair
process_events_round-IsBalanced env envs m peeked again s h k space b =
    round-Fair env envs m peeked again s h k (b, space)
