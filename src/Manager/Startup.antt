-- ===== src/Manager/Startup.antt =====
-- initialize: the sessions that the server starts with, and how the threads share them.
use mathlib.Core.List.{Perm, append_assoc}
use mathlib.Core.List.Perm
use mathlib.Core.Path.{◌≡⟨◌⟩◌, ◌∎}
use tcpchatserver.Base.{
  ℕ, zero, suc, ◌+◌, ◌-◌, ◌^◌, ◌≤◌, ◌<◌, ◌≡◌, refl, sym, ap, subst, ◌∙◌, none, some, Option-cases,
  inl, inr, List, [], ◌∷◌, ◌++◌, arith, All, length, length-append, replicate, map,
}
use tcpchatserver.Base.Int.{ℤ, pos, ℤ_discrete}
use tcpchatserver.Base.Map.{lookup, put_at, insert_at}
use tcpchatserver.Base.Action.{ok}
use tcpchatserver.Uring.{IoUring}
use tcpchatserver.Session.{Session, new_session}
use tcpchatserver.Manager.{
  Setup, Manager, create, get_optimal_thread_count, initialize, create_session, create_sessions,
  distribute, distribute_sessions_to_threads, push_at, resize, spread_sessions,
}

-- The sessions 0 to n - 1, each at the address of its number.
abbrev pub below : ℕ → List (ℤ × ℕ)
below zero = []
below (suc n) = (pos n, n) ∷ below n

-- A session stands under the number that is its address.
abbrev pub IsOwn : ℕ → ℤ × ℕ → Type 0
IsOwn k e = (e.0 ≡ pos e.1) × (e.1 < k)

put_at-Perm : (n : ℕ) (e : ℤ × ℕ) (ss : List (ℤ × ℕ)) → Perm (put_at n e ss) (e ∷ ss)
put_at-Perm zero e ss = Perm.refl (e ∷ ss)
put_at-Perm (suc n) e [] = Perm.refl (e ∷ [])
put_at-Perm (suc n) e (f ∷ ss) = Perm.trans (Perm.cons f (put_at-Perm n e ss)) (Perm.swap e f ss)

length-put_at : (n : ℕ) (e : ℤ × ℕ) (ss : List (ℤ × ℕ)) → length (put_at n e ss) ≡ suc (length ss)
length-put_at zero e ss = refl
length-put_at (suc n) e [] = refl
length-put_at (suc n) e (f ∷ ss) = ap suc (length-put_at n e ss)

All-put_at :
    (P : ℤ × ℕ → Type 0) (n : ℕ) (e : ℤ × ℕ) (ss : List (ℤ × ℕ))
    → P e
    → All P ss
    → All P (put_at n e ss)
All-put_at P zero e ss h all = (h, all)
All-put_at P (suc n) e [] h all = (h, tt)
All-put_at P (suc n) e (f ∷ ss) h all = (all.0, All-put_at P n e ss h all.1)

All-map :
    (P Q : ℤ × ℕ → Type 0) (ss : List (ℤ × ℕ)) → ((e : ℤ × ℕ) → P e → Q e) → All P ss → All Q ss
All-map P Q [] f h = tt
All-map P Q (e ∷ ss) f h = (f e h.0, All-map P Q ss f h.1)

lookup-IsOwn :
    (id : ℤ) (k ref : ℕ) (ss : List (ℤ × ℕ))
    → All (IsOwn k) ss
    → lookup ℤ_discrete id ss ≡ some ref
    → (id ≡ pos ref) × (ref < k)
unfolding lookup
lookup-IsOwn id k ref [] all e = cc
lookup-IsOwn id k ref ((i, r) ∷ ss) all e = ground (arith, all.0, lookup-IsOwn id k ref ss all.1)

record Started (k : ℕ) (w : Manager) : Type 0 where
  next : w.next_ref ≡ k
  id : w.next_session_id ≡ k
  all : Perm w.sessions (below k)
  size : length w.sessions ≡ k
  own : All (IsOwn k) w.sessions
  fresh : (r : ℕ) → r < k → (w.heap r).clients ≡ []
  named : (r : ℕ) → r < k → (w.heap r).session_id ≡ pos r

-- What the loop of initialize leaves alone.
abbrev SameRest : Manager → Manager → Type 0
SameRest w v =
    (v.client_sessions ≡ w.client_sessions)
    × (v.thread_sessions ≡ w.thread_sessions)
    × (v.num_worker_threads ≡ w.num_worker_threads)

module _ (rings : Setup) (made : (r : ℕ) → (u : IoUring) × (rings.ring r ≡ ok u)) where
  create_session-Started :
      (k : ℕ) (w : Manager)
      → k < 2 ^ 31
      → Started k w
      → let (r, v) = create_session rings w in (r ≡ ok tt) × Started (suc k) v × SameRest w v
  unfolding create_session new_session insert_at
  create_session-Started k w h s =
      let (u, e) = made w.next_ref in
      let v = (create_session rings w).1 in
      let n = rings.place w.next_ref in
      let new : lookup ℤ_discrete (pos k) w.sessions ≡ none =
        elim (Option-cases (lookup ℤ_discrete (pos k) w.sessions)) [
          | inl gone ↦ gone
          | inr (r, there) ↦
              let own = lookup-IsOwn (pos k) k r w.sessions s.own there in ground arith
        ] in
      let put : v.sessions ≡ put_at n (pos k, k) w.sessions = ground (arith, s.next, s.id) in
      (
        ground arith,
        record {
          next = ground (arith, s.next);
          id = ground (arith, s.id);
          all =
              subst (λ ss. Perm ss (below (suc k))) (sym put)
                (Perm.trans (put_at-Perm n (pos k, k) w.sessions) (Perm.cons (pos k, k) s.all));
          size = ap length put ∙ length-put_at n (pos k, k) w.sessions ∙ ap suc s.size;
          own = subst (All (IsOwn (suc k))) (sym put) (
              All-put_at (IsOwn (suc k)) n (pos k, k) w.sessions (refl, omega arith)
                (All-map (IsOwn k) (IsOwn (suc k)) w.sessions (λ e o. (o.0, omega (arith, o.1)))
                  s.own));
          fresh = λ r l. ground (arith, s.next, s.fresh r);
          named = λ r l. ground (arith, s.next, s.id, s.named r);
        },
        (ground arith, ground arith, ground arith),
      )

  create_sessions-Started :
      (n k m : ℕ) (w : Manager)
      → m ≡ k + n
      → m ≤ 2 ^ 31
      → Started k w
      → let (r, v) = create_sessions rings n w in (r ≡ ok tt) × Started m v × SameRest w v
  unfolding create_sessions
  create_sessions-Started zero k m w e h s =
      let same : k ≡ m = omega arith in (refl, subst (λ j. Started j w) same s, (refl, refl, refl))
  create_sessions-Started (suc n) k m w e h s =
      let v = (create_session rings w).1 in
      let (done, started, rest) = create_session-Started k w (omega arith) s in
      let step : create_sessions rings (suc n) w ≡ create_sessions rings n v = ground arith in
      let (done', started', rest') =
        create_sessions-Started n (suc k) m v (omega arith) h started in
      subst (λ x. (x.0 ≡ ok tt) × Started m x.1 × SameRest w x.1) (sym step)
        (done', started', (rest'.0 ∙ rest.0, rest'.1 ∙ rest.1, rest'.2 ∙ rest.2))

push_at-lem :
    (pre : List (List ℕ)) (i ref : ℕ) (ts : List (List ℕ))
    → length pre ≡ i
    → push_at i ref (pre ++ [] ∷ ts) ≡ pre ++ (ref ∷ []) ∷ ts
push_at-lem [] zero ref ts e = refl
push_at-lem [] (suc i) ref ts e = cc
push_at-lem (t ∷ pre) zero ref ts e = cc
push_at-lem (t ∷ pre) (suc i) ref ts e = ap (◌∷◌ t) (push_at-lem pre i ref ts (omega arith))

abbrev pub alone : ℤ × ℕ → List ℕ
alone e = e.1 ∷ []

-- As many sessions as threads: each thread gets one, in the order of the map.
distribute-alone :
    (n i : ℕ) (ss : List (ℤ × ℕ)) (pre : List (List ℕ))
    → length pre ≡ i
    → i + length ss ≡ n
    → distribute n i ss (pre ++ replicate (length ss) []) ≡ pre ++ map alone ss
unfolding distribute
distribute-alone n i [] pre e h = refl
distribute-alone n i ((id, ref) ∷ ss) pre e h =
    let rest = replicate (length ss) [] in
    let one = (ref ∷ []) ∷ [] in
    distribute n i ((id, ref) ∷ ss) (pre ++ [] ∷ rest)
    ≡⟨ ground arith ⟩ distribute n (i + 1) ss (push_at i ref (pre ++ [] ∷ rest))
    ≡⟨ ap (distribute n (i + 1) ss) (push_at-lem pre i ref rest e) ⟩
      distribute n (i + 1) ss (pre ++ (one ++ rest))
    ≡⟨ ap (distribute n (i + 1) ss) (sym (append_assoc pre one rest)) ⟩
      distribute n (i + 1) ss ((pre ++ one) ++ rest)
    ≡⟨ distribute-alone n (i + 1) ss (pre ++ one) (omega (arith, length-append pre one))
        (omega arith) ⟩
      (pre ++ one) ++ map alone ss
    ≡⟨ append_assoc pre one (map alone ss) ⟩ pre ++ map alone ((id, ref) ∷ ss) ∎

resize-nil : (n : ℕ) → resize n [] ≡ replicate n []
resize-nil zero = refl
resize-nil (suc n) =
    let all : suc n - 0 ≡ suc n = omega arith in ap (λ k. replicate {A = List ℕ} k []) all

spread :
    (n : ℕ) (v : Manager)
    → length v.sessions ≡ n
    → v.num_worker_threads ≡ n
    → v.thread_sessions ≡ []
    → (spread_sessions v).thread_sessions ≡ map alone v.sessions
unfolding distribute_sessions_to_threads
spread n v size num none_yet =
    let all = distribute-alone n 0 v.sessions [] refl (omega (arith, size)) in
    subst
      (λ ts.
        distribute v.num_worker_threads 0 v.sessions (resize v.num_worker_threads ts)
        ≡ map alone v.sessions)
      (sym none_yet)
      (subst (λ k. distribute k 0 v.sessions (resize k []) ≡ map alone v.sessions) (sym num)
        (rw (resize-nil n) (
          subst (λ k. distribute n 0 v.sessions (replicate k []) ≡ map alone v.sessions) size all)))

-- The result of initialize on the constructed manager, in its two parts.
module _ (rings : Setup) (made : (r : ℕ) → (u : IoUring) × (rings.ring r ≡ ok u)) (hw : ℕ)
    (heap : ℕ → Session) (few : get_optimal_thread_count hw ≤ 2 ^ 31) where
  abbrev pub threads : ℕ
  threads = get_optimal_thread_count hw

  no_threads : (create hw heap).thread_sessions ≡ []
  unfolding create
  no_threads = refl

  no_clients : (create hw heap).client_sessions ≡ []
  unfolding create
  no_clients = refl

  workers : (create hw heap).num_worker_threads ≡ threads
  unfolding create
  workers = refl

  start-Started : Started 0 (create hw heap)
  unfolding create
  start-Started = record {
    next = refl;
    id = refl;
    all = Perm.refl [];
    size = refl;
    own = tt;
    fresh = λ r l. absurd (omega arith);
    named = λ r l. absurd (omega arith);
  }

  loop :
      let (r, v) = create_sessions rings threads (create hw heap) in
      (r ≡ ok tt) × Started threads v × SameRest (create hw heap) v
  loop =
      create_sessions-Started rings made threads 0 threads (create hw heap) (omega arith) few
        start-Started

  abbrev after_loop : Manager
  after_loop = (create_sessions rings threads (create hw heap)).1

  abbrev ended : Manager
  ended = spread_sessions after_loop

  ended-lem : initialize rings (create hw heap) ≡ (ok tt, ended)
  unfolding initialize
  ended-lem = ground (arith, loop.0, workers)

  -- The number of threads is one less than that of the machine's, or one where it is not known. At
  -- most 2 ^ 31 of them: where every session's ring can be made, initialize succeeds and leaves the
  -- sessions 0, 1, ... one for each thread, in some order, each without clients; the threads have one
  -- session each, in that order; and no client is registered.
  pub initialize_lem :
      let (r, v) = initialize rings (create hw heap) in
      (r ≡ ok tt)
      × Perm v.sessions (below threads)
      × (v.thread_sessions ≡ map alone v.sessions)
      × (v.client_sessions ≡ [])
  unfolding distribute_sessions_to_threads
  initialize_lem =
      let (done, started, rest) = loop in
      subst
        (λ x.
          (x.0 ≡ ok tt)
          × Perm x.1.sessions (below threads)
          × (x.1.thread_sessions ≡ map alone x.1.sessions)
          × (x.1.client_sessions ≡ []))
        (sym ended-lem)
        (
          refl,
          started.all,
          spread threads after_loop started.size (rest.2 ∙ workers) (rest.1 ∙ no_threads),
          rest.0 ∙ no_clients,
        )

  -- Every session has no clients and the id that the map has it at, which is its address.
  pub initialize-sessions :
      (id : ℤ) (ref : ℕ)
      → let v = (initialize rings (create hw heap)).1 in
        lookup ℤ_discrete id v.sessions ≡ some ref
        → (id ≡ pos ref) × ((v.heap ref).clients ≡ []) × ((v.heap ref).session_id ≡ id)
  unfolding distribute_sessions_to_threads
  initialize-sessions id ref =
      let (done, started, rest) = loop in
      subst
        (λ x.
          lookup ℤ_discrete id x.1.sessions ≡ some ref
          → (id ≡ pos ref) × ((x.1.heap ref).clients ≡ []) × ((x.1.heap ref).session_id ≡ id))
        (sym ended-lem)
        (λ at.
          let (same, small) = lookup-IsOwn id threads ref after_loop.sessions started.own at in
          (same, started.fresh ref small, started.named ref small ∙ sym same))
