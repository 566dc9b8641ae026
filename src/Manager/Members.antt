-- ===== src/Manager/Members.antt =====
-- joinSession: which session a client is in.
use tcpchatserver.Base.{
  ℕ, ◌≡◌, ◌≢◌, sym, subst, ◌⊎◌, inl, inr, none, some, true, arith, if◌then◌else◌, ◌==◌,
  Option-cases,
}
use tcpchatserver.Base.Int.{ℤ, ℤ_discrete}
use tcpchatserver.Base.IntSet
use tcpchatserver.Base.IntSet.{contains, contains-insert, contains-erase}
use tcpchatserver.Base.Map.{lookup, insert, lookup-insert}
use tcpchatserver.Base.Action.{ok, err, Error}
use tcpchatserver.Uring.{Env}
use tcpchatserver.Uring.Broadcast.{HasRoom}
use tcpchatserver.Session.{Session, add_client}
use tcpchatserver.Session.Join.{NoEntry, add_client-NoEntry, add_client-clients, add_client-room}
use tcpchatserver.Manager.{Manager, store, join_session}

abbrev pub SessionAt : ℤ → Manager → ℕ → Type 0
SessionAt id w ref = lookup ℤ_discrete id w.sessions ≡ some ref

-- No session's set of clients is changed.
abbrev pub SameSets : Manager → Manager → Type 0
SameSets w v = (r : ℕ) → (v.heap r).clients ≡ (w.heap r).clients

-- A client that is in a session's set is registered for that session; different sessions are
-- different objects.
pub record IsExclusive (w : Manager) : Type 0 where
  pub registered :
      (fd id : ℤ) (ref : ℕ)
      → SessionAt id w ref
      → contains fd (w.heap ref).clients ≡ true
      → lookup ℤ_discrete fd w.client_sessions ≡ some id
  pub distinct : (i j : ℤ) (ref : ℕ) → SessionAt i w ref → SessionAt j w ref → i ≡ j

-- So no client is in two sessions.
pub one_session :
    {w : Manager} (fd i j : ℤ) (r s : ℕ)
    → IsExclusive w
    → SessionAt i w r
    → SessionAt j w s
    → contains fd (w.heap r).clients ≡ true
    → contains fd (w.heap s).clients ≡ true
    → i ≡ j
one_session fd i j r s v hi hj ci cj =
    ground (arith, v.registered fd i r hi ci, v.registered fd j s hj cj)

-- joinSession ends in one of four ways. A client that is registered already, and an id that no
-- session has, are refused and change nothing. Otherwise the client is put into the session's set;
-- if no entry is free for its read or its notification, not even after a submit, the error is thrown
-- on and the client is not registered, and else it is registered for the session.
pub join_session_cases :
    (envs : ℕ → Env) (fd id : ℤ) (w : Manager)
    → let (r, v) = join_session envs fd id w in
      ((lookup ℤ_discrete fd w.client_sessions ≢ none)
        × (r ≡ err Error.already_in_session)
        × (v ≡ w))
      ⊎ ((lookup ℤ_discrete fd w.client_sessions ≡ none)
          × (((lookup ℤ_discrete id w.sessions ≡ none)
                × (r ≡ err Error.invalid_session_id)
                × (v ≡ w))
              ⊎ ((ref : ℕ) × SessionAt id w ref
                  × ((v.heap ref).clients ≡ IntSet.insert fd (w.heap ref).clients)
                  × (v.sessions ≡ w.sessions)
                  × (((r ≡ ok tt)
                        × (v.client_sessions ≡ insert ℤ_discrete fd id w.client_sessions)
                        × ¬ NoEntry (envs ref) fd (w.heap ref))
                      ⊎ ((r ≡ err Error.sqe_unavailable)
                          × (v.client_sessions ≡ w.client_sessions)
                          × NoEntry (envs ref) fd (w.heap ref))))))
unfolding join_session
join_session_cases envs fd id w = elim (Option-cases (lookup ℤ_discrete fd w.client_sessions)) [
  | inr (j, e) ↦ inl (ground arith, ground arith, ground arith)
  | inl free ↦ inr (
    free,
    elim (Option-cases (lookup ℤ_discrete id w.sessions)) [
      | inl gone ↦ inl (gone, ground arith, ground arith)
      | inr (ref, e) ↦
          let added = add_client-clients (envs ref) fd (w.heap ref) in
          inr (
            ref,
            e,
            ground arith,
            ground arith,
            elim (add_client-NoEntry (envs ref) fd (w.heap ref)) [
              | inl (done, free_entry) ↦ inl (ground arith, ground arith, free_entry)
              | inr (failed, full) ↦ inr (ground arith, ground arith, full)
            ],
          )
    ],
  )
]

entered :
    (ref r : ℕ) (heap : ℕ → Session) (s : Session) (fd : ℤ)
    → s.clients ≡ IntSet.insert fd (heap ref).clients
    → (store heap ref s r).clients
      ≡ (if ref == r then IntSet.insert fd (heap r).clients else (heap r).clients)
entered ref r heap s fd e = ground arith

-- What a join under free entries is: the state that it ends in, and the set of each object there.
pub join_session_room :
    (envs : ℕ → Env) (fd id : ℤ) (w : Manager) (ref : ℕ)
    → HasRoom (envs ref)
    → lookup ℤ_discrete fd w.client_sessions ≡ none
    → SessionAt id w ref
    → let (r, v) = join_session envs fd id w in
      (r ≡ ok tt)
      × (v.sessions ≡ w.sessions)
      × (v.client_sessions ≡ insert ℤ_discrete fd id w.client_sessions)
      × (v.heap ≡ store w.heap ref (add_client (envs ref) fd (w.heap ref)).1)
unfolding join_session
join_session_room envs fd id w ref room free e =
    let added = add_client-room (envs ref) fd (w.heap ref) room in
    (ground arith, ground arith, ground arith, ground arith)

enter-IsExclusive :
    (fd id : ℤ) (ref : ℕ) (w v : Manager)
    → IsExclusive w
    → lookup ℤ_discrete fd w.client_sessions ≡ none
    → SessionAt id w ref
    → v.sessions ≡ w.sessions
    → v.client_sessions ≡ insert ℤ_discrete fd id w.client_sessions
    → ((r : ℕ)
        → (v.heap r).clients
          ≡ (if ref == r then IntSet.insert fd (w.heap r).clients else (w.heap r).clients))
    → IsExclusive v
enter-IsExclusive fd id ref w v x free at same put sets = record {
  registered = λ d j r h c. ground (
    arith,
    sets r,
    x.registered d j r,
    x.distinct j id r,
    contains-insert d fd (w.heap r).clients,
    lookup-insert ℤ_discrete d fd id w.client_sessions,
  );
  distinct = λ i j r h k. ground (arith, x.distinct i j r);
}

-- Where entries are always free, joinSession keeps every client in at most the one session that it
-- is registered for, on every branch.
pub join_session-IsExclusive :
    (envs : ℕ → Env) (fd id : ℤ) (w : Manager)
    → ((ref : ℕ) → HasRoom (envs ref))
    → IsExclusive w
    → IsExclusive (join_session envs fd id w).1
join_session-IsExclusive envs fd id w room x = elim (join_session_cases envs fd id w) [
  | inl (taken, e, same) ↦ subst IsExclusive (sym same) x
  | inr (free, inl (gone, e, same)) ↦ subst IsExclusive (sym same) x
  | inr (free, inr (ref, at, set, kept, rest)) ↦
      let v = (join_session envs fd id w).1 in
      let (done, same, put, heap) = join_session_room envs fd id w ref (room ref) free at in
      let added = add_client-clients (envs ref) fd (w.heap ref) in
      enter-IsExclusive fd id ref w v x free at same put
        (λ r. rw heap (entered ref r w.heap (add_client (envs ref) fd (w.heap ref)).1 fd added.0))
]

-- A join moves no session between threads.
pub join_session-thread_sessions :
    (envs : ℕ → Env) (fd id : ℤ) (w : Manager)
    → (join_session envs fd id w).1.thread_sessions ≡ w.thread_sessions
unfolding join_session
join_session-thread_sessions envs fd id w =
    elim (Option-cases (lookup ℤ_discrete fd w.client_sessions)) [
      | inr (j, e) ↦ ground arith
      | inl free ↦ elim (Option-cases (lookup ℤ_discrete id w.sessions)) [
        | inl gone ↦ ground arith
        | inr (ref, e) ↦ let added = add_client-clients (envs ref) fd (w.heap ref) in ground arith
      ]
    ]
