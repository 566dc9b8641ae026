-- ===== src/Manager/Leave.antt =====
-- removeSession: how a client leaves its session.
use tcpchatserver.Base.{
  ℕ, ◌<◌, ◌≡◌, ◌≢◌, sym, subst, ◌⊎◌, inl, inr, none, some, true, false, arith, Option-cases,
}
use tcpchatserver.Base.Int.{ℤ, ℤ_discrete}
use tcpchatserver.Base.IntSet
use tcpchatserver.Base.IntSet.{contains, contains-insert, contains-erase}
use tcpchatserver.Base.Map.{lookup, insert, erase, lookup-insert, lookup-erase}
use tcpchatserver.Uring.{Env}
use tcpchatserver.Uring.Broadcast.{HasRoom}
use tcpchatserver.Session.{remove_client, get_client_count}
use tcpchatserver.Session.Join.{add_client-clients}
use tcpchatserver.Manager.{Manager, store, join_session, remove_session, leave}
use tcpchatserver.Base.Map.{lookup-erase_self}
use tcpchatserver.Manager.{get_session}
use tcpchatserver.Manager.Members.{SessionAt, IsExclusive, join_session_room}

-- removeSession of a client that is not registered changes nothing. Else it ends the registration
-- and nothing else where the session is gone; and where the session is there it takes the client
-- out of the session's set, and the session out of the map exactly if the set is then empty.
pub remove_session_cases :
    (fd : ℤ) (w : Manager)
    → let v = remove_session fd w in
      ((lookup ℤ_discrete fd w.client_sessions ≡ none) × (v ≡ w))
      ⊎ ((id : ℤ) × (lookup ℤ_discrete fd w.client_sessions ≡ some id)
          × (v.client_sessions ≡ erase ℤ_discrete fd w.client_sessions)
          × (((lookup ℤ_discrete id w.sessions ≡ none)
                × (v.heap ≡ w.heap)
                × (v.sessions ≡ w.sessions))
              ⊎ ((ref : ℕ) × SessionAt id w ref
                  × (v.heap ≡ store w.heap ref (remove_client fd (w.heap ref)))
                  × (((get_client_count (remove_client fd (w.heap ref)) ≡ 0)
                        × (v.sessions ≡ erase ℤ_discrete id w.sessions))
                      ⊎ ((0 < get_client_count (remove_client fd (w.heap ref)))
                          × (v.sessions ≡ w.sessions))))))
unfolding remove_session leave
remove_session_cases fd w = elim (Option-cases (lookup ℤ_discrete fd w.client_sessions)) [
  | inl free ↦ inl (free, ground arith)
  | inr (id, e) ↦ inr (
    id,
    e,
    ground arith,
    elim (Option-cases (lookup ℤ_discrete id w.sessions)) [
      | inl gone ↦ inl (gone, ground arith, ground arith)
      | inr (ref, at) ↦ inr (ref, at, ground arith, ground arith)
    ],
  )
]

-- From a state with an exclusive membership, a client is taken out everywhere.
depart-IsExclusive :
    (fd : ℤ) (w v : Manager)
    → IsExclusive w
    → v.client_sessions ≡ erase ℤ_discrete fd w.client_sessions
    → ((i : ℤ) (r : ℕ) → SessionAt i v r → SessionAt i w r)
    → ((d i : ℤ) (r : ℕ)
        → SessionAt i v r
        → contains d (v.heap r).clients ≡ true
        → (contains d (w.heap r).clients ≡ true) × (d ≢ fd))
    → IsExclusive v
depart-IsExclusive fd w v x out fewer members = record {
  registered = λ d j r h c. ground (
    arith,
    members d j r h c,
    fewer j r h,
    x.registered d j r,
    lookup-erase ℤ_discrete d fd w.client_sessions,
  );
  distinct = λ i j r h k. ground (arith, fewer i r h, fewer j r k, x.distinct i j r);
}

departed :
    (fd d i id : ℤ) (ref r : ℕ) (w v : Manager)
    → IsExclusive w
    → lookup ℤ_discrete fd w.client_sessions ≡ some id
    → SessionAt id w ref
    → v.heap ≡ store w.heap ref (remove_client fd (w.heap ref))
    → SessionAt i w r
    → contains d (v.heap r).clients ≡ true
    → (contains d (w.heap r).clients ≡ true) × (d ≢ fd)
unfolding remove_client
departed fd d i id ref r w v x reg at heap h c =
    let c' : contains d (store w.heap ref (remove_client fd (w.heap ref)) r).clients ≡ true =
      rw heap at c in
    let member : contains d (w.heap r).clients ≡ true =
      ground (arith, contains-erase d fd (w.heap r).clients) in
    let own : lookup ℤ_discrete d w.client_sessions ≡ some i = x.registered d i r h member in
    (member, λ e. ground (arith, contains-erase d fd (w.heap r).clients))

-- removeSession keeps it too.
pub remove_session-IsExclusive :
    (fd : ℤ) (w : Manager) → IsExclusive w → IsExclusive (remove_session fd w)
unfolding remove_client
remove_session-IsExclusive fd w x =
    let v = remove_session fd w in
    elim (remove_session_cases fd w) [
      | inl (free, same) ↦ subst IsExclusive (sym same) x
      | inr (id, reg, out, inl (gone, heap, same)) ↦
          depart-IsExclusive fd w v x out (λ i r h. ground arith)
            (λ d i r h c. (ground arith, λ e. ground (arith, x.registered d i r)))
      | inr (id, reg, out, inr (ref, at, heap, inl (empty, gone))) ↦
          depart-IsExclusive fd w v x out
            (λ i r h. ground (arith, lookup-erase ℤ_discrete i id w.sessions))
            (λ d i r h c.
              departed fd d i id ref r w v x reg at heap
                (ground (arith, lookup-erase ℤ_discrete i id w.sessions)) c)
      | inr (id, reg, out, inr (ref, at, heap, inr (left, same))) ↦
          depart-IsExclusive fd w v x out (λ i r h. ground arith)
            (λ d i r h c. departed fd d i id ref r w v x reg at heap (ground arith) c)
    ]

-- A client that is in no session joins one, with entries free, and leaves: every registration and
-- the session's set are as before.
pub remove_session-join_session :
    (envs : ℕ → Env) (fd id d : ℤ) (w : Manager) (ref : ℕ)
    → HasRoom (envs ref)
    → lookup ℤ_discrete fd w.client_sessions ≡ none
    → SessionAt id w ref
    → contains fd (w.heap ref).clients ≡ false
    → let v = remove_session fd (join_session envs fd id w).1 in
      (lookup ℤ_discrete d v.client_sessions ≡ lookup ℤ_discrete d w.client_sessions)
      × (contains d (v.heap ref).clients ≡ contains d (w.heap ref).clients)
unfolding remove_session leave remove_client
remove_session-join_session envs fd id d w ref room free at out =
    let (done, same, put, heap) = join_session_room envs fd id w ref room free at in
    let s = w.heap ref in
    let added = add_client-clients (envs ref) fd s in
    let m = insert ℤ_discrete fd id w.client_sessions in
    (
      ground (
        arith,
        lookup-insert ℤ_discrete fd fd id w.client_sessions,
        lookup-insert ℤ_discrete d fd id w.client_sessions,
        lookup-erase ℤ_discrete d fd m,
      ),
      ground (
        arith,
        lookup-insert ℤ_discrete fd fd id w.client_sessions,
        contains-insert d fd s.clients,
        contains-erase d fd (IntSet.insert fd s.clients),
      ),
    )

-- The rings are not touched, and afterwards the client is in no session.
pub remove_session-io_ring :
    (fd : ℤ) (ref : ℕ) (w : Manager)
    → ((remove_session fd w).heap ref).io_ring ≡ (w.heap ref).io_ring
unfolding remove_session leave remove_client
remove_session-io_ring fd ref w = ground arith

pub remove_session-get_session :
    (fd : ℤ) (w : Manager) → get_session fd (remove_session fd w) ≡ none
unfolding remove_session leave get_session
remove_session-get_session fd w = ground (arith, lookup-erase_self ℤ_discrete fd w.client_sessions)

pub remove_session-thread_sessions :
    (fd : ℤ) (w : Manager) → (remove_session fd w).thread_sessions ≡ w.thread_sessions
unfolding remove_session leave
remove_session-thread_sessions fd w = ground arith
