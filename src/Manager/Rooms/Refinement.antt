-- ===== src/Manager/Rooms/Refinement.antt =====
-- SessionManager's joinSession and removeSession on what is seen of the manager.
use tcpchatserver.Base.{
  ℕ, ◌≡◌, ◌==◌, refl, sym, subst, none, some, List, [], ◌∷◌, arith, if◌then◌else◌, Option-cases,
  inl, inr, ite, ap, ◌∙◌,
}
use tcpchatserver.Base.Int.{ℤ, ℤ_discrete}
use tcpchatserver.Base.IntSet
use tcpchatserver.Base.Map.{lookup, erase, lookup-insert, lookup-erase}
use tcpchatserver.Uring.{Env}
use tcpchatserver.Uring.Broadcast.{HasRoom}
use tcpchatserver.Session.{Session, add_client, remove_client, get_client_count}
use tcpchatserver.Session.Join.{add_client-clients}
use tcpchatserver.Manager.{Manager, store, join_session, remove_session}
use tcpchatserver.Manager.Members.{
  IsExclusive, SessionAt, join_session_cases, join_session_room, join_session-IsExclusive,
}
use tcpchatserver.Manager.Leave.{remove_session_cases, remove_session-IsExclusive}
use mathlib.Core.Path.{fun_ext}
use tcpchatserver.Manager.Rooms.{
  Rooms, change, answer, enter, exit, unless_empty, clients_of, view, Request, join, leave, serve,
  replay,
}

Rooms-ext :
    (r s : Rooms)
    → ((id : ℤ) → r.members id ≡ s.members id)
    → ((fd : ℤ) → r.place fd ≡ s.place fd)
    → r ≡ s
Rooms-ext r s h k = λ i. record { members = fun_ext h i; place = fun_ext k i }

members-enter :
    (fd id j : ℤ) (ref : ℕ) (w : Manager) (s : Session)
    → IsExclusive w
    → SessionAt id w ref
    → s.clients ≡ IntSet.insert fd (w.heap ref).clients
    → clients_of (store w.heap ref s) (lookup ℤ_discrete j w.sessions)
      ≡ change (view w).members id (some (IntSet.insert fd (w.heap ref).clients)) j
unfolding view
members-enter fd id j ref w s x at set = elim (Option-cases (lookup ℤ_discrete j w.sessions)) [
  | inl gone ↦ ground arith
  | inr (r, e) ↦ ground (arith, x.distinct j id r)
]

-- joinSession is entering a room.
view-join_session :
    (envs : ℕ → Env) (fd id : ℤ) (w : Manager)
    → ((ref : ℕ) → HasRoom (envs ref))
    → IsExclusive w
    → let (r, v) = join_session envs fd id w in
      (r ≡ answer fd id (view w)) × (view v ≡ enter fd id (view w))
unfolding view
view-join_session envs fd id w room x = elim (join_session_cases envs fd id w) [
  | inl (taken, refused, same) ↦ (ground arith, ap view same ∙ ground arith)
  | inr (free, inl (gone, refused, same)) ↦ (ground arith, ap view same ∙ ground arith)
  | inr (free, inr (ref, at, set, kept, rest)) ↦
      let (done, same, put, heap) = join_session_room envs fd id w ref (room ref) free at in
      let s = (add_client (envs ref) fd (w.heap ref)).1 in
      let added = add_client-clients (envs ref) fd (w.heap ref) in
      let v = (join_session envs fd id w).1 in
      let all = IntSet.insert fd (w.heap ref).clients in
      let entered : enter fd id (view w) ≡ record {
        members = change (view w).members id (some all);
        place = change (view w).place fd (some id);
      } =
        ground arith in
      (
        ground arith,
        subst (λ r. view v ≡ r) (sym entered)
            (Rooms-ext (view v)
              (record {
                members = change (view w).members id (some all);
                place = change (view w).place fd (some id);
              })
              (λ j.
                subst
                  (λ h.
                    clients_of h (lookup ℤ_discrete j v.sessions)
                    ≡ change (view w).members id (some all) j)
                  (sym heap)
                  (subst
                    (λ ss.
                      clients_of (store w.heap ref s) (lookup ℤ_discrete j ss)
                      ≡ change (view w).members id (some all) j)
                    (sym same) (members-enter fd id j ref w s x at added.0)))
              (λ d. ground (arith, lookup-insert ℤ_discrete d fd id w.client_sessions))),
      )
]

members-exit :
    (fd id j : ℤ) (ref : ℕ) (w v : Manager)
    → IsExclusive w
    → SessionAt id w ref
    → v.heap ≡ store w.heap ref (remove_client fd (w.heap ref))
    → lookup ℤ_discrete j v.sessions
      ≡ ite
          (ℤ_discrete j id)
          (if get_client_count (remove_client fd (w.heap ref)) == 0 then none else some ref)
          (lookup ℤ_discrete j w.sessions)
    → (view v).members j
      ≡ change (view w).members id (unless_empty (IntSet.erase fd (w.heap ref).clients)) j
unfolding view remove_client get_client_count
members-exit fd id j ref w v x at heap found =
    elim (Option-cases (lookup ℤ_discrete j w.sessions)) [
      | inl gone ↦ ground arith
      | inr (r, e) ↦ ground (arith, x.distinct j id r)
    ]

place-exit :
    (fd d : ℤ) (w v : Manager)
    → v.client_sessions ≡ erase ℤ_discrete fd w.client_sessions
    → (view v).place d ≡ change (view w).place fd none d
unfolding view
place-exit fd d w v out = ground (arith, lookup-erase ℤ_discrete d fd w.client_sessions)

-- removeSession is leaving one's room.
view-remove_session :
    (fd : ℤ) (w : Manager) → IsExclusive w → view (remove_session fd w) ≡ exit fd (view w)
unfolding view
view-remove_session fd w x =
    let v = remove_session fd w in
    elim (remove_session_cases fd w) [
      | inl (free, same) ↦ ap view same ∙ ground arith
      | inr (id, reg, out, inl (gone, heap, same)) ↦
          let left = record (view w) { place = change (view w).place fd none } in
          let exited : exit fd (view w) ≡ left = ground arith in
          Rooms-ext (view v) left (λ j. ground arith) (λ d. place-exit fd d w v out) ∙ sym exited
      | inr (id, reg, out, inr (ref, at, heap, rest)) ↦
          let left = record (view w) {
            members =
                change (view w).members id (unless_empty (IntSet.erase fd (w.heap ref).clients));
            place = change (view w).place fd none;
          } in
          let exited : exit fd (view w) ≡ left = ground arith in
          Rooms-ext (view v) left
            (λ j.
              members-exit fd id j ref w v x at heap
                (ground (arith, lookup-erase ℤ_discrete j id w.sessions)))
            (λ d. place-exit fd d w v out)
          ∙ sym exited
    ]

-- From a manager in which every client is at most in the session that it is registered for, and where
-- entries are always free: any sequence of joins and leaves gives the answers, and ends with the
-- rooms, that the rooms alone determine; and the manager that it ends in is such a one again.
pub serve-replay :
    (envs : ℕ → Env) (rs : List Request) (w : Manager)
    → ((ref : ℕ) → HasRoom (envs ref))
    → IsExclusive w
    → let (answers, v) = serve envs rs w in
      let (expected, rooms) = replay rs (view w) in
      (answers ≡ expected) × (view v ≡ rooms) × IsExclusive v
unfolding serve
serve-replay envs [] w room x = (refl, refl, x)
serve-replay envs (join fd id ∷ rs) w room x =
    let v = (join_session envs fd id w).1 in
    let (first, seen) = view-join_session envs fd id w room x in
    let (rest, rooms, y) =
      serve-replay envs rs v room (join_session-IsExclusive envs fd id w room x) in
    subst
      (λ r.
        ((join_session envs fd id w).0 ∷ (serve envs rs v).0
          ≡ answer fd id (view w) ∷ (replay rs r).0)
        × (view (serve envs rs v).1 ≡ (replay rs r).1)
        × IsExclusive (serve envs rs v).1)
      seen (cc, rooms, y)
serve-replay envs (leave fd ∷ rs) w room x =
    let (rest, rooms, y) =
      serve-replay envs rs (remove_session fd w) room (remove_session-IsExclusive fd w x) in
    subst
      (λ r.
        ((serve envs rs (remove_session fd w)).0 ≡ (replay rs r).0)
        × (view (serve envs rs (remove_session fd w)).1 ≡ (replay rs r).1)
        × IsExclusive (serve envs rs (remove_session fd w)).1)
      (view-remove_session fd w x) (rest, rooms, y)
