-- ===== src/Manager/Rooms.antt =====
-- The session manager as a client sees it: which rooms there are, who is in each, and which room each
-- client is in. Objects, addresses, rings, threads and the order of the maps are forgotten.
pub mod Refinement
use tcpchatserver.Base.{
  ℕ, ◌≡◌, ◌≢◌, ◌==◌, refl, sym, subst, Option, none, some, Bool, true, false, List, [], ◌∷◌, arith,
  length, if◌then◌else◌, Option-cases, inl, inr, ite, ap, ◌∙◌, ◌⊎◌, ◌<◌,
}
use tcpchatserver.Base.Int.{ℤ, ℤ_discrete}
use tcpchatserver.Base.IntSet
use tcpchatserver.Base.Map.{lookup, insert, erase, lookup-insert, lookup-erase}
use tcpchatserver.Base.Action.{Result, Done, Error, ok, err}
use tcpchatserver.Uring.{Env}
use tcpchatserver.Uring.Broadcast.{HasRoom}
use tcpchatserver.Session.{Session, add_client, remove_client, get_client_count}
use tcpchatserver.Session.Join.{add_client-clients}
use tcpchatserver.Manager.{Manager, store, join_session, remove_session}
use tcpchatserver.Manager.Members.{
  IsExclusive, SessionAt, join_session_cases, join_session_room, join_session-IsExclusive,
}
use tcpchatserver.Manager.Leave.{remove_session_cases, remove_session-IsExclusive}
use mathlib.Core.Path.{fun_ext}

pub record Rooms : Type 0 where
  pub members : ℤ → Option (List ℤ)
  pub place : ℤ → Option ℤ

abbrev pub change : {A : Type 0} → (ℤ → A) → ℤ → A → ℤ → A
change f k a j = ite (ℤ_discrete j k) a (f j)

-- What a request to enter a room is answered.
abbrev pub answer : ℤ → ℤ → Rooms → Result Done
answer fd id r = elim (r.place fd) [
  | some _ ↦ err Error.already_in_session
  | none ↦ elim (r.members id) [ none ↦ err Error.invalid_session_id | some _ ↦ ok tt ]
]

abbrev pub enter : ℤ → ℤ → Rooms → Rooms
enter fd id r = elim (r.place fd) [
  | some _ ↦ r
  | none ↦ elim (r.members id) [
    | none ↦ r
    | some ms ↦ record {
      members = change r.members id (some (IntSet.insert fd ms));
      place = change r.place fd (some id);
    }
  ]
]

-- A room without members is closed.
abbrev pub unless_empty : List ℤ → Option (List ℤ)
unless_empty ms = if length ms == 0 then none else some ms

abbrev pub exit : ℤ → Rooms → Rooms
exit fd r = elim (r.place fd) [
  | none ↦ r
  | some id ↦ elim (r.members id) [
    | none ↦ record r { place = change r.place fd none }
    | some ms ↦ record {
      members = change r.members id (unless_empty (IntSet.erase fd ms));
      place = change r.place fd none;
    }
  ]
]

abbrev pub clients_of : (ℕ → Session) → Option ℕ → Option (List ℤ)
clients_of heap none = none
clients_of heap (some ref) = some (heap ref).clients

-- What is seen of a manager.
unfoldable pub view : Manager → Rooms
view w = record {
  members = λ id. clients_of w.heap (lookup ℤ_discrete id w.sessions);
  place = λ fd. lookup ℤ_discrete fd w.client_sessions;
}

-- What clients ask for, and the same on the rooms alone.
pub data Request : Type 0 where
  join : (fd id : ℤ) → Request
  leave : (fd : ℤ) → Request

unfoldable pub serve : (ℕ → Env) → List Request → Manager → List (Result Done) × Manager
serve envs [] w = ([], w)
serve envs (join fd id ∷ rs) w =
    let (r, v) = join_session envs fd id w in let (answers, u) = serve envs rs v in (r ∷ answers, u)
serve envs (leave fd ∷ rs) w = serve envs rs (remove_session fd w)

abbrev pub replay : List Request → Rooms → List (Result Done) × Rooms
replay [] r = ([], r)
replay (join fd id ∷ rs) r =
    let (answers, s) = replay rs (enter fd id r) in (answer fd id r ∷ answers, s)
replay (leave fd ∷ rs) r = replay rs (exit fd r)
