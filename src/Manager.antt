-- ===== src/Manager.antt =====
-- server/src/SessionManager.cpp and server/include/SessionManager.h. A Session object is named by
-- its address, a number; `heap` has the object at each address, `next_ref` the next free address.
-- The mutex makes each method one step; worker_threads_ has the index given to each thread.
pub mod Balance
pub mod Members
pub mod Leave
pub mod Rooms
pub mod Startup
use tcpchatserver.Base.{
  ℕ, zero, suc, ◌+◌, ◌-◌, ◌%◌, ◌^◌, Option, none, some, Bool, true, false, List, [], ◌∷◌, ◌++◌, ltb,
  ◌==◌, if◌then◌else◌, length, take, replicate, get_elem?, map,
}
use tcpchatserver.Base.Int.{ℤ, negsuc, int32, ℤ_discrete}
use tcpchatserver.Base.Map.{insert_at, lookup, insert, erase}
use tcpchatserver.Base.Action.{
  Action, Done, Error, Result, ok, err, pure, throw, gets, modify, ◌>>=◌, ◌>>◌,
}
use tcpchatserver.Buffer.{u64}
use tcpchatserver.Uring.{Env, IoUring}
use tcpchatserver.Session.{Session, new_session, remove_client, add_client, get_client_count}

pub record Manager : Type 0 where
  pub heap : ℕ → Session
  pub next_ref : ℕ
  pub sessions : List (ℤ × ℕ)
  pub client_sessions : List (ℤ × ℤ)
  pub worker_threads : List ℕ
  pub thread_sessions : List (List ℕ)
  pub should_stop : Bool
  pub next_session_id : ℕ
  pub num_worker_threads : ℕ

abbrev pub store : (ℕ → Session) → ℕ → Session → ℕ → Session
store f ref s r = if ref == r then s else f r

-- A call of a method of the session at an address.
abbrev pub on_session : {A : Type 0} → ℕ → Action Session A → Action Manager A
on_session ref m w = let (r, s) = m (w.heap ref) in (r, record w { heap = store w.heap ref s })

-- SIZE_MAX
abbrev pub size_max : ℕ
size_max = 2 ^ 64 - 1

-- getOptimalThreadCount, where hardware_concurrency() is `hw`.
unfoldable pub get_optimal_thread_count : ℕ → ℕ
get_optimal_thread_count hw = let hw_threads = if hw == 0 then 2 else hw in hw_threads - 1

-- The constructor.
unfoldable pub create : ℕ → (ℕ → Session) → Manager
unfolding get_optimal_thread_count
create hw heap = record {
  heap = heap;
  next_ref = 0;
  sessions = [];
  client_sessions = [];
  worker_threads = [];
  thread_sessions = [];
  should_stop = false;
  next_session_id = 0;
  num_worker_threads = get_optimal_thread_count hw;
}

-- The int32_t that next_session_id_ is converted to.
abbrev pub session_id_of : ℕ → ℤ
session_id_of n = int32 (n % 2 ^ 32)

-- `sessions_[session_id] = std::make_shared<Session>(session_id)`, where the object's ring is there.
abbrev pub add_session : (place : ℕ) → ℤ → IoUring → Manager → Manager
add_session place id ring w = record w {
  heap = store w.heap w.next_ref (new_session id ring);
  next_ref = w.next_ref + 1;
  sessions = insert_at ℤ_discrete place id w.next_ref w.sessions;
}

abbrev pub take_id : Manager → Manager
take_id w = record w { next_session_id = (w.next_session_id + 1) % u64 }

-- `std::vector::resize`
abbrev pub resize : ℕ → List (List ℕ) → List (List ℕ)
resize n ts = take n ts ++ replicate (n - length ts) []

abbrev pub push_at : ℕ → ℕ → List (List ℕ) → List (List ℕ)
push_at i ref [] = []
push_at zero ref (t ∷ ts) = (t ++ ref ∷ []) ∷ ts
push_at (suc i) ref (t ∷ ts) = t ∷ push_at i ref ts

-- The loop of distributeSessionsToThreads over the sessions that are left, at `thread_idx`.
unfoldable pub distribute : ℕ → ℕ → List (ℤ × ℕ) → List (List ℕ) → List (List ℕ)
distribute n thread_idx [] ts = ts
distribute n thread_idx ((id, ref) ∷ ss) ts =
    let rest = distribute n (thread_idx + 1) ss (push_at thread_idx ref ts) in
    if ltb thread_idx n then rest else ts

unfoldable pub distribute_sessions_to_threads : Manager → Manager
distribute_sessions_to_threads w = record w {
  thread_sessions = distribute w.num_worker_threads 0 w.sessions w.thread_sessions;
}

-- The two lines of initialize behind its loop.
abbrev pub spread_sessions : Manager → Manager
spread_sessions w =
    distribute_sessions_to_threads
      (record w { thread_sessions = resize w.num_worker_threads w.thread_sessions })

-- For the object at an address: what the constructor of IOUring does, and the place that the iteration
-- over sessions_ has the new session at. The standard leaves the order open; nothing iterates between
-- the insertions, so the places stand for any order that they end in, and an erase keeps it.
pub record Setup : Type 0 where
  pub ring : ℕ → Result IoUring
  pub place : ℕ → ℕ

module _ (rings : Setup) where
  -- A round of the loop of initialize.
  unfoldable pub create_session : Action Manager Done
  create_session w =
      let id = session_id_of w.next_session_id in
      let w' = take_id w in
      elim (rings.ring w.next_ref) [
        | ok ring ↦ (ok tt, add_session (rings.place w.next_ref) id ring w')
        | err e ↦ (err e, w')
      ]

  unfoldable pub create_sessions : ℕ → Action Manager Done
  create_sessions zero = pure tt
  create_sessions (suc left) = create_session >> create_sessions left

  unfoldable pub initialize : Action Manager Done
  initialize w =
      (do
        create_sessions w.num_worker_threads
        modify (λ v. record v { thread_sessions = resize v.num_worker_threads v.thread_sessions })
        modify distribute_sessions_to_threads)
        w

abbrev range : ℕ → ℕ → List ℕ
range i zero = []
range i (suc n) = i ∷ range (i + 1) n

unfoldable pub start : Manager → Manager
start w = record w {
  should_stop = false;
  worker_threads = w.worker_threads ++ range 0 w.num_worker_threads;
}

unfoldable pub stop : Manager → Manager
stop w = record w {
  should_stop = true;
  worker_threads = [];
  thread_sessions = [];
  sessions = [];
  client_sessions = [];
}

-- The loop of getNextAvailableSession, with `selected_session` and `min_clients`.
select : (ℕ → Session) → List (ℤ × ℕ) → ℤ → ℕ → ℤ
select heap [] selected min_clients = selected
select heap ((id, ref) ∷ ss) selected min_clients =
    let client_count = get_client_count (heap ref) in
    let better = ltb client_count min_clients in
    select heap ss (if better then id else selected) (if better then client_count else min_clients)

unfoldable pub get_next_available_session : Action Manager ℤ
unfolding select
get_next_available_session w =
    let selected = select w.heap w.sessions (negsuc 0) size_max in
    elim (ℤ_discrete selected (negsuc 0)) [
      | yes _ ↦ (err Error.no_available_sessions, w)
      | no _ ↦ (ok selected, w)
    ]

-- `envs ref` is the kernel's side of the ring of the session at `ref`.
unfoldable pub join_session : (ℕ → Env) → ℤ → ℤ → Action Manager Done
join_session envs client_fd session_id w = elim (lookup ℤ_discrete client_fd w.client_sessions) [
  | some _ ↦ (err Error.already_in_session, w)
  | none ↦ elim (lookup ℤ_discrete session_id w.sessions) [
    | none ↦ (err Error.invalid_session_id, w)
    | some ref ↦
        (on_session ref (add_client (envs ref) client_fd)
            >> modify (λ v. record v {
              client_sessions = insert ℤ_discrete client_fd session_id v.client_sessions;
            }))
          w
  ]
]

-- The middle of removeSession: the client leaves the session, which goes if it is then empty.
leave : ℤ → ℤ → Manager → Manager
leave client_fd session_id w = elim (lookup ℤ_discrete session_id w.sessions) [
  | none ↦ w
  | some ref ↦
      let s = remove_client client_fd (w.heap ref) in
      let w' = record w { heap = store w.heap ref s } in
      if get_client_count s == 0
      then record w' { sessions = erase ℤ_discrete session_id w.sessions }
      else w'
]

unfoldable pub remove_session : ℤ → Manager → Manager
unfolding leave
remove_session client_fd w = elim (lookup ℤ_discrete client_fd w.client_sessions) [
  | none ↦ w
  | some session_id ↦
      let w' = leave client_fd session_id w in
      record w' { client_sessions = erase ℤ_discrete client_fd w'.client_sessions }
]

-- `none` is nullptr.
unfoldable pub get_session : ℤ → Manager → Option ℕ
get_session client_fd w = elim (lookup ℤ_discrete client_fd w.client_sessions) [
  | none ↦ none
  | some session_id ↦ lookup ℤ_discrete session_id w.sessions
]

unfoldable pub get_session_clients : ℤ → Manager → List ℤ
get_session_clients session_id w = elim (lookup ℤ_discrete session_id w.sessions) [
  | none ↦ []
  | some ref ↦ (w.heap ref).clients
]

-- The ring is named by its session's address.
unfoldable pub get_session_io_uring : ℤ → Manager → Option ℕ
get_session_io_uring session_id w = lookup ℤ_discrete session_id w.sessions

unfoldable pub get_session_by_index : ℕ → Manager → Option ℕ
get_session_by_index index w = get_elem? (map (λ e. e.1) w.sessions) index
