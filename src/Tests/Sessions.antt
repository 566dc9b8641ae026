-- ===== src/Tests/Sessions.antt =====
-- The session manager, the listener, and the running server.
use tcpchatserver.Base.{
  ℕ, if◌then◌else◌, ◌==◌, ◌-◌, ◌^◌, ◌≤◌, ◌<◌, ◌≡◌, ◌≢◌, ◌⊎◌, refl, arith, none, some, [], ◌∷◌, All,
}
use tcpchatserver.Base.Int.{ℤ, pos, negsuc, ℤ_discrete}
use tcpchatserver.Base.Map.{lookup}
use tcpchatserver.Base.IntSet.{contains}
use tcpchatserver.Base.Action.{ok, err, Error}
use tcpchatserver.Context.{OperationType, set_context, get_context, operation_type, operation_byte}
use tcpchatserver.Uring.Broadcast.{HasRoom}
use tcpchatserver.Session.{Session, get_client_count}
use tcpchatserver.Manager.{Manager, get_next_available_session}
use tcpchatserver.Manager.Members.{IsExclusive}
use tcpchatserver.Manager.Balance.{Has, count_at, get_next_available_session_least}
use tcpchatserver.Listener.{Server, accept_event, process_events_round}
use tcpchatserver.Listener.Fairness.{IsBalanced, process_events_round-IsBalanced}
use tcpchatserver.Listener.Assign.{accept_event_cases}
use tcpchatserver.Tests.{roomy, roomy_everywhere, idle_ring, two_sessions, quiet_listener, cqe_of}

always : (ref : ℕ) → HasRoom (roomy_everywhere ref)
always ref cs e = cc

abbrev there : Manager
there = two_sessions idle_ring

-- Two registered clients, in one session.
there-IsExclusive : IsExclusive there
unfolding lookup contains
there-IsExclusive = record {
  registered = λ fd id ref h c. ground arith;
  distinct = λ i j ref h k. ground arith;
}

abbrev first : Session
first = there.heap 0

small_counts : All (λ e. count_at there.heap e.1 < 2 ^ 64 - 1) there.sessions
unfolding get_client_count
small_counts = (omega arith, (omega arith, tt))

real_ids : All (λ e. e.0 ≢ negsuc 0) there.sessions
real_ids = (λ e. cc, (λ e. cc, tt))

get_next_available_session_least_example :
    ((there.sessions ≡ [])
      × (get_next_available_session there ≡ (err Error.no_available_sessions, there)))
    ⊎ ((id : ℤ) × (ref : ℕ) × Has id ref there.sessions
        × All (λ e. count_at there.heap ref ≤ count_at there.heap e.1) there.sessions
        × (get_next_available_session there ≡ (ok id, there)))
get_next_available_session_least_example =
    get_next_available_session_least there small_counts real_ids

abbrev serving : Server
serving = record { listener = quiet_listener; manager = there }

accept_event_cases_example :
    let (r, t) =
      accept_event roomy roomy_everywhere (cqe_of OperationType.accept (pos 9)) serving in
    (r ≡ ok tt)
    × (((lookup ℤ_discrete (pos 9) there.client_sessions ≡ none)
          × (t.listener.closed ≡ [])
          × ((id : ℤ) × (ref : ℕ) × Has id ref there.sessions
              × All (λ e. count_at there.heap ref ≤ count_at there.heap e.1) there.sessions
              × (lookup ℤ_discrete (pos 9) t.manager.client_sessions ≡ some id)))
        ⊎ ((t.listener.closed ≡ pos 9 ∷ []) × (t.manager.client_sessions ≡ there.client_sessions)))
unfolding get_context set_context operation_type operation_byte
accept_event_cases_example =
    accept_event_cases roomy roomy_everywhere (cqe_of OperationType.accept (pos 9)) serving refl
      (omega arith) small_counts real_ids

-- One client in the session 0, none in the session 1.
abbrev nearly_even : Manager
nearly_even = record there {
  heap = λ ref. record (there.heap ref) { clients = if ref == 0 then pos 7 ∷ [] else [] };
  client_sessions = (pos 7, pos 0) ∷ [];
}

nearly_even-IsBalanced : IsBalanced nearly_even
unfolding lookup get_client_count ℤ_discrete
nearly_even-IsBalanced = record {
  even = λ i j r q h k. ground arith;
  keys = λ id ref h. ground arith;
  ids = (λ e. cc, (λ e. cc, tt));
}

process_events_round-IsBalanced_example :
    IsBalanced
      (process_events_round roomy roomy_everywhere
        (cqe_of OperationType.accept (pos 9) ∷ cqe_of OperationType.accept (pos 10) ∷ [])
        []
        (record { listener = quiet_listener; manager = nearly_even })).1.manager
unfolding get_client_count
process_events_round-IsBalanced_example =
    process_events_round-IsBalanced roomy roomy_everywhere 2
      (cqe_of OperationType.accept (pos 9) ∷ cqe_of OperationType.accept (pos 10) ∷ []) []
      (record { listener = quiet_listener; manager = nearly_even }) (omega arith) (omega arith)
      (omega arith, (omega arith, tt)) nearly_even-IsBalanced
