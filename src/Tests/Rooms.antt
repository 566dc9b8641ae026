-- ===== src/Tests/Rooms.antt =====
-- The manager as rooms, a worker's pass, and main.
use tcpchatserver.Base.{ℕ, false, ◌≡◌, refl, arith, some, true, List, [], ◌∷◌}
use tcpchatserver.Base.Int.{pos, ℤ_discrete}
use tcpchatserver.Base.Map.{lookup, insert, insert_at}
use tcpchatserver.Base.IntSet
use tcpchatserver.Base.IntSet.{contains}
use tcpchatserver.Base.Action.{ok, Error, err}
use tcpchatserver.Context.{OperationType}
use tcpchatserver.Uring.{prepare_accept, get_sqe}
use tcpchatserver.Session.{new_session, set_listening_socket}
use tcpchatserver.Manager.{
  Manager, Setup, create, initialize, create_sessions, create_session,
  distribute_sessions_to_threads, distribute, start, get_session_by_index, get_optimal_thread_count,
}
use tcpchatserver.System.{start_server, arm_sessions, arm_session}
use tcpchatserver.Manager.Members.{IsExclusive}
use tcpchatserver.Manager.Rooms.{Request, join, leave, serve, replay, view}
use tcpchatserver.Manager.Rooms.Refinement.{serve-replay}
use tcpchatserver.Handlers.{Cqe}
use tcpchatserver.Listener.{
  Server, SocketCalls, new_listener, start_listener, create_listening_socket,
}
use tcpchatserver.System.Main.{Pass, serving, server_main, server_main-serving}
use tcpchatserver.Tests.{roomy, roomy_everywhere, idle_ring, two_sessions, cqe_of}

abbrev there : Manager
there = two_sessions idle_ring

exclusive : IsExclusive there
unfolding lookup contains
exclusive = record {
  registered = λ fd id ref h c. ground arith;
  distinct = λ i j ref h k. ground arith;
}

-- A second room for 7 is refused; 7 and 8 leave, so room 0 is closed; 9 finds it gone and joins 1.
abbrev requests : List Request
requests =
    join (pos 7) (pos 1)
    ∷ leave (pos 7)
    ∷ leave (pos 8)
    ∷ join (pos 9) (pos 0)
    ∷ join (pos 9) (pos 1)
    ∷ []

serve-replay_example :
    let (answers, v) = serve roomy_everywhere requests there in
    let (expected, rooms) = replay requests (view there) in
    (answers ≡ expected) × (view v ≡ rooms) × IsExclusive v
serve-replay_example = serve-replay roomy_everywhere requests there (λ ref cs e. cc) exclusive

-- What is expected there.
answers_there :
    (replay requests (view there)).0
    ≡ err Error.already_in_session ∷ err Error.invalid_session_id ∷ ok tt ∷ []
unfolding view lookup ℤ_discrete IntSet.erase
answers_there = refl

abbrev working : Setup
working = record { ring = λ ref. ok idle_ring; place = λ ref. 0 }

abbrev sockets : SocketCalls
sockets = record { socket = pos 3; setsockopt = pos 0; bind = pos 0; listen = pos 0 }

abbrev rounds : List (List Cqe × List Cqe)
rounds = (cqe_of OperationType.accept (pos 9) ∷ [], []) ∷ []

abbrev passes : List Pass
passes = record { running = true; rounds = rounds } ∷ record { running = false; rounds = [] } ∷ []

start_server-done :
    (start_server roomy roomy_everywhere 4 working sockets
      (record { listener = new_listener idle_ring; manager = create 4 there.heap })).0
    ≡ ok tt
unfolding start_server start_listener create_listening_socket initialize create create_sessions
    create_session distribute_sessions_to_threads distribute start arm_sessions arm_session
    get_session_by_index set_listening_socket prepare_accept get_sqe get_optimal_thread_count
    new_session new_listener lookup insert_at insert ℤ_discrete
start_server-done = refl

server_main-serving_example :
    (t : Server) × (server_main roomy roomy_everywhere 3
        (some (pos 80))
        4
        there.heap
        working
        (ok idle_ring)
        sockets
        passes
      ≡ serving t)
    × (t.listener.running ≡ true)
server_main-serving_example =
    server_main-serving roomy roomy_everywhere (pos 80) 4 there.heap working idle_ring sockets
      (record { running = true; rounds = rounds }) (record { running = false; rounds = [] } ∷ [])
      start_server-done refl

abbrev quiet : ℕ → List Cqe
quiet ref = []

abbrev busy : ℕ → List Cqe
busy ref = cqe_of OperationType.read (pos 515) ∷ cqe_of OperationType.read (pos 0) ∷ []
