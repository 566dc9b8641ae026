-- ===== src/Tests/Running.antt =====
-- The server from its start on.
use tcpchatserver.Base.{ℕ, ◌^◌, ◌≤◌, ◌≡◌, refl, subst, false, arith, true, List, [], ◌∷◌}
use tcpchatserver.Base.Int.{pos, ℤ_discrete}
use tcpchatserver.Base.Map.{lookup, insert, insert_at}
use tcpchatserver.Base.IntSet
use tcpchatserver.Base.IntSet.{contains}
use tcpchatserver.Base.Action.{ok}
use tcpchatserver.Base.Text.{to_string}
use tcpchatserver.Context.{OperationType, set_context, get_context, operation_type, operation_byte}
use tcpchatserver.Uring.{
  IoUring, prepare_accept, get_sqe, prepare_read, send_message, prepare_write, submit_ring,
  advance_cq,
}
use tcpchatserver.Uring.Broadcast.{HasRoom}
use tcpchatserver.Session.{
  Session, session_text, add_client, new_session, set_listening_socket, get_client_count,
}
use tcpchatserver.Manager.{
  Setup, get_session, create, initialize, create_sessions, create_session,
  distribute_sessions_to_threads, distribute, start, get_session_by_index, join_session,
  get_next_available_session, get_optimal_thread_count,
}
use tcpchatserver.Manager.Members.{SessionAt}
use tcpchatserver.Listener.{
  Server, SocketCalls, accept_event, start_listener, create_listening_socket, process_events_round,
}
use tcpchatserver.System.{start_server, arm_sessions, arm_session, here, next, listen}
use tcpchatserver.Tests.{roomy, roomy_everywhere, idle_ring, two_sessions, quiet_listener, cqe_of}
use tcpchatserver.System.Exhaustion.{Reach-no_sessions}
use tcpchatserver.System.Turns.{Turns, none_yet, turn, accept, event, Reach-Turns}
use tcpchatserver.System.Turns.Safety.{Turns-one_session, Turns-Unheard}
use tcpchatserver.System.Turns.Silence.{Outside, AreOthers, Turns-Outside}
use tcpchatserver.Uring.Inbox.{inbox}
use tcpchatserver.Handlers.{Cqe, ring_at, process_event}
use tcpchatserver.Handlers.Privacy.{Apart, Unheard}

always : (ref : ℕ) → HasRoom (roomy_everywhere ref)
always ref cs e = cc

abbrev first : Session
first = (two_sessions idle_ring).heap 0

-- The order of iteration is the reverse of the insertions.
abbrev working : Setup
working = record { ring = λ ref. ok idle_ring; place = λ ref. 0 }

working_rings : (r : ℕ) → (u : IoUring) × (working.ring r ≡ ok u)
working_rings r = (idle_ring, refl)

abbrev no_objects : ℕ → Session
no_objects ref = first

abbrev sockets : SocketCalls
sockets = record { socket = pos 3; setsockopt = pos 0; bind = pos 0; listen = pos 0 }

few_threads : get_optimal_thread_count 4 ≤ 2 ^ 31
unfolding get_optimal_thread_count
few_threads = omega arith

abbrev launched : Server
launched =
    (start_server roomy roomy_everywhere 4 working sockets
      (record { listener = quiet_listener; manager = create 4 no_objects })).1

abbrev after_accept : Server
after_accept =
    (process_events_round roomy roomy_everywhere (cqe_of OperationType.accept (pos 9) ∷ []) []
      launched).1

nine_joined :
    SessionAt (pos 2) after_accept.manager 2
    × (contains (pos 9) (after_accept.manager.heap 2).clients ≡ true)
unfolding start_server start_listener create_listening_socket initialize create create_sessions
    create_session distribute_sessions_to_threads distribute start arm_sessions arm_session
    get_session_by_index set_listening_socket prepare_accept get_sqe process_events_round
    accept_event get_context set_context operation_type operation_byte get_next_available_session
    join_session add_client prepare_read send_message prepare_write submit_ring lookup insert
    insert_at contains ℤ_discrete get_optimal_thread_count new_session get_client_count
    IntSet.insert advance_cq session_text to_string
nine_joined = (refl, refl)

accepted-Turns : Turns roomy roomy_everywhere launched after_accept
accepted-Turns =
    Reach-Turns roomy roomy_everywhere
      (next here (listen (cqe_of OperationType.accept (pos 9) ∷ []) []))

Turns-one_session_example : pos 2 ≡ pos 2
Turns-one_session_example =
    Turns-one_session roomy roomy_everywhere 4 no_objects working sockets quiet_listener (pos 9)
      (pos 2) (pos 2) 2 2 always working_rings few_threads accepted-Turns nine_joined.0
      nine_joined.0 nine_joined.1 nine_joined.1

-- A server whose sessions are gone.
abbrev exhausted : Server
exhausted = record {
  listener = quiet_listener;
  manager = record (two_sessions idle_ring) { sessions = [] };
}

abbrev exhausted_later : Server
exhausted_later =
    (process_events_round roomy roomy_everywhere (cqe_of OperationType.accept (pos 9) ∷ []) []
      exhausted).1

Reach-no_sessions_example :
    let (r, v) =
      accept_event roomy roomy_everywhere (cqe_of OperationType.accept (pos 10)) exhausted_later in
    (exhausted_later.manager.sessions ≡ [])
    × (r ≡ ok tt)
    × (v.listener.closed ≡ pos 10 ∷ exhausted_later.listener.closed)
    × (v.manager.client_sessions ≡ exhausted_later.manager.client_sessions)
unfolding get_context set_context operation_type operation_byte
Reach-no_sessions_example =
    Reach-no_sessions roomy roomy_everywhere (cqe_of OperationType.accept (pos 10)) refl
      (next here (listen (cqe_of OperationType.accept (pos 9) ∷ []) [])) refl (omega arith)

-- The connections 7 and 9, which the listener gives to different sessions.
abbrev both : List Cqe
both = cqe_of OperationType.accept (pos 7) ∷ cqe_of OperationType.accept (pos 9) ∷ []

abbrev after_both : Server
after_both = (process_events_round roomy roomy_everywhere both [] launched).1

-- A read of the client 7.
abbrev seven_read : Cqe
seven_read = cqe_of OperationType.read (pos 515)

nine-Apart : Apart (pos 9) (pos 7) after_both.manager
unfolding start_server start_listener create_listening_socket initialize create create_sessions
    create_session distribute_sessions_to_threads distribute start arm_sessions arm_session
    get_session_by_index set_listening_socket prepare_accept get_sqe process_events_round
    accept_event get_context set_context operation_type operation_byte get_next_available_session
    join_session add_client prepare_read send_message prepare_write submit_ring lookup insert
    insert_at contains ℤ_discrete get_optimal_thread_count new_session get_client_count
    IntSet.insert advance_cq session_text to_string get_session
nine-Apart ref e =
    let there : 2 ≡ ref = ground arith in
    subst (λ r. contains (pos 9) (after_both.manager.heap r).clients ≡ false) there refl

Turns-Unheard_example :
    let v = (process_event roomy_everywhere 1 seven_read after_both.manager).1 in
    inbox (pos 9) (ring_at 0 v) ≡ inbox (pos 9) (ring_at 0 after_both.manager)
unfolding get_context set_context operation_byte
Turns-Unheard_example =
    Turns-Unheard roomy roomy_everywhere 4 no_objects working sockets quiet_listener 1 0 seven_read
      (pos 9) working_rings few_threads
      (Reach-Turns roomy roomy_everywhere (next here (listen both []))) (λ e. cc) nine-Apart

-- Before any connection, 9 is in no session.
nine-Outside : Outside (pos 9) launched.manager
unfolding start_server start_listener create_listening_socket initialize create create_sessions
    create_session distribute_sessions_to_threads distribute start arm_sessions arm_session
    get_session_by_index set_listening_socket prepare_accept get_sqe process_events_round
    accept_event get_context set_context operation_type operation_byte get_next_available_session
    join_session add_client prepare_read send_message prepare_write submit_ring lookup insert
    insert_at contains ℤ_discrete get_optimal_thread_count new_session get_client_count
    IntSet.insert advance_cq session_text to_string get_session
nine-Outside id ref at = ground arith

-- The connection 7 joins, and something arrives from it.
abbrev join_seven : Cqe
join_seven = cqe_of OperationType.accept (pos 7)

abbrev after_seven : Server
after_seven =
    let joined = (accept_event roomy roomy_everywhere join_seven launched).1 in
    record joined { manager = (process_event roomy_everywhere 0 seven_read joined.manager).1 }

abbrev seven_only : Turns roomy roomy_everywhere launched after_seven
seven_only = turn (turn none_yet (accept join_seven)) (event 0 seven_read)

seven-AreOthers : AreOthers (pos 9) seven_only
unfolding get_context set_context operation_byte
seven-AreOthers = ((tt, λ e. cc), λ e. cc)

Turns-Outside_example :
    let w = after_seven.manager in Unheard (pos 9) launched.manager w × Outside (pos 9) w
Turns-Outside_example =
    Turns-Outside roomy roomy_everywhere 4 no_objects working sockets quiet_listener (pos 9)
      working_rings few_threads none_yet nine-Outside seven_only seven-AreOthers
