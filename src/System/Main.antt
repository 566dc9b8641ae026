-- ===== src/System/Main.antt =====
-- server/main.cpp: main as a whole, with the loop of Listener::processEvents that it calls.
use tcpchatserver.Base.{
  ℕ, Bool, ◌≡◌, ◌∙◌, inl, inr, Option, none, some, true, false, List, [], ◌∷◌, ◌==◌, not,
  if◌then◌else◌, arith,
}
use tcpchatserver.Base.Int.{ℤ}
use tcpchatserver.Base.Action.{Result, ok, err, Result-cases}
use tcpchatserver.Uring.{Env, IoUring}
use tcpchatserver.Session.{Session}
use tcpchatserver.Manager.{Setup, stop, create, initialize, start}
use tcpchatserver.Handlers.{Cqe}
use tcpchatserver.Listener.{
  Server, SocketCalls, stop_listener, new_listener, start_listener, process_events_round,
}
use tcpchatserver.Listener.Serving.{process_events_round-serves, start_listener-running}
use tcpchatserver.System.{start_server}

-- How processEvents stands after some rounds: it has returned, it is in its loop, or a call threw.
pub data Loop : Type 0 where
  left looping : Server → Loop
  threw : Loop

-- What main does: it has returned 1, it has shut down and returned 0, or it is in its loop.
pub data Exit : Type 0 where
  failed : Exit
  stopped serving : Server → Exit

-- A pass of main's loop: what `running` is read as, and what the two calls of peekCQE return in each
-- round of processEvents, if it is called.
pub record Pass : Type 0 where
  pub running : Bool
  pub rounds : List (List Cqe × List Cqe)

-- Behind the loop.
unfoldable pub shut_down : Server → Server
shut_down s = record { listener = stop_listener s.listener; manager = stop s.manager }

module _ (env : Env) (envs : ℕ → Env) where
  -- What the two calls of peekCQE return in each round.
  unfoldable pub process_events : List (List Cqe × List Cqe) → Server → Loop
  process_events [] s = if s.listener.running then looping s else left s
  process_events ((peeked, again) ∷ rounds) s = elim s.listener.running [
    | false ↦ left s
    | true ↦ elim (process_events_round env envs peeked again s).0 [
      | ok _ ↦ process_events rounds (process_events_round env envs peeked again s).1
      | err _ ↦ threw
    ]
  ]

  -- From main's loop on.
  unfoldable pub serve : List Pass → Server → Exit
  serve [] s = serving s
  serve (pass ∷ passes) s = elim pass.running [
    | false ↦ stopped (shut_down s)
    | true ↦ elim (process_events pass.rounds s) [
      | left t ↦ serve passes t
      | looping t ↦ serving t
      | threw ↦ failed
    ]
  ]

  -- main on `argc` arguments. std::stoi reads the port as `port`, or throws; `ring` is what the
  -- constructor of the listener's IOUring does.
  unfoldable pub server_main :
      (argc : ℕ) (port : Option ℤ) (hw : ℕ) (heap : ℕ → Session) (rings : Setup)
      (ring : Result IoUring) (calls : SocketCalls) (passes : List Pass)
      → Exit
  server_main argc port hw heap rings ring calls passes =
      if not (argc == 3) then failed else elim port [
        | none ↦ failed
        | some _ ↦ elim ring [
          | err _ ↦ failed
          | ok u ↦
              let (r, t) =
                start_server env envs hw rings calls
                  (record { listener = new_listener u; manager = create hw heap }) in
              elim r [ ok _ ↦ serve passes t | err _ ↦ failed ]
        ]
      ]

  process_events-looping :
      (rounds : List (List Cqe × List Cqe)) (s : Server)
      → s.listener.running ≡ true
      → (t : Server) × (process_events rounds s ≡ looping t) × (t.listener.running ≡ true)
  unfolding process_events
  process_events-looping [] s run = (s, ground arith, run)
  process_events-looping ((peeked, again) ∷ rounds) s run =
      let (done, kept) = process_events_round-serves env envs peeked again s in
      let t = (process_events_round env envs peeked again s).1 in
      let (u, loops, runs) = process_events-looping rounds t (kept ∙ run) in (u, ground arith, runs)

  -- Once main's start went through, the listener is running.
  start_server-running :
      (hw : ℕ) (rings : Setup) (calls : SocketCalls) (s : Server)
      → let (r, t) = start_server env envs hw rings calls s in r ≡ ok tt → t.listener.running ≡ true
  unfolding start_server
  start_server-running hw rings calls s done =
      let w = (initialize rings s.manager).1 in
      let u = record s { manager = start w } in
      elim (Result-cases (initialize rings s.manager).0) [
        | inr (x, e) ↦ ground arith
        | inl (d, e) ↦ elim (Result-cases (start_listener env envs calls u).0) [
          | inr (x, f) ↦ ground arith
          | inl (d', f) ↦ ground (arith, start_listener-running env envs calls u)
        ]
      ]

-- main's start succeeded: there are two arguments, std::stoi reads the port, the listener's ring could
-- be made, and nothing of the start-up threw. `running` is true when the loop is entered. Then main's
-- thread is in processEvents, with a listener that runs, however many rounds that has made and whatever
-- their completions are: no exception has ended main, and the shutdown behind the loop is not reached,
-- whatever `running` is later. What the workers do to the process is not part of it.
pub server_main-serving :
    (env : Env) (envs : ℕ → Env) (port : ℤ) (hw : ℕ) (heap : ℕ → Session) (rings : Setup)
    (u : IoUring) (calls : SocketCalls) (pass : Pass) (passes : List Pass)
    → (start_server env envs hw rings calls
        (record { listener = new_listener u; manager = create hw heap })).0
      ≡ ok tt
    → pass.running ≡ true
    → (t : Server) × (server_main env envs 3 (some port) hw heap rings (ok u) calls (pass ∷ passes)
        ≡ serving t)
      × (t.listener.running ≡ true)
unfolding server_main serve
server_main-serving env envs port hw heap rings u calls pass passes done run =
    let s : Server = record { listener = new_listener u; manager = create hw heap } in
    let t = (start_server env envs hw rings calls s).1 in
    let up = start_server-running env envs hw rings calls s done in
    let (v, loops, runs) = process_events-looping env envs pass.rounds t up in
    (v, ground arith, runs)
