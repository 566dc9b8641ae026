-- ===== src/System/Safety.antt =====
-- What holds of every state that the running server reaches.
use tcpchatserver.Base.{ℕ, zero, suc, ◌+◌, ◌≤◌, ◌≡◌, true, [], arith, Option-cases, inl, inr, ◌^◌}
use tcpchatserver.Base.Int.{ℤ, pos}
use tcpchatserver.Base.IntSet.{contains}
use tcpchatserver.Base.Action.{ok}
use tcpchatserver.Uring.{Env, IoUring, prepare_accept}
use tcpchatserver.Uring.Broadcast.{HasRoom}
use tcpchatserver.Session.{Session, set_listening_socket}
use tcpchatserver.Manager.{
  Setup, Manager, create, initialize, start, get_optimal_thread_count, get_session_by_index,
}
use tcpchatserver.Manager.Members.{IsExclusive, SessionAt, one_session}
use tcpchatserver.Manager.Startup.{initialize_lem, initialize-sessions}
use tcpchatserver.Handlers.Frame.{IsStable, Keeps}
use tcpchatserver.Listener.{Listener, Server, SocketCalls, start_listener}
use tcpchatserver.Listener.Frame.{round-Keeps}
use tcpchatserver.Worker.Safety.{worker_pass-Keeps, IsExclusive-stable}
use tcpchatserver.Uring.{with_buffers}
use tcpchatserver.System.{
  Step, receive, worker, listen, Reach, here, next, arm_session, arm_sessions, start_server,
}

module _ (env : Env) (envs : ℕ → Env) (P : Manager → Type 0) (stable : IsStable envs P) where
  Step-Keeps : {s t : Server} → Step env envs s t → P s.manager → P t.manager
  Step-Keeps {s} (worker thread_id peeked again) p =
      worker_pass-Keeps envs P stable thread_id peeked again s.manager p
  Step-Keeps {s} (receive self memory) p =
      let u = (s.manager.heap self).io_ring in
      let written = with_buffers (λ b. record b { memory = memory }) u in
      stable.ring self written s.manager p
  Step-Keeps {s} (listen peeked again) p = round-Keeps env envs P stable peeked again s p

  pub Reach-Keeps : {s t : Server} → Reach env envs s t → P s.manager → P t.manager
  Reach-Keeps here p = p
  Reach-Keeps (next r st) p = Step-Keeps st (Reach-Keeps r p)

arm_session-Keeps :
    (env : Env) (envs : ℕ → Env) (P : Manager → Type 0)
    → IsStable envs P
    → (i : ℕ) (socket : ℤ) → Keeps P (arm_session env envs i socket)
unfolding arm_session set_listening_socket
arm_session-Keeps env envs P stable i socket w p = elim (Option-cases (get_session_by_index i w)) [
  | inl past ↦ ground arith
  | inr (ref, e) ↦
      let u = (prepare_accept (envs ref) socket (w.heap ref).io_ring).1 in
      ground (arith, stable.ring ref u w p)
]

pub arm_sessions-Keeps :
    (env : Env) (envs : ℕ → Env) (P : Manager → Type 0)
    → IsStable envs P
    → (left i : ℕ) (socket : ℤ) → Keeps P (arm_sessions env envs left i socket)
unfolding arm_sessions
arm_sessions-Keeps env envs P stable zero i socket w p = p
arm_sessions-Keeps env envs P stable (suc left) i socket w p = ground (
  arith,
  arm_session-Keeps env envs P stable i socket w p,
  arm_sessions-Keeps env envs P stable left (i + 1) socket (arm_session env envs i socket w).1,
)

-- The manager that initialize leaves.
own-IsExclusive :
    (w : Manager)
    → ((id : ℤ) (ref : ℕ) → SessionAt id w ref → (id ≡ pos ref) × ((w.heap ref).clients ≡ []))
    → IsExclusive w
unfolding contains
own-IsExclusive w own = record {
  registered = λ d j r h c. ground (arith, own j r h);
  distinct = λ i j r h k. ground (arith, own i r h, own j r k);
}

pub start_listener-manager :
    (env : Env) (envs : ℕ → Env) (calls : SocketCalls) (s : Server)
    → (start_listener env envs calls s).1.manager ≡ s.manager
unfolding start_listener
start_listener-manager env envs calls s = ground arith

start-IsExclusive : (w : Manager) → IsExclusive w → IsExclusive (start w)
unfolding start
start-IsExclusive w x = record { registered = x.registered; distinct = x.distinct }

module _ (env : Env) (envs : ℕ → Env) (hw : ℕ) (heap : ℕ → Session) (rings : Setup)
    (calls : SocketCalls) (l : Listener) (made : (r : ℕ) → (u : IoUring) × (rings.ring r ≡ ok u))
    (few : get_optimal_thread_count hw ≤ 2 ^ 31) where
  abbrev fresh_server : Server
  fresh_server = record { listener = l; manager = create hw heap }

  abbrev initialized : Manager
  initialized = (initialize rings (create hw heap)).1

  pub started-Keeps :
      (P : Manager → Type 0)
      → IsStable envs P
      → P (start initialized)
      → P (start_server env envs hw rings calls fresh_server).1.manager
  unfolding start_server
  started-Keeps P stable x =
      let (done, all, threads, free) = initialize_lem rings made hw heap few in
      let w = start initialized in
      let t = (start_listener env envs calls (record { listener = l; manager = w })).1 in
      ground (
        arith,
        done,
        x,
        start_listener-manager env envs calls (record { listener = l; manager = w }),
        arm_sessions-Keeps env envs P stable (get_optimal_thread_count hw) 0
            t.listener.listening_socket t.manager,
      )

  -- What holds of the manager once it is started, and is stable, holds of every state that is reached.
  pub Reach-started :
      (P : Manager → Type 0) {t : Server}
      → IsStable envs P
      → P (start initialized)
      → Reach env envs (start_server env envs hw rings calls fresh_server).1 t
      → P t.manager
  Reach-started P stable x reach = Reach-Keeps env envs P stable reach (started-Keeps P stable x)

  pub initialized-IsExclusive : IsExclusive (start initialized)
  initialized-IsExclusive = start-IsExclusive initialized (
      own-IsExclusive initialized λ id ref at.
        let (own, none_yet, named) = initialize-sessions rings made hw heap few id ref at in
        (own, none_yet))

-- The server is started on a machine with at most 2 ^ 31 threads to use, every ring could be made,
-- and entries of the submission queues are always free. Then after main's start, however that ended,
-- and any rounds of the workers and of the listener and writes of the kernel into the buffers, in any
-- order and whatever the kernel reports, a client that is in the sets of two sessions is in one
-- session: they have the same id.
pub Reach-one_session :
    (env : Env) (envs : ℕ → Env) (hw : ℕ) (heap : ℕ → Session) (rings : Setup) (calls : SocketCalls)
    (l : Listener) {t : Server} (fd i j : ℤ) (r q : ℕ)
    → ((ref : ℕ) → HasRoom (envs ref))
    → ((ref : ℕ) → (u : IoUring) × (rings.ring ref ≡ ok u))
    → get_optimal_thread_count hw ≤ 2 ^ 31
    → Reach env envs
        (start_server env envs hw rings calls (record { listener = l; manager = create hw heap })).1
        t
    → SessionAt i t.manager r
    → SessionAt j t.manager q
    → contains fd (t.manager.heap r).clients ≡ true
    → contains fd (t.manager.heap q).clients ≡ true
    → i ≡ j
Reach-one_session env envs hw heap rings calls l fd i j r q room made few reach at at' in_r in_q =
    one_session fd i j r q
      (Reach-started env envs hw heap rings calls l made few IsExclusive
        (IsExclusive-stable envs room)
        (initialized-IsExclusive env envs hw heap rings calls l made few) reach)
      at at' in_r in_q
