-- ===== src/Uring.antt =====
-- server/src/IOUring.cpp and server/include/IOUring.h, as far as it works on its own ring and
-- buffers; what also touches the session manager is in Handlers.
-- `calls` has the calls of liburing on `ring_`, newest first. What liburing answers is a function
-- of the calls so far, given by the environment.
pub mod Send
pub mod Prepare
pub mod Broadcast
pub mod Completion
pub mod Inbox
pub mod Stats
use tcpchatserver.Base.{
  ℕ, zero, suc, ◌+◌, ◌-◌, ◌%◌, ◌^◌, Option, none, some, Bool, true, false, List, [], ◌∷◌, ◌++◌, ltb,
  ◌==◌, ◌&&◌, if◌then◌else◌, length, replicate, not,
}
use tcpchatserver.Base.Int.{ℤ, pos, negsuc, ltb_ℤ, leb_ℤ, ℤ_discrete}
use tcpchatserver.Base.Action.{
  Action, Done, Error, Result, ok, err, pure, throw, gets, catch, modify, when, ◌>>=◌, ◌>>◌,
}
use tcpchatserver.Context.{
  MessageType, OperationType, ChatMessage, max_data, message_size, set_context,
}
use tcpchatserver.Buffer.{
  UringBuffer, release_buffer, increment_ref_count, decrement_ref_count, get_ref_count, u64,
}

-- What a prep helper puts into an SQE. A write has the message that its pointer leads to when the
-- helper is called.
pub data Request : Type 0 where
  accept : (fd : ℤ) (flags : ℕ) → Request
  recv : (fd : ℤ) (buffer_select : Bool) (buf_group : ℕ) → Request
  write : (fd : ℤ) (message : ChatMessage) (len : ℕ) → Request
  close : (fd : ℤ) → Request

pub data Call : Type 0 where
  queued : (request : Request) (user_data : ℕ) → Call
  submit : Call
  submit_and_wait : ℕ → Call
  cq_advance : ℕ → Call

-- liburing and the kernel. `next_sqe` is io_uring_get_sqe: `none` for nullptr, else the word that
-- the entry's `user_data` holds. `prep` is what a prep helper leaves in `user_data`. `wait` is
-- what io_uring_submit_and_wait returns.
pub record Env : Type 0 where
  pub next_sqe : List Call → Option ℕ
  pub prep : Request → ℕ → ℕ
  pub wait : List Call → ℤ

pub record IoUring : Type 0 where
  pub buffer_manager : UringBuffer
  pub calls : List Call
  pub total_broadcasts : ℕ
  pub total_messages : ℕ

abbrev pub log : Call → IoUring → IoUring
log c u = record u { calls = c ∷ u.calls }

abbrev pub with_buffers : (UringBuffer → UringBuffer) → IoUring → IoUring
with_buffers f u = record u { buffer_manager = f u.buffer_manager }

-- The constructor with initRing: `queue_init` is what io_uring_queue_init_params returned, `buffers`
-- what the constructor of UringBuffer did.
unfoldable pub init : ℤ → Result UringBuffer → Result IoUring
init queue_init buffers =
    if ltb_ℤ queue_init (pos 0) then err Error.ring_init_failed else elim buffers [
      | ok b ↦
          ok (record { buffer_manager = b; calls = []; total_broadcasts = 0; total_messages = 0 })
      | err e ↦ err e
    ]

unfoldable pub release : ℕ → IoUring → IoUring
release idx = with_buffers λ b. release_buffer idx b.base_addr b

unfoldable pub decrement_buffer_ref_count : ℕ → IoUring → IoUring
decrement_buffer_ref_count idx = with_buffers (decrement_ref_count idx)

-- EINTR
abbrev pub eintr : ℤ
eintr = negsuc 3

unfoldable pub submit_ring : IoUring → IoUring
submit_ring = log submit

unfoldable pub advance_cq : ℕ → IoUring → IoUring
advance_cq count = log (cq_advance count)

module _ (env : Env) where
  -- The word is what the `user_data` of the entry holds.
  unfoldable pub get_sqe : Action IoUring ℕ
  get_sqe u = elim (env.next_sqe u.calls) [
    | some w ↦ (ok w, u)
    | none ↦
        let u' = log submit u in
        elim (env.next_sqe u'.calls) [
          | some w ↦ (ok w, u')
          | none ↦ (err Error.sqe_unavailable, u')
        ]
  ]

  -- submitAndWait, with NUM_WAIT_ENTRIES = 1.
  unfoldable pub submit_and_wait_ring : IoUring → ℤ × IoUring
  submit_and_wait_ring u =
      let ret = env.wait u.calls in
      let failed = ltb_ℤ ret (pos 0) && not (is_eintr ret) in
      (if failed then ret else pos 0, log (submit_and_wait 1) u)
    where
      is_eintr : ℤ → Bool
      is_eintr r = elim (ℤ_discrete r eintr) [ yes _ ↦ true | no _ ↦ false ]

  -- setContext, then the prep helper: the order in prepareAccept, prepareRead and prepareClose.
  abbrev context_first : OperationType → ℤ → ℕ → Request → Action IoUring Done
  context_first type fd idx request = do
    w ← get_sqe
    modify (log (queued request (env.prep request (set_context w type fd idx))))

  unfoldable pub prepare_accept : ℤ → Action IoUring Done
  unfolding get_sqe
  prepare_accept socket_fd = context_first OperationType.accept (negsuc 0) 0 (accept socket_fd 0)

  unfoldable pub prepare_read : ℤ → Action IoUring Done
  unfolding get_sqe
  prepare_read client_fd = context_first OperationType.read client_fd 0 (recv client_fd true 1)

  -- The prep helper, then setContext. The helper gets the address of the caller's message; the request
  -- has the message as it stands at this call, and does not say what lies there when it is submitted.
  unfoldable pub prepare_write : ℤ → ChatMessage → ℕ → ℕ → Action IoUring Done
  unfolding get_sqe
  prepare_write client_fd message len bid = do
    w ← get_sqe
    let request = write client_fd message len
    modify
        (log (queued request (set_context (env.prep request w) OperationType.write client_fd bid)))

  unfoldable pub prepare_close : ℤ → Action IoUring Done
  unfolding get_sqe
  prepare_close client_fd = context_first OperationType.close client_fd 0 (close client_fd)

  unfoldable pub handle_accept : ℤ → Action IoUring Done
  unfolding prepare_read
  handle_accept res = when (leb_ℤ (pos 0) res) (prepare_read res)

-- The ChatMessage that sendMessage fills in: zeroed, then the type, the 16-bit length, the data.
unfoldable pub make_message : MessageType → List ℕ → ChatMessage
make_message type text = record {
  type = type;
  len = length text % 2 ^ 16;
  content = text ++ replicate (max_data - length text) 0;
}

abbrev pub count_message : IoUring → IoUring
count_message u = record u { total_messages = (u.total_messages + 1) % u64 }

abbrev pub count_broadcast : IoUring → IoUring
count_broadcast u = record u { total_broadcasts = (u.total_broadcasts + 1) % u64 }

-- One reference for each client.
unfoldable pub increments : ℕ → ℕ → IoUring → IoUring
increments zero bid u = u
increments (suc n) bid u = increments n bid (with_buffers (increment_ref_count bid) u)

module _ (env : Env) where
  -- The body of sendMessage's `try`.
  send_body : ℤ → MessageType → List ℕ → ℕ → Action IoUring Done
  send_body client_fd type text bid =
      if ltb max_data (length text)
      then modify (decrement_buffer_ref_count bid) >> throw Error.message_too_long
      else prepare_write env client_fd (make_message type text) message_size bid
        >> modify count_message

  unfoldable pub send_message : ℤ → MessageType → List ℕ → ℕ → Action IoUring Done
  unfolding send_body
  send_message client_fd type text bid =
      catch (send_body client_fd type text bid)
        λ e. modify (decrement_buffer_ref_count bid) >> throw e

  -- A round of the loop over the clients; a send that throws is caught.
  unfoldable pub send_round : ℤ → MessageType → List ℕ → ℕ → Action IoUring Done
  send_round fd type text bid =
      catch (send_message fd type text bid) λ e. modify (decrement_buffer_ref_count bid)

  unfoldable pub send_loop : List ℤ → MessageType → List ℕ → ℕ → Action IoUring Done
  send_loop [] type text bid = pure tt
  send_loop (fd ∷ fds) type text bid = send_round fd type text bid >> send_loop fds type text bid

  -- broadcastToSession, where `clients` is what getSessionClients returned.
  unfoldable pub broadcast : List ℤ → MessageType → List ℕ → ℕ → Action IoUring Done
  broadcast [] type text bid = modify (decrement_buffer_ref_count bid)
  broadcast (fd ∷ fds) type text bid =
      catch
        (modify (increments (length (fd ∷ fds)) bid)
          >> send_loop (fd ∷ fds) type text bid
          >> modify count_broadcast)
        (λ e. modify (decrement_buffer_ref_count bid))

-- handleWriteComplete
unfoldable pub handle_write_complete : ℕ → IoUring → IoUring
handle_write_complete bid u =
    let u' = decrement_buffer_ref_count bid u in
    if get_ref_count bid u'.buffer_manager == 0 then release bid u' else u'

-- handleWrite: the result of the write only reaches the log.
unfoldable pub handle_write : ℤ → ℤ → ℕ → IoUring → IoUring
unfolding handle_write_complete
handle_write res client_fd bid = handle_write_complete bid
