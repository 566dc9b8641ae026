-- ===== src/Handlers/Requests.antt =====
-- handleJoinSession: the answer that a request to join gets.
use tcpchatserver.Base.{
  ℕ, ◌≤◌, ◌≡◌, ◌≢◌, some, none, List, ◌∷◌, arith, length, length-append, ◌⊎◌, inl, inr,
}
use tcpchatserver.Base.Int.{ℤ, ℤ_discrete}
use tcpchatserver.Base.IntSet
use tcpchatserver.Base.Map.{lookup, lookup-insert}
use tcpchatserver.Base.Action.{ok, Error}
use tcpchatserver.Base.Text.{codes, to_string, length-to_string-le}
use tcpchatserver.Context.{MessageType, ChatMessage, max_data, int32_at}
use tcpchatserver.Uring.{Env, IoUring, make_message, send_message}
use tcpchatserver.Uring.Send.{send_message-Sends}
use tcpchatserver.Uring.Broadcast.{deliveries, HasRoom}
use tcpchatserver.Manager.{Manager, join_session}
use tcpchatserver.Manager.Members.{SessionAt, SameSets, join_session_cases, join_session_room}
use tcpchatserver.Handlers.{
  ring_at, join_text, join_error_text, what, join_body, handle_join_session,
}

-- The ring after one more send, with an entry free.
send_message-room :
    (env : Env) (fd : ℤ) (type : MessageType) (text : List ℕ) (bid : ℕ) (u : IoUring)
    → HasRoom env
    → length text ≤ max_data
    → let (r, v) = send_message env fd type text bid u in
      (r ≡ ok tt)
      × (v.buffer_manager ≡ u.buffer_manager)
      × (deliveries v.calls ≡ (fd, make_message type text) ∷ deliveries u.calls)
send_message-room env fd type text bid u room h =
    elim (send_message-Sends env fd type text bid u h) [
      | inl (w, cs, from, e) ↦ (ground arith, ground arith, ground arith)
      | inr (full, e) ↦ absurd (room u.calls full)
    ]

length-join_text-le : (id : ℤ) → length (join_text id) ≤ max_data
unfolding join_text
length-join_text-le id = omega (
  arith,
  length-append (codes "Successfully joined session ") (to_string id),
  length-to_string-le id,
)

length-join_error_text-le : (e : Error) → length (join_error_text e) ≤ max_data
unfolding join_error_text what
length-join_error_text-le Error.ring_init_failed = omega arith
length-join_error_text-le Error.mmap_failed = omega arith
length-join_error_text-le Error.register_failed = omega arith
length-join_error_text-le Error.sqe_unavailable = omega arith
length-join_error_text-le Error.message_too_long = omega arith
length-join_error_text-le Error.already_in_session = omega arith
length-join_error_text-le Error.invalid_session_id = omega arith
length-join_error_text-le Error.no_available_sessions = omega arith
length-join_error_text-le Error.listen_failed = omega arith

-- A request to join that names a session, where entries are always free. A client that is registered
-- already gets a SERVER_ERROR that says so, and a client that names a session that is not there one
-- that says that; neither changes a registration, a session's set of clients or the map of sessions.
-- Any other client is put into the session's set and registered for it, and the last message queued for it on this ring is a SERVER_ACK with the session's
-- id. The handler itself never throws.
pub handle_join_session_answers :
    (envs : ℕ → Env) (self : ℕ) (fd : ℤ) (message : ChatMessage) (bid : ℕ) (w : Manager)
    → ((ref : ℕ) → HasRoom (envs ref))
    → 4 ≤ message.len
    → let (r, v) = handle_join_session envs self fd message bid w in
      let id = int32_at message.content in
      let sent = deliveries (ring_at self w).calls in
      (r ≡ ok tt)
      × (((lookup ℤ_discrete fd w.client_sessions ≢ none)
            × (v.client_sessions ≡ w.client_sessions)
            × (v.sessions ≡ w.sessions)
            × SameSets w v
            × (deliveries (ring_at self v).calls
                ≡ (
                  fd,
                  make_message MessageType.server_error (join_error_text Error.already_in_session),
                )
                  ∷ sent))
          ⊎ (((lookup ℤ_discrete fd w.client_sessions ≡ none)
                × (lookup ℤ_discrete id w.sessions ≡ none)
                × (v.client_sessions ≡ w.client_sessions)
                × (v.sessions ≡ w.sessions)
                × SameSets w v
                × (deliveries (ring_at self v).calls
                    ≡ (
                      fd,
                      make_message MessageType.server_error
                          (join_error_text Error.invalid_session_id),
                    )
                      ∷ sent))
              ⊎ ((lookup ℤ_discrete fd w.client_sessions ≡ none)
                  × ((ref : ℕ) × SessionAt id w ref
                      × ((v.heap ref).clients ≡ IntSet.insert fd (w.heap ref).clients))
                  × (lookup ℤ_discrete fd v.client_sessions ≡ some id)
                  × ((ds : List (ℤ × ChatMessage)) × (deliveries (ring_at self v).calls
                        ≡ (fd, make_message MessageType.server_ack (join_text id)) ∷ ds)))))
unfolding handle_join_session join_body
handle_join_session_answers envs self fd message bid w room long =
    let id = int32_at message.content in
    let refusal = λ (e : Error).
      send_message-room (envs self) fd MessageType.server_error (join_error_text e) bid
        (ring_at self w) (room self) (length-join_error_text-le e) in
    elim (join_session_cases envs fd id w) [
      | inl (taken, refused, same) ↦
          let answer = refusal Error.already_in_session in
          (ground arith, inl (taken, ground arith, ground arith, λ r. ground arith, ground arith))
      | inr (free, inl (gone, refused, same)) ↦
          let answer = refusal Error.invalid_session_id in
          (
            ground arith,
            inr (inl (free, gone, ground arith, ground arith, λ r. ground arith, ground arith)),
          )
      | inr (free, inr (ref, found, set, kept, rest)) ↦
          let v = (join_session envs fd id w).1 in
          let joined = join_session_room envs fd id w ref (room ref) free found in
          let answer =
            send_message-room (envs self) fd MessageType.server_ack (join_text id) bid
              (ring_at self v) (room self) (length-join_text-le id) in
          (
            ground arith,
            inr (
                inr (
                  free,
                  (ref, found, ground arith),
                  ground (arith, lookup-insert ℤ_discrete fd fd id w.client_sessions),
                  (deliveries (ring_at self v).calls, ground arith),
                )),
          )
    ]
