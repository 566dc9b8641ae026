-- ===== src/Benchmark/Echo.antt =====
-- A message of the benchmark that comes back to its callback.
use tcpchatserver.Base.{
  ℕ, ◌+◌, ◌-◌, ◌/◌, ◌%◌, ◌^◌, ◌<◌, ◌≡◌, refl, sym, subst, none, some, List, [], ◌∷◌, ◌++◌, arith,
  ite, ℕ_discrete, replicate,
}
use tcpchatserver.Base.Int.{ℤ}
use tcpchatserver.Base.Map.{lookup, lookup-erase}
use tcpchatserver.Base.Text.{codes, to_string}
use tcpchatserver.Base.Decimal.{to_string_u64, stoull, stoull-to_string, Parsed}
use tcpchatserver.Client.Text.{find}
use tcpchatserver.Benchmark.{TestMessage, Stats, count_reply, on_message, test_text, u64}

-- Behind the words that every message of the benchmark begins with, the callback reads the id.
on_message-id :
    (what : List ℕ) (now msg_id : ℕ) (rest : List ℕ) (s : Stats)
    → msg_id < u64
    → on_message what now (codes "test_message_msg_id:" ++ (to_string_u64 msg_id ++ b',' ∷ rest)) s
      ≡ (count_reply now msg_id s, [])
unfolding on_message find
on_message-id what now msg_id rest s h =
    let read : stoull (to_string_u64 msg_id ++ b',' ∷ rest) ≡ Parsed.number msg_id =
      stoull-to_string msg_id (b',') rest h refl in
    rw read refl

-- What the benchmark sends comes back as it was sent, while its id is awaited: the callback prints
-- nothing, counts one message received and its latency in milliseconds, and awaits the id no longer;
-- which others are awaited stays as it was.
pub on_message-test_text :
    (what : List ℕ) (now msg_id : ℕ) (client_id : ℤ) (msg_size : ℕ) (text : List ℕ) (s : Stats)
    (it : TestMessage)
    → msg_id < u64
    → test_text msg_id client_id msg_size ≡ some text
    → lookup ℕ_discrete msg_id s.pending_messages ≡ some it
    → let (t, printed) = on_message what now text s in
      (printed ≡ [])
      × (t.messages_received ≡ (s.messages_received + 1) % u64)
      × (t.total_latency_ms ≡ (s.total_latency_ms + (now - it.send_time) / 10 ^ 6) % u64)
      × (t.messages_sent ≡ s.messages_sent)
      × ((k : ℕ)
          → lookup ℕ_discrete k t.pending_messages
            ≡ ite (ℕ_discrete k msg_id) none (lookup ℕ_discrete k s.pending_messages))
unfolding test_text count_reply
on_message-test_text what now msg_id client_id msg_size text s it h made awaited =
    let rest =
      codes "client:"
      ++ (to_string client_id ++ (codes ",data:" ++ replicate (msg_size - 50) (b'a'))) in
    let back = on_message-id what now msg_id rest s h in
    let same : text ≡ codes "test_message_msg_id:" ++ (to_string_u64 msg_id ++ b',' ∷ rest) =
      ground arith in
    let done : on_message what now text s ≡ (count_reply now msg_id s, []) =
      subst (λ m. on_message what now m s ≡ (count_reply now msg_id s, [])) (sym same) back in
    (
      ground arith,
      ground arith,
      ground arith,
      ground arith,
      λ k. ground (arith, lookup-erase ℕ_discrete k msg_id s.pending_messages),
    )
