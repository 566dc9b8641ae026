-- ===== src/Conversation/Greeting.antt =====
-- What a new client is told, and what it prints of that.
use tcpchatserver.Base.{
  ℕ, zero, suc, ◌+◌, ◌/◌, ◌%◌, ◌≤◌, ◌<◌, ◌≡◌, refl, none, some, true, List, [], ◌∷◌, ◌++◌, arith,
  All, drop,
}
use tcpchatserver.Base.IntSet
use tcpchatserver.Base.Int.{ℤ, pos, negsuc}
use tcpchatserver.Base.Text.{codes, digits, to_string}
use tcpchatserver.Base.Action.{ok}
use tcpchatserver.Context.{ChatMessage, MessageType, message_bytes}
use tcpchatserver.Uring.{Env, make_message}
use tcpchatserver.Uring.Broadcast.{HasRoom, deliveries}
use tcpchatserver.Session.{Session, session_text, add_client}
use tcpchatserver.Session.Join.{
  joining, add_client-calls, add_client-clients, add_client-room, length-session_text-le,
}
use tcpchatserver.Client.{Client, cout, line, joined_session, notice, shown, shown_as}
use tcpchatserver.Client.Text.{find}
use tcpchatserver.Client.Loop.{waiting, main_loop}
use tcpchatserver.Client.Transcript.{arrives, main_loop-transcript}
use tcpchatserver.Conversation.{make_message-IsWhole, make_message-text}

abbrev IsAscii : List ℕ → Type 0
IsAscii cs = All (λ c. c < 128) cs

All-append : (xs ys : List ℕ) → IsAscii xs → IsAscii ys → IsAscii (xs ++ ys)
All-append [] ys h k = k
All-append (x ∷ xs) ys h k = (h.0, All-append xs ys h.1 k)

digits-IsAscii : (fuel n : ℕ) → IsAscii (digits fuel n)
unfolding digits
digits-IsAscii zero n = tt
digits-IsAscii (suc fuel) n =
    let last : IsAscii ((b'0' + n % 10) ∷ []) = (omega arith, tt) in
    let rest =
      All-append (digits fuel (n / 10)) ((b'0' + n % 10) ∷ []) (digits-IsAscii fuel (n / 10))
        last in
    ground (arith, rest)

to_string-IsAscii : (i : ℤ) → IsAscii (to_string i)
unfolding to_string
to_string-IsAscii (pos n) = digits-IsAscii 10 n
to_string-IsAscii (negsuc n) = (omega arith, digits-IsAscii 10 (n + 1))

-- A text that begins with a byte above ASCII is in no ASCII text.
find-IsAscii : (p : ℕ) (ps s : List ℕ) → 128 ≤ p → IsAscii s → find (p ∷ ps) s ≡ none
unfolding find
find-IsAscii p ps [] h ascii = refl
find-IsAscii p ps (c ∷ cs) h ascii = ground (arith, find-IsAscii p ps cs h ascii.1)

session_text-IsAscii : (id : ℤ) → IsAscii (session_text id)
unfolding session_text
session_text-IsAscii id =
    let prefix : IsAscii (codes "joined session:") = ground arith in
    All-append (codes "joined session:") (to_string id) prefix (to_string-IsAscii id)

shown-session_text :
    (id : ℤ)
    → shown (make_message MessageType.server_notification (session_text id))
      ≡ some (cout (line (session_text id)) ∷ [])
unfolding shown shown_as notice
shown-session_text id =
    let (type, len, same) =
      make_message-text MessageType.server_notification (session_text id)
        (length-session_text-le id) in
    let absent =
      find-IsAscii 0xec (drop 1 joined_session) (session_text id) (omega arith)
        (session_text-IsAscii id) in
    ground arith

-- Where entries are free, a client that joins a session is put into its set, and three calls are made
-- on the ring: a read of the client, with a buffer of group 1 and the context of a read of it; a write
-- of one notification with the session's id to it, with the context of a write to it out of buffer 0;
-- and a submit. The buffers are not touched, so buffer 0 gains no reference for the write. A running
-- client that receives the notification prints its text, "joined session:" and the id, and a newline.
pub add_client-shown :
    (env : Env) (fd : ℤ) (s : Session) (send : List (ChatMessage × ℤ) → ChatMessage → ℤ)
    (c : Client)
    → HasRoom env
    → c.running ≡ true
    → let (r, t) = add_client env fd s in
      let greeting = make_message MessageType.server_notification (session_text s.session_id) in
      (r ≡ ok tt)
      × (t.io_ring.buffer_manager ≡ s.io_ring.buffer_manager)
      × (deliveries t.io_ring.calls ≡ (fd, greeting) ∷ deliveries s.io_ring.calls)
      × (t.clients ≡ IntSet.insert fd s.clients)
      × ((read : ℕ) × (written : ℕ) × (t.io_ring.calls
            ≡ joining env fd s.session_id read written s.io_ring.calls))
      × (main_loop send (arrives (message_bytes greeting) ∷ []) c
          ≡ waiting (record c { printed = cout (line (session_text s.session_id)) ∷ c.printed }))
add_client-shown env fd s send c room run =
    let text = session_text s.session_id in
    let greeting = make_message MessageType.server_notification text in
    let short = length-session_text-le s.session_id in
    let whole = make_message-IsWhole MessageType.server_notification text tt short in
    let (type, len, same) = make_message-text MessageType.server_notification text short in
    let show = shown-session_text s.session_id in
    let heard = main_loop-transcript send (greeting ∷ []) c run ((whole, ground arith), tt) in
    let (done, kept, told, submitted) = add_client-room env fd s room in
    (
      done,
      kept,
      told,
      (add_client-clients env fd s).0,
      add_client-calls env fd s room,
      ground arith,
    )
