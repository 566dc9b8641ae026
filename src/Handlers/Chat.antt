-- ===== src/Handlers/Chat.antt =====
-- handleChatMessage: what a chat message turns into, and who gets it.
use tcpchatserver.Base.{
  ℕ, zero, suc, ◌+◌, ◌≤◌, ◌<◌, ◌≡◌, ◌≢◌, refl, ◌⊎◌, inl, inr, some, true, List, [], ◌∷◌, arith,
  length, take, All, Bool-cases,
}
use tcpchatserver.Base.Int.{ℤ, pos, ◌≤ℤ◌}
use tcpchatserver.Context.{MessageType, ChatMessage, max_data}
use tcpchatserver.Buffer.{num_io_buffers, u32}
use tcpchatserver.Uring.{Env, make_message}
use tcpchatserver.Uring.Broadcast.{refs, deliveries, to_each, HasRoom, broadcast-to_each}
use tcpchatserver.Manager.{Manager, get_session, get_session_clients}
use tcpchatserver.Handlers.{is_kept, filter_text, ring_at, handle_chat_message, chat_in_session}

-- A byte that a chat message may hold: no control character but tab, newline and return, and not
-- the delete character.
abbrev pub IsPrintable : ℕ → Type 0
IsPrintable c = ((32 ≤ c) × (c ≢ 127)) ⊎ ((c ≡ 9) ⊎ ((c ≡ 10) ⊎ (c ≡ 13)))

is_kept-IsPrintable : (c : ℕ) → is_kept c ≡ true → IsPrintable c
unfolding is_kept
is_kept-IsPrintable c h = ground arith

kept_of-IsPrintable : (c : ℕ) → IsPrintable c → is_kept c ≡ true
unfolding is_kept
kept_of-IsPrintable c h = ground arith

-- What is broadcast holds printable bytes only and is at most as long as the message; and a text of
-- printable bytes is left as it is.
pub filter_text-IsPrintable :
    (cs : List ℕ) → All IsPrintable (filter_text cs) × (length (filter_text cs) ≤ length cs)
unfolding filter_text
filter_text-IsPrintable [] = (tt, omega arith)
filter_text-IsPrintable (c ∷ cs) =
    let rest = filter_text-IsPrintable cs in
    elim (Bool-cases (is_kept c)) [
      | inl keep ↦ rw keep ((is_kept-IsPrintable c keep, rest.0), omega (arith, rest.1))
      | inr drop ↦ rw drop (rest.0, omega (arith, rest.1))
    ]

pub filter_text-printable : (cs : List ℕ) → All IsPrintable cs → filter_text cs ≡ cs
unfolding filter_text
filter_text-printable [] h = refl
filter_text-printable (c ∷ cs) h =
    ground (arith, kept_of-IsPrintable c h.0, filter_text-printable cs h.1)

-- Filtering yields printable bytes only, never more than there were, and changes nothing when done
-- a second time.
pub filter_text_lem :
    (cs : List ℕ)
    → All IsPrintable (filter_text cs)
      × (length (filter_text cs) ≤ length cs)
      × (filter_text (filter_text cs) ≡ filter_text cs)
filter_text_lem cs =
    let (kept, short) = filter_text-IsPrintable cs in
    (kept, short, filter_text-printable (filter_text cs) kept)

length-take-le : (n : ℕ) (cs : List ℕ) → length (take n cs) ≤ n
length-take-le zero cs = omega arith
length-take-le (suc n) [] = omega arith
length-take-le (suc n) (c ∷ cs) = omega (arith, length-take-le n cs)

pub length-filter_text-le : (n : ℕ) (cs : List ℕ) → length (filter_text (take n cs)) ≤ n
length-filter_text-le n cs =
    omega (arith, (filter_text-IsPrintable (take n cs)).1, length-take-le n cs)

-- A client that is in a session sends a message of 1 to 512 bytes in which something is printable,
-- and entries are always free. Then every client of the session, the sender included, is sent the
-- filtered text once, in ascending order, as a SERVER_CHAT message, on the ring that the message
-- came in on; and its buffer holds one reference more for each of them.
pub handle_chat_message-to_each :
    (envs : ℕ → Env) (self : ℕ) (client_fd fd : ℤ) (fds : List ℤ) (message : ChatMessage)
    (bid ref : ℕ) (w : Manager)
    → HasRoom (envs self)
    → get_session client_fd w ≡ some ref
    → pos 0 ≤ℤ (w.heap ref).session_id
    → get_session_clients (w.heap ref).session_id w ≡ fd ∷ fds
    → 0 < message.len
    → message.len ≤ max_data
    → filter_text (take message.len message.content) ≢ []
    → bid < num_io_buffers
    → refs bid (ring_at self w) + length (fd ∷ fds) < u32
    → let v = (handle_chat_message envs self client_fd message bid w).1 in
      let text = filter_text (take message.len message.content) in
      (deliveries (ring_at self v).calls
        ≡ to_each
            (fd ∷ fds)
            (make_message MessageType.server_chat text)
            (deliveries (ring_at self w).calls))
      × (refs bid (ring_at self v) ≡ refs bid (ring_at self w) + length (fd ∷ fds))
unfolding handle_chat_message chat_in_session
handle_chat_message-to_each envs self client_fd fd fds message bid ref w room in_session id members
      some_bytes few printable b lim =
    let text = filter_text (take message.len message.content) in
    let short : length text ≤ max_data = omega (
      arith,
      (filter_text-IsPrintable (take message.len message.content)).1,
      length-take-le message.len message.content,
    ) in
    let all =
      broadcast-to_each (envs self) fd fds MessageType.server_chat text bid (ring_at self w) room
        short b lim in
    (ground (arith, all.0), ground (arith, all.1))
