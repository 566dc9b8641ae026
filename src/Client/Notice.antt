-- ===== src/Client/Notice.antt =====
-- handleMessage: the two kinds of message that it does not print as they are.
use tcpchatserver.Base.{
  ℕ, zero, suc, ◌≤◌, ◌<◌, ◌≡◌, refl, none, some, Option-cases, inl, inr, true, List, [], ◌∷◌, ◌++◌,
  arith, drop, ◌↔◌, subst, sym,
}
use tcpchatserver.Base.Text.{codes, length-to_string}
use tcpchatserver.Context.{MessageType, ChatMessage, message_byte}
use tcpchatserver.Client.{
  cout, joined_session, session_word, session_name, notice, unknown_notice, shown_as, shown,
}
use tcpchatserver.Client.Text.{find, starts_with}

-- What is found is there.
find-starts : (p s : List ℕ) (i : ℕ) → find p s ≡ some i → starts_with p (drop i s) ≡ true
unfolding find
find-starts p [] i e = ground arith
find-starts p (c ∷ cs) zero e = elim (Option-cases (find p cs)) [
  | inl gone ↦ ground arith
  | inr (j, at) ↦ ground arith
]
find-starts p (c ∷ cs) (suc i) e = elim (Option-cases (find p cs)) [
  | inl gone ↦ ground arith
  | inr (j, at) ↦ ground (arith, find-starts p cs i)
]

starts_with-append : (p s : List ℕ) → starts_with p s ≡ true → (rest : List ℕ) × (s ≡ p ++ rest)
starts_with-append [] s h = (s, refl)
starts_with-append (p ∷ ps) [] h = absurd (cc)
starts_with-append (p ∷ ps) (c ∷ cs) h =
    let (rest, e) = starts_with-append ps cs (ground arith) in (rest, ground arith)

-- The word behind "세션 " is never reached: the cut is three bytes on, in the middle of the word.
session_name-word : (rest : List ℕ) → session_name (session_word ++ rest) ≡ 0xec ∷ 0x85 ∷ 0x98 ∷ []
unfolding session_name find
session_name-word rest = refl

-- Whatever session a notification names in its Korean form, the client prints the same line,
-- "joined session:" and the second half of the word for session.
pub notice_cut :
    (text : List ℕ) (i j : ℕ)
    → find joined_session text ≡ some i
    → find session_word text ≡ some j
    → notice text ≡ cout (codes "joined session:" ++ 0xec ∷ 0x85 ∷ 0x98 ∷ 10 ∷ []) ∷ []
unfolding notice
notice_cut text i j joined word =
    let (rest, e) =
      starts_with-append session_word (drop j text) (find-starts session_word text j word) in
    let name : session_name (drop j text) ≡ 0xec ∷ 0x85 ∷ 0x98 ∷ [] =
      subst (λ s. session_name s ≡ 0xec ∷ 0x85 ∷ 0x98 ∷ []) (sym e) (session_name-word rest) in
    ground arith

-- A message of a type that no enumerator names: below 100 the client prints something and goes on,
-- and from 100 on it throws, since it asks for a text of 2 - 3 characters.
pub shown-unknown :
    (b : ℕ) (m : ChatMessage)
    → b < 256
    → m.type ≡ MessageType.unknown b
    → (shown m ≡ none) ↔ (100 ≤ b)
unfolding shown shown_as unknown_notice message_byte
shown-unknown b m h e = ground (arith, length-to_string b)
