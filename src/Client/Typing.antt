-- ===== src/Client/Typing.antt =====
-- mainLoop: a line that is typed at the client.
use tcpchatserver.Base.{
  ℕ, ◌<◌, ◌≡◌, ◌≢◌, none, some, true, false, List, [], ◌∷◌, ◌++◌, arith, length, All,
}
use tcpchatserver.Base.Int.{ℤ}
use tcpchatserver.Context.{ChatMessage}
use tcpchatserver.Client.{Client, send_chat, send_message}
use tcpchatserver.Client.Loop.{
  Tick, ready, waiting, c_string, chomp, read_stdin, loop_round, main_loop,
}

-- A round in which fgets stores a text and its newline, and nothing is received.
abbrev pub types : List ℕ → Tick
types text = ready false none true (some (text ++ 10 ∷ []))

-- No byte ends a C string or a line.
abbrev pub IsOneLine : List ℕ → Type 0
IsOneLine text = All (λ c. (c ≢ 0) × (c ≢ 10)) text

c_string-line : (text : List ℕ) → IsOneLine text → c_string (text ++ 10 ∷ []) ≡ text ++ 10 ∷ []
c_string-line [] h = ground arith
c_string-line (c ∷ text) h = ground (arith, h.0, c_string-line text h.1)

chomp-line : (text : List ℕ) → chomp (text ++ 10 ∷ []) ≡ text
chomp-line [] = ground arith
chomp-line (c ∷ []) = ground arith
chomp-line (c ∷ d ∷ text) = ground (arith, chomp-line (d ∷ text))

length-line : (text : List ℕ) → 0 < length (text ++ 10 ∷ [])
length-line [] = omega arith
length-line (c ∷ text) = omega arith

send_chat-running :
    (send : List (ChatMessage × ℤ) → ChatMessage → ℤ) (text : List ℕ) (c : Client)
    → (send_chat send text c).1.running ≡ c.running
unfolding send_chat send_message
send_chat-running send text c = ground arith

-- A running client sends a typed line as a chat message, without its newline.
pub main_loop-types :
    (send : List (ChatMessage × ℤ) → ChatMessage → ℤ) (text : List ℕ) (c : Client)
    → c.running ≡ true
    → IsOneLine text
    → main_loop send (types text ∷ []) c ≡ waiting (send_chat send text c).1
unfolding main_loop loop_round read_stdin
main_loop-types send text c run one = ground (
  arith,
  c_string-line text one,
  chomp-line text,
  length-line text,
  send_chat-running send text c,
)
