-- ===== src/Client/Transcript.antt =====
-- What the loop of the client prints.
use tcpchatserver.Base.{
  ℕ, ◌≤◌, ◌<◌, ◌≡◌, Option, none, some, Option-cases, inl, inr, true, false, List, [], ◌∷◌, ◌++◌,
  arith, length, map, All,
}
use tcpchatserver.Base.Int.{ℤ}
use tcpchatserver.Base.Action.{Done}
use tcpchatserver.Context.{ChatMessage, message_bytes, message_of_bytes, message_size, max_data}
use tcpchatserver.Context.Wire.{IsWhole, length-message_bytes, message_of_bytes-message_bytes}
use tcpchatserver.Client.{Client, Output, shown}
use tcpchatserver.Client.Loop.{
  Tick, ready, Run, waiting, killed, handle_message, receive, loop_round, main_loop, read_stdin,
}

-- A round in which recv gets these bytes, and nothing is typed.
abbrev pub arrives : List ℕ → Tick
arrives bytes = ready true (some bytes) false none

-- Everything that is printed for some messages, newest first; `none` where one of them throws.
abbrev pub transcript : List ChatMessage → List Output → Option (List Output)
transcript [] outs = some outs
transcript (m ∷ ms) outs = elim (shown m) [ none ↦ none | some new ↦ transcript ms (new ++ outs) ]

abbrev pub prints : Option (List Output) → Client → Run Done
prints none c = killed
prints (some outs) c = waiting (record c { printed = outs })

abbrev pub IsReadable : ChatMessage → Type 0
IsReadable m = IsWhole m × (m.len ≤ max_data)

module _ (send : List (ChatMessage × ℤ) → ChatMessage → ℤ) where
  round-message :
      (m : ChatMessage) (c : Client)
      → IsReadable m
      → loop_round send (arrives (message_bytes m)) c
        ≡ elim (handle_message send m c) [ none ↦ killed | some c' ↦ waiting c' ]
  unfolding loop_round receive message_bytes read_stdin handle_message
  round-message m c (whole, few) =
      let same : message_of_bytes (message_bytes m) ≡ m = message_of_bytes-message_bytes m whole in
      let long : length (message_bytes m) ≡ message_size = length-message_bytes m whole in
      elim (Option-cases (shown m)) [ inl throws ↦ ground arith | inr (outs, e) ↦ ground arith ]

pub main_loop-transcript :
    (send : List (ChatMessage × ℤ) → ChatMessage → ℤ) (ms : List ChatMessage) (c : Client)
    → c.running ≡ true
    → All IsReadable ms
    → main_loop send (map (λ m. arrives (message_bytes m)) ms) c
      ≡ prints (transcript ms c.printed) c
unfolding main_loop handle_message
main_loop-transcript send [] c run ok = ground arith
main_loop-transcript send (m ∷ ms) c run ok =
    let round = round-message send m c ok.0 in
    elim (Option-cases (shown m)) [
      | inl throws ↦ ground arith
      | inr (outs, e) ↦
          let c' = record c { printed = outs ++ c.printed } in
          ground (arith, main_loop-transcript send ms c' run ok.1)
    ]

-- What arrives in pieces, each shorter than a message, is dropped, also where the pieces make up whole
-- messages: a running client prints nothing of it and goes on waiting.
pub main_loop-pieces :
    (send : List (ChatMessage × ℤ) → ChatMessage → ℤ) (pieces : List (List ℕ)) (c : Client)
    → c.running ≡ true
    → All (λ p. (0 < length p) × (length p < message_size)) pieces
    → main_loop send (map arrives pieces) c ≡ waiting c
unfolding main_loop loop_round receive read_stdin
main_loop-pieces send [] c run short = ground arith
main_loop-pieces send ([] ∷ rest) c run short = absurd (omega arith)
main_loop-pieces send ((b ∷ bs) ∷ rest) c run short =
    ground (arith, main_loop-pieces send rest c run short.1)
