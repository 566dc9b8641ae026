-- ===== src/LineClient/Stream.antt =====
-- What the older client prints of a stream.
use tcpchatserver.Base.{
  ℕ, ◌≡◌, ◌≢◌, refl, sym, ap, ◌∙◌, some, false, List, [], ◌∷◌, ◌++◌, ◌==◌, arith, All, map,
  if◌then◌else◌,
}
use tcpchatserver.Client.{Output, cout, cerr}
use tcpchatserver.Client.Loop.{c_string}
use tcpchatserver.LineClient.{LineClient, received, waits, handle_line, in_recv, receive_loop}

-- What was written to std::cout, from a list that is newest first.
abbrev pub said : List Output → List ℕ
said [] = []
said (cout text ∷ os) = said os ++ text
said (cerr text ∷ os) = said os

abbrev pub bare : List ℕ → List ℕ
bare [] = []
bare (c ∷ cs) = if c == 10 then bare cs else c ∷ bare cs

abbrev pub joined : List (List ℕ) → List ℕ
joined [] = []
joined (chunk ∷ chunks) = chunk ++ joined chunks

append_assoc : (xs ys zs : List ℕ) → (xs ++ ys) ++ zs ≡ xs ++ (ys ++ zs)
append_assoc [] ys zs = refl
append_assoc (x ∷ xs) ys zs = ap (◌∷◌ x) (append_assoc xs ys zs)

append_nil : (xs : List ℕ) → xs ++ [] ≡ xs
append_nil [] = refl
append_nil (x ∷ xs) = ap (◌∷◌ x) (append_nil xs)

bare-append : (xs ys : List ℕ) → bare (xs ++ ys) ≡ bare xs ++ bare ys
bare-append [] ys = refl
bare-append (x ∷ xs) ys = ground (arith, bare-append xs ys)

c_string-same : (cs : List ℕ) → All (λ c. c ≢ 0) cs → c_string cs ≡ cs
c_string-same [] h = refl
c_string-same (c ∷ cs) h = ground (arith, c_string-same cs h.1)

-- Of a chunk, a connected client prints everything but that it may add a newline.
bare-handle_line :
    (chunk : List ℕ) (c : LineClient)
    → All (λ b. b ≢ 0) chunk
    → let d = handle_line chunk c in
      (d.should_stop ≡ c.should_stop)
      × (bare (said d.printed) ≡ bare (said c.printed) ++ bare chunk)
unfolding handle_line
bare-handle_line chunk c h =
    let whole = c_string-same chunk h in
    let more = bare-append (said c.printed) chunk in
    let newline = bare-append (said c.printed ++ chunk) (10 ∷ []) in
    let nil = append_nil (bare (said c.printed ++ chunk)) in (ground arith, ground arith)

-- However a stream without NULs is cut into chunks: a client that is not told to stop goes on waiting,
-- and but for newlines it has printed the stream.
pub receive_loop-stream :
    (chunks : List (List ℕ)) (c : LineClient)
    → All (λ chunk. (chunk ≢ []) × All (λ b. b ≢ 0) chunk) chunks
    → c.should_stop ≡ false
    → (d : LineClient) × (receive_loop (map (λ chunk. received (some chunk)) chunks) c ≡ waits d)
      × (bare (said d.printed) ≡ bare (said c.printed) ++ bare (joined chunks))
unfolding receive_loop in_recv
receive_loop-stream [] c h go = (c, ground arith, sym (append_nil (bare (said c.printed))))
receive_loop-stream ([] ∷ chunks) c h go = absurd (h.0.0 refl)
receive_loop-stream ((b ∷ bs) ∷ chunks) c h go =
    let c' = handle_line (b ∷ bs) c in
    let (still, one) = bare-handle_line (b ∷ bs) c h.0.1 in
    let (d, loops, rest) = receive_loop-stream chunks c' h.1 (still ∙ go) in
    let split = bare-append (b ∷ bs) (joined chunks) in
    let assoc = append_assoc (bare (said c.printed)) (bare (b ∷ bs)) (bare (joined chunks)) in
    (d, ground arith, cc)
