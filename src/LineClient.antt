-- ===== src/LineClient.antt =====
-- ChatClient.cpp at the root: an older client of lines, which the build files do not name. Its thread
-- receives while others send; `receiving` says whether the thread was started and not joined yet.
-- `sent`, `printed` and `closed` are newest first, as in the client under client/.
pub mod Stream
use tcpchatserver.Base.{
  ℕ, Option, none, some, Bool, true, false, not, List, [], ◌∷◌, ◌++◌, ◌==◌, if◌then◌else◌,
}
use tcpchatserver.Base.Int.{ℤ, pos, negsuc, ltb_ℤ, leb_ℤ, ℤ_discrete}
use tcpchatserver.Client.{Output, cout, cerr, line}
use tcpchatserver.Client.Loop.{c_string, Dial}

pub record LineClient : Type 0 where
  pub socket_fd : ℤ
  pub should_stop : Bool
  pub receiving : Bool
  pub sent : List (List ℕ × ℤ)
  pub printed : List Output
  pub closed : List ℤ

-- ChatClient::ChatClient
unfoldable pub new_line_client : LineClient
new_line_client = record {
  socket_fd = negsuc 0;
  should_stop = false;
  receiving = false;
  sent = [];
  printed = [];
  closed = [];
}

abbrev put : Output → LineClient → LineClient
put o c = record c { printed = o ∷ c.printed }

abbrev is_unset : ℤ → Bool
is_unset fd = elim (ℤ_discrete fd (negsuc 0)) [ yes _ ↦ true | no _ ↦ false ]

abbrev no_socket : List ℕ
no_socket =
    0xec ∷ 0x86 ∷ 0x8c ∷ 0xec ∷ 0xbc ∷ 0x93 ∷ 0x20 ∷ 0xec ∷ 0x83 ∷ 0x9d ∷ 0xec ∷ 0x84 ∷ 0xb1 ∷ 0x20
    ∷ 0xec ∷ 0x8b ∷ 0xa4 ∷ 0xed ∷ 0x8c ∷ 0xa8 ∷ []

abbrev bad_address : List ℕ
bad_address =
    0xec ∷ 0x9e ∷ 0x98 ∷ 0xeb ∷ 0xaa ∷ 0xbb ∷ 0xeb ∷ 0x90 ∷ 0x9c ∷ 0x20 ∷ 0xec ∷ 0x84 ∷ 0x9c ∷ 0xeb
    ∷ 0xb2 ∷ 0x84 ∷ 0x20 ∷ 0xec ∷ 0xa3 ∷ 0xbc ∷ 0xec ∷ 0x86 ∷ 0x8c ∷ []

abbrev no_server : List ℕ
no_server =
    0xec ∷ 0x84 ∷ 0x9c ∷ 0xeb ∷ 0xb2 ∷ 0x84 ∷ 0x20 ∷ 0xec ∷ 0x97 ∷ 0xb0 ∷ 0xea ∷ 0xb2 ∷ 0xb0 ∷ 0x20
    ∷ 0xec ∷ 0x8b ∷ 0xa4 ∷ 0xed ∷ 0x8c ∷ 0xa8 ∷ []

abbrev not_connected : List ℕ
not_connected =
    0xec ∷ 0x84 ∷ 0x9c ∷ 0xeb ∷ 0xb2 ∷ 0x84 ∷ 0xec ∷ 0x97 ∷ 0x90 ∷ 0x20 ∷ 0xec ∷ 0x97 ∷ 0xb0 ∷ 0xea
    ∷ 0xb2 ∷ 0xb0 ∷ 0xeb ∷ 0x90 ∷ 0x98 ∷ 0xec ∷ 0x96 ∷ 0xb4 ∷ 0x20 ∷ 0xec ∷ 0x9e ∷ 0x88 ∷ 0xec
    ∷ 0xa7 ∷ 0x80 ∷ 0x20 ∷ 0xec ∷ 0x95 ∷ 0x8a ∷ 0xec ∷ 0x9d ∷ 0x8c ∷ []

abbrev not_sent : List ℕ
not_sent =
    0xeb ∷ 0xa9 ∷ 0x94 ∷ 0xec ∷ 0x8b ∷ 0x9c ∷ 0xec ∷ 0xa7 ∷ 0x80 ∷ 0x20 ∷ 0xec ∷ 0xa0 ∷ 0x84 ∷ 0xec
    ∷ 0x86 ∷ 0xa1 ∷ 0x20 ∷ 0xec ∷ 0x8b ∷ 0xa4 ∷ 0xed ∷ 0x8c ∷ 0xa8 ∷ []

abbrev connection_lost : List ℕ
connection_lost =
    0xec ∷ 0x84 ∷ 0x9c ∷ 0xeb ∷ 0xb2 ∷ 0x84 ∷ 0xec ∷ 0x99 ∷ 0x80 ∷ 0xec ∷ 0x9d ∷ 0x98 ∷ 0x20 ∷ 0xec
    ∷ 0x97 ∷ 0xb0 ∷ 0xea ∷ 0xb2 ∷ 0xb0 ∷ 0xec ∷ 0x9d ∷ 0xb4 ∷ 0x20 ∷ 0xeb ∷ 0x81 ∷ 0x8a ∷ 0xec
    ∷ 0x96 ∷ 0xb4 ∷ 0xec ∷ 0xa7 ∷ 0x90 ∷ []

unfoldable pub connect_line : Dial → LineClient → Bool × LineClient
connect_line dial c =
    let c' = record c { socket_fd = dial.socket } in
    let failed : List ℕ → Bool × LineClient =
      λ text. (false, put (cerr (line text)) (record c' { closed = dial.socket ∷ c'.closed })) in
    if is_unset dial.socket
    then (false, put (cerr (line no_socket)) c')
    else if leb_ℤ dial.inet_pton (pos 0)
    then failed bad_address
    else if ltb_ℤ dial.connect (pos 0)
    then failed no_server
    else (true, record c' { receiving = true })

-- The part of `disconnect` before the thread is joined.
unfoldable pub hang_up : LineClient → LineClient
hang_up c =
    let c' = record c { should_stop = true } in
    if is_unset c.socket_fd
    then c'
    else record c' { closed = c.socket_fd ∷ c.closed; socket_fd = negsuc 0 }

-- `disconnect`, once the thread has ended.
unfoldable pub disconnect_line : LineClient → LineClient
disconnect_line c = record (hang_up c) { receiving = false }

-- `send ms m` is what send() returns for `m` after the texts `ms`.
unfoldable pub send_line :
    (send : List (List ℕ × ℤ) → List ℕ → ℤ) → List ℕ → LineClient → LineClient
send_line send message c =
    let msg = line message in
    let ret = send c.sent msg in
    let c' = record c { sent = (msg, ret) ∷ c.sent } in
    if is_unset c.socket_fd
    then put (cerr (line not_connected)) c
    else if ltb_ℤ ret (pos 0)
    then put (cerr (line not_sent)) c'
    else c'

abbrev pub ends_line : List ℕ → Bool
ends_line [] = true
ends_line (c ∷ []) = c == 10
ends_line (c ∷ d ∷ cs) = ends_line (d ∷ cs)

-- What was received is printed up to its first NUL.
unfoldable pub handle_line : List ℕ → LineClient → LineClient
handle_line message c =
    let c' = put (cout (c_string message)) c in
    if ends_line message then c' else put (cout (10 ∷ [])) c'

-- What happens while the thread is in recv: it returns with some bytes, or with `none` for -1; or
-- another thread calls `disconnect`.
pub data Event : Type 0 where
  received : Option (List ℕ) → Event
  disconnected : Event

-- The thread has ended, or it is in recv.
pub data Receiving : Type 0 where
  ended waits : LineClient → Receiving

abbrev lost : LineClient → LineClient
lost c = if c.should_stop then c else put (cerr (line connection_lost)) c

unfoldable pub in_recv : List Event → LineClient → Receiving
in_recv [] c = waits c
in_recv (disconnected ∷ es) c = in_recv es (hang_up c)
in_recv (received none ∷ es) c = ended (lost c)
in_recv (received (some []) ∷ es) c = ended (lost c)
in_recv (received (some (b ∷ bs)) ∷ es) c =
    let c' = handle_line (b ∷ bs) c in
    let more = in_recv es c' in if c.should_stop then ended c' else more

unfoldable pub receive_loop : List Event → LineClient → Receiving
receive_loop es c = let inside = in_recv es c in if c.should_stop then ended c else inside
