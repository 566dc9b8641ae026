-- ===== src/SocketAddress.antt =====
-- server/include/SocketAddress.h, which no part of the server uses: an IPv4 address as the bytes of a
-- sockaddr, on a little-endian machine. A sockaddr_in has sin_family in the bytes 0 and 1, sin_port in
-- 2 and 3, and sin_addr in 4 to 7; the other eight are not written.
use tcpchatserver.Base.{ℕ, ◌+◌, ◌*◌, ◌/◌, ◌%◌, ◌^◌, ◌<◌, ◌≡◌, List, [], ◌∷◌, ◌++◌, arith, length}

-- A uint16_t and a uint32_t in memory.
abbrev bytes16 : ℕ → List ℕ
bytes16 n = n % 2 ^ 8 ∷ n / 2 ^ 8 ∷ []

abbrev bytes32 : ℕ → List ℕ
bytes32 n = n % 2 ^ 8 ∷ n / 2 ^ 8 % 2 ^ 8 ∷ n / 2 ^ 16 % 2 ^ 8 ∷ n / 2 ^ 24 ∷ []

-- The order of the bytes is reversed.
abbrev htons : ℕ → ℕ
htons n = n % 2 ^ 8 * 2 ^ 8 + n / 2 ^ 8

abbrev htonl : ℕ → ℕ
htonl n = n % 2 ^ 8 * 2 ^ 24 + n / 2 ^ 8 % 2 ^ 8 * 2 ^ 16 + n / 2 ^ 16 % 2 ^ 8 * 2 ^ 8 + n / 2 ^ 24

pub record SocketAddress : Type 0 where
  pub sock_addr : List ℕ

-- The constructor from an address and a port. `af_inet` is AF_INET, and `rest` what the object has in
-- the bytes that it does not write.
unfoldable pub from_address : (af_inet in_address in_port : ℕ) (rest : List ℕ) → SocketAddress
from_address af_inet in_address in_port rest = record {
  sock_addr = bytes16 af_inet ++ (bytes16 (htons in_port) ++ (bytes32 (htonl in_address) ++ rest));
}

-- The constructor from a sockaddr.
unfoldable pub from_sockaddr : List ℕ → SocketAddress
from_sockaddr in_sock_addr = record { sock_addr = in_sock_addr }

unfoldable pub get_size : SocketAddress → ℕ
get_size a = 16

-- The port and the address stand in memory with the highest byte first, whatever the machine's order.
pub from_address-network_order :
    (af_inet a b c d p q : ℕ) (rest : List ℕ)
    → a < 2 ^ 8
    → b < 2 ^ 8
    → c < 2 ^ 8
    → d < 2 ^ 8
    → p < 2 ^ 8
    → q < 2 ^ 8
    → (from_address af_inet
        (a * 2 ^ 24 + b * 2 ^ 16 + c * 2 ^ 8 + d)
        (p * 2 ^ 8 + q)
        rest).sock_addr
      ≡ bytes16 af_inet ++ (p ∷ q ∷ a ∷ b ∷ c ∷ d ∷ rest)
unfolding from_address
from_address-network_order af_inet a b c d p q rest ha hb hc hd hp hq = ground arith

-- All 16 bytes are there where the eight not written are.
pub from_address-size :
    (af_inet in_address in_port : ℕ) (rest : List ℕ)
    → length rest ≡ 8
    → let a = from_address af_inet in_address in_port rest in length a.sock_addr ≡ get_size a
unfolding from_address get_size
from_address-size af_inet in_address in_port rest h = omega (arith, h)
