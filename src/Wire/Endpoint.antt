-- ===== src/Wire/Endpoint.antt =====
-- common/src/socket.cpp, class Endpoint: the part of a socket address that crosses the wire. The
-- address bytes are in network order, as in `sin_addr` and `sin6_addr`; the interface scope of an
-- IPv6 address is not sent and takes no part in `operator==`.
use drop_zone.Base.{
  same_bytes, ℕ, ◌^◌, ◌<◌, ◌≡◌, Bool, false, List, [], ◌∷◌, take, drop, if◌then◌else◌, length,
}

pub data Endpoint : Type 0 where
  unspecified : Endpoint
  v4 : ℕ → List ℕ → Endpoint
  v6 : ℕ → List ℕ → Endpoint

-- `IN6_IS_ADDR_V4MAPPED`: ten zero bytes, then two of all ones.
unfoldable pub is_v4_mapped : List ℕ → Bool
is_v4_mapped address =
    same_bytes (take 12 address) (0 ∷ 0 ∷ 0 ∷ 0 ∷ 0 ∷ 0 ∷ 0 ∷ 0 ∷ 0 ∷ 0 ∷ 255 ∷ 255 ∷ [])

-- `from_sockaddr` on a sockaddr_in, and on a sockaddr_in6: a mapped address is unwrapped.
unfoldable pub from_sockaddr_in : ℕ → List ℕ → Endpoint
from_sockaddr_in port address = v4 port address

unfoldable pub from_sockaddr_in6 : ℕ → List ℕ → Endpoint
from_sockaddr_in6 port address =
    if is_v4_mapped address then v4 port (drop 12 address) else v6 port address

-- What every endpoint that came through `from_sockaddr` satisfies.
abbrev pub IsEndpoint : Endpoint → Type 0
IsEndpoint unspecified = Unit {0}
IsEndpoint (v4 port address) = (port < 2 ^ 16) × (length address ≡ 4)
IsEndpoint (v6 port address) =
    (port < 2 ^ 16) × (length address ≡ 16) × (is_v4_mapped address ≡ false)
