-- ===== src/Protocol/Message/Common.antt =====
-- What the messages share: running a decoder on a payload, the laws by which an encoder's output is
-- read, and the transport that a message names.
use drop_zone.Base.{
  ℕ, ◌+◌, ◌%◌, ◌^◌, ◌≤◌, ◌<◌, ◌≡◌, refl, sym, ◌∙◌, Bool, false, List, [], ◌∷◌, ◌++◌, append-nil,
  append_assoc, length, ◌==◌, ltb, if◌then◌else◌,
}
use drop_zone.Base.Result.{ok}
use drop_zone.Wire.Endian.{store_u16, store_u32, store_u64}
use drop_zone.Wire.Endpoint.{Endpoint, unspecified, v4, v6}
use drop_zone.Wire.Writer.{
  Writer, put_u8, put_u16, put_u32, put_u64, put_bool, put_bytes, put_string, put_raw, put_endpoint,
  put_each, put_endpoints,
}
use drop_zone.Wire.Reader.{Parser, open_reader, decode_with}
use drop_zone.Wire.Reads.{
  ReadsLast, bool_byte, prefixed, endpoint_bytes, endpoints_bytes, each_bytes,
}

pub decode_with-ReadsLast {ℓ} :
    {A : Type ℓ} (p : Parser A) (bytes : List ℕ) (a : A)
    → ReadsLast p bytes a
    → decode_with p bytes ≡ ok a
decode_with-ReadsLast p bytes a h = rw (h.apply (open_reader bytes) refl, decode_with) refl

pub put_u8_lem : (v : ℕ) (b : Writer) → put_u8 v b ≡ b ++ v ∷ []
unfolding put_u8
put_u8_lem v b = refl

pub put_u16_lem : (v : ℕ) (b : Writer) → put_u16 v b ≡ b ++ store_u16 v
unfolding put_u16
put_u16_lem v b = refl

pub put_u32_lem : (v : ℕ) (b : Writer) → put_u32 v b ≡ b ++ store_u32 v
unfolding put_u32
put_u32_lem v b = refl

pub put_u64_lem : (v : ℕ) (b : Writer) → put_u64 v b ≡ b ++ store_u64 v
unfolding put_u64
put_u64_lem v b = refl

pub put_raw_lem : (bs : List ℕ) (b : Writer) → put_raw bs b ≡ b ++ bs
unfolding put_raw
put_raw_lem bs b = refl

pub put_bool_lem : (v : Bool) (b : Writer) → put_bool v b ≡ b ++ bool_byte v ∷ []
unfolding put_bool
put_bool_lem v b = refl

pub put_bytes_lem : (bs : List ℕ) (b : Writer) → put_bytes bs b ≡ b ++ prefixed bs
unfolding put_bytes
put_bytes_lem bs b = append_assoc b _ bs

pub put_string_lem : (bs : List ℕ) (b : Writer) → put_string bs b ≡ b ++ prefixed bs
unfolding put_string
put_string_lem bs b = append_assoc b _ bs

pub put_endpoint_lem : (e : Endpoint) (b : Writer) → put_endpoint e b ≡ b ++ endpoint_bytes e
unfolding put_endpoint
put_endpoint_lem unspecified b = simp append_assoc
put_endpoint_lem (v4 port address) b = simp append_assoc
put_endpoint_lem (v6 port address) b = simp append_assoc

pub put_each_lem {ℓ} :
    {A : Type ℓ} (put : A → Writer → Writer) (format : A → List ℕ)
    → ((x : A) (b : Writer) → put x b ≡ b ++ format x)
    → (xs : List A) (b : Writer) → put_each put xs b ≡ b ++ each_bytes format xs
unfolding put_each
put_each_lem put format h [] b = sym (append-nil b)
put_each_lem put format h (x ∷ xs) b =
    put_each_lem put format h xs (put x b) ∙ rw (h x b) (append_assoc b (format x) _)

pub put_endpoints_lem :
    (es : List Endpoint) (b : Writer) → put_endpoints es b ≡ b ++ endpoints_bytes es
unfolding put_endpoints
put_endpoints_lem es b =
    put_each_lem put_endpoint endpoint_bytes put_endpoint_lem es _ ∙ append_assoc b _ _

pub ruleset puts = (
  put_u8_lem, put_u16_lem, put_u32_lem, put_u64_lem, put_raw_lem, put_bool_lem, put_bytes_lem,
  put_string_lem, put_endpoint_lem, put_endpoints_lem, append_assoc, append-nil,
)

-- `enum class TransportKind : std::uint8_t`.
pub data TransportKind : Type 0 where
  no_transport direct_tcp hole_punch_udp server_relay : TransportKind

unfoldable pub transport_byte : TransportKind → ℕ
transport_byte no_transport = 0
transport_byte direct_tcp = 1
transport_byte hole_punch_udp = 2
transport_byte server_relay = 3

-- `static_cast<TransportKind>(hint)`, after the check that it is at most 3.
unfoldable pub transport_of : ℕ → TransportKind
transport_of byte =
    if byte == 0
    then no_transport
    else if byte == 1
    then direct_tcp
    else if byte == 2
    then hole_punch_udp
    else server_relay

-- The hint that was written passes the check and is the one that is read.
pub transport_read :
    (kind : TransportKind)
    → (ltb 3 (transport_byte kind) ≡ false) × (transport_of (transport_byte kind) ≡ kind)
unfolding transport_byte transport_of
transport_read no_transport = (refl, refl)
transport_read direct_tcp = (refl, refl)
transport_read hole_punch_udp = (refl, refl)
transport_read server_relay = (refl, refl)
