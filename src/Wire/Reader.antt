-- ===== src/Wire/Reader.antt =====
-- common/src/frame.cpp, class PayloadReader, as a state and error monad over the buffer and the
-- offset.
use drop_zone.Base.{
  ℕ, zero, suc, ◌+◌, ◌-◌, ◌*◌, Bool, not, List, [], ◌∷◌, take, drop, ltb, ◌==◌, if◌then◌else◌,
  length,
}
use drop_zone.Base.Result.{
  Result, Error, ok, err, truncated, wrong_field_length, unknown_family, endpoint_count,
}
use drop_zone.Wire.Endian.{byte, load_u16, load_u32, load_u64}
use drop_zone.Wire.Endpoint.{Endpoint, unspecified, from_sockaddr_in, from_sockaddr_in6}

pub record Reader : Type 0 where
  pub bytes : List ℕ
  pub offset : ℕ

abbrev pub open_reader : List ℕ → Reader
open_reader bytes = record { bytes = bytes; offset = 0 }

abbrev pub advance : Reader → ℕ → Reader
advance r n = record r { offset = r.offset + n }

-- `data_ + offset_`: the bytes from the cursor on.
abbrev pub cursor : Reader → List ℕ
cursor r = drop r.offset r.bytes

abbrev pub Parser {ℓ} : Type ℓ → Type ℓ
Parser A = Reader → Result (A × Reader)

abbrev pub pure {ℓ} : {A : Type ℓ} → A → Parser A
pure a r = ok (a, r)

abbrev pub fail {ℓ} : {A : Type ℓ} → Error → Parser A
fail e r = err e

infixl 5 ◌>>=◌ ◌>>◌
abbrev pub ◌>>=◌ {ℓ κ} : {A : Type ℓ} {B : Type κ} → Parser A → (A → Parser B) → Parser B
◌>>=◌ m f r = elim (m r) [ ok (a, r') ↦ f a r' | err e ↦ err e ]

abbrev pub ◌>>◌ {ℓ} : {B : Type ℓ} → Parser (Unit {0}) → Parser B → Parser B
m >> k = m >>= λ _. k

-- `if (bad) fail(...);`
abbrev pub fail_if : Bool → Error → Parser (Unit {0})
fail_if bad e r = if bad then err e else ok (tt, r)

-- `len_ - offset_`; the offset never passes the end (`Reads.Bounds`), so it does not wrap.
abbrev pub remaining : Reader → ℕ
remaining r = length r.bytes - r.offset

abbrev pub is_empty : Reader → Bool
is_empty r = remaining r == 0

unfoldable pub need : ℕ → Parser (Unit {0})
need count r = if ltb (remaining r) count then err (truncated count (remaining r)) else ok (tt, r)

-- Read `count` bytes at the cursor and move past them; every caller has called `need`.
unfoldable pub at_cursor {ℓ} : {A : Type ℓ} → (List ℕ → A) → ℕ → Parser A
at_cursor load count r = ok (load (cursor r), advance r count)

unfoldable pub take_u8 : Parser ℕ
unfolding need at_cursor
take_u8 = do need 1; at_cursor (λ in_. byte in_ 0) 1

unfoldable pub take_u16 : Parser ℕ
unfolding need at_cursor
take_u16 = do need 2; at_cursor load_u16 2

unfoldable pub take_u32 : Parser ℕ
unfolding need at_cursor
take_u32 = do need 4; at_cursor load_u32 4

unfoldable pub take_u64 : Parser ℕ
unfolding need at_cursor
take_u64 = do need 8; at_cursor load_u64 8

unfoldable pub take_bool : Parser Bool
unfolding take_u8
take_bool = do value ← take_u8; pure (not (value == 0))

unfoldable pub take_raw : ℕ → Parser (List ℕ)
unfolding need at_cursor
take_raw len = do need len; at_cursor (take len) len

unfoldable pub take_bytes : Parser (List ℕ)
unfolding take_u32 need at_cursor
take_bytes = do len ← take_u32; need len; at_cursor (take len) len

unfoldable pub take_fixed : ℕ → Parser (List ℕ)
unfolding take_u32 take_raw
take_fixed expected_len = do
  len ← take_u32
  fail_if (not (len == expected_len)) (wrong_field_length expected_len len)
  take_raw expected_len

unfoldable pub take_string : Parser (List ℕ)
unfolding take_u32 need at_cursor
take_string = do len ← take_u32; need len; at_cursor (take len) len

-- The reads that follow the family and the port.
unfoldable pub take_address : ℕ → ℕ → Parser Endpoint
unfolding take_raw
take_address family port =
    if family == 4
    then (do address ← take_raw 4; pure (from_sockaddr_in port address))
    else if family == 6
    then (do address ← take_raw 16; pure (from_sockaddr_in6 port address))
    else if family == 0
    then pure unspecified
    else fail (unknown_family family)

unfoldable pub take_endpoint : Parser Endpoint
unfolding take_u8 take_u16 take_address
take_endpoint = do family ← take_u8; port ← take_u16; take_address family port

-- `for (i = 0; i < count; ++i) out.push_back(take());`
unfoldable pub take_each {ℓ} : {A : Type ℓ} → Parser A → ℕ → Parser (List A)
take_each take_one zero = pure []
take_each take_one (suc count) = do x ← take_one; xs ← take_each take_one count; pure (x ∷ xs)

unfoldable pub take_endpoints : Parser (List Endpoint)
unfolding take_u16 take_endpoint take_each
take_endpoints = do
  count ← take_u16
  λ r.
      (do
        fail_if (ltb (remaining r) (count * 3)) (endpoint_count count)
        take_each take_endpoint count)
        r

-- `PayloadReader reader(payload); ...; return message;`
abbrev pub decode_with {ℓ} : {A : Type ℓ} → Parser A → List ℕ → Result A
decode_with p payload = elim (p (open_reader payload)) [ ok (a, r) ↦ ok a | err e ↦ err e ]
