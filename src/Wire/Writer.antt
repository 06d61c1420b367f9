-- ===== src/Wire/Writer.antt =====
-- common/src/frame.cpp, class PayloadWriter. The writer is its buffer; each `put_` appends to it.
use drop_zone.Base.{ℕ, ◌%◌, ◌^◌, ◌≡◌, Bool, List, [], ◌∷◌, ◌++◌, if◌then◌else◌, length}
use drop_zone.Wire.Endian.{store_u16, store_u32, store_u64}
use drop_zone.Wire.Endpoint.{Endpoint, unspecified, v4, v6}

abbrev pub Writer : Type 0
Writer = List ℕ

-- A statement of the encoders: `w ▹ put_u8 v` is `writer.put_u8(v);`.
infixl 5 ◌▹◌
abbrev pub ◌▹◌ : Writer → (Writer → Writer) → Writer
w ▹ put = put w

unfoldable pub put_raw : List ℕ → Writer → Writer
put_raw bytes buffer = buffer ++ bytes

unfoldable pub put_u8 : ℕ → Writer → Writer
put_u8 value buffer = buffer ++ value ∷ []

unfoldable pub put_u16 : ℕ → Writer → Writer
unfolding put_raw
put_u16 value = put_raw (store_u16 value)

unfoldable pub put_u32 : ℕ → Writer → Writer
unfolding put_raw
put_u32 value = put_raw (store_u32 value)

unfoldable pub put_u64 : ℕ → Writer → Writer
unfolding put_raw
put_u64 value = put_raw (store_u64 value)

unfoldable pub put_bool : Bool → Writer → Writer
unfolding put_u8
put_bool value = put_u8 (if value then 1 else 0)

-- The cast of the length to uint32_t is kept.
unfoldable pub put_bytes : List ℕ → Writer → Writer
unfolding put_u32 put_raw
put_bytes bytes buffer = buffer ▹ put_u32 (length bytes % 2 ^ 32) ▹ put_raw bytes

unfoldable pub put_string : List ℕ → Writer → Writer
unfolding put_bytes
put_string text = put_bytes text

unfoldable pub put_endpoint : Endpoint → Writer → Writer
unfolding put_u8 put_u16 put_raw
put_endpoint (v4 port address) buffer = buffer ▹ put_u8 4 ▹ put_u16 port ▹ put_raw address
put_endpoint (v6 port address) buffer = buffer ▹ put_u8 6 ▹ put_u16 port ▹ put_raw address
put_endpoint unspecified buffer = buffer ▹ put_u8 0 ▹ put_u16 0

-- The range-for loops of the encoders.
unfoldable pub put_each {ℓ} : {A : Type ℓ} → (A → Writer → Writer) → List A → Writer → Writer
put_each put [] buffer = buffer
put_each put (x ∷ xs) buffer = put_each put xs (buffer ▹ put x)

-- The cast of the count to uint16_t is kept.
unfoldable pub put_endpoints : List Endpoint → Writer → Writer
unfolding put_u16 put_each
put_endpoints endpoints buffer =
    buffer ▹ put_u16 (length endpoints % 2 ^ 16) ▹ put_each put_endpoint endpoints

-- The bytes that a `put_` appends, by which the encoders are read.
abbrev pub Appends : (Writer → Writer) → List ℕ → Type 0
Appends put bytes = (buffer : Writer) → put buffer ≡ buffer ++ bytes
