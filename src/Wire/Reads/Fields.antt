-- ===== src/Wire/Reads/Fields.antt =====
-- What each `take_` of the reader makes of the bytes that the matching `put_` of the writer appends.
use drop_zone.Base.{
  ℕ, ◌*◌, ◌%◌, ◌^◌, ◌≤◌, ◌<◌, ◌≡◌, refl, sym, ap, subst, Bool, true, false, List, [], ◌∷◌, ◌++◌,
  take, length, length-append, length-drop, take_left, All, All-map, arith, ltb, if◌then◌else◌,
}
use drop_zone.Base.Result.{ok, endpoint_count}
use drop_zone.Wire.Endian.{
  byte, store_u16, store_u32, store_u64, load_u16, load_u32, load_u64, load-store_u16,
  load-store_u32, load-store_u64,
}
use drop_zone.Wire.Endpoint.{
  Endpoint, unspecified, v4, v6, IsEndpoint, is_v4_mapped, from_sockaddr_in, from_sockaddr_in6,
}
use drop_zone.Wire.Reader.{
  Reader, Parser, cursor, remaining, pure, fail_if, ◌>>=◌, ◌>>◌, need, at_cursor, take_u8, take_u16,
  take_u32, take_u64, take_bool, take_raw, take_bytes, take_fixed, take_string, take_endpoint,
  take_each, take_endpoints,
}
use drop_zone.Wire.Reads.Basic.{Reads, Reads-bind, Reads-pure, Reads-fail_if, Reads-map}

-- `remaining()` counts the bytes ahead of the cursor.
pub remaining-cursor : (r : Reader) → remaining r ≡ length (cursor r)
remaining-cursor r = sym (length-drop r.offset r.bytes)

need-pass : (r : Reader) (n : ℕ) → n ≤ remaining r → need n r ≡ ok (tt, r)
unfolding need
need-pass r n h = ground arith

-- A `need` of just the bytes that lie ahead passes, and the load finds them.
Reads-at_cursor {ℓ} :
    {A : Type ℓ} (load : List ℕ → A) (n : ℕ) (bs : List ℕ) (a : A)
    → length bs ≡ n
    → ((rest : List ℕ) → load (bs ++ rest) ≡ a)
    → Reads (need n >> at_cursor load n) bs a
unfolding at_cursor
Reads-at_cursor load n bs a len loads = record {
  apply = λ r rest h. rw (need-pass r n (enough r rest h), ◌>>=◌, h, loads rest, len) refl;
}
  where
    enough : (r : Reader) (rest : List ℕ) → cursor r ≡ bs ++ rest → n ≤ remaining r
    enough r rest h = omega (arith, remaining-cursor r, ap length h, length-append bs rest)

pub Reads-take_u8 : (v : ℕ) → Reads take_u8 (v ∷ []) v
unfolding take_u8
Reads-take_u8 v = Reads-at_cursor (λ in_. byte in_ 0) 1 (v ∷ []) v refl (λ rest. refl)

pub Reads-take_u16 : (v : ℕ) → v < 2 ^ 16 → Reads take_u16 (store_u16 v) v
unfolding take_u16 store_u16
Reads-take_u16 v h =
    Reads-at_cursor load_u16 2 (store_u16 v) v refl (λ rest. load-store_u16 v rest h)

pub Reads-take_u32 : (v : ℕ) → v < 2 ^ 32 → Reads take_u32 (store_u32 v) v
unfolding take_u32 store_u32
Reads-take_u32 v h =
    Reads-at_cursor load_u32 4 (store_u32 v) v refl (λ rest. load-store_u32 v rest h)

pub Reads-take_u64 : (v : ℕ) → v < 2 ^ 64 → Reads take_u64 (store_u64 v) v
unfolding take_u64 store_u64
Reads-take_u64 v h =
    Reads-at_cursor load_u64 8 (store_u64 v) v refl (λ rest. load-store_u64 v rest h)

abbrev pub bool_byte : Bool → ℕ
bool_byte b = if b then 1 else 0

pub Reads-take_bool : (b : Bool) → Reads take_bool (bool_byte b ∷ []) b
unfolding take_bool
Reads-take_bool true = Reads-map _ (Reads-take_u8 1)
Reads-take_bool false = Reads-map _ (Reads-take_u8 0)

pub Reads-take_raw : (bs : List ℕ) (n : ℕ) → length bs ≡ n → Reads (take_raw n) bs bs
unfolding take_raw
Reads-take_raw bs n h = Reads-at_cursor (take n) n bs bs h (λ rest. rw (← h) (take_left bs rest))

-- A length-prefixed blob.
abbrev pub prefixed : List ℕ → List ℕ
prefixed bs = store_u32 (length bs % 2 ^ 32) ++ bs

small_length : (bs : List ℕ) → length bs < 2 ^ 32 → length bs % 2 ^ 32 ≡ length bs
small_length bs h = omega arith

pub Reads-take_string : (bs : List ℕ) → length bs < 2 ^ 32 → Reads take_string (prefixed bs) bs
unfolding take_string
Reads-take_string bs h = rw (small_length bs h) (
    Reads-bind (Reads-take_u32 (length bs) h) _
      (Reads-at_cursor (take (length bs)) (length bs) bs bs refl (take_left bs)))

pub Reads-take_bytes : (bs : List ℕ) → length bs < 2 ^ 32 → Reads take_bytes (prefixed bs) bs
unfolding take_bytes
Reads-take_bytes bs h = rw (small_length bs h) (
    Reads-bind (Reads-take_u32 (length bs) h) _
      (Reads-at_cursor (take (length bs)) (length bs) bs bs refl (take_left bs)))

pub Reads-take_fixed :
    (bs : List ℕ) (n : ℕ) → length bs ≡ n → n < 2 ^ 32 → Reads (take_fixed n) (prefixed bs) bs
unfolding take_fixed
Reads-take_fixed bs n e h =
    rw (small_length bs (omega arith), e)
      (Reads-bind (Reads-take_u32 n h) _ (Reads-fail_if _ (ground arith) (Reads-take_raw bs n e)))

-- The bytes of `put_endpoint`.
abbrev pub endpoint_bytes : Endpoint → List ℕ
endpoint_bytes unspecified = 0 ∷ store_u16 0
endpoint_bytes (v4 port address) = 4 ∷ (store_u16 port ++ address)
endpoint_bytes (v6 port address) = 6 ∷ (store_u16 port ++ address)

unmapped :
    (port : ℕ) (address : List ℕ)
    → is_v4_mapped address ≡ false
    → from_sockaddr_in6 port address ≡ v6 port address
unfolding from_sockaddr_in6
unmapped port address h = rw h

-- An endpoint is read back as it was, an IPv6 one unless it is a mapped IPv4 address.
pub Reads-take_endpoint : (e : Endpoint) → IsEndpoint e → Reads take_endpoint (endpoint_bytes e) e
unfolding take_endpoint from_sockaddr_in
Reads-take_endpoint unspecified v =
    Reads-bind (Reads-take_u8 0) _ (Reads-map _ (Reads-take_u16 0 (omega arith)))
Reads-take_endpoint (v4 port address) v =
    Reads-bind (Reads-take_u8 4) _
      (Reads-bind (Reads-take_u16 port v.0) _ (Reads-map _ (Reads-take_raw address 4 v.1)))
Reads-take_endpoint (v6 port address) v = Reads-bind (Reads-take_u8 6) _ (
    Reads-bind (Reads-take_u16 port v.0) _ (
      subst (Reads (take_raw 16 >>= λ a. pure (from_sockaddr_in6 port a)) address)
        (unmapped port address v.2) (Reads-map _ (Reads-take_raw address 16 v.1))))

-- The bytes of a list, one element after the other.
abbrev pub each_bytes {ℓ} : {A : Type ℓ} → (A → List ℕ) → List A → List ℕ
each_bytes format [] = []
each_bytes format (x ∷ xs) = format x ++ each_bytes format xs

pub Reads-take_each {ℓ} :
    {A : Type ℓ} (take_one : Parser A) (format : A → List ℕ) (xs : List A)
    → All (λ x. Reads take_one (format x) x) xs
    → Reads (take_each take_one (length xs)) (each_bytes format xs) xs
unfolding take_each
Reads-take_each take_one format [] h = Reads-pure []
Reads-take_each take_one format (x ∷ xs) h =
    Reads-bind h.0 _ (Reads-map _ (Reads-take_each take_one format xs h.1))

-- The bytes of `put_endpoints`.
abbrev pub endpoints_bytes : List Endpoint → List ℕ
endpoints_bytes es = store_u16 (length es % 2 ^ 16) ++ each_bytes endpoint_bytes es

-- Each endpoint takes three bytes at least, so the count that was written passes the check.
three_each : (es : List Endpoint) → length es * 3 ≤ length (each_bytes endpoint_bytes es)
unfolding store_u16
three_each [] = omega arith
three_each (e ∷ es) = omega (
  arith,
  three_each es,
  length-append (endpoint_bytes e) (each_bytes endpoint_bytes es),
  at_least e,
)
  where
    at_least : (e : Endpoint) → 3 ≤ length (endpoint_bytes e)
    at_least unspecified = omega arith
    at_least (v4 port address) = omega arith
    at_least (v6 port address) = omega arith

small_count : (n : ℕ) → n < 2 ^ 16 → n % 2 ^ 16 ≡ n
small_count n h = omega arith

-- A list of endpoints that a 16-bit count can number is read back as it was.
pub Reads-take_endpoints :
    (es : List Endpoint)
    → length es < 2 ^ 16
    → All IsEndpoint es
    → Reads take_endpoints (endpoints_bytes es) es
unfolding take_endpoints
Reads-take_endpoints es small valid =
    rw (small_count count small) (Reads-bind (Reads-take_u16 count small) _ checked)
  where
    count : ℕ
    count = length es

    bytes : List ℕ
    bytes = each_bytes endpoint_bytes es

    passes :
        (r : Reader) (rest : List ℕ)
        → cursor r ≡ bytes ++ rest
        → ltb (remaining r) (count * 3) ≡ false
    passes r rest h =
        ground (arith, remaining-cursor r, ap length h, length-append bytes rest, three_each es)

    checked :
        Reads
          (λ r.
            (fail_if (ltb (remaining r) (count * 3)) (endpoint_count count)
                >> take_each take_endpoint count)
              r)
          bytes
          es
    checked = record {
      apply = λ r rest h.
          (Reads-fail_if (endpoint_count count) (passes r rest h) (
              Reads-take_each take_endpoint endpoint_bytes es
                (All-map Reads-take_endpoint es valid))).apply
            r rest h;
    }
