-- ===== src/Udp/Packet.antt =====
-- client/src/reliable_udp.cpp: `write_header` and `parse_header`.
use drop_zone.Base.{
  ℕ, ◌+◌, ◌-◌, ◌^◌, ◌≤◌, ◌<◌, ◌≡◌, refl, ap, not, ◌||◌, List, ◌∷◌, ◌++◌, Option, none, some, drop,
  length, ltb, ◌==◌, if◌then◌else◌, arith,
}
use drop_zone.Wire.Endian.{
  byte, store_u16, store_u32, store_u64, load_u16, load_u32, load_u64, load-store_u16,
  load-store_u32, load-store_u64,
}

abbrev pub udp_header_size : ℕ
udp_header_size = 22

abbrev pub udp_max_payload : ℕ
udp_max_payload = 1200 - 22

-- `ParsedHeader`; the type is the byte of UdpPacketType.
pub record ParsedHeader : Type 0 where
  pub type : ℕ
  pub sequence : ℕ
  pub ack : ℕ
  pub ack_bits : ℕ
  pub length : ℕ

-- The 22 bytes at the front of a datagram.
unfoldable pub write_header : ParsedHeader → List ℕ
write_header h =
    b'D'
    ∷ b'Q'
    ∷ h.type
    ∷ 0
    ∷ (store_u32 h.sequence ++ (store_u32 h.ack ++ (store_u64 h.ack_bits ++ store_u16 h.length)))

read_header : List ℕ → ParsedHeader
read_header bytes = record {
  type = byte bytes 2;
  sequence = load_u32 (drop 4 bytes);
  ack = load_u32 (drop 8 bytes);
  ack_bits = load_u64 (drop 12 bytes);
  length = load_u16 (drop 20 bytes);
}

-- `none` is `return false`.
unfoldable pub parse_header : List ℕ → Option ParsedHeader
unfolding read_header
parse_header bytes =
    if ltb (length bytes) udp_header_size
    then none
    else if not (byte bytes 0 == b'D') || not (byte bytes 1 == b'Q')
    then none
    else let h = read_header bytes in
      if ltb udp_max_payload h.length
      then none
      else if ltb (length bytes) (udp_header_size + h.length)
      then none
      else some h

pub record FitsPacket (h : ParsedHeader) : Type 0 where
  pub sequence_fits : h.sequence < 2 ^ 32
  pub ack_fits : h.ack < 2 ^ 32
  pub bits_fit : h.ack_bits < 2 ^ 64
  pub length_fits : h.length ≤ udp_max_payload

skip_fields :
    (h : ParsedHeader) (rest : List ℕ)
    → let bytes = write_header h ++ rest in
      (drop 4 bytes ≡ store_u32 h.sequence ++ drop 8 bytes)
      × (drop 8 bytes ≡ store_u32 h.ack ++ drop 12 bytes)
      × (drop 12 bytes ≡ store_u64 h.ack_bits ++ drop 20 bytes)
      × (drop 20 bytes ≡ store_u16 h.length ++ rest)
unfolding write_header store_u16 store_u32 store_u64
skip_fields h rest = (refl, refl, refl, refl)

type-write : (h : ParsedHeader) (rest : List ℕ) → byte (write_header h ++ rest) 2 ≡ h.type
unfolding write_header
type-write h rest = refl

read-write :
    (h : ParsedHeader) (rest : List ℕ) → FitsPacket h → read_header (write_header h ++ rest) ≡ h
unfolding read_header
read-write h rest f =
    let bytes = write_header h ++ rest in
    let length_small : h.length < 2 ^ 16 = omega (arith, f.length_fits) in
    rw
      (
        type-write h rest,
        (skip_fields h rest).0,
        load-store_u32 h.sequence (drop 8 bytes) f.sequence_fits,
        (skip_fields h rest).1,
        load-store_u32 h.ack (drop 12 bytes) f.ack_fits,
        (skip_fields h rest).2,
        load-store_u64 h.ack_bits (drop 20 bytes) f.bits_fit,
        (skip_fields h rest).3,
        load-store_u16 h.length rest length_small,
      )
      refl

front-write :
    (h : ParsedHeader) (rest : List ℕ)
    → (byte (write_header h ++ rest) 0 ≡ b'D')
      × (byte (write_header h ++ rest) 1 ≡ b'Q')
      × (length (write_header h ++ rest) ≡ 22 + length rest)
unfolding write_header store_u16 store_u32 store_u64
front-write h rest = (refl, refl, omega arith)

-- A datagram whose fields fit their widths and whose declared length is at most the largest
-- payload is parsed as it was written, with any payload of the length that it declares.
pub parse-write :
    (h : ParsedHeader) (payload : List ℕ)
    → FitsPacket h
    → length payload ≡ h.length
    → parse_header (write_header h ++ payload) ≡ some h
unfolding parse_header
parse-write h payload f e =
    let same = read-write h payload f in
    let same_length : (read_header (write_header h ++ payload)).length ≡ h.length =
      ap (λ r. r.length) same in
    let front = front-write h payload in
    ground (arith, same, same_length, front.0, front.1, front.2, f.length_fits)
