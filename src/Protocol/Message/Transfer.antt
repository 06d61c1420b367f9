-- ===== src/Protocol/Message/Transfer.antt =====
-- common/src/protocol.cpp: TransferDecision, the chunk header, and the reflexive reply.
use drop_zone.Base.{
  ℕ, ◌^◌, ◌≤◌, ◌<◌, ◌≡◌, refl, Bool, not, List, [], ◌∷◌, ◌++◌, append_assoc, Option, none, some,
  length, take, drop, ltb, if◌then◌else◌, arith, same_bytes,
}
use drop_zone.Base.Result.{Result, ok, err, reflexive_too_large}
use drop_zone.Wire.Endian.{
  store_u16, store_u32, store_u64, load_u32, load_u64, load-store_u32, load-store_u64,
}
use drop_zone.Wire.Endpoint.{Endpoint, unspecified, v4, v6, IsEndpoint}
use drop_zone.Wire.Writer.{◌▹◌, put_bool, put_string, put_raw, put_endpoint}
use drop_zone.Wire.Reader.{Parser, decode_with, pure, ◌>>=◌, take_bool, take_string, take_endpoint}
use drop_zone.Wire.Reads.{
  Reads-last, Reads-bind, Reads-map, Reads-take_bool, Reads-take_string, Reads-take_endpoint,
  bool_byte, prefixed, endpoint_bytes,
}
use drop_zone.Protocol.Message.Common.{decode_with-ReadsLast, puts, put_endpoint_lem}

pub record TransferDecision : Type 0 where
  pub accepted : Bool
  pub reason : List ℕ
  pub output_directory : List ℕ

unfoldable pub encode_transfer_decision : TransferDecision → List ℕ
encode_transfer_decision decision =
    []
    ▹ put_bool decision.accepted
    ▹ put_string decision.reason
    ▹ put_string decision.output_directory

pub parse_transfer_decision : Parser TransferDecision
parse_transfer_decision = do
  accepted ← take_bool
  reason ← take_string
  output_directory ← take_string
  pure (record { accepted = accepted; reason = reason; output_directory = output_directory })

unfoldable pub decode_transfer_decision : List ℕ → Result TransferDecision
decode_transfer_decision = decode_with parse_transfer_decision

decision_bytes :
    (d : TransferDecision)
    → encode_transfer_decision d
      ≡ (bool_byte d.accepted ∷ []) ++ (prefixed d.reason ++ prefixed d.output_directory)
unfolding encode_transfer_decision
decision_bytes d = simp puts

-- The receiver's answer, its two texts shorter than 2 ^ 32 bytes, reaches the sender as it was.
pub transfer_decision_round_trip :
    (d : TransferDecision)
    → length d.reason < 2 ^ 32
    → length d.output_directory < 2 ^ 32
    → decode_transfer_decision (encode_transfer_decision d) ≡ ok d
unfolding decode_transfer_decision parse_transfer_decision
transfer_decision_round_trip d h k = rw (decision_bytes d) (
    decode_with-ReadsLast parse_transfer_decision _ d (
      Reads-last (
        Reads-bind (Reads-take_bool d.accepted) _ (
          Reads-bind (Reads-take_string d.reason h) _
            (Reads-map _ (Reads-take_string d.output_directory k))))))

-- The header of a chunk frame, which the AEAD tag covers.
pub record ChunkHeader : Type 0 where
  pub file_index : ℕ
  pub plaintext_length : ℕ
  pub offset : ℕ
  pub counter : ℕ

-- The 24 bytes written at `out`.
unfoldable pub encode_chunk_header : ChunkHeader → List ℕ
encode_chunk_header header =
    store_u32 header.file_index
    ++ (store_u32 header.plaintext_length ++ (store_u64 header.offset ++ store_u64 header.counter))

unfoldable pub decode_chunk_header : List ℕ → ChunkHeader
decode_chunk_header bytes = record {
  file_index = load_u32 bytes;
  plaintext_length = load_u32 (drop 4 bytes);
  offset = load_u64 (drop 8 bytes);
  counter = load_u64 (drop 16 bytes);
}

pub record FitsChunk (header : ChunkHeader) : Type 0 where
  pub index_fits : header.file_index < 2 ^ 32
  pub length_fits : header.plaintext_length < 2 ^ 32
  pub offset_fits : header.offset < 2 ^ 64
  pub counter_fits : header.counter < 2 ^ 64

chunk_layout :
    (h : ChunkHeader) (rest : List ℕ)
    → encode_chunk_header h ++ rest
      ≡ store_u32 h.file_index
        ++ (store_u32 h.plaintext_length ++ (store_u64 h.offset ++ (store_u64 h.counter ++ rest)))
unfolding encode_chunk_header
chunk_layout h rest = simp append_assoc

-- Where the four fields begin.
skip_fields :
    (a b c : ℕ) (rest : List ℕ)
    → (drop 4 (store_u32 a ++ rest) ≡ rest)
      × (drop 8 (store_u32 a ++ (store_u32 b ++ rest)) ≡ rest)
      × (drop 16 (store_u32 a ++ (store_u32 b ++ (store_u64 c ++ rest))) ≡ rest)
unfolding store_u32 store_u64
skip_fields a b c rest = (refl, refl, refl)

-- A chunk header whose fields fit their widths is read as it was written, whatever follows it in
-- the frame.
pub chunk_header_round_trip :
    (h : ChunkHeader) (rest : List ℕ)
    → FitsChunk h
    → decode_chunk_header (encode_chunk_header h ++ rest) ≡ h
unfolding decode_chunk_header
chunk_header_round_trip h rest f =
    let tail = store_u64 h.counter ++ rest in
    let a = h.file_index in
    let b = h.plaintext_length in
    let c = h.offset in
    rw
      (
        chunk_layout h rest,
        (skip_fields a b c (store_u32 b ++ (store_u64 c ++ tail))).0,
        (skip_fields a b c (store_u64 c ++ tail)).1,
        (skip_fields a b c tail).2,
        load-store_u32 a (store_u32 b ++ (store_u64 c ++ tail)) f.index_fits,
        load-store_u32 b (store_u64 c ++ tail) f.length_fits,
        load-store_u64 c tail f.offset_fits,
        load-store_u64 h.counter rest f.counter_fits,
      )
      refl

abbrev pub reflexive_reply_magic : List ℕ
reflexive_reply_magic = b'D' ∷ b'Z' ∷ b'R' ∷ b'2' ∷ []

-- What is written at `out`, whose size is `capacity`.
unfoldable pub encode_reflexive_reply : Endpoint → ℕ → Result (List ℕ)
encode_reflexive_reply observed capacity =
    let bytes = [] ▹ put_raw reflexive_reply_magic ▹ put_endpoint observed in
    if ltb capacity (length bytes) then err reflexive_too_large else ok bytes

-- `none` is `return false`; an Error of the reader is caught.
unfoldable pub decode_reflexive_reply : List ℕ → Option Endpoint
decode_reflexive_reply bytes =
    if ltb (length bytes) 4
    then none
    else if not (same_bytes (take 4 bytes) reflexive_reply_magic)
    then none
    else elim (decode_with take_endpoint (drop 4 bytes)) [ ok e ↦ some e | err x ↦ none ]

endpoint_fits : (e : Endpoint) → IsEndpoint e → length (endpoint_bytes e) ≤ 19
unfolding store_u16
endpoint_fits unspecified v = omega arith
endpoint_fits (v4 port address) v = omega arith
endpoint_fits (v6 port address) v = omega arith

-- For a valid endpoint, a buffer of 32 bytes has room for the reply to a probe, and the client
-- reads the address that the server observed.
pub reflexive_round_trip :
    (e : Endpoint)
    → IsEndpoint e
    → (bytes : List ℕ) × (encode_reflexive_reply e 32 ≡ ok bytes)
      × (decode_reflexive_reply bytes ≡ some e)
unfolding encode_reflexive_reply decode_reflexive_reply put_raw
reflexive_round_trip e v = (
  reflexive_reply_magic ++ endpoint_bytes e,
  rw (put_endpoint_lem e reflexive_reply_magic) (ground (arith, endpoint_fits e v)),
  rw
      (decode_with-ReadsLast take_endpoint (endpoint_bytes e) e
        (Reads-last (Reads-take_endpoint e v)))
      (ground arith),
)
