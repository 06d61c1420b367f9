-- ===== src/Wire/Stream.antt =====
-- common/src/frame.cpp, FramedStream: whole frames over a socket. The bytes that the socket still has
-- to give are a list, those that it has taken another; writev() takes all of a frame in the end.
use drop_zone.Base.{
  ℕ, ◌^◌, ◌≤◌, ◌<◌, ◌≡◌, ◌≢◌, ◌⊎◌, refl, sym, subst, inl, inr, false, ◌||◌, List, [], ◌∷◌, ◌++◌,
  append_assoc, Bool-cases, length, length-append, take, drop, take_left, drop_left, ltb, ◌==◌,
  if◌then◌else◌, arith,
}
use drop_zone.Base.Result.{
  Result, ok, err, peer_closed, refused_oversized, peer_aborted, unexpected_frame,
}
use drop_zone.Wire.Endian.{store_u16, store_u32}
use drop_zone.Wire.Header.{
  FrameHeader, encode_frame_header, decode_frame_header, decode-encode, frame_header_size,
  max_frame_length, protocol_version, type_byte, abort, reject,
}

pub record Frame : Type 0 where
  pub header : FrameHeader
  pub payload : List ℕ

abbrev pub new_header : ℕ → ℕ → List ℕ → FrameHeader
new_header type flags payload = record {
  version = protocol_version;
  type = type;
  flags = flags;
  length = length payload;
}

-- The bytes that the socket has taken after the frame.
unfoldable pub write_frame : ℕ → ℕ → List ℕ → List ℕ → Result (List ℕ)
write_frame type flags payload taken =
    if ltb max_frame_length (length payload)
    then err refused_oversized
    else ok (taken ++ (encode_frame_header (new_header type flags payload) ++ payload))

-- `read_exact`: that many bytes, or the connection has ended.
unfoldable pub read_exact : ℕ → List ℕ → Result (List ℕ × List ℕ)
read_exact count socket =
    if ltb (length socket) count then err peer_closed else ok (take count socket, drop count socket)

unfoldable pub read_frame : List ℕ → Result (Frame × List ℕ)
unfolding read_exact
read_frame socket = elim (read_exact frame_header_size socket) [
  | err e ↦ err e
  | ok (header_bytes, rest) ↦ elim (decode_frame_header header_bytes) [
    | err e ↦ err e
    | ok header ↦ elim (read_exact header.length rest) [
      | err e ↦ err e
      | ok (payload, last) ↦ ok (record { header = header; payload = payload }, last)
    ]
  ]
]

-- "no reason given"
abbrev pub no_reason : List ℕ
no_reason =
    b'n' ∷ b'o' ∷ b' ' ∷ b'r' ∷ b'e' ∷ b'a' ∷ b's' ∷ b'o' ∷ b'n' ∷ b' ' ∷ b'g' ∷ b'i' ∷ b'v' ∷ b'e'
    ∷ b'n' ∷ []

abbrev pub reason_of : List ℕ → List ℕ
reason_of [] = no_reason
reason_of (c ∷ cs) = c ∷ cs

unfoldable pub judge : ℕ → Frame × List ℕ → Result (Frame × List ℕ)
judge expected (frame, rest) =
    if frame.header.type == expected
    then ok (frame, rest)
    else if frame.header.type == type_byte abort || frame.header.type == type_byte reject
    then err (peer_aborted (reason_of frame.payload))
    else err (unexpected_frame expected frame.header.type)

unfoldable pub read_expected : ℕ → List ℕ → Result (Frame × List ℕ)
unfolding judge
read_expected expected socket = elim (read_frame socket) [
  | err e ↦ err e
  | ok frame ↦ judge expected frame
]

header_size : (h : FrameHeader) → length (encode_frame_header h) ≡ 8
unfolding encode_frame_header store_u16 store_u32
header_size h = refl

header_first :
    (h : FrameHeader) (rest : List ℕ)
    → (take 8 (encode_frame_header h ++ rest) ≡ encode_frame_header h ++ [])
      × (drop 8 (encode_frame_header h ++ rest) ≡ rest)
unfolding encode_frame_header store_u16 store_u32
header_first h rest = (refl, refl)

read_exact-ok :
    (count : ℕ) (socket now rest : List ℕ)
    → count ≤ length socket
    → take count socket ≡ now
    → drop count socket ≡ rest
    → read_exact count socket ≡ ok (now, rest)
unfolding read_exact
read_exact-ok count socket now rest h t d =
    let enough : ltb (length socket) count ≡ false = ground (arith, h) in rw (enough, t, d) refl

read-write :
    (type flags : ℕ) (payload rest : List ℕ)
    → type < 2 ^ 8
    → flags < 2 ^ 16
    → length payload ≤ max_frame_length
    → read_frame (encode_frame_header (new_header type flags payload) ++ (payload ++ rest))
      ≡ ok (record { header = new_header type flags payload; payload = payload }, rest)
unfolding read_frame
read-write type flags payload rest t f l =
    let h = new_header type flags payload in
    let (front, behind) = header_first h (payload ++ rest) in
    let header_read =
      read_exact-ok 8 (encode_frame_header h ++ (payload ++ rest)) (encode_frame_header h ++ [])
        (payload ++ rest)
        (omega (arith, header_size h, length-append (encode_frame_header h) (payload ++ rest)))
        front behind in
    let parsed =
      decode-encode h []
        (record {
          version_fits = omega arith;
          type_fits = t;
          flags_fit = f;
          length_fits = omega (arith, l);
        })
        refl l in
    let payload_read =
      read_exact-ok (length payload) (payload ++ rest) payload rest
        (omega (arith, length-append payload rest)) (take_left payload rest)
        (drop_left payload rest) in
    rw (read_frame, header_read, parsed, payload_read) refl

read_expected-judge :
    (type flags expected : ℕ) (payload rest bytes : List ℕ)
    → type < 2 ^ 8
    → flags < 2 ^ 16
    → write_frame type flags payload [] ≡ ok bytes
    → read_expected expected (bytes ++ rest)
      ≡ judge expected (record { header = new_header type flags payload; payload = payload }, rest)
unfolding read_expected write_frame
read_expected-judge type flags expected payload rest bytes t f e =
    elim (Bool-cases (ltb max_frame_length (length payload))) [
      | inl long ↦ let e' = rw long at e in cc
      | inr fits ↦
          let e' = rw fits at e in
          let made : encode_frame_header (new_header type flags payload) ++ payload ≡ bytes = cc in
          let read = read-write type flags payload rest t f (ground (arith, fits)) in
          rw
            (
              ← made,
              append_assoc (encode_frame_header (new_header type flags payload)) payload rest,
              read_expected,
              read,
            )
            refl
    ]

-- What a reader that expects some type says of a frame.
pub data Answers (type flags expected : ℕ) (payload rest : List ℕ)
    : Result (Frame × List ℕ) → Type 0 where
  gets :
      type ≡ expected
      → Answers type flags expected payload rest
          (ok (record { header = new_header type flags payload; payload = payload }, rest))
  refuses_silently :
      type ≢ expected
      → (type ≡ type_byte abort) ⊎ (type ≡ type_byte reject)
      → payload ≡ []
      → Answers type flags expected payload rest (err (peer_aborted no_reason))
  refuses_with_reason :
      type ≢ expected
      → (type ≡ type_byte abort) ⊎ (type ≡ type_byte reject)
      → payload ≢ []
      → Answers type flags expected payload rest (err (peer_aborted payload))
  breaks_protocol :
      type ≢ expected
      → type ≢ type_byte abort
      → type ≢ type_byte reject
      → Answers type flags expected payload rest (err (unexpected_frame expected type))

refusal-Answers :
    (type flags expected : ℕ) (payload rest : List ℕ)
    → type ≢ expected
    → (type ≡ type_byte abort) ⊎ (type ≡ type_byte reject)
    → Answers type flags expected payload rest (err (peer_aborted (reason_of payload)))
refusal-Answers type flags expected [] rest d a = refuses_silently d a refl
refusal-Answers type flags expected (c ∷ cs) rest d a = refuses_with_reason d a (λ e. cc)

judge-Answers :
    (type flags expected : ℕ) (payload rest : List ℕ)
    → Answers type flags expected payload rest (
        judge expected (record { header = new_header type flags payload; payload = payload }, rest))
unfolding judge
judge-Answers type flags expected payload rest = elim (Bool-cases (type == expected)) [
  | inl t ↦ rw t (gets (ground (arith, t)))
  | inr f ↦
      let other : type ≢ expected = ground (arith, f) in
      elim (Bool-cases (type == type_byte abort || type == type_byte reject)) [
        | inl t ↦
            rw (f, t) (refusal-Answers type flags expected payload rest other (ground (arith, t)))
        | inr g ↦ rw (f, g) (breaks_protocol other (ground (arith, g)) (ground (arith, g)))
      ]
]

-- When a frame whose type fits 8 bits and whose flags fit 16 has been written, the peer that expects
-- some type reads that frame first and leaves the bytes behind it. It gets the frame if it has the
-- expected type; otherwise an Abort or a Reject is the peer's refusal, with its payload as the reason,
-- or "no reason given" if that is empty; and any other type is an error of the protocol.
pub read_expected-write_frame :
    (type flags expected : ℕ) (payload rest bytes : List ℕ)
    → type < 2 ^ 8
    → flags < 2 ^ 16
    → write_frame type flags payload [] ≡ ok bytes
    → Answers type flags expected payload rest (read_expected expected (bytes ++ rest))
read_expected-write_frame type flags expected payload rest bytes t f e =
    subst (Answers type flags expected payload rest)
      (sym (read_expected-judge type flags expected payload rest bytes t f e))
      (judge-Answers type flags expected payload rest)
