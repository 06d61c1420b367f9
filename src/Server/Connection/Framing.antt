-- ===== src/Server/Connection/Framing.antt =====
-- `next_frame` of server/src/connection.cpp takes out the frames that `enqueue_frame` puts in.
use drop_zone.Base.{
  ℕ, ◌+◌, ◌-◌, ◌^◌, ◌≤◌, ◌<◌, ◌≡◌, refl, ap, sym, ◌∙◌, false, List, ◌++◌, append_assoc, some,
  length, length-append, take, drop, drop-drop, length-drop, take_left, drop_left, ltb, arith,
}
use drop_zone.Base.Result.{ok}
use drop_zone.Wire.Endian.{store_u16, store_u32}
use drop_zone.Wire.Header.{
  FrameHeader, encode_frame_header, decode_frame_header, decode-encode, frame_header_size,
  max_frame_length, protocol_version,
}
use drop_zone.Server.Connection.{Input, next_frame}
use drop_zone.Wire.Stream.{Frame}
use drop_zone.Server.Connection.Sending.{frame_bytes}
use drop_zone.Server.Connection.Arriving.{Inside, unread}

-- The frame that the bytes of `frame_bytes` stand for.
abbrev pub sent_frame : ℕ → ℕ → List ℕ → Frame
sent_frame type flags payload = record {
  header = record {
    version = protocol_version;
    type = type;
    flags = flags;
    length = length payload;
  };
  payload = payload;
}

header_front :
    (h : FrameHeader) (rest : List ℕ)
    → (drop 8 (encode_frame_header h ++ rest) ≡ rest) × (length (encode_frame_header h) ≡ 8)
unfolding encode_frame_header store_u16 store_u32
header_front h rest = (refl, refl)

-- When the unread bytes begin with those of a frame, whose type fits 8 bits, whose flags fit 16
-- and whose payload is within the limit, `next_frame` gives that frame and leaves the rest.
pub next_frame-frame_bytes :
    (type flags : ℕ) (payload rest : List ℕ) (c : Input)
    → Inside c
    → type < 2 ^ 8
    → flags < 2 ^ 16
    → length payload ≤ max_frame_length
    → unread c ≡ frame_bytes type flags payload ++ rest
    → (d : Input) × (next_frame c ≡ ok (some (sent_frame type flags payload), d))
      × Inside d
      × (unread d ≡ rest)
unfolding next_frame unread
next_frame-frame_bytes type flags payload rest c w t f l e =
    let h = (sent_frame type flags payload).header in
    let (front, size) = header_front h (payload ++ rest) in
    let start : unread c ≡ encode_frame_header h ++ (payload ++ rest) =
      e ∙ append_assoc (encode_frame_header h) payload rest in
    let parsed : decode_frame_header (unread c) ≡ ok h = rw start (
      decode-encode h (payload ++ rest)
        (record {
          version_fits = omega arith;
          type_fits = t;
          flags_fit = f;
          length_fits = omega (arith, l);
        })
        refl l) in
    let total : length c.input - c.input_consumed ≡ 8 + (length payload + length rest) = omega (
      arith,
      length-drop c.input_consumed c.input,
      ap length start,
      length-append (encode_frame_header h) (payload ++ rest),
      length-append payload rest,
      size,
    ) in
    let has_header : ltb (length c.input - c.input_consumed) frame_header_size ≡ false =
      ground (arith, total) in
    let has_payload : ltb (length c.input - c.input_consumed) (frame_header_size + length payload)
        ≡ false =
      ground (arith, total) in
    let behind : drop 8 (unread c) ≡ payload ++ rest = ap (drop 8) start ∙ front in
    let content : take (length payload) (drop 8 (unread c)) ≡ payload =
      ap (take (length payload)) behind ∙ take_left payload rest in
    let left : drop (c.input_consumed + (8 + length payload)) c.input ≡ rest =
      sym (drop-drop (8 + length payload) c.input_consumed c.input)
      ∙ (sym (drop-drop (length payload) 8 (unread c))
          ∙ (ap (drop (length payload)) behind ∙ drop_left payload rest)) in
    (
      record c { input_consumed = c.input_consumed + (8 + length payload) },
      rw (has_header, parsed, has_payload, content) refl,
      omega (arith, total),
      left,
    )
