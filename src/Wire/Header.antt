-- ===== src/Wire/Header.antt =====
-- common/src/frame.cpp, the frame header: message types, `encode_frame_header` and
-- `decode_frame_header`. A message type is the byte that its enumerator stands for: the C++ enum
-- has a fixed underlying type, and a decoded header holds whatever byte came.
use drop_zone.Base.{
  ℕ, ◌*◌, ◌^◌, ◌≤◌, ◌<◌, ◌≡◌, ◌↔◌, not, List, ◌∷◌, ◌++◌, drop, arith, ltb, ◌==◌, if◌then◌else◌,
}
use drop_zone.Base.Result.{Result, ok, err, version_mismatch, frame_too_long}
use drop_zone.Wire.Endian.{
  byte, store_u16, store_u32, load_u16, load_u32, load-store_u16, load-store_u32,
}

abbrev pub protocol_version : ℕ
protocol_version = 1

abbrev pub frame_header_size : ℕ
frame_header_size = 8

abbrev pub max_frame_length : ℕ
max_frame_length = 2 * 1024 * 1024

-- `enum class MessageType : std::uint8_t`.
pub data MessageType : Type 0 where
  client_hello server_hello send_request incoming accept reject : MessageType
  matched relay_open relay_data relay_close keep_alive bye : MessageType
  group_query group_status group_join group_result group_send_request group_roster : MessageType
  offer decision chunk transfer_end transfer_ack abort : MessageType

unfoldable pub type_byte : MessageType → ℕ
type_byte client_hello = 1
type_byte server_hello = 2
type_byte send_request = 3
type_byte incoming = 4
type_byte accept = 5
type_byte reject = 6
type_byte matched = 7
type_byte relay_open = 8
type_byte relay_data = 9
type_byte relay_close = 10
type_byte keep_alive = 11
type_byte bye = 12
type_byte group_query = 13
type_byte group_status = 14
type_byte group_join = 15
type_byte group_result = 16
type_byte group_send_request = 17
type_byte group_roster = 18
type_byte offer = 32
type_byte decision = 33
type_byte chunk = 34
type_byte transfer_end = 35
type_byte transfer_ack = 36
type_byte abort = 37

pub record FrameHeader : Type 0 where
  pub version : ℕ
  pub type : ℕ
  pub flags : ℕ
  pub length : ℕ

-- The eight bytes that are written at `out`.
unfoldable pub encode_frame_header : FrameHeader → List ℕ
encode_frame_header header =
    header.version ∷ header.type ∷ store_u16 header.flags ++ store_u32 header.length

pub read_header : List ℕ → FrameHeader
read_header bytes = record {
  version = byte bytes 0;
  type = byte bytes 1;
  flags = load_u16 (drop 2 bytes);
  length = load_u32 (drop 4 bytes);
}

check_header : FrameHeader → Result FrameHeader
check_header header =
    if not (header.version == protocol_version)
    then err (version_mismatch header.version)
    else if ltb max_frame_length header.length
    then err (frame_too_long header.length)
    else ok header

unfoldable pub decode_frame_header : List ℕ → Result FrameHeader
unfolding check_header
decode_frame_header bytes = check_header (read_header bytes)

-- The fields fit the widths that the header gives them.
pub record Fits (header : FrameHeader) : Type 0 where
  pub version_fits : header.version < 2 ^ 8
  pub type_fits : header.type < 2 ^ 8
  pub flags_fit : header.flags < 2 ^ 16
  pub length_fits : header.length < 2 ^ 32

-- What is written is read back.
read-encode :
    (h : FrameHeader) (rest : List ℕ) → Fits h → read_header (encode_frame_header h ++ rest) ≡ h
unfolding read_header encode_frame_header store_u16
read-encode h rest f =
    ground
      (arith, load-store_u16 h.flags (store_u32 h.length ++ rest), load-store_u32 h.length rest)

-- A header whose fields fit their widths, of this protocol version and with a length within the
-- limit, is decoded as it was encoded, whatever follows it.
pub decode-encode :
    (h : FrameHeader) (rest : List ℕ)
    → Fits h
    → h.version ≡ protocol_version
    → h.length ≤ max_frame_length
    → decode_frame_header (encode_frame_header h ++ rest) ≡ ok h
unfolding decode_frame_header check_header
decode-encode h rest f v l = rw (read-encode h rest f) (ground arith)

check-ok :
    (h : FrameHeader)
    → h.version ≡ protocol_version
    → h.length ≤ max_frame_length
    → check_header h ≡ ok h
unfolding check_header
check-ok h v l = ground arith

check-accepts :
    (r h : FrameHeader)
    → check_header r ≡ ok h
    → (h ≡ r) × (h.version ≡ protocol_version) × (h.length ≤ max_frame_length)
unfolding check_header
check-accepts r h e = ground arith

-- A header is accepted exactly when its version is ours and its length is within the limit: no
-- forged header makes the reader size a buffer beyond `max_frame_length`.
pub decode-accepts :
    (bytes : List ℕ) (h : FrameHeader)
    → (decode_frame_header bytes ≡ ok h)
      ↔ ((h ≡ read_header bytes) × (h.version ≡ protocol_version) × (h.length ≤ max_frame_length))
unfolding decode_frame_header
decode-accepts bytes h =
    (λ e. check-accepts (read_header bytes) h e, λ e. rw (← e.0) (check-ok h e.1 e.2))
