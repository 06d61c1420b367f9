-- ===== src/Server/Connection.antt =====
-- server/src/connection.cpp: the input and the output buffer of a connection. What recv() and send()
-- answer, one call after the other, is a list.
pub mod Sending
pub mod Arriving
pub mod Framing
use drop_zone.Base.{
  ℕ, suc, ◌+◌, ◌-◌, ◌*◌, ◌/◌, Bool, true, false, ◌&&◌, ◌||◌, List, [], ◌∷◌, ◌++◌, not, min, Option,
  none, some, length, take, drop, ltb, leb, ◌==◌, if◌then◌else◌,
}
use drop_zone.Base.Result.{Result, ok, err, refused_oversized}
use drop_zone.Wire.Header.{
  FrameHeader, encode_frame_header, decode_frame_header, frame_header_size, max_frame_length,
  protocol_version,
}
use drop_zone.Wire.Stream.{Frame}

abbrev pub read_batch : ℕ
read_batch = 64 * 1024

abbrev pub max_input_buffer : ℕ
max_input_buffer = max_frame_length + frame_header_size + read_batch

pub record Input : Type 0 where
  pub input : List ℕ
  pub input_consumed : ℕ
  pub peer_closed : Bool

-- What one recv() answers: bytes, end of file, EINTR, EAGAIN, another error.
pub data Received : Type 0 where
  got : List ℕ → Received
  end_of_file interrupted would_block failed : Received

unfoldable pub input_at_cap : Input → Bool
input_at_cap c = leb max_input_buffer (length c.input - c.input_consumed)

unfoldable pub compact_input : Input → Input
compact_input c =
    if ltb 0 c.input_consumed
      && (leb (64 * 1024) c.input_consumed || leb (length c.input / 2) c.input_consumed)
    then record c { input = drop c.input_consumed c.input; input_consumed = 0 }
    else c

-- The loop, with what recv() answers in it: what it returns, the answers that it leaves, and the
-- buffer; `none` if it asks for more answers.
unfoldable pub read_available : List Received → Input → Option (Bool × List Received × Input)
read_available [] c =
    let compacted = compact_input c in
    if input_at_cap compacted then some (true, [], compacted) else none
read_available (answer ∷ rest) c =
    let compacted = compact_input c in
    if input_at_cap compacted then some (true, answer ∷ rest, compacted) else elim answer [
      | got bytes ↦ read_available rest (record compacted { input = compacted.input ++ bytes })
      | end_of_file ↦ some (false, rest, record compacted { peer_closed = true })
      | interrupted ↦ read_available rest compacted
      | would_block ↦ some (true, rest, compacted)
      | failed ↦ some (false, rest, record compacted { peer_closed = true })
    ]

-- `none` is `return false`.
unfoldable pub next_frame : Input → Result (Option Frame × Input)
next_frame c =
    let unread = drop c.input_consumed c.input in
    let available = length c.input - c.input_consumed in
    if ltb available frame_header_size then ok (none, c) else elim (decode_frame_header unread) [
      | err e ↦ err e
      | ok header ↦
          if ltb available (frame_header_size + header.length)
          then ok (none, c)
          else ok (
            some (record {
              header = header;
              payload = take header.length (drop frame_header_size unread);
            }),
            record c { input_consumed = c.input_consumed + (frame_header_size + header.length) },
          )
    ]

pub record Output : Type 0 where
  pub output : List ℕ
  pub output_sent : ℕ

unfoldable pub compact_output : Output → Output
compact_output c =
    if ltb 0 c.output_sent && c.output_sent == length c.output
    then record { output = []; output_sent = 0 }
    else if ltb (64 * 1024) c.output_sent
    then record { output = drop c.output_sent c.output; output_sent = 0 }
    else c

unfoldable pub enqueue_frame : ℕ → ℕ → List ℕ → Output → Result Output
enqueue_frame type flags payload c =
    if ltb max_frame_length (length payload)
    then err refused_oversized
    else let header : FrameHeader = record {
      version = protocol_version;
      type = type;
      flags = flags;
      length = length payload;
    } in
      let compacted = compact_output c in
      ok (record compacted { output = compacted.output ++ (encode_frame_header header ++ payload) })

unfoldable pub pending_output : Output → ℕ
pending_output c = length c.output - c.output_sent

-- What one send() answers: it takes as many bytes as there is room for; EINTR; EAGAIN; another error.
pub data Sent : Type 0 where
  room : ℕ → Sent
  send_interrupted send_would_block send_failed : Sent

abbrev pub cleared : Output
cleared = record { output = []; output_sent = 0 }

-- The loop, with what send() answers in it: what it returns, the bytes that are sent, and the buffer;
-- `none` if it asks for more answers.
unfoldable pub flush_output : List Sent → Output → Option (Bool × List ℕ × Output)
unfolding pending_output
flush_output [] c = if pending_output c == 0 then some (true, [], cleared) else none
flush_output (answer ∷ rest) c =
    if pending_output c == 0 then some (true, [], cleared) else elim answer [
      | room n ↦
          let written = min n (pending_output c) in
          let bytes = take written (drop c.output_sent c.output) in
          let after = record c { output_sent = c.output_sent + written } in
          if not (ltb 0 written)
          then some (false, [], c)
          else if after.output_sent == length after.output
          then some (true, bytes, cleared)
          else elim (flush_output rest after) [
            | none ↦ none
            | some (result, more, last) ↦ some (result, bytes ++ more, last)
          ]
      | send_interrupted ↦ flush_output rest c
      | send_would_block ↦ some (true, [], c)
      | send_failed ↦ some (false, [], c)
    ]
