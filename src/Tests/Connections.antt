-- ===== src/Tests/Connections.antt =====
-- The properties of the server's connections and of the pinned keys, at concrete values.
use drop_zone.Base.{
  ℕ, ◌≡◌, ◌≢◌, refl, true, false, List, [], ◌∷◌, ◌++◌, some, length, same_bytes, same_bytes_iff,
  arith,
}
use drop_zone.Base.Result.{ok}
use drop_zone.Wire.Endian.{store_u16, store_u32}
use drop_zone.Wire.Header.{encode_frame_header}
use drop_zone.Wire.Stream.{write_frame, read_expected, Answers, read_expected-write_frame}
use drop_zone.Server.Connection.{
  Input, got, interrupted, would_block, read_available, compact_input, input_at_cap, next_frame,
  Output, cleared, enqueue_frame, compact_output, flush_output, pending_output, room,
  send_interrupted, send_would_block,
}
use drop_zone.Server.Connection.Sending.{
  frame_bytes, waiting, Within, nothing_yet, enqueues, flushes, sent-waiting,
}
use drop_zone.Server.Connection.Arriving.{Inside, unread, ReadsOn, read_available-unread}
use drop_zone.Server.Connection.Framing.{sent_frame, next_frame-frame_bytes}
use drop_zone.Client.KnownPeers.{KnownPeer, check, remember, matches, changed, check-remember}

abbrev payload : List ℕ
payload = 7 ∷ 8 ∷ 9 ∷ []

abbrev eleven : List ℕ
eleven = 1 ∷ 5 ∷ 0 ∷ 0 ∷ 3 ∷ 0 ∷ 0 ∷ 0 ∷ 7 ∷ 8 ∷ 9 ∷ []

abbrev queued : Output
queued = record { output = eleven; output_sent = 0 }

frame_queued : enqueue_frame 5 0 payload cleared ≡ ok queued
unfolding enqueue_frame compact_output encode_frame_header store_u16 store_u32
frame_queued = refl

abbrev partly_sent : Output
partly_sent = record { output = eleven; output_sent = 9 }

nine_sent :
    flush_output (room 4 ∷ send_interrupted ∷ room 5 ∷ send_would_block ∷ []) queued
    ≡ some (true, 1 ∷ 5 ∷ 0 ∷ 0 ∷ 3 ∷ 0 ∷ 0 ∷ 0 ∷ 7 ∷ [], partly_sent)
unfolding flush_output pending_output
nine_sent = refl

sent-waiting_example :
    Within partly_sent
    × ([] ++ (1 ∷ 5 ∷ 0 ∷ 0 ∷ 3 ∷ 0 ∷ 0 ∷ 0 ∷ 7 ∷ []) ++ waiting partly_sent
        ≡ [] ++ frame_bytes 5 0 payload)
sent-waiting_example =
    sent-waiting ([] ++ frame_bytes 5 0 payload) ([] ++ 1 ∷ 5 ∷ 0 ∷ 0 ∷ 3 ∷ 0 ∷ 0 ∷ 0 ∷ 7 ∷ [])
      partly_sent
      (flushes (room 4 ∷ send_interrupted ∷ room 5 ∷ send_would_block ∷ [])
        (enqueues 5 0 payload nothing_yet frame_queued) nine_sent)

abbrev empty_input : Input
empty_input = record { input = []; input_consumed = 0; peer_closed = false }

abbrev full_input : Input
full_input = record { input = eleven; input_consumed = 0; peer_closed = false }

eleven_read :
    read_available (got eleven ∷ interrupted ∷ would_block ∷ []) empty_input
    ≡ some (true, [], full_input)
unfolding read_available compact_input input_at_cap
eleven_read = refl

read_available-unread_example :
    ReadsOn (got eleven ∷ interrupted ∷ would_block ∷ []) [] empty_input full_input
read_available-unread_example =
    read_available-unread (got eleven ∷ interrupted ∷ would_block ∷ []) [] empty_input full_input
      true (omega arith) (omega arith, (tt, (tt, tt))) eleven_read

frame_there : unread full_input ≡ frame_bytes 5 0 payload ++ []
unfolding unread encode_frame_header store_u16 store_u32
frame_there = refl

next_frame-frame_bytes_example :
    (d : Input) × (next_frame full_input ≡ ok (some (sent_frame 5 0 payload), d))
    × Inside d
    × (unread d ≡ [])
next_frame-frame_bytes_example =
    next_frame-frame_bytes 5 0 payload [] full_input (omega arith) (omega arith) (omega arith)
      (omega arith) frame_there

abbrev ann : List ℕ
ann = b'a' ∷ b'n' ∷ b'n' ∷ []

abbrev peers : List KnownPeer
peers = record { username = ann; identity_key = 1 ∷ 2 ∷ []; first_seen = 5 } ∷ []

check-remember_example :
    let after = remember 9 ann payload peers in
    (check same_bytes ann payload after ≡ matches)
    × ((forged : List ℕ)
        → length payload ≡ length forged
        → payload ≢ forged
        → check same_bytes ann forged after ≡ changed)
    × ((other offered : List ℕ)
        → ann ≢ other
        → check same_bytes other offered after ≡ check same_bytes other offered peers)
check-remember_example = check-remember same_bytes (λ a b s. same_bytes_iff a b) 9 ann payload peers

frame_written : write_frame 5 0 payload [] ≡ ok eleven
unfolding write_frame encode_frame_header store_u16 store_u32
frame_written = refl

read_expected-write_frame_example :
    Answers 5 0 5 payload (4 ∷ []) (read_expected 5 (eleven ++ 4 ∷ []))
read_expected-write_frame_example =
    read_expected-write_frame 5 0 5 payload (4 ∷ []) eleven (omega arith) (omega arith)
      frame_written
