-- ===== src/Tests/Messages.antt =====
-- The properties of the wire format, the names and paths, and the messages, at concrete values.
use drop_zone.Base.{
  ℕ, ◌≤◌, ◌≡◌, ◌↔◌, refl, inl, inr, Bool, true, false, List, [], ◌∷◌, ◌++◌, some, length, drop,
  arith, suc,
}
use mathlib.Core.List.{reverse}
use drop_zone.Base.Result.{ok}
use drop_zone.Wire.Endian.{store_u64, load_u64, load-store_u64}
use drop_zone.Wire.Endpoint.{Endpoint, unspecified, v4, v6, is_v4_mapped}
use drop_zone.Wire.Header.{
  FrameHeader, encode_frame_header, decode_frame_header, read_header, protocol_version,
  max_frame_length, decode-encode, decode-accepts,
}
use drop_zone.Protocol.Name.{is_valid_username, name_char, IsUsername, is_valid_username_iff}
use drop_zone.Protocol.Path.{is_safe_relative_path, scan_components}
use drop_zone.Protocol.Path.Split.{
  split_path, all_good, scan-all_good, IsSafePath, is_safe_relative_path_iff,
}
use drop_zone.Protocol.Path.Resolve.{resolve, resolve-safe}
use drop_zone.Protocol.Message.Common.{direct_tcp, hole_punch_udp}
use drop_zone.Protocol.Message.Hello.{
  ClientHello, receiver, encode_client_hello, decode_client_hello, client_hello_round_trip,
  ServerHello, encode_server_hello, decode_server_hello, server_hello_round_trip,
}
use drop_zone.Protocol.Message.Introduction.{
  SendRequest, encode_send_request, decode_send_request, send_request_round_trip,
}
use drop_zone.Protocol.Message.Peer.{
  PeerIntroduction, encode_peer_introduction, decode_peer_introduction,
  peer_introduction_round_trip,
}
use drop_zone.Protocol.Message.Group.{
  joined, GroupStatus, GroupJoin, GroupResult, decode_group_query, encode_group_query,
  decode_group_send_request, encode_group_send_request, decode_group_status, encode_group_status,
  decode_group_join, encode_group_join, decode_group_result, encode_group_result,
  decode_group_roster, encode_group_roster,
}
use drop_zone.Protocol.Message.Group.RoundTrip.{group_messages_round_trip}
use drop_zone.Protocol.Message.Offer.{
  TransferOffer, ManifestEntry, aes256_gcm, encode_transfer_offer, decode_transfer_offer,
}
use drop_zone.Protocol.Message.Offer.RoundTrip.{IsOffer, transfer_offer_round_trip}
use drop_zone.Protocol.Message.Offer.Accepted.{IsAccepted, decode-IsAccepted}
use drop_zone.Protocol.Message.Transfer.{
  TransferDecision, encode_transfer_decision, decode_transfer_decision,
  transfer_decision_round_trip, ChunkHeader, encode_chunk_header, decode_chunk_header,
  chunk_header_round_trip, encode_reflexive_reply, decode_reflexive_reply, reflexive_round_trip,
}

abbrev sixteen : List ℕ
sixteen = 1 ∷ 2 ∷ 3 ∷ 4 ∷ 5 ∷ 6 ∷ 7 ∷ 8 ∷ 9 ∷ 10 ∷ 11 ∷ 12 ∷ 13 ∷ 14 ∷ 15 ∷ 16 ∷ []

abbrev key : List ℕ
key = sixteen ++ sixteen

abbrev ann : List ℕ
ann = b'a' ∷ b'n' ∷ b'n' ∷ []

-- "a/b"
abbrev a_path : List ℕ
a_path = b'a' ∷ b'/' ∷ b'b' ∷ []

ann_valid : is_valid_username ann ≡ true
unfolding is_valid_username name_char
ann_valid = refl

a_path_safe : is_safe_relative_path a_path ≡ true
unfolding is_safe_relative_path
a_path_safe = refl

load-store_u64_example : load_u64 (store_u64 81985529216486895 ++ ann) ≡ 81985529216486895
load-store_u64_example = load-store_u64 81985529216486895 ann (omega arith)

abbrev header : FrameHeader
header = record { version = protocol_version; type = 5; flags = 258; length = 70000 }

decode-encode_example : decode_frame_header (encode_frame_header header ++ ann) ≡ ok header
decode-encode_example =
    decode-encode header ann
      (record {
        version_fits = omega arith;
        type_fits = omega arith;
        flags_fit = omega arith;
        length_fits = omega arith;
      })
      refl (omega arith)

decode-accepts_example : (decode_frame_header (encode_frame_header header) ≡ ok header) ↔ (
    (header ≡ read_header (encode_frame_header header))
    × (header.version ≡ protocol_version)
    × (header.length ≤ max_frame_length))
decode-accepts_example = decode-accepts (encode_frame_header header) header

is_valid_username_iff_example : (is_valid_username ann ≡ true) ↔ IsUsername ann
is_valid_username_iff_example = is_valid_username_iff ann

scan-all_good_example : scan_components 5 a_path 2 ≡ some (all_good (split_path (drop 2 a_path)))
scan-all_good_example = scan-all_good 5 a_path 2 (omega arith) (omega arith)

is_safe_relative_path_iff_example :
    ((is_safe_relative_path a_path ≡ true) ↔ IsSafePath a_path)
    × ((answer : Bool) × (scan_components (suc (suc (length a_path))) a_path 0 ≡ some answer))
is_safe_relative_path_iff_example = is_safe_relative_path_iff a_path

resolve-safe_example : resolve (ann ∷ []) a_path ≡ reverse (split_path a_path) ++ ann ∷ []
resolve-safe_example = resolve-safe (ann ∷ []) a_path a_path_safe

abbrev home : Endpoint
home = v4 8080 (192 ∷ 168 ∷ 0 ∷ 1 ∷ [])

not_mapped : is_v4_mapped sixteen ≡ false
unfolding is_v4_mapped
not_mapped = refl

abbrev hello : ClientHello
hello = record {
  role = receiver;
  username = ann;
  identity_key = key;
  session_key = key;
  tcp_port = 9000;
  udp_port = 9001;
  local_candidates = home ∷ v6 9000 sixteen ∷ [];
}

client_hello_round_trip_example : decode_client_hello (encode_client_hello hello) ≡ ok hello
client_hello_round_trip_example = client_hello_round_trip hello (record {
  valid_name = ann_valid;
  identity_size = refl;
  session_size = refl;
  tcp_fits = omega arith;
  udp_fits = omega arith;
  candidates_fit = omega arith;
  candidates = ((omega arith, refl), ((omega arith, refl, not_mapped), tt));
})

abbrev welcome : ServerHello
welcome = record {
  claim_accepted = true;
  message = ann;
  reflexive_tcp = home;
  reflexive_udp = unspecified;
  idle_timeout_seconds = 300;
}

server_hello_round_trip_example : decode_server_hello (encode_server_hello welcome) ≡ ok welcome
server_hello_round_trip_example = server_hello_round_trip welcome (record {
  message_fits = omega arith;
  tcp_valid = (omega arith, refl);
  udp_valid = tt;
  timeout_fits = omega arith;
})

abbrev request : SendRequest
request = record {
  target_username = ann;
  proof = key;
  signature = key ++ key;
  transport_hint = direct_tcp;
  group_name = ann;
}

send_request_round_trip_example : decode_send_request (encode_send_request request) ≡ ok request
send_request_round_trip_example = send_request_round_trip request (record {
  target_valid = ann_valid;
  proof_size = refl;
  signature_size = refl;
  group_valid = inr ann_valid;
})

abbrev peer : PeerIntroduction
peer = record {
  username = ann;
  identity_key = key;
  session_key = key;
  candidates = home ∷ [];
  proof = key;
  signature = key ++ key;
  pairing_id = 77;
  transport_hint = hole_punch_udp;
  group_name = [];
}

peer_introduction_round_trip_example :
    decode_peer_introduction (encode_peer_introduction peer) ≡ ok peer
peer_introduction_round_trip_example = peer_introduction_round_trip peer (record {
  name_valid = ann_valid;
  identity_size = refl;
  session_size = refl;
  candidates_fit = omega arith;
  candidates_valid = ((omega arith, refl), tt);
  proof_size = refl;
  signature_size = refl;
  id_fits = omega arith;
  group_valid = inl refl;
})

abbrev status : GroupStatus
status = record { exists = true; member_count = 2 }

abbrev join : GroupJoin
join = record { name = ann; verifier = key }

abbrev answer : GroupResult
answer = record { outcome = joined; message = []; member_count = 2 }

group_messages_round_trip_example :
    (decode_group_query (encode_group_query ann) ≡ ok ann)
    × (decode_group_send_request (encode_group_send_request ann) ≡ ok ann)
    × (decode_group_status (encode_group_status status) ≡ ok status)
    × (decode_group_join (encode_group_join join) ≡ ok join)
    × (decode_group_result (encode_group_result answer) ≡ ok answer)
    × (decode_group_roster (encode_group_roster (ann ∷ [])) ≡ ok (ann ∷ []))
group_messages_round_trip_example =
    group_messages_round_trip ann key [] (ann ∷ []) 2 true joined ann_valid refl (omega arith)
      (omega arith) (omega arith) (ann_valid, tt)

abbrev entry : ManifestEntry
entry = record { path = a_path; size = 5000000000; mode = 420; digest = key }

abbrev small_offer : TransferOffer
small_offer = record {
  sender_username = ann;
  display_name = a_path;
  entries = entry ∷ [];
  total_bytes = 5000000000;
  encrypt_payload = true;
  algorithm = aes256_gcm;
  chunk_size = 1048576;
  digests_present = true;
}

small_offer-IsOffer : IsOffer small_offer
small_offer-IsOffer = record {
  valid_sender = ann_valid;
  display_fits = omega arith;
  entries_valid = (
    record {
      safe = a_path_safe;
      size_fits = omega arith;
      permissions = omega arith;
      digest_size = refl;
    },
    tt,
  );
  few_entries = omega arith;
  chunk_positive = omega arith;
  chunk_fits = omega arith;
  total = refl;
}

transfer_offer_round_trip_example :
    decode_transfer_offer (encode_transfer_offer small_offer) ≡ ok small_offer
transfer_offer_round_trip_example = transfer_offer_round_trip small_offer small_offer-IsOffer

small_offer_decoded : decode_transfer_offer (encode_transfer_offer small_offer) ≡ ok small_offer
small_offer_decoded = transfer_offer_round_trip small_offer small_offer-IsOffer

decode-IsAccepted_example : IsAccepted small_offer
decode-IsAccepted_example =
    decode-IsAccepted (encode_transfer_offer small_offer) small_offer small_offer_decoded

abbrev decision : TransferDecision
decision = record { accepted = false; reason = ann; output_directory = a_path }

transfer_decision_round_trip_example :
    decode_transfer_decision (encode_transfer_decision decision) ≡ ok decision
transfer_decision_round_trip_example =
    transfer_decision_round_trip decision (omega arith) (omega arith)

abbrev chunk : ChunkHeader
chunk = record { file_index = 3; plaintext_length = 65536; offset = 5000000000; counter = 12 }

chunk_header_round_trip_example : decode_chunk_header (encode_chunk_header chunk ++ ann) ≡ chunk
chunk_header_round_trip_example = chunk_header_round_trip chunk ann (record {
  index_fits = omega arith;
  length_fits = omega arith;
  offset_fits = omega arith;
  counter_fits = omega arith;
})

reflexive_round_trip_example :
    (bytes : List ℕ) × (encode_reflexive_reply home 32 ≡ ok bytes)
    × (decode_reflexive_reply bytes ≡ some home)
reflexive_round_trip_example = reflexive_round_trip home (omega arith, refl)
