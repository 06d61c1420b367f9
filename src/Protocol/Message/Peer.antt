-- ===== src/Protocol/Message/Peer.antt =====
-- common/src/protocol.cpp: PeerIntroduction.
use drop_zone.Base.{ℕ, ◌^◌, ◌<◌, ◌≡◌, refl, true, not, List, [], ◌∷◌, ◌++◌, length, All, ltb, arith}
use drop_zone.Base.Result.{Result, ok, invalid_username, unknown_transport}
use drop_zone.Wire.Endpoint.{Endpoint, IsEndpoint}
use drop_zone.Wire.Endian.{store_u64}
use drop_zone.Wire.Writer.{◌▹◌, put_u8, put_u64, put_bytes, put_string, put_endpoints}
use drop_zone.Wire.Reader.{
  Parser, decode_with, pure, fail_if, ◌>>=◌, ◌>>◌, take_u8, take_u64, take_string, take_fixed,
  take_endpoints,
}
use drop_zone.Wire.Reads.{
  ReadsLast, Reads-bind_last, Reads-fail_if_last, Reads-map_last, Reads-take_u8, Reads-take_u64,
  Reads-take_string, Reads-take_fixed, Reads-take_endpoints, prefixed, endpoints_bytes,
}
use drop_zone.Protocol.Name.{is_valid_username, short_name}
use drop_zone.Protocol.Message.GroupName.{
  put_group, take_group, IsGroup, group_bytes, put_group_lem, Reads-group,
}
use drop_zone.Protocol.Message.Common.{
  decode_with-ReadsLast, puts, TransportKind, transport_byte, transport_of, transport_read,
}

pub record PeerIntroduction : Type 0 where
  pub username : List ℕ
  pub identity_key : List ℕ
  pub session_key : List ℕ
  pub candidates : List Endpoint
  pub proof : List ℕ
  pub signature : List ℕ
  pub pairing_id : ℕ
  pub transport_hint : TransportKind
  pub group_name : List ℕ

unfoldable pub encode_peer_introduction : PeerIntroduction → List ℕ
encode_peer_introduction intro =
    []
    ▹ put_string intro.username
    ▹ put_bytes intro.identity_key
    ▹ put_bytes intro.session_key
    ▹ put_endpoints intro.candidates
    ▹ put_bytes intro.proof
    ▹ put_bytes intro.signature
    ▹ put_u64 intro.pairing_id
    ▹ put_u8 (transport_byte intro.transport_hint)
    ▹ put_group intro.group_name

parse_peer_introduction : Parser PeerIntroduction
parse_peer_introduction = do
  username ← take_string
  fail_if (not (is_valid_username username)) invalid_username
  identity_key ← take_fixed 32
  session_key ← take_fixed 32
  candidates ← take_endpoints
  proof ← take_fixed 32
  signature ← take_fixed 64
  pairing_id ← take_u64
  hint ← take_u8
  fail_if (ltb 3 hint) unknown_transport
  group_name ← take_group
  pure (record {
    username = username;
    identity_key = identity_key;
    session_key = session_key;
    candidates = candidates;
    proof = proof;
    signature = signature;
    pairing_id = pairing_id;
    transport_hint = transport_of hint;
    group_name = group_name;
  })

unfoldable pub decode_peer_introduction : List ℕ → Result PeerIntroduction
unfolding parse_peer_introduction
decode_peer_introduction = decode_with parse_peer_introduction

pub record IsPeerIntroduction (intro : PeerIntroduction) : Type 0 where
  pub name_valid : is_valid_username intro.username ≡ true
  pub identity_size : length intro.identity_key ≡ 32
  pub session_size : length intro.session_key ≡ 32
  pub candidates_fit : length intro.candidates < 2 ^ 16
  pub candidates_valid : All IsEndpoint intro.candidates
  pub proof_size : length intro.proof ≡ 32
  pub signature_size : length intro.signature ≡ 64
  pub id_fits : intro.pairing_id < 2 ^ 64
  pub group_valid : IsGroup intro.group_name

abbrev peer_introduction_bytes : PeerIntroduction → List ℕ
peer_introduction_bytes p =
    prefixed p.username
    ++ (prefixed p.identity_key
        ++ (prefixed p.session_key
            ++ (endpoints_bytes p.candidates
                ++ (prefixed p.proof
                    ++ (prefixed p.signature
                        ++ (store_u64 p.pairing_id
                            ++ ((transport_byte p.transport_hint ∷ [])
                                ++ group_bytes p.group_name)))))))

encode_peer_introduction-bytes :
    (p : PeerIntroduction) → encode_peer_introduction p ≡ peer_introduction_bytes p
unfolding encode_peer_introduction
encode_peer_introduction-bytes p = simp (puts, put_group_lem)

Reads-peer_introduction :
    (p : PeerIntroduction)
    → IsPeerIntroduction p
    → ReadsLast parse_peer_introduction (peer_introduction_bytes p) p
unfolding parse_peer_introduction
Reads-peer_introduction p v =
    Reads-bind_last (Reads-take_string p.username (short_name p.username v.name_valid)) _ (
      Reads-fail_if_last _ (rw v.name_valid refl) (
        Reads-bind_last (Reads-take_fixed p.identity_key 32 v.identity_size (omega arith)) _ (
          Reads-bind_last (Reads-take_fixed p.session_key 32 v.session_size (omega arith)) _ (
            Reads-bind_last (Reads-take_endpoints p.candidates v.candidates_fit v.candidates_valid)
              _
              (Reads-bind_last (Reads-take_fixed p.proof 32 v.proof_size (omega arith)) _ (
                Reads-bind_last (Reads-take_fixed p.signature 64 v.signature_size (omega arith)) _ (
                  Reads-bind_last (Reads-take_u64 p.pairing_id v.id_fits) _ (
                    Reads-bind_last (Reads-take_u8 (transport_byte p.transport_hint)) _ (
                      Reads-fail_if_last _ (transport_read p.transport_hint).0 (
                        rw (transport_read p.transport_hint).1
                          (Reads-map_last _ (Reads-group p.group_name v.group_valid))))))))))))

-- What the server forwards about one peer, with a valid name, fields of the declared sizes,
-- fewer than 2 ^ 16 valid endpoints and no group or a valid one, reaches the other peer as it
-- was.
pub peer_introduction_round_trip :
    (p : PeerIntroduction)
    → IsPeerIntroduction p
    → decode_peer_introduction (encode_peer_introduction p) ≡ ok p
unfolding decode_peer_introduction
peer_introduction_round_trip p v =
    rw (encode_peer_introduction-bytes p)
      (decode_with-ReadsLast parse_peer_introduction _ p (Reads-peer_introduction p v))
