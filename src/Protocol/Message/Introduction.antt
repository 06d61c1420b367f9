-- ===== src/Protocol/Message/Introduction.antt =====
-- common/src/protocol.cpp: SendRequest.
use drop_zone.Base.{ℕ, ◌≡◌, refl, true, not, List, [], ◌∷◌, ◌++◌, length, ltb, arith}
use drop_zone.Base.Result.{Result, ok, invalid_username, unknown_transport}
use drop_zone.Wire.Writer.{◌▹◌, put_u8, put_bytes, put_string}
use drop_zone.Wire.Reader.{
  Parser, decode_with, pure, fail_if, ◌>>=◌, ◌>>◌, take_u8, take_string, take_fixed,
}
use drop_zone.Wire.Reads.{
  ReadsLast, Reads-bind_last, Reads-fail_if_last, Reads-map_last, Reads-take_u8, Reads-take_string,
  Reads-take_fixed, prefixed,
}
use drop_zone.Protocol.Name.{is_valid_username, short_name}
use drop_zone.Protocol.Message.GroupName.{
  put_group, take_group, IsGroup, group_bytes, put_group_lem, Reads-group,
}
use drop_zone.Protocol.Message.Common.{
  decode_with-ReadsLast, puts, TransportKind, transport_byte, transport_of, transport_read,
}

pub record SendRequest : Type 0 where
  pub target_username : List ℕ
  pub proof : List ℕ
  pub signature : List ℕ
  pub transport_hint : TransportKind
  pub group_name : List ℕ

unfoldable pub encode_send_request : SendRequest → List ℕ
encode_send_request request =
    []
    ▹ put_string request.target_username
    ▹ put_bytes request.proof
    ▹ put_bytes request.signature
    ▹ put_u8 (transport_byte request.transport_hint)
    ▹ put_group request.group_name

parse_send_request : Parser SendRequest
parse_send_request = do
  target_username ← take_string
  fail_if (not (is_valid_username target_username)) invalid_username
  proof ← take_fixed 32
  signature ← take_fixed 64
  hint ← take_u8
  fail_if (ltb 3 hint) unknown_transport
  group_name ← take_group
  pure (record {
    target_username = target_username;
    proof = proof;
    signature = signature;
    transport_hint = transport_of hint;
    group_name = group_name;
  })

unfoldable pub decode_send_request : List ℕ → Result SendRequest
unfolding parse_send_request
decode_send_request = decode_with parse_send_request

pub record IsSendRequest (request : SendRequest) : Type 0 where
  pub target_valid : is_valid_username request.target_username ≡ true
  pub proof_size : length request.proof ≡ 32
  pub signature_size : length request.signature ≡ 64
  pub group_valid : IsGroup request.group_name

abbrev send_request_bytes : SendRequest → List ℕ
send_request_bytes q =
    prefixed q.target_username
    ++ (prefixed q.proof
        ++ (prefixed q.signature
            ++ ((transport_byte q.transport_hint ∷ []) ++ group_bytes q.group_name)))

encode_send_request-bytes : (q : SendRequest) → encode_send_request q ≡ send_request_bytes q
unfolding encode_send_request
encode_send_request-bytes q = simp (puts, put_group_lem)

Reads-send_request :
    (q : SendRequest) → IsSendRequest q → ReadsLast parse_send_request (send_request_bytes q) q
unfolding parse_send_request
Reads-send_request q v =
    Reads-bind_last
      (Reads-take_string q.target_username (short_name q.target_username v.target_valid)) _
      (Reads-fail_if_last _ (rw v.target_valid refl) (
        Reads-bind_last (Reads-take_fixed q.proof 32 v.proof_size (omega arith)) _ (
          Reads-bind_last (Reads-take_fixed q.signature 64 v.signature_size (omega arith)) _ (
            Reads-bind_last (Reads-take_u8 (transport_byte q.transport_hint)) _ (
              Reads-fail_if_last _ (transport_read q.transport_hint).0 (
                rw (transport_read q.transport_hint).1
                  (Reads-map_last _ (Reads-group q.group_name v.group_valid))))))))

-- A sender's request, with a valid name, a proof of 32 and a signature of 64 bytes and no group
-- or a valid one, reaches the server as it was.
pub send_request_round_trip :
    (q : SendRequest) → IsSendRequest q → decode_send_request (encode_send_request q) ≡ ok q
unfolding decode_send_request
send_request_round_trip q v =
    rw (encode_send_request-bytes q)
      (decode_with-ReadsLast parse_send_request _ q (Reads-send_request q v))
