-- ===== src/Protocol/Message/Group/RoundTrip.antt =====
-- The group messages are read as they were written.
use drop_zone.Base.{
  ℕ, ◌%◌, ◌^◌, ◌≤◌, ◌<◌, ◌≡◌, refl, sym, subst, Bool, true, false, ◌||◌, List, [], ◌∷◌, ◌++◌, All,
  All-map, length, ltb, arith,
}
use drop_zone.Base.Result.{ok}
use drop_zone.Wire.Endian.{store_u32}
use drop_zone.Wire.Writer.{put_string}
use drop_zone.Wire.Reader.{Parser, decode_with}
use drop_zone.Wire.Reads.{
  Reads, Reads-last, Reads-bind, Reads-bind_end, Reads-pure, Reads-fail_if, Reads-map,
  Reads-take_u8, Reads-take_u16, Reads-take_u32, Reads-take_bool, Reads-take_string,
  Reads-take_fixed, Reads-take_each, prefixed,
}
use drop_zone.Protocol.Name.{is_valid_username, short_name}
use drop_zone.Protocol.Message.Common.{
  decode_with-ReadsLast, puts, put_each_lem, put_string_lem, put_u16_lem,
}
use drop_zone.Protocol.Message.Group.{
  max_group_members, require_group_name, encode_group_query, decode_group_query, parse_group_query,
  encode_group_send_request, decode_group_send_request, parse_group_send_request, GroupStatus,
  encode_group_status, decode_group_status, parse_group_status, GroupJoin, encode_group_join,
  decode_group_join, parse_group_join, GroupResult, GroupJoinOutcome, created, joined,
  wrong_password, invalid_name, full, already_member, outcome_byte, outcome_of, encode_group_result,
  decode_group_result, parse_group_result, encode_group_roster, decode_group_roster, take_member,
  parse_group_roster,
}

-- A name that has to be valid, and nothing after it.
Reads-name :
    (m : Parser (List ℕ)) (name : List ℕ)
    → is_valid_username name ≡ true
    → m ≡ parse_group_query
    → Reads m (prefixed name) name
unfolding parse_group_query require_group_name
Reads-name m name v e = rw e (
    Reads-bind_end (Reads-take_string name (short_name name v)) _
      (Reads-fail_if _ (rw v refl) (Reads-pure name)))

group_query_round_trip :
    (name : List ℕ)
    → is_valid_username name ≡ true
    → decode_group_query (encode_group_query name) ≡ ok name
unfolding decode_group_query encode_group_query
group_query_round_trip name v =
    rw (put_string_lem name [])
      (decode_with-ReadsLast parse_group_query _ name (Reads-last (Reads-name _ name v refl)))

group_send_request_round_trip :
    (name : List ℕ)
    → is_valid_username name ≡ true
    → decode_group_send_request (encode_group_send_request name) ≡ ok name
unfolding decode_group_send_request encode_group_send_request parse_group_send_request
    parse_group_query
group_send_request_round_trip name v =
    rw (put_string_lem name []) (
      decode_with-ReadsLast parse_group_send_request _ name (Reads-last (Reads-name _ name v refl)))

group_status_round_trip :
    (s : GroupStatus) → s.member_count < 2 ^ 32 → decode_group_status (encode_group_status s) ≡ ok s
unfolding decode_group_status encode_group_status parse_group_status
group_status_round_trip s h = simp puts (
    decode_with-ReadsLast parse_group_status _ s (
      Reads-last
        (Reads-bind (Reads-take_bool s.exists) _ (Reads-map _ (Reads-take_u32 s.member_count h)))))

group_join_round_trip :
    (j : GroupJoin)
    → is_valid_username j.name ≡ true
    → length j.verifier ≡ 32
    → decode_group_join (encode_group_join j) ≡ ok j
unfolding decode_group_join encode_group_join parse_group_join require_group_name
group_join_round_trip j v h =
    subst (λ bytes. decode_with parse_group_join bytes ≡ ok j) (sym (encoded j))
      (decode_with-ReadsLast parse_group_join _ j (
        Reads-last (
          Reads-bind (Reads-take_string j.name (short_name j.name v)) _ (
            Reads-fail_if _ (rw v refl)
              (Reads-map _ (Reads-take_fixed j.verifier 32 h (omega arith)))))))
  where
    encoded : (j : GroupJoin) → encode_group_join j ≡ prefixed j.name ++ prefixed j.verifier
    encoded j = simp puts

outcome_read :
    (o : GroupJoinOutcome)
    → (ltb (outcome_byte o) 1 || ltb 6 (outcome_byte o) ≡ false) × (outcome_of (outcome_byte o) ≡ o)
unfolding outcome_byte outcome_of
outcome_read created = (refl, refl)
outcome_read joined = (refl, refl)
outcome_read wrong_password = (refl, refl)
outcome_read invalid_name = (refl, refl)
outcome_read full = (refl, refl)
outcome_read already_member = (refl, refl)

group_result_round_trip :
    (r : GroupResult)
    → length r.message < 2 ^ 32
    → r.member_count < 2 ^ 32
    → decode_group_result (encode_group_result r) ≡ ok r
unfolding decode_group_result encode_group_result parse_group_result
group_result_round_trip r h k =
    subst (λ bytes. decode_with parse_group_result bytes ≡ ok r) (sym (encoded r))
      (decode_with-ReadsLast parse_group_result _ r (
        Reads-last (
          Reads-bind (Reads-take_u8 (outcome_byte r.outcome)) _ (
            Reads-fail_if _ (outcome_read r.outcome).0 (
              Reads-bind (Reads-take_string r.message h) _
                (rw (outcome_read r.outcome).1 (Reads-map _ (Reads-take_u32 r.member_count k))))))))
  where
    encoded :
        (r : GroupResult)
        → encode_group_result r
          ≡ (outcome_byte r.outcome ∷ []) ++ (prefixed r.message ++ store_u32 r.member_count)
    encoded r = simp puts

Reads-take_member :
    (name : List ℕ) → is_valid_username name ≡ true → Reads take_member (prefixed name) name
unfolding take_member
Reads-take_member name v =
    Reads-bind_end (Reads-take_string name (short_name name v)) _
      (Reads-fail_if _ (rw v refl) (Reads-pure name))

small_roster : (n : ℕ) → n ≤ max_group_members → n % 2 ^ 16 ≡ n
small_roster n h = omega arith

group_roster_round_trip :
    (names : List (List ℕ))
    → length names ≤ max_group_members
    → All (λ name. is_valid_username name ≡ true) names
    → decode_group_roster (encode_group_roster names) ≡ ok names
unfolding decode_group_roster encode_group_roster parse_group_roster
group_roster_round_trip names h v =
    rw
      (
        put_each_lem put_string prefixed put_string_lem names _,
        put_u16_lem,
        small_roster (length names) h,
      )
      (decode_with-ReadsLast parse_group_roster _ names (
        Reads-last (
          Reads-bind (Reads-take_u16 (length names) (omega arith)) _ (
            Reads-fail_if _ (ground arith)
              (Reads-take_each take_member prefixed names (All-map Reads-take_member names v))))))

-- Each of the six group messages is read as it was written, where its names are valid, its verifier
-- has 32 bytes, its numbers fit 32 bits, and a roster has at most 32 names.
pub group_messages_round_trip :
    (name verifier message : List ℕ) (names : List (List ℕ)) (count : ℕ) (exists : Bool)
    (outcome : GroupJoinOutcome)
    → is_valid_username name ≡ true
    → length verifier ≡ 32
    → length message < 2 ^ 32
    → count < 2 ^ 32
    → length names ≤ max_group_members
    → All (λ n. is_valid_username n ≡ true) names
    → let status : GroupStatus = record { exists = exists; member_count = count } in
      let join : GroupJoin = record { name = name; verifier = verifier } in
      let result : GroupResult = record {
        outcome = outcome;
        message = message;
        member_count = count;
      } in
      (decode_group_query (encode_group_query name) ≡ ok name)
      × (decode_group_send_request (encode_group_send_request name) ≡ ok name)
      × (decode_group_status (encode_group_status status) ≡ ok status)
      × (decode_group_join (encode_group_join join) ≡ ok join)
      × (decode_group_result (encode_group_result result) ≡ ok result)
      × (decode_group_roster (encode_group_roster names) ≡ ok names)
group_messages_round_trip name verifier message names count exists outcome v h m c few all = (
  group_query_round_trip name v,
  group_send_request_round_trip name v,
  group_status_round_trip _ c,
  group_join_round_trip _ v h,
  group_result_round_trip _ m c,
  group_roster_round_trip names few all,
)
