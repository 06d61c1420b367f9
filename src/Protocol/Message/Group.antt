-- ===== src/Protocol/Message/Group.antt =====
-- common/src/protocol.cpp: the messages about ephemeral groups.
pub mod RoundTrip
use drop_zone.Base.{
  ℕ, ◌%◌, ◌^◌, Bool, true, false, not, ◌||◌, List, [], ◌∷◌, length, ltb, ◌==◌, if◌then◌else◌,
}
use drop_zone.Base.Result.{
  Result, ok, err, invalid_username, invalid_group, unknown_outcome, roster_too_long,
}
use drop_zone.Wire.Writer.{
  Writer, ◌▹◌, put_u8, put_u16, put_u32, put_bool, put_bytes, put_string, put_each,
}
use drop_zone.Wire.Reader.{
  Reader, Parser, decode_with, pure, fail_if, ◌>>=◌, ◌>>◌, take_u8, take_u16, take_u32, take_bool,
  take_string, take_fixed, take_each,
}
use drop_zone.Protocol.Name.{is_valid_username}

abbrev pub max_group_members : ℕ
max_group_members = 32

-- GroupQuery and GroupSendRequest carry a name and nothing else.
unfoldable pub encode_group_query : List ℕ → List ℕ
encode_group_query name = [] ▹ put_string name

unfoldable pub encode_group_send_request : List ℕ → List ℕ
encode_group_send_request name = [] ▹ put_string name

pub require_group_name : List ℕ → Parser (Unit {0})
require_group_name name = fail_if (not (is_valid_username name)) invalid_group

pub parse_group_query : Parser (List ℕ)
parse_group_query = do name ← take_string; require_group_name name; pure name

unfoldable pub decode_group_query : List ℕ → Result (List ℕ)
decode_group_query = decode_with parse_group_query

pub parse_group_send_request : Parser (List ℕ)
parse_group_send_request = do name ← take_string; require_group_name name; pure name

unfoldable pub decode_group_send_request : List ℕ → Result (List ℕ)
decode_group_send_request = decode_with parse_group_send_request

pub record GroupStatus : Type 0 where
  pub exists : Bool
  pub member_count : ℕ

unfoldable pub encode_group_status : GroupStatus → List ℕ
encode_group_status status = [] ▹ put_bool status.exists ▹ put_u32 status.member_count

pub parse_group_status : Parser GroupStatus
parse_group_status = do
  exists ← take_bool
  member_count ← take_u32
  pure (record { exists = exists; member_count = member_count })

unfoldable pub decode_group_status : List ℕ → Result GroupStatus
decode_group_status = decode_with parse_group_status

pub record GroupJoin : Type 0 where
  pub name : List ℕ
  pub verifier : List ℕ

unfoldable pub encode_group_join : GroupJoin → List ℕ
encode_group_join join = [] ▹ put_string join.name ▹ put_bytes join.verifier

pub parse_group_join : Parser GroupJoin
parse_group_join = do
  name ← take_string
  require_group_name name
  verifier ← take_fixed 32
  pure (record { name = name; verifier = verifier })

unfoldable pub decode_group_join : List ℕ → Result GroupJoin
decode_group_join = decode_with parse_group_join

-- `enum class GroupJoinOutcome`: 1 to 6.
pub data GroupJoinOutcome : Type 0 where
  created joined wrong_password invalid_name full already_member : GroupJoinOutcome

unfoldable pub outcome_byte : GroupJoinOutcome → ℕ
outcome_byte created = 1
outcome_byte joined = 2
outcome_byte wrong_password = 3
outcome_byte invalid_name = 4
outcome_byte full = 5
outcome_byte already_member = 6

unfoldable pub outcome_of : ℕ → GroupJoinOutcome
outcome_of byte =
    if byte == 1
    then created
    else if byte == 2
    then joined
    else if byte == 3
    then wrong_password
    else if byte == 4
    then invalid_name
    else if byte == 5
    then full
    else already_member

pub record GroupResult : Type 0 where
  pub outcome : GroupJoinOutcome
  pub message : List ℕ
  pub member_count : ℕ

unfoldable pub encode_group_result : GroupResult → List ℕ
encode_group_result result =
    []
    ▹ put_u8 (outcome_byte result.outcome)
    ▹ put_string result.message
    ▹ put_u32 result.member_count

pub parse_group_result : Parser GroupResult
parse_group_result = do
  outcome ← take_u8
  fail_if (ltb outcome 1 || ltb 6 outcome) unknown_outcome
  message ← take_string
  member_count ← take_u32
  pure (record { outcome = outcome_of outcome; message = message; member_count = member_count })

unfoldable pub decode_group_result : List ℕ → Result GroupResult
decode_group_result = decode_with parse_group_result

-- GroupRoster is a list of names.
unfoldable pub encode_group_roster : List (List ℕ) → List ℕ
encode_group_roster usernames =
    [] ▹ put_u16 (length usernames % 2 ^ 16) ▹ put_each put_string usernames

pub take_member : Parser (List ℕ)
take_member = do
  username ← take_string
  fail_if (not (is_valid_username username)) invalid_username
  pure username

pub parse_group_roster : Parser (List (List ℕ))
parse_group_roster = do
  count ← take_u16
  fail_if (ltb max_group_members count) roster_too_long
  take_each take_member count

unfoldable pub decode_group_roster : List ℕ → Result (List (List ℕ))
decode_group_roster = decode_with parse_group_roster
