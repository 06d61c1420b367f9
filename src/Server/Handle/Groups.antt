-- ===== src/Server/Handle/Groups.antt =====
-- server/src/server.cpp: `handle_group_query`, `handle_group_join` and `handle_group_send_request`.
use drop_zone.Base.{ℕ, ◌%◌, ◌^◌, not, ◌&&◌, List, [], ◌++◌, some, map, same_bytes, if◌then◌else◌}
use drop_zone.Wire.Header.{group_status, group_result, group_roster}
use drop_zone.Wire.Stream.{Frame}
use drop_zone.Protocol.Message.Group.{
  GroupStatus, GroupJoin, GroupJoinOutcome, GroupResult, decode_group_query, decode_group_join,
  decode_group_send_request, encode_group_status, encode_group_result, encode_group_roster,
}
use drop_zone.Server.Group.{
  GroupJoinResult, created, joined, wrong_password, invalid_name, full, already_member, Groups,
  Seen, is_empty, is_idle, join_group, leave_group, group_exists, group_member_count,
  idle_group_members,
}
use drop_zone.Server.Text.{text, quoted}
use drop_zone.Server.Store.{Core, Store, World, set}
use drop_zone.Server.Action.{Action, with_result, ◌>>◌, modify, enqueue, reject_and_close}
use drop_zone.Server.Handle.Introduce.{is_sender_idle}

pub outcome_for : GroupJoinResult → GroupJoinOutcome
outcome_for created = GroupJoinOutcome.created
outcome_for joined = GroupJoinOutcome.joined
outcome_for already_member = GroupJoinOutcome.already_member
outcome_for wrong_password = GroupJoinOutcome.wrong_password
outcome_for full = GroupJoinOutcome.full
outcome_for invalid_name = GroupJoinOutcome.invalid_name

pub join_message : List ℕ → GroupJoinResult → List ℕ
join_message name created = text "created group " ++ name
join_message name joined = text "joined group " ++ name
join_message name already_member = text "already in group " ++ name
join_message name wrong_password = text "wrong password for group " ++ name
join_message name full = text "group '" ++ (name ++ text "' is full")
join_message name invalid_name = quoted name "' is not a usable group name"

-- The results after which the connection is in the group.
pub noted_group : ℕ → List ℕ → GroupJoinResult → (ℕ → List ℕ) → ℕ → List ℕ
noted_group c name created = set c name
noted_group c name joined = set c name
noted_group c name already_member = set c name
noted_group c name wrong_password = λ table. table
noted_group c name full = λ table. table
noted_group c name invalid_name = λ table. table

abbrev pub seen_in : Core → ℕ → Seen
seen_in k c = record { state = k.state c; claimed_username = k.claimed_username c }

module _ {L : Type 0} where
  pub status_of : List ℕ → Store L → GroupStatus × Groups
  status_of name s =
      let (exists, after_first) = group_exists s.core.live name s.groups in
      let (count, after_second) = group_member_count s.core.live name after_first in
      (record { exists = exists; member_count = count % 2 ^ 32 }, after_second)

  unfoldable pub answer_query : ℕ → List ℕ → Action L
  unfolding status_of
  answer_query c name s =
      let (status, groups) = status_of name s in
      enqueue c group_status (encode_group_status status) (record s { groups = groups })

  unfoldable pub handle_group_query : ℕ → Frame → Action L
  unfolding answer_query
  handle_group_query c frame s =
      if not (s.core.hello_received c)
      then reject_and_close c (text "say hello before querying a group") s
      else with_result (decode_group_query frame.payload) (answer_query c) s

  unfoldable pub leave_other : ℕ → List ℕ → Store L → Store L
  leave_other c name s =
      let old = s.joined_group c in
      if not (is_empty old) && not (same_bytes old name)
      then record s {
        groups = leave_group s.core.live old (some c) s.groups;
        joined_group = set c [] s.joined_group;
      }
      else s

  module _ (w : World L) where
    unfoldable pub join_as : ℕ → GroupJoin → Action L
    unfolding outcome_for join_message noted_group
    join_as c join s =
        let name = join.name in
        let (result, groups) =
          join_group s.core.live w.equal name join.verifier (some c) s.groups in
        let (count, counted) = group_member_count s.core.live name groups in
        let reply : GroupResult = record {
          outcome = outcome_for result;
          message = join_message name result;
          member_count = count % 2 ^ 32;
        } in
        enqueue c group_result (encode_group_result reply)
          (record s { groups = counted; joined_group = noted_group c name result s.joined_group })

    unfoldable pub accept_join : ℕ → GroupJoin → Action L
    unfolding join_as leave_other
    accept_join c join = modify (leave_other c join.name) >> join_as c join

    unfoldable pub handle_group_join : ℕ → Frame → Action L
    unfolding accept_join
    handle_group_join c frame s =
        if not (is_idle (s.core.state c))
        then reject_and_close c (text "only a receiver that is accepting may join a group") s
        else with_result (decode_group_join frame.payload) (accept_join c) s

    unfoldable pub answer_roster : ℕ → List ℕ → Action L
    answer_roster c name s =
        let (members, groups) =
          idle_group_members s.core.live (seen_in s.core) name (s.hello c).username s.groups in
        enqueue c group_roster (encode_group_roster (map s.core.claimed_username members))
          (record s { groups = groups })

    unfoldable pub handle_group_send_request : ℕ → Frame → Action L
    unfolding answer_roster
    handle_group_send_request c frame s =
        if not (is_sender_idle (s.core.state c))
        then reject_and_close c (text "only a sender that has said hello may request a group") s
        else (let (allowed, limiter) = w.allow_request (s.rate_limit_key c) w.now_ms s.limiter in
            let t = record s { limiter = limiter } in
            if not allowed
            then reject_and_close c (text "too many requests, try again in a minute") t
            else with_result (decode_group_send_request frame.payload) (answer_roster c) t)
