-- ===== src/Server/Group.antt =====
-- server/src/session_table.cpp: the groups. A connection is the number of its object; `live` says
-- which objects still exist. `constant_time_equal` is a call of libcrypto: the argument `equal`.
pub mod Members
pub mod Pruned
pub mod Steps
pub mod Outcome
use drop_zone.Base.{
  ℕ, zero, suc, ◌+◌, Bool, true, false, not, ◌&&◌, ◌||◌, List, [], ◌∷◌, ◌++◌, Option, none, some,
  length, leb, ◌==◌, same_bytes, if◌then◌else◌,
}
use drop_zone.Protocol.Name.{is_valid_username}
use drop_zone.Server.Map.{name_key, find, erase, update}

abbrev pub max_group_members : ℕ
max_group_members = 32

pub data ConnectionState : Type 0 where
  awaiting_hello receiver_idle receiver_matched sender_idle sender_waiting relaying closing :
      ConnectionState

pub data GroupJoinResult : Type 0 where
  created joined wrong_password invalid_name full already_member : GroupJoinResult

pub record Group : Type 0 where
  pub verifier : List ℕ
  pub members : List ℕ

abbrev pub Groups : Type 0
Groups = List (List ℕ × Group)

-- What the table reads of a connection.
pub record Seen : Type 0 where
  pub state : ConnectionState
  pub claimed_username : List ℕ

abbrev pub is_empty : List ℕ → Bool
is_empty [] = true
is_empty (x ∷ xs) = false

pub filter : (ℕ → Bool) → List ℕ → List ℕ
filter keep [] = []
filter keep (x ∷ xs) = if keep x then x ∷ filter keep xs else filter keep xs

unfoldable pub prune_group : (ℕ → Bool) → Group → Group
unfolding filter
prune_group live group = record group { members = filter live group.members }

-- What the operations begin with: the group of that name, pruned, and none if nobody is left in it;
-- and the map, which is `mutable`, after that.
pub find_pruned : (ℕ → Bool) → List ℕ → Groups → Option Group × Groups
find_pruned live name groups = elim (find name groups) [
  | none ↦ (none, groups)
  | some group ↦
      let pruned = prune_group live group in
      if is_empty pruned.members
      then (none, erase name groups)
      else (some pruned, update name (λ old. pruned) groups)
]

unfoldable pub group_exists : (ℕ → Bool) → List ℕ → Groups → Bool × Groups
unfolding find_pruned
group_exists live name groups =
    let (found, after) = find_pruned live name groups in
    (elim found [ none ↦ false | some group ↦ true ], after)

unfoldable pub group_member_count : (ℕ → Bool) → List ℕ → Groups → ℕ × Groups
unfolding find_pruned
group_member_count live name groups =
    let (found, after) = find_pruned live name groups in
    (elim found [ none ↦ 0 | some group ↦ length group.members ], after)

-- Is one of the members, locked, the connection?
pub holds : (ℕ → Bool) → ℕ → List ℕ → Bool
holds live connection [] = false
holds live connection (m ∷ ms) = live m && m == connection || holds live connection ms

-- `push_back(connection)`.
abbrev pub add_member : ℕ → Group → Group
add_member connection group = record group { members = group.members ++ connection ∷ [] }

-- `none` is nullptr.
unfoldable pub join_group :
    (ℕ → Bool)
    → (List ℕ → List ℕ → Bool)
    → List ℕ
    → List ℕ
    → Option ℕ
    → Groups
    → GroupJoinResult × Groups
unfolding find_pruned holds
join_group live equal name verifier none groups = (invalid_name, groups)
join_group live equal name verifier (some connection) groups =
    if not (is_valid_username name)
    then (invalid_name, groups)
    else let (found, pruned) = find_pruned live name groups in
      elim found [
        | none ↦
            (created, (name, record { verifier = verifier; members = connection ∷ [] }) ∷ pruned)
        | some group ↦
            if holds live connection group.members
            then (already_member, pruned)
            else if not (equal group.verifier verifier)
            then (wrong_password, pruned)
            else if leb max_group_members (length group.members)
            then (full, pruned)
            else (joined, update name (add_member connection) pruned)
      ]

unfoldable pub leave_group : (ℕ → Bool) → List ℕ → Option ℕ → Groups → Groups
unfolding filter
leave_group live name none groups = groups
leave_group live name (some connection) groups =
    if is_empty name then groups else elim (find name groups) [
      | none ↦ groups
      | some group ↦
          let rest = filter (λ m. not (not (live m) || m == connection)) group.members in
          if is_empty rest
          then erase name groups
          else update name (λ old. record group { members = rest }) groups
    ]

unfoldable pub is_idle : ConnectionState → Bool
is_idle receiver_idle = true
is_idle _ = false

-- The test on one member; a member that is gone does not lock.
pub idle_member : (ℕ → Bool) → (ℕ → Seen) → List ℕ → ℕ → Bool
idle_member live seen skip_username m =
    live m
    && is_idle (seen m).state
    && not (not (is_empty skip_username) && same_bytes (seen m).claimed_username skip_username)

unfoldable pub idle_group_members :
    (ℕ → Bool) → (ℕ → Seen) → List ℕ → List ℕ → Groups → List ℕ × Groups
unfolding find_pruned filter idle_member is_idle
idle_group_members live seen name skip_username groups =
    let (found, after) = find_pruned live name groups in
    (
      elim found [
        | none ↦ []
        | some group ↦ filter (idle_member live seen skip_username) group.members
      ],
      after,
    )
