-- ===== src/Server/Group/Steps.antt =====
-- Every operation on the groups of server/src/session_table.cpp keeps them good.
use drop_zone.Base.{
  ℕ, ◌≡◌, inl, inr, Bool, false, not, ◌||◌, List, [], ◌∷◌, Option, none, some, Bool-cases,
  Option-cases, length, length-append, leb, ◌==◌, arith,
}
use drop_zone.Protocol.Name.{is_valid_username}
use drop_zone.Server.Map.{name_key, find}
use drop_zone.Server.Group.{
  is_empty, Group, Groups, Seen, filter, find_pruned, group_exists, group_member_count, holds,
  add_member, join_group, leave_group, idle_group_members, max_group_members,
}
use drop_zone.Server.Group.Members.{
  GoodGroup, GoodGroups, filter-GoodGroup, put-GoodGroups, erase-GoodGroups, update-GoodGroups,
  holds-All, append_one-Distinct,
}
use drop_zone.Server.Group.Pruned.{Usable, find_pruned-Pruned, Pruned-GoodGroups}

nothing_found :
    (name : List ℕ) (group : Group) → find {V = Group} name [] ≡ some group → GoodGroup group
unfolding find
nothing_found name group h = cc

add_member-GoodGroup :
    (live : ℕ → Bool) (name : List ℕ) (groups after : Groups) (c : ℕ) (group : Group)
    → Usable live name groups after group
    → holds live c group.members ≡ false
    → leb max_group_members (length group.members) ≡ false
    → GoodGroup (add_member c group)
add_member-GoodGroup live name groups after c group u h l = record {
  inhabited = omega (arith, length-append group.members (c ∷ []));
  bounded = ground (arith, l, length-append group.members (c ∷ []));
  distinct =
      append_one-Distinct group.members c u.good.distinct
        (holds-All live c group.members u.alive h);
}

one_member-GoodGroup :
    (verifier : List ℕ) (c : ℕ) → GoodGroup (record { verifier = verifier; members = c ∷ [] })
one_member-GoodGroup verifier c = record {
  inhabited = omega arith;
  bounded = omega arith;
  distinct = (tt, tt);
}

join_group-GoodGroups :
    (live : ℕ → Bool) (equal : List ℕ → List ℕ → Bool) (name verifier : List ℕ)
    (connection : Option ℕ) (groups : Groups)
    → GoodGroups groups
    → GoodGroups (join_group live equal name verifier connection groups).1
unfolding join_group
join_group-GoodGroups live equal name verifier none groups all = all
join_group-GoodGroups live equal name verifier (some c) groups all =
    let (kept, usable) =
      Pruned-GoodGroups live name groups _ (find_pruned-Pruned live name groups) all in
    elim (Bool-cases (is_valid_username name)) [
      | inl v ↦ elim (Option-cases (find_pruned live name groups).0) [
        | inl e ↦ rw (v, e) (put-GoodGroups name _ _ (one_member-GoodGroup verifier c) kept)
        | inr (group, e) ↦ elim (Bool-cases (holds live c group.members)) [
          | inl t ↦ rw (v, e, t) kept
          | inr h ↦ elim (Bool-cases (equal group.verifier verifier)) [
            | inl q ↦ elim (Bool-cases (leb max_group_members (length group.members))) [
              | inl l ↦ rw (v, e, h, q, l) kept
              | inr l ↦
                  rw (v, e, h, q, l)
                    (update-GoodGroups name (add_member c) group _ (usable group e).here
                      (add_member-GoodGroup live name groups _ c group (usable group e) h l) kept)
            ]
            | inr q ↦ rw (v, e, h, q) kept
          ]
        ]
      ]
      | inr v ↦ rw v all
    ]

leave_group-GoodGroups :
    (live : ℕ → Bool) (name : List ℕ) (connection : Option ℕ) (groups : Groups)
    → GoodGroups groups
    → GoodGroups (leave_group live name connection groups)
unfolding leave_group
leave_group-GoodGroups live name none groups all = all
leave_group-GoodGroups live name (some c) groups all =
    let stays : ℕ → Bool = λ m. not (not (live m) || m == c) in
    elim (Bool-cases (is_empty name)) [
      | inl n ↦ rw n all
      | inr n ↦ elim (Option-cases (find name groups)) [
        | inl e ↦ rw (leave_group, n, e) all
        | inr (group, e) ↦ elim (Bool-cases (is_empty (filter stays group.members))) [
          | inl t ↦ rw (leave_group, n, e, t) (erase-GoodGroups name groups all)
          | inr f ↦
              rw (leave_group, n, e, f)
                (update-GoodGroups name _ group groups e
                  (filter-GoodGroup stays group (all name group e) f) all)
        ]
      ]
    ]

-- One operation of the table, at a moment when the connections in `live` exist.
pub data Step : Groups → Groups → Type 0 where
  joins :
      {groups after : Groups} (live : ℕ → Bool) (equal : List ℕ → List ℕ → Bool)
      (name verifier : List ℕ) (connection : Option ℕ)
      → after ≡ (join_group live equal name verifier connection groups).1
      → Step groups after
  leaves :
      {groups after : Groups} (live : ℕ → Bool) (name : List ℕ) (connection : Option ℕ)
      → after ≡ leave_group live name connection groups
      → Step groups after
  asks :
      {groups after : Groups} (live : ℕ → Bool) (name : List ℕ)
      → after ≡ (group_exists live name groups).1
      → Step groups after
  counts :
      {groups after : Groups} (live : ℕ → Bool) (name : List ℕ)
      → after ≡ (group_member_count live name groups).1
      → Step groups after
  lists :
      {groups after : Groups} (live : ℕ → Bool) (seen : ℕ → Seen) (name skip_username : List ℕ)
      → after ≡ (idle_group_members live seen name skip_username groups).1
      → Step groups after

-- The maps that a server can come to, from the empty one.
pub data Reached : Groups → Type 0 where
  no_groups : Reached []
  next : {groups after : Groups} → Reached groups → Step groups after → Reached after

find_pruned-GoodGroups :
    (live : ℕ → Bool) (name : List ℕ) (groups : Groups)
    → GoodGroups groups
    → GoodGroups (find_pruned live name groups).1
find_pruned-GoodGroups live name groups all =
    (Pruned-GoodGroups live name groups _ (find_pruned-Pruned live name groups) all).0

Step-GoodGroups : (groups after : Groups) → Step groups after → GoodGroups groups → GoodGroups after
unfolding group_exists group_member_count idle_group_members
Step-GoodGroups groups after (joins live equal name verifier connection e) all =
    rw e (join_group-GoodGroups live equal name verifier connection groups all)
Step-GoodGroups groups after (leaves live name connection e) all =
    rw e (leave_group-GoodGroups live name connection groups all)
Step-GoodGroups groups after (asks live name e) all =
    rw e (find_pruned-GoodGroups live name groups all)
Step-GoodGroups groups after (counts live name e) all =
    rw e (find_pruned-GoodGroups live name groups all)
Step-GoodGroups groups after (lists live seen name skip_username e) all =
    rw e (find_pruned-GoodGroups live name groups all)

-- In every map that the operations can lead to, whatever connections come and go between them, a
-- group has at least one member, at most 32, and no member twice.
pub Reached-GoodGroups :
    (groups : Groups)
    → Reached groups
    → (name : List ℕ) (group : Group) → find name groups ≡ some group
    → GoodGroup group
Reached-GoodGroups _ no_groups name group h = nothing_found name group h
Reached-GoodGroups _ (next {groups = groups} {after = after} r s) name group h =
    Step-GoodGroups groups after s (Reached-GoodGroups groups r) name group h
