-- ===== src/Server/Group/Pruned.antt =====
-- What the operations on groups in server/src/session_table.cpp begin with: the three outcomes of
-- finding a group and pruning it.
use drop_zone.Base.{
  ℕ, ◌≡◌, inl, inr, Bool, true, false, List, Option, none, some, Bool-cases, Option-cases, All,
}
use drop_zone.Server.Map.{name_key, find, erase, update, find-update}
use drop_zone.Server.Group.{is_empty, Group, Groups, filter, prune_group, find_pruned}
use drop_zone.Server.Group.Members.{
  GoodGroup, GoodGroups, filter-All, filter-GoodGroup, erase-GoodGroups, update-GoodGroups,
  some_injective,
}

module _ (live : ℕ → Bool) (name : List ℕ) (groups : Groups) where
  pub data Pruned : Option Group × Groups → Type 0 where
    absent : find name groups ≡ none → Pruned (none, groups)
    deserted :
        (group : Group)
        → find name groups ≡ some group
        → is_empty (filter live group.members) ≡ true
        → Pruned (none, erase name groups)
    present :
        (group : Group)
        → find name groups ≡ some group
        → is_empty (filter live group.members) ≡ false
        → Pruned (some (prune_group live group), update name (λ old. prune_group live group) groups)

  pub find_pruned-Pruned : Pruned (find_pruned live name groups)
  unfolding find_pruned prune_group
  find_pruned-Pruned = elim (Option-cases (find name groups)) [
    | inl e ↦ rw (find_pruned, e) (absent e)
    | inr (group, e) ↦ elim (Bool-cases (is_empty (filter live group.members))) [
      | inl t ↦ rw (find_pruned, e, t) (deserted group e t)
      | inr f ↦ rw (find_pruned, e, f) (present group e f)
    ]
  ]

  -- The group that is found is a good one whose members exist, and the map leads to it.
  pub record Usable (after : Groups) (group : Group) : Type 0 where
    pub good : GoodGroup group
    pub alive : All (λ m. live m ≡ true) group.members
    pub here : find name after ≡ some group

  pub Pruned-GoodGroups :
      (p : Option Group × Groups)
      → Pruned p
      → GoodGroups groups
      → GoodGroups p.1 × ((group : Group) → p.0 ≡ some group → Usable p.1 group)
  unfolding prune_group
  Pruned-GoodGroups _ (absent e) all = (all, λ group h. cc)
  Pruned-GoodGroups _ (deserted g e t) all = (erase-GoodGroups name groups all, λ group h. cc)
  Pruned-GoodGroups _ (present g e f) all =
      let good = filter-GoodGroup live g (all name g e) f in
      (
        update-GoodGroups name (λ old. prune_group live g) g groups e good all,
        λ group h. rw⁻¹ (some_injective h) (record {
          good = good;
          alive = filter-All live g.members;
          here = find-update name (λ old. prune_group live g) groups g e;
        }),
      )
