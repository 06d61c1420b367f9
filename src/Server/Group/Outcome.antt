-- ===== src/Server/Group/Outcome.antt =====
-- server/src/session_table.cpp, `join_group`: what each answer says of the group before and after.
use drop_zone.Base.{
  ℕ, ◌≤◌, ◌<◌, ◌≡◌, ◌≢◌, ◌↔◌, refl, sym, ◌∙◌, inl, inr, Bool, true, false, List, [], ◌∷◌, none,
  some, Bool-cases, Option-cases, length, leb, arith,
}
use drop_zone.Protocol.Name.{is_valid_username}
use drop_zone.Server.Map.{
  name_key, find, erase, update, find-here, find-there, find-erase_other, find-update,
  find-update_other,
}
use drop_zone.Server.Group.{
  is_empty, Group, Groups, GroupJoinResult, created, joined, wrong_password, invalid_name, full,
  already_member, filter, prune_group, find_pruned, holds, add_member, join_group,
  max_group_members,
}
use drop_zone.Server.Group.Members.{some_injective}

module _ (live : ℕ → Bool) (name verifier : List ℕ) (connection : ℕ) (groups : Groups) where
  -- A group of that name has a member that exists.
  abbrev pub Occupied : Group → Type 0
  Occupied group = (find name groups ≡ some group) × (is_empty (filter live group.members) ≡ false)

  -- What an answer promises.
  abbrev pub Promise : GroupJoinResult → Groups → Type 0
  Promise created after =
      (is_valid_username name ≡ true)
      × ((group : Group) → ¬ Occupied group)
      × (find name after ≡ some (record { verifier = verifier; members = connection ∷ [] }))
  Promise joined after =
      (is_valid_username name ≡ true)
      × (group : Group) × Occupied group
      × (group.verifier ≡ verifier)
      × (length (filter live group.members) < max_group_members)
      × (find name after ≡ some (add_member connection (prune_group live group)))
  Promise wrong_password after =
      (is_valid_username name ≡ true)
      × (group : Group) × Occupied group
      × (group.verifier ≢ verifier)
      × (find name after ≡ some (prune_group live group))
  Promise full after =
      (is_valid_username name ≡ true)
      × (group : Group) × Occupied group
      × (group.verifier ≡ verifier)
      × (max_group_members ≤ length (filter live group.members))
      × (find name after ≡ some (prune_group live group))
  Promise already_member after =
      (is_valid_username name ≡ true)
      × (group : Group) × Occupied group
      × (holds live connection group.members ≡ true)
      × (find name after ≡ some (prune_group live group))
  Promise invalid_name after = (is_valid_username name ≡ false) × (after ≡ groups)

  holds-filter :
      (xs : List ℕ)
      → holds live connection (filter live xs) ≡ true
      → holds live connection xs ≡ true
  unfolding holds filter
  holds-filter [] h = h
  holds-filter (x ∷ xs) h = ground (arith, holds-filter xs)

  pruned_absent : find name groups ≡ none → find_pruned live name groups ≡ (none, groups)
  unfolding find_pruned
  pruned_absent e = rw (find_pruned, e) refl

  pruned_deserted :
      (group : Group)
      → find name groups ≡ some group
      → is_empty (filter live group.members) ≡ true
      → find_pruned live name groups ≡ (none, erase name groups)
  unfolding find_pruned prune_group
  pruned_deserted group e t = rw (find_pruned, e, t) refl

  pruned_present :
      (group : Group)
      → find name groups ≡ some group
      → is_empty (filter live group.members) ≡ false
      → find_pruned live name groups
        ≡ (some (prune_group live group), update name (λ old. prune_group live group) groups)
  unfolding find_pruned prune_group
  pruned_present group e f = rw (find_pruned, e, f) refl

  clash_empty :
      (group other : Group)
      → is_empty (filter live group.members) ≡ true
      → some group ≡ some other
      → is_empty (filter live other.members) ≡ false
      → ⊥
  clash_empty group other t e f =
      let g : is_empty (filter live group.members) ≡ false = rw (some_injective e) f in
      let clash = sym t ∙ g in cc

  -- Where `equal` says of two byte strings of one length whether they are equal, and the
  -- verifier offered is as long as that of the group: the answer to a request to join says how
  -- the group was and how it is now. A group is created only where nobody is left in one; a
  -- connection joins only with the verifier of the group and only below 32 members; a wrong
  -- verifier, a full group and a member already there change nothing but the removal of members
  -- that no longer exist; the name is invalid exactly when the answer says so, and then nothing
  -- changes; and no answer changes the group of another name.
  pub join_group-Promise :
      (equal : List ℕ → List ℕ → Bool)
      → ((a b : List ℕ) → length a ≡ length b → (equal a b ≡ true) ↔ (a ≡ b))
      → ((group : Group) → find name groups ≡ some group → length group.verifier ≡ length verifier)
      → let (result, after) = join_group live equal name verifier (some connection) groups in
        Promise result after
        × ((other : List ℕ) → name ≢ other → find other after ≡ find other groups)
  unfolding join_group prune_group
  join_group-Promise equal compares sizes = elim (Bool-cases (is_valid_username name)) [
    | inl v ↦ elim (Option-cases (find name groups)) [
      | inl e ↦
          rw (v, pruned_absent e, pruned_absent e)
            (
              (v, λ group o. let clash = sym e ∙ o.0 in cc, find-here name _ groups),
              λ other d. find-there other name _ groups d,
            )
      | inr (group, e) ↦ elim (Bool-cases (is_empty (filter live group.members))) [
        | inl t ↦
            rw (v, pruned_deserted group e t, pruned_deserted group e t)
              (
                (
                  v,
                  λ other o. absurd (clash_empty group other t (sym e ∙ o.0) o.1),
                  find-here name _ (erase name groups),
                ),
                λ other d.
                    find-there other name _ (erase name groups) d
                    ∙ find-erase_other other name groups d,
              )
        | inr f ↦
            let now = prune_group live group in
            let after = update name (λ old. now) groups in
            let here : find name after ≡ some now = find-update name (λ old. now) groups group e in
            let others = λ (other : List ℕ) (d : name ≢ other).
              find-update_other other name (λ old. now) groups d in
            let same = compares group.verifier verifier (sizes group e) in
            elim (Bool-cases (holds live connection now.members)) [
              | inl h ↦
                  rw (v, pruned_present group e f, h, pruned_present group e f)
                    ((v, group, (e, f), holds-filter group.members h, here), others)
              | inr h ↦ elim (Bool-cases (equal group.verifier verifier)) [
                | inl q ↦ elim (Bool-cases (leb max_group_members (length now.members))) [
                  | inl l ↦
                      rw (v, pruned_present group e f, h, q, l, pruned_present group e f)
                        ((v, group, (e, f), same.0 q, ground (arith, l), here), others)
                  | inr l ↦
                      rw (v, pruned_present group e f, h, q, l, pruned_present group e f)
                        (
                          (
                            v,
                            group,
                            (e, f),
                            same.0 q,
                            ground (arith, l),
                            find-update name (add_member connection) after now here,
                          ),
                          λ other d.
                              find-update_other other name (add_member connection) after d
                              ∙ others other d,
                        )
                ]
                | inr q ↦
                    rw (v, pruned_present group e f, h, q, pruned_present group e f)
                      ((v, group, (e, f), λ p. let clash = sym q ∙ same.1 p in cc, here), others)
              ]
            ]
      ]
    ]
    | inr v ↦ rw v ((v, refl), λ other d. refl)
  ]
