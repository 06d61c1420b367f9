-- ===== src/Server/Group/Members.antt =====
-- The members of the groups of server/src/session_table.cpp: at most 32, none twice, and no group
-- without one.
use drop_zone.Base.{
  ℕ, ◌≤◌, ◌≡◌, ◌≢◌, subst, sym, ◌∙◌, inl, inr, Bool, true, false, List, [], ◌∷◌, ◌++◌, none, some,
  Bool-cases, length, All, same_bytes, same_bytes-true, same_bytes_iff, arith,
}
use drop_zone.Server.Map.{
  name_key, find, erase, update, find-same, find-skip, find-erase, find-erase_other, find-update,
  find-update_other,
}
use drop_zone.Server.Group.{is_empty, Group, Groups, filter, holds, max_group_members}

-- No number stands twice in the list.
abbrev pub Distinct : List ℕ → Type 0
Distinct [] = Unit
Distinct (x ∷ xs) = All (λ y. x ≢ y) xs × Distinct xs

pub record GoodGroup (group : Group) : Type 0 where
  pub inhabited : 1 ≤ length group.members
  pub bounded : length group.members ≤ max_group_members
  pub distinct : Distinct group.members

-- Every group that is found is a good one.
abbrev pub GoodGroups : Groups → Type 0
GoodGroups groups =
    (name : List ℕ) (group : Group) → find name groups ≡ some group → GoodGroup group

All-filter : (P : ℕ → Type 0) (keep : ℕ → Bool) (xs : List ℕ) → All P xs → All P (filter keep xs)
unfolding filter
All-filter P keep [] h = tt
All-filter P keep (x ∷ xs) h = elim (Bool-cases (keep x)) [
  | inl t ↦ rw t (h.0, All-filter P keep xs h.1)
  | inr f ↦ rw f (All-filter P keep xs h.1)
]

filter-Distinct : (keep : ℕ → Bool) (xs : List ℕ) → Distinct xs → Distinct (filter keep xs)
unfolding filter
filter-Distinct keep [] h = tt
filter-Distinct keep (x ∷ xs) h = elim (Bool-cases (keep x)) [
  | inl t ↦ rw t (All-filter (λ y. x ≢ y) keep xs h.0, filter-Distinct keep xs h.1)
  | inr f ↦ rw f (filter-Distinct keep xs h.1)
]

length-filter : (keep : ℕ → Bool) (xs : List ℕ) → length (filter keep xs) ≤ length xs
unfolding filter
length-filter keep [] = omega arith
length-filter keep (x ∷ xs) = ground (arith, length-filter keep xs)

All-append_one : (P : ℕ → Type 0) (xs : List ℕ) (c : ℕ) → All P xs → P c → All P (xs ++ c ∷ [])
All-append_one P [] c h k = (k, tt)
All-append_one P (x ∷ xs) c h k = (h.0, All-append_one P xs c h.1 k)

pub append_one-Distinct :
    (xs : List ℕ) (c : ℕ) → Distinct xs → All (λ y. y ≢ c) xs → Distinct (xs ++ c ∷ [])
append_one-Distinct [] c h k = (tt, tt)
append_one-Distinct (x ∷ xs) c h k =
    (All-append_one (λ y. x ≢ y) xs c h.0 k.0, append_one-Distinct xs c h.1 k.1)

pub filter-All : (keep : ℕ → Bool) (xs : List ℕ) → All (λ x. keep x ≡ true) (filter keep xs)
unfolding filter
filter-All keep [] = tt
filter-All keep (x ∷ xs) = elim (Bool-cases (keep x)) [
  | inl t ↦ rw t (t, filter-All keep xs)
  | inr f ↦ rw f (filter-All keep xs)
]

-- Members that exist and do not hold a connection are all different from it.
pub holds-All :
    (live : ℕ → Bool) (c : ℕ) (xs : List ℕ)
    → All (λ x. live x ≡ true) xs
    → holds live c xs ≡ false
    → All (λ y. y ≢ c) xs
unfolding holds
holds-All live c [] l h = tt
holds-All live c (x ∷ xs) l h =
    (λ e. absurd (ground (arith, l.0, h, e)), holds-All live c xs l.1 (ground (arith, h)))

is_empty-length : (xs : List ℕ) → is_empty xs ≡ false → 1 ≤ length xs
is_empty-length [] h = cc
is_empty-length (x ∷ xs) h = omega arith

-- A part of a group that has somebody left in it.
pub filter-GoodGroup :
    (keep : ℕ → Bool) (group : Group)
    → GoodGroup group
    → is_empty (filter keep group.members) ≡ false
    → GoodGroup (record group { members = filter keep group.members })
filter-GoodGroup keep group g e = record {
  inhabited = is_empty-length (filter keep group.members) e;
  bounded = omega (arith, g.bounded, length-filter keep group.members);
  distinct = filter-Distinct keep group.members g.distinct;
}

pub some_injective : {p q : Group} → some p ≡ some q → p ≡ q
some_injective h = cc

-- How the maps of good groups arise.
pub put-GoodGroups :
    (name : List ℕ) (g : Group) (groups : Groups)
    → GoodGroup g
    → GoodGroups groups
    → GoodGroups ((name, g) ∷ groups)
put-GoodGroups name g groups good all other h e = elim (Bool-cases (same_bytes name other)) [
  | inl t ↦ subst GoodGroup (some_injective (sym (find-same other name g groups t) ∙ e)) good
  | inr f ↦ all other h (sym (find-skip other name g groups f) ∙ e)
]

pub erase-GoodGroups :
    (name : List ℕ) (groups : Groups) → GoodGroups groups → GoodGroups (erase name groups)
erase-GoodGroups name groups all other h e = elim (Bool-cases (same_bytes name other)) [
  | inl t ↦
      let gone : find other (erase name groups) ≡ none =
        rw⁻¹ (same_bytes-true name other t) (find-erase name groups) in
      let clash = sym gone ∙ e in cc
  | inr f ↦
      let d : name ≢ other = λ q. absurd (ground (arith, f, (same_bytes_iff name other).1 q)) in
      all other h (sym (find-erase_other other name groups d) ∙ e)
]

pub update-GoodGroups :
    (name : List ℕ) (f : Group → Group) (old : Group) (groups : Groups)
    → find name groups ≡ some old
    → GoodGroup (f old)
    → GoodGroups groups
    → GoodGroups (update name f groups)
update-GoodGroups name f old groups here good all other h e =
    elim (Bool-cases (same_bytes name other)) [
      | inl t ↦
          let there : find other (update name f groups) ≡ some (f old) =
            rw⁻¹ (same_bytes-true name other t) (find-update name f groups old here) in
          subst GoodGroup (some_injective (sym there ∙ e)) good
      | inr g ↦
          let d : name ≢ other = λ q. absurd (ground (arith, g, (same_bytes_iff name other).1 q)) in
          all other h (sym (find-update_other other name f groups d) ∙ e)
    ]
