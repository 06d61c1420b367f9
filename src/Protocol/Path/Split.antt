-- ===== src/Protocol/Path/Split.antt =====
-- The component loop of `is_safe_relative_path` against the list of the path's components.
use drop_zone.Base.{
  ℕ, zero, suc, ◌+◌, ◌≤◌, ◌<◌, ◌≡◌, refl, ap, ◌∙◌, ◌≢◌, ◌↔◌, ◌⊎◌, inl, inr, Bool, true, false, ◌&&◌,
  List, [], ◌∷◌, none, some, ◌==◌, if◌then◌else◌, length, take, drop, length-drop, drop-drop, All,
  arith, Bool-cases, same_bytes-true,
}
use drop_zone.Protocol.Path.{
  max_path_length, index_of, is_found, first_is, good_component, scan_components,
  is_safe_relative_path,
}

-- A character in front of the first component.
abbrev extend_first : ℕ → List (List ℕ) → List (List ℕ)
extend_first x [] = (x ∷ []) ∷ []
extend_first x (c ∷ cs) = (x ∷ c) ∷ cs

-- The components of a path: what stands between its slashes.
unfoldable pub split_path : List ℕ → List (List ℕ)
split_path [] = [] ∷ []
split_path (x ∷ xs) = if x == b'/' then [] ∷ split_path xs else extend_first x (split_path xs)

abbrev pub all_good : List (List ℕ) → Bool
all_good [] = true
all_good (c ∷ cs) = good_component c && all_good cs

-- The first slash ends the first component.
split-index_of :
    (xs : List ℕ)
    → ((index_of b'/' xs ≡ none) × (split_path xs ≡ xs ∷ []))
      ⊎ ((k : ℕ) × (index_of b'/' xs ≡ some k)
          × (k < length xs)
          × (split_path xs ≡ take k xs ∷ split_path (drop (suc k) xs)))
unfolding index_of split_path
split-index_of [] = inl (refl, refl)
split-index_of (x ∷ xs) = elim (Bool-cases (x == b'/')) [
  | inl slash ↦ inr (0, rw slash, omega arith, rw slash)
  | inr other ↦ elim (split-index_of xs) [
    | inl (e, s) ↦ inl (rw (other, e), rw (other, s))
    | inr (k, e, l, s) ↦ inr (suc k, rw (other, e), omega arith, rw (other, s))
  ]
]

next_start : (start k : ℕ) → start + suc k ≡ start + k + 1
next_start start k = omega arith

drop_next :
    (path : List ℕ) (start k : ℕ) → drop (suc k) (drop start path) ≡ drop (start + k + 1) path
drop_next path start k = drop-drop (suc k) start path ∙ ap (λ n. drop n path) (next_start start k)

-- From a start within the text, with more fuel than there is text behind it, the loop ends, and
-- its answer is whether every component from there on is good.
pub scan-all_good :
    (fuel : ℕ) (path : List ℕ) (start : ℕ)
    → start ≤ length path
    → length path < start + fuel
    → scan_components fuel path start ≡ some (all_good (split_path (drop start path)))
unfolding scan_components
scan-all_good zero path start h f = absurd (omega arith)
scan-all_good (suc fuel) path start h f = elim (split-index_of (drop start path)) [
  | inl (e, s) ↦ ground (arith, e, s)
  | inr (k, e, l, s) ↦ ground (
    arith,
    e,
    s,
    drop_next path start k,
    length-drop start path,
    scan-all_good fuel path (start + k + 1),
  )
]

-- A component that names a file or a folder: neither empty nor `.` nor `..`.
pub record IsName (component : List ℕ) : Type 0 where
  pub not_empty : component ≢ []
  pub not_dot : component ≢ b'.' ∷ []
  pub not_dot_dot : component ≢ b'.' ∷ b'.' ∷ []

pub record IsSafePath (path : List ℕ) : Type 0 where
  pub nonempty : 0 < length path
  pub short : length path ≤ max_path_length
  pub no_backslash : All (λ c. c ≢ 92) path
  pub no_nul : All (λ c. c ≢ 0) path
  pub names : All IsName (split_path path)

good_component_iff : (c : List ℕ) → (good_component c ≡ true) ↔ IsName c
unfolding good_component
good_component_iff [] = (λ h. cc, λ n. absurd (n.not_empty refl))
good_component_iff (x ∷ xs) = (
  λ h. record {
    not_empty = λ e. cc;
    not_dot = λ e. cc (ap good_component e);
    not_dot_dot = λ e. cc (ap good_component e);
  },
  λ n.
      ground
        (arith, n.not_dot, n.not_dot_dot, same_bytes-true xs [], same_bytes-true xs (b'.' ∷ [])),
)

all_good_iff : (cs : List (List ℕ)) → (all_good cs ≡ true) ↔ All IsName cs
all_good_iff [] = (λ _. tt, λ _. refl)
all_good_iff (c ∷ cs) = (
  λ h. ((good_component_iff c).0 (ground arith), (all_good_iff cs).0 (ground arith)),
  λ h. ground (arith, (good_component_iff c).1 h.0, (all_good_iff cs).1 h.1),
)

index_of_none : (b : ℕ) (xs : List ℕ) → (is_found (index_of b xs) ≡ false) ↔ All (λ c. c ≢ b) xs
unfolding index_of
index_of_none b [] = (λ _. tt, λ _. refl)
index_of_none b (x ∷ xs) = (
  λ h. (ground arith, (index_of_none b xs).0 (ground arith)),
  λ h. ground (arith, h.0, (index_of_none b xs).1 h.1),
)

pub first_is_slash : (path : List ℕ) → All IsName (split_path path) → first_is b'/' path ≡ false
unfolding split_path
first_is_slash [] h = refl
first_is_slash (x ∷ xs) h = ground arith

scan_all :
    (path : List ℕ)
    → scan_components (suc (suc (length path))) path 0 ≡ some (all_good (split_path path))
scan_all path = scan-all_good (suc (suc (length path))) path 0 (omega arith) (omega arith)

-- The check accepts exactly the paths of one to 1024 bytes, with no backslash and no NUL, whose
-- components between slashes are all proper names; and for every path its loop ends within the rounds
-- that it is given.
pub is_safe_relative_path_iff :
    (path : List ℕ)
    → ((is_safe_relative_path path ≡ true) ↔ IsSafePath path)
      × ((answer : Bool) × (scan_components (suc (suc (length path))) path 0 ≡ some answer))
unfolding is_safe_relative_path
is_safe_relative_path_iff path = (
  (
    λ h. record {
      nonempty = ground arith;
      short = ground arith;
      no_backslash = (index_of_none 92 path).0 (ground arith);
      no_nul = (index_of_none 0 path).0 (ground arith);
      names = (all_good_iff (split_path path)).0 (ground (arith, scan_all path));
    },
    λ v. ground (
      arith,
      v.nonempty,
      v.short,
      (index_of_none 92 path).1 v.no_backslash,
      (index_of_none 0 path).1 v.no_nul,
      first_is_slash path v.names,
      (all_good_iff (split_path path)).1 v.names,
      scan_all path,
    ),
  ),
  (all_good (split_path path), scan_all path),
)
