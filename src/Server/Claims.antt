-- ===== src/Server/Claims.antt =====
-- server/src/session_table.cpp: `claim`, `release` and `lookup`. A connection is the number of its
-- object; a weak_ptr is that number, and `live` says which objects still exist.
use drop_zone.Base.{
  ℕ, ◌≡◌, ◌≢◌, ◌↔◌, refl, sym, ◌∙◌, inl, inr, Bool, true, false, ◌||◌, List, [], ◌∷◌, Option, none,
  some, Option-cases, Bool-cases, if◌then◌else◌, ◌==◌, not, arith,
}
use drop_zone.Protocol.Name.{is_valid_username}
use drop_zone.Server.Map.{
  name_key, find, erase, find-erase, find-erase_other, find-here, find-there,
}

pub data ClaimResult : Type 0 where
  granted already_claimed invalid_username : ClaimResult

abbrev pub Claims : Type 0
Claims = List (List ℕ × ℕ)

abbrev is_empty : List ℕ → Bool
is_empty [] = true
is_empty (x ∷ xs) = false

-- `std::weak_ptr::lock`, with `none` for nullptr.
abbrev pub lock : (ℕ → Bool) → ℕ → Option ℕ
lock live connection = if live connection then some connection else none

unfoldable pub claim : (ℕ → Bool) → List ℕ → ℕ → Claims → ClaimResult × Claims
claim live username connection claims =
    if not (is_valid_username username)
    then (invalid_username, claims)
    else elim (find username claims) [
      | none ↦ (granted, (username, connection) ∷ claims)
      | some holder ↦
          if live holder
          then (already_claimed, claims)
          else (granted, (username, connection) ∷ erase username claims)
    ]

unfoldable pub release : (ℕ → Bool) → List ℕ → ℕ → Claims → Claims
release live username connection claims =
    if is_empty username then claims else elim (find username claims) [
      | none ↦ claims
      | some holder ↦
          if not (live holder) || holder == connection then erase username claims else claims
    ]

unfoldable pub lookup : (ℕ → Bool) → List ℕ → Claims → Option ℕ
lookup live username claims = elim (find username claims) [
  | none ↦ none
  | some holder ↦ lock live holder
]

holder_of : (ℕ → Bool) → Option ℕ → Option ℕ
holder_of live none = none
holder_of live (some holder) = lock live holder

lookup-find :
    (live : ℕ → Bool) (name : List ℕ) (claims : Claims) (o : Option ℕ)
    → find name claims ≡ o
    → lookup live name claims ≡ holder_of live o
unfolding lookup holder_of
lookup-find live name claims o h = rw (lookup, h) (elim o [ none ↦ refl | some holder ↦ refl ])

find-lookup :
    (live : ℕ → Bool) (name : List ℕ) (m n : Claims)
    → find name m ≡ find name n
    → lookup live name m ≡ lookup live name n
find-lookup live name m n h =
    lookup-find live name m (find name n) h ∙ sym (lookup-find live name n _ refl)

-- A name is granted exactly if it is valid and no connection that still exists holds it; the new
-- holder is then the one looked up. A claim that is refused changes nothing, and no claim changes
-- what another name leads to.
pub claim-lookup :
    (live : ℕ → Bool) (username : List ℕ) (connection : ℕ) (claims : Claims)
    → let (result, after) = claim live username connection claims in
      ((result ≡ granted)
        ↔ (is_valid_username username ≡ true) × (lookup live username claims ≡ none))
      × (result ≡ granted → lookup live username after ≡ lock live connection)
      × (result ≢ granted → after ≡ claims)
      × ((name : List ℕ) → username ≢ name → lookup live name after ≡ lookup live name claims)
unfolding claim holder_of
claim-lookup live username connection claims = elim (Bool-cases (is_valid_username username)) [
  | inl t ↦ elim (Option-cases (find username claims)) [
    | inl e ↦
        rw (t, e)
          (
            (λ r. (refl, lookup-find live username claims none e), λ p. refl),
            λ r. lookup-find live username _ _ (find-here username connection claims),
            λ d. absurd (d refl),
            λ name d. find-lookup live name _ _ (find-there name username connection claims d),
          )
    | inr (holder, e) ↦
        let found = lookup-find live username claims (some holder) e in
        elim (Bool-cases (live holder)) [
          | inl l ↦
              rw (t, e, l)
                (
                  (λ r. cc, λ p. let taken = rw (found, l) at p.1 in cc),
                  λ r. cc,
                  λ d. refl,
                  λ name d. refl,
                )
          | inr l ↦
              rw (t, e, l)
                (
                  (λ r. (refl, found ∙ rw l refl), λ p. refl),
                  λ r.
                      lookup-find live username _ _
                        (find-here username connection (erase username claims)),
                  λ d. absurd (d refl),
                  λ name d. find-lookup live name _ _ (
                      find-there name username connection (erase username claims) d
                      ∙ find-erase_other name username claims d),
                )
        ]
  ]
  | inr f ↦ rw f ((λ r. cc, λ p. cc), λ r. cc, λ d. refl, λ name d. refl)
]

lock-some :
    (live : ℕ → Bool) (found holder : ℕ)
    → lock live found ≡ some holder
    → (found ≡ holder) × (live holder ≡ true)
lock-some live found holder h = elim (Bool-cases (live found)) [
  | inl t ↦ let same : found ≡ holder = let h' = rw t at h in cc in (same, rw⁻¹ same t)
  | inr f ↦ let h' = rw f at h in cc
]

nonempty_name : (name : List ℕ) → is_valid_username name ≡ true → is_empty name ≡ false
unfolding is_valid_username
nonempty_name [] v = cc
nonempty_name (x ∷ xs) v = refl

-- Of a valid name under which a connection that exists is looked up, the release by that
-- connection makes the name free and the release by another changes nothing; neither changes
-- what another name leads to.
pub release-lookup :
    (live : ℕ → Bool) (username : List ℕ) (connection holder : ℕ) (claims : Claims)
    → is_valid_username username ≡ true
    → lookup live username claims ≡ some holder
    → let after = release live username connection claims in
      (holder ≡ connection → lookup live username after ≡ none)
      × (holder ≢ connection → after ≡ claims)
      × ((name : List ℕ) → username ≢ name → lookup live name after ≡ lookup live name claims)
unfolding release holder_of
release-lookup live username connection holder claims v h =
    elim (Option-cases (find username claims)) [
      | inl e ↦ let h' = sym h ∙ lookup-find live username claims none e in cc
      | inr (found, e) ↦
          let h' = sym (lookup-find live username claims (some found) e) ∙ h in
          let (same, alive) = lock-some live found holder h' in
          let real = nonempty_name username v in
          elim (Bool-cases (holder == connection)) [
            | inl t ↦
                rw (real, e, same, alive, t)
                  (
                    λ p. lookup-find live username _ _ (find-erase username claims),
                    λ d. absurd (d (ground (arith, t))),
                    λ name d. find-lookup live name _ _ (find-erase_other name username claims d),
                  )
            | inr f ↦
                rw (real, e, same, alive, f)
                  (λ p. absurd (ground (arith, f, p)), λ d. refl, λ name d. refl)
          ]
    ]
