-- ===== src/Server/Map.antt =====
-- The std::unordered_map of server/src/session_table.hpp as a list of pairs, the first of a key being
-- its entry.
use drop_zone.Base.{
  ℕ, ◌≡◌, ◌↔◌, refl, ap, inl, inr, Bool, true, false, List, [], ◌∷◌, Option, none, some, Bool-cases,
  if◌then◌else◌, ◌==◌, ==_iff, same_bytes, same_bytes_iff, arith,
}

-- The equality of keys.
pub record Key (K : Type 0) : Type 0 where
  pub same : K → K → Bool
  pub same_iff : (a b : K) → (same a b ≡ true) ↔ (a ≡ b)

instance abbrev pub number_key : Key ℕ
number_key = record { same = ◌==◌; same_iff = ==_iff }

instance abbrev pub name_key : Key (List ℕ)
name_key = record { same = same_bytes; same_iff = same_bytes_iff }

module _ {K : Type 0} ⦃e : Key K⦄ where
  pub same_refl : (k : K) → e.same k k ≡ true
  same_refl k = (e.same_iff k k).1 refl

  pub same-ne : (a k : K) → ¬ (a ≡ k) → e.same a k ≡ false
  same-ne a k d = elim (Bool-cases (e.same a k)) [
    | inl t ↦ absurd (d ((e.same_iff a k).0 t))
    | inr f ↦ f
  ]

module _ {K V : Type 0} ⦃e : Key K⦄ where
  unfoldable pub find : K → List (K × V) → Option V
  find k [] = none
  find k ((a, v) ∷ m) = if e.same a k then some v else find k m

  unfoldable pub erase : K → List (K × V) → List (K × V)
  erase k [] = []
  erase k ((a, v) ∷ m) = if e.same a k then erase k m else (a, v) ∷ erase k m

  -- The entry of a key changes in place.
  unfoldable pub update : K → (V → V) → List (K × V) → List (K × V)
  update k f [] = []
  update k f ((a, v) ∷ m) = if e.same a k then (a, f v) ∷ m else (a, v) ∷ update k f m

  pub find-same :
      (j a : K) (v : V) (m : List (K × V)) → e.same a j ≡ true → find j ((a, v) ∷ m) ≡ some v
  unfolding find
  find-same j a v m h = rw h refl

  pub find-skip :
      (j a : K) (v : V) (m : List (K × V)) → e.same a j ≡ false → find j ((a, v) ∷ m) ≡ find j m
  unfolding find
  find-skip j a v m h = rw h refl

  find-cons :
      (j a : K) (v : V) (m n : List (K × V))
      → find j m ≡ find j n
      → find j ((a, v) ∷ m) ≡ find j ((a, v) ∷ n)
  unfolding find
  find-cons j a v m n h = ap (λ r. if e.same a j then some v else r) h

  pub find-erase : (k : K) (m : List (K × V)) → find k (erase k m) ≡ none
  unfolding find erase
  find-erase k [] = refl
  find-erase k ((a, v) ∷ m) = elim (Bool-cases (e.same a k)) [
    | inl t ↦ rw t (find-erase k m)
    | inr f ↦ rw (f, f) (find-erase k m)
  ]

  pub find-erase_other : (j k : K) (m : List (K × V)) → ¬ (k ≡ j) → find j (erase k m) ≡ find j m
  unfolding find erase
  find-erase_other j k [] d = refl
  find-erase_other j k ((a, v) ∷ m) d = elim (Bool-cases (e.same a k)) [
    | inl t ↦
        let other : e.same a j ≡ false = rw ((e.same_iff a k).0 t) (same-ne k j d) in
        rw (t, other) (find-erase_other j k m d)
    | inr f ↦ rw f (find-cons j a v _ _ (find-erase_other j k m d))
  ]

  pub find-here : (k : K) (v : V) (m : List (K × V)) → find k ((k, v) ∷ m) ≡ some v
  unfolding find
  find-here k v m = rw (same_refl k) refl

  pub find-there : (j k : K) (v : V) (m : List (K × V)) → ¬ (k ≡ j) → find j ((k, v) ∷ m) ≡ find j m
  unfolding find
  find-there j k v m d = rw (same-ne k j d) refl

  pub find-update :
      (k : K) (f : V → V) (m : List (K × V)) (v : V)
      → find k m ≡ some v
      → find k (update k f m) ≡ some (f v)
  unfolding find update
  find-update k f [] v h = ground arith
  find-update k f ((a, w) ∷ m) v h = elim (Bool-cases (e.same a k)) [
    | inl t ↦ let h' = rw t at h in rw (t, t) cc
    | inr g ↦ let h' = rw g at h in rw (g, g) (find-update k f m v h')
  ]

  pub find-update_other :
      (j k : K) (f : V → V) (m : List (K × V)) → ¬ (k ≡ j) → find j (update k f m) ≡ find j m
  unfolding find update
  find-update_other j k f [] d = refl
  find-update_other j k f ((a, w) ∷ m) d = elim (Bool-cases (e.same a k)) [
    | inl t ↦
        let other : e.same a j ≡ false = rw ((e.same_iff a k).0 t) (same-ne k j d) in
        rw (t, other) refl
    | inr g ↦ rw g (find-cons j a w _ _ (find-update_other j k f m d))
  ]
