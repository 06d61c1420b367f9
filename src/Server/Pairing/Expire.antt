-- ===== src/Server/Pairing/Expire.antt =====
-- server/src/session_table.cpp, `expire_pairings`: what it drops and what it keeps.
use drop_zone.Base.{
  ℕ, ◌+◌, ◌-◌, ◌%◌, ◌^◌, ◌≤◌, ◌⊎◌, ◌↔◌, ◌≡◌, refl, ap, sym, ◌∙◌, inl, inr, Bool, true, false, [],
  ◌∷◌, none, some, Bool-cases, length, ◌==◌, arith,
}
use drop_zone.Server.Map.{number_key, find, find-same, find-skip}
use drop_zone.Server.Pairing.{Pairing, Pairings, expired, expire_pairings}

some_injective : {p q : Pairing} → some p ≡ some q → p ≡ q
some_injective h = cc

find-nil : (id : ℕ) → find {V = Pairing} id [] ≡ none
unfolding find
find-nil id = refl

module _ (live : ℕ → Bool) (now_ms max_age_ms : ℕ) where
  -- One of the peers exists, and the age, a difference of uint64_t, is within the limit.
  abbrev pub IsCurrent : Pairing → Type 0
  IsCurrent p =
      ((live p.sender ≡ true) ⊎ (live p.receiver ≡ true))
      × ((now_ms + 2 ^ 64 - p.created_ms) % 2 ^ 64 ≤ max_age_ms)

  expired_iff : (p : Pairing) → (expired live now_ms max_age_ms p ≡ false) ↔ IsCurrent p
  expired_iff p = ground arith

  abbrev expire : Pairings → ℕ × Pairings
  expire pairings = expire_pairings live now_ms max_age_ms pairings

  expire-nil : expire [] ≡ (0, [])
  unfolding expire_pairings
  expire-nil = refl

  expire-drops :
      (k : ℕ) (q : Pairing) (rest : Pairings)
      → expired live now_ms max_age_ms q ≡ true
      → expire ((k, q) ∷ rest) ≡ ((expire rest).0 + 1, (expire rest).1)
  unfolding expire_pairings
  expire-drops k q rest t = rw t refl

  expire-keeps :
      (k : ℕ) (q : Pairing) (rest : Pairings)
      → expired live now_ms max_age_ms q ≡ false
      → expire ((k, q) ∷ rest) ≡ ((expire rest).0, (k, q) ∷ (expire rest).1)
  unfolding expire_pairings
  expire-keeps k q rest f = rw f refl

  expire-length :
      (pairings : Pairings) → (expire pairings).0 + length (expire pairings).1 ≡ length pairings
  expire-length [] = ap (λ r. r.0 + length r.1) expire-nil
  expire-length ((k, q) ∷ rest) = elim (Bool-cases (expired live now_ms max_age_ms q)) [
    | inl t ↦ rw (expire-drops k q rest t) (omega (arith, expire-length rest))
    | inr f ↦ rw (expire-keeps k q rest f) (omega (arith, expire-length rest))
  ]

  find-kept :
      (id : ℕ) (p : Pairing) (pairings : Pairings)
      → find id (expire pairings).1 ≡ some p
      → expired live now_ms max_age_ms p ≡ false
  find-kept id p [] h =
      let h' = sym (find-nil id) ∙ (ap (λ r. find id r.1) (sym expire-nil) ∙ h) in cc
  find-kept id p ((k, q) ∷ rest) h = elim (Bool-cases (expired live now_ms max_age_ms q)) [
    | inl t ↦ find-kept id p rest (let h' = rw (expire-drops k q rest t) at h in h')
    | inr f ↦
        let h' = rw (expire-keeps k q rest f) at h in
        elim (Bool-cases (k == id)) [
          | inl e ↦
              let same : some q ≡ some p = sym (find-same id k q _ e) ∙ h' in
              rw (some_injective same) at f
          | inr e ↦ find-kept id p rest (sym (find-skip id k q _ e) ∙ h')
        ]
  ]

  find-keeps :
      (id : ℕ) (p : Pairing) (pairings : Pairings)
      → find id pairings ≡ some p
      → expired live now_ms max_age_ms p ≡ false
      → find id (expire pairings).1 ≡ some p
  find-keeps id p [] h f = let h' = sym (find-nil id) ∙ h in cc
  find-keeps id p ((k, q) ∷ rest) h f = elim (Bool-cases (k == id)) [
    | inl e ↦
        let same : q ≡ p = some_injective (sym (find-same id k q _ e) ∙ h) in
        rw (expire-keeps k q rest (rw same f)) (find-same id k q _ e ∙ ap some same)
    | inr e ↦
        let rest_found = find-keeps id p rest (sym (find-skip id k q _ e) ∙ h) f in
        elim (Bool-cases (expired live now_ms max_age_ms q)) [
          | inl t ↦ rw (expire-drops k q rest t) rest_found
          | inr g ↦ rw (expire-keeps k q rest g) (find-skip id k q _ e ∙ rest_found)
        ]
  ]

  -- Every pairing of the table is either counted as removed or left; a pairing that can still be found
  -- has a peer that exists and is at most `max_age_ms` old, by the difference of uint64_t, and every
  -- such pairing is found as before.
  pub expire_pairings-find :
      (pairings : Pairings)
      → let (removed, left) = expire_pairings live now_ms max_age_ms pairings in
        (removed + length left ≡ length pairings)
        × ((id : ℕ) (p : Pairing) → find id left ≡ some p → IsCurrent p)
        × ((id : ℕ) (p : Pairing) → find id pairings ≡ some p → IsCurrent p → find id left ≡ some p)
  expire_pairings-find pairings = (
    expire-length pairings,
    λ id p h. (expired_iff p).0 (find-kept id p pairings h),
    λ id p h f. find-keeps id p pairings h ((expired_iff p).1 f),
  )
