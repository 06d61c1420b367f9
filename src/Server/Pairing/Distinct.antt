-- ===== src/Server/Pairing/Distinct.antt =====
-- server/src/session_table.cpp: the map of pairings has one entry for an id, whatever is done to it.
use drop_zone.Base.{
  ℕ, ◌≡◌, refl, sym, ap, ◌∙◌, inl, inr, Bool, [], ◌∷◌, none, some, Bool-cases, Option-cases, ◌==◌,
  arith,
}
use drop_zone.Server.Map.{number_key, find, erase, update, find-erase, find-erase_other}
use drop_zone.Server.Pairing.{
  Pairing, Pairings, request_relay, note_request, start_relay, expired, expire_pairings,
}

abbrev pub Distinct : Pairings → Type 0
Distinct [] = Unit {0}
Distinct ((id, p) ∷ rest) = (find id rest ≡ none) × Distinct rest

absent-erase : (j k : ℕ) (m : Pairings) → find j m ≡ none → find j (erase k m) ≡ none
absent-erase j k m h = elim (Bool-cases (k == j)) [
  | inl t ↦
      let same : k ≡ j = ground (arith, t) in
      ap (λ x. find x (erase k m)) (sym same) ∙ find-erase k m
  | inr t ↦ find-erase_other j k m (λ e. ground (arith, t, e)) ∙ h
]

pub erase-Distinct : (k : ℕ) (m : Pairings) → Distinct m → Distinct (erase k m)
unfolding erase
erase-Distinct k [] h = h
erase-Distinct k ((id, p) ∷ m) (n, h) = elim (Bool-cases (id == k)) [
  | inl t ↦ rw t (erase-Distinct k m h)
  | inr t ↦ rw t (absent-erase id k m n, erase-Distinct k m h)
]

absent-update :
    (j k : ℕ) (f : Pairing → Pairing) (m : Pairings)
    → find j m ≡ none
    → find j (update k f m) ≡ none
unfolding find update
absent-update j k f [] h = refl
absent-update j k f ((id, p) ∷ m) h = elim (Bool-cases (id == j)) [
  | inl t ↦ let h' = rw t at h in cc
  | inr t ↦
      let h' = rw t at h in
      elim (Bool-cases (id == k)) [
        | inl u ↦ rw (u, t) h'
        | inr u ↦ rw (u, t) (absent-update j k f m h')
      ]
]

update-Distinct :
    (k : ℕ) (f : Pairing → Pairing) (m : Pairings) → Distinct m → Distinct (update k f m)
unfolding update
update-Distinct k f [] h = h
update-Distinct k f ((id, p) ∷ m) (n, h) = elim (Bool-cases (id == k)) [
  | inl t ↦ rw t (n, h)
  | inr t ↦ rw t (absent-update id k f m n, update-Distinct k f m h)
]

pub request_relay-Distinct :
    (id : ℕ) (from_sender : Bool) (m : Pairings)
    → Distinct m
    → Distinct (request_relay id from_sender m).1
unfolding request_relay
request_relay-Distinct id from_sender m h = elim (Option-cases (find id m)) [
  | inl e ↦ rw (request_relay, e) h
  | inr (p, e) ↦
      rw (request_relay, e)
        (update-Distinct id (λ old. (start_relay (note_request from_sender p)).1) m h)
]

module _ (live : ℕ → Bool) (now_ms max_age_ms : ℕ) where
  absent-expire :
      (j : ℕ) (m : Pairings)
      → find j m ≡ none
      → find j (expire_pairings live now_ms max_age_ms m).1 ≡ none
  unfolding find expire_pairings
  absent-expire j [] h = refl
  absent-expire j ((id, p) ∷ m) h = elim (Bool-cases (id == j)) [
    | inl t ↦ let h' = rw t at h in cc
    | inr t ↦
        let h' = rw t at h in
        elim (Bool-cases (expired live now_ms max_age_ms p)) [
          | inl u ↦ rw u (absent-expire j m h')
          | inr u ↦ rw (u, t) (absent-expire j m h')
        ]
  ]

  pub expire-Distinct :
      (m : Pairings) → Distinct m → Distinct (expire_pairings live now_ms max_age_ms m).1
  unfolding expire_pairings
  expire-Distinct [] h = h
  expire-Distinct ((id, p) ∷ m) (n, h) = elim (Bool-cases (expired live now_ms max_age_ms p)) [
    | inl u ↦ rw u (expire-Distinct m h)
    | inr u ↦ rw u (absent-expire id m n, expire-Distinct m h)
  ]

  -- What can be found afterwards could be found before.
  pub find-expired :
      (j : ℕ) (p : Pairing) (m : Pairings)
      → Distinct m
      → find j (expire_pairings live now_ms max_age_ms m).1 ≡ some p
      → find j m ≡ some p
  unfolding find expire_pairings
  find-expired j p [] h f = f
  find-expired j p ((id, q) ∷ m) (n, h) f = elim (Bool-cases (expired live now_ms max_age_ms q)) [
    | inl u ↦
        let old = find-expired j p m h (let f' = rw u at f in f') in
        elim (Bool-cases (id == j)) [
          | inl t ↦
              absurd
                (let same : id ≡ j = ground (arith, t) in let n' = ap (λ x. find x m) same in cc)
          | inr t ↦ rw t old
        ]
    | inr u ↦
        let f' = rw u at f in
        elim (Bool-cases (id == j)) [
          | inl t ↦ rw t (let g = rw t at f' in g)
          | inr t ↦ rw t (find-expired j p m h (let g = rw t at f' in g))
        ]
  ]
