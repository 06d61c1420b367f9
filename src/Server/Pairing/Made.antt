-- ===== src/Server/Pairing/Made.antt =====
-- server/src/session_table.cpp, `create_pairing`: what the pairing is that it makes, if it makes one.
use drop_zone.Base.{
  ℕ, zero, suc, ◌+◌, ◌%◌, ◌^◌, ◌≡◌, ◌≢◌, refl, subst, ap, ◌∙◌, inl, inr, ◌||◌, ◌∷◌, none, some,
  length, Bool-cases, Option-cases, ◌==◌, arith,
}
use Prim.Native.Nat.{bit_xor}
use drop_zone.Server.Map.{number_key, find, find-here, find-there}
use drop_zone.Server.Pairing.{
  Pairings, PairingTable, has, choose_id, ready_salt, new_pairing, create_pairing,
}
use drop_zone.Server.Pairing.Distinct.{Distinct}

choose_id-unused :
    (fuel counter salt : ℕ) (pairings : Pairings) (id next : ℕ)
    → choose_id fuel counter salt pairings ≡ some (id, next)
    → (id ≢ 0) × (find id pairings ≡ none)
unfolding choose_id
choose_id-unused zero counter salt pairings id next h = cc
choose_id-unused (suc fuel) counter salt pairings id next h =
    let tried = bit_xor counter salt in
    elim (Bool-cases (tried == 0 || has tried pairings)) [
      | inl t ↦
          choose_id-unused fuel ((counter + 1) % 2 ^ 64) salt pairings id next
            (let h' = rw t at h in h')
      | inr t ↦
          let h' = rw t at h in
          let same : tried ≡ id = cc in
          (
            λ e. ground (arith, t, same, e),
            elim (Option-cases (find id pairings)) [
              | inl e ↦ e
              | inr (p, e) ↦
                  absurd (let e' = ap (λ x. find x pairings) same ∙ e in ground (arith, t, e'))
            ],
          )
    ]

pub record IsMade (now_ms sender receiver id : ℕ) (before after : Pairings) : Type 0 where
  pub nonzero : id ≢ 0
  pub new : find id before ≡ none
  pub found : find id after ≡ some (new_pairing id sender receiver now_ms)
  pub others : (other : ℕ) → id ≢ other → find other after ≡ find other before
  pub distinct : Distinct before → Distinct after

extended-IsMade :
    (now_ms sender receiver id : ℕ) (m : Pairings)
    → (id ≢ 0) × (find id m ≡ none)
    → IsMade now_ms sender receiver id m ((id, new_pairing id sender receiver now_ms) ∷ m)
extended-IsMade now_ms sender receiver id m (nonzero, new) =
    let p = new_pairing id sender receiver now_ms in
    record {
      nonzero = nonzero;
      new = new;
      found = find-here id p m;
      others = λ other d. find-there other id p m d;
      distinct = λ h. (new, h);
    }

ready_salt-pairings : (random : ℕ) (t : PairingTable) → (ready_salt random t).pairings ≡ t.pairings
unfolding ready_salt
ready_salt-pairings random t = elim (Bool-cases t.salt_ready) [
  | inl e ↦ rw e refl
  | inr e ↦ rw e refl
]

some_injective {ℓ} : {A : Type ℓ} {x y : A} → some x ≡ some y → x ≡ y
some_injective h = cc

pub create_pairing-IsMade :
    (random now_ms sender receiver : ℕ) (table after : PairingTable) (id : ℕ)
    → create_pairing random now_ms sender receiver table ≡ some (id, after)
    → IsMade now_ms sender receiver id table.pairings after.pairings
unfolding create_pairing
create_pairing-IsMade random now_ms sender receiver table after id h =
    let t = ready_salt random table in
    let same = ready_salt-pairings random table in
    elim (Option-cases
      (choose_id (length t.pairings + 2) t.next_pairing_counter t.pairing_id_salt t.pairings)) [
        | inl e ↦ let h' = rw (create_pairing, e) at h in cc
        | inr ((chosen, next), e) ↦
            let h' = rw (create_pairing, e) at h in
            let pairings = (chosen, new_pairing chosen sender receiver now_ms) ∷ t.pairings in
            let result : (chosen, record t { next_pairing_counter = next; pairings = pairings })
                ≡ (id, after) =
              some_injective h' in
            let made =
              extended-IsMade now_ms sender receiver chosen t.pairings
                (choose_id-unused _ _ _ t.pairings chosen next e) in
            subst (λ r. IsMade now_ms sender receiver r.0 table.pairings r.1.pairings) result
              (subst (λ m. IsMade now_ms sender receiver chosen m pairings) same made)
      ]
