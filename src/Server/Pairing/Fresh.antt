-- ===== src/Server/Pairing/Fresh.antt =====
-- server/src/session_table.cpp, `create_pairing`: the do-while loop finds an id that is not in use.
use Prim.Native.Nat.{bit_xor}
use drop_zone.Base.{
  ℕ, zero, suc, ◌+◌, ◌%◌, ◌^◌, ◌≤◌, ◌<◌, ◌≡◌, ◌≢◌, refl, sym, ◌∙◌, ap, inl, inr, Bool, true, false,
  ◌||◌, List, [], ◌∷◌, length, none, some, Bool-cases, Option-cases, if◌then◌else◌, ◌==◌, arith,
}
use drop_zone.Base.Xor.{bit_xor_injective}
use drop_zone.Server.Map.{number_key, find, find-skip, find-here, find-there}
use drop_zone.Server.Pairing.{
  Pairings, PairingTable, has, choose_id, ready_salt, new_pairing, create_pairing,
}

member : ℕ → List ℕ → Bool
member x [] = false
member x (y ∷ ys) = y == x || member x ys

remove : ℕ → List ℕ → List ℕ
remove x [] = []
remove x (y ∷ ys) = if y == x then remove x ys else y ∷ remove x ys

length-remove : (x : ℕ) (ys : List ℕ) → length (remove x ys) ≤ length ys
unfolding remove
length-remove x [] = omega arith
length-remove x (y ∷ ys) = ground (arith, length-remove x ys)

length-remove-member : (x : ℕ) (ys : List ℕ) → member x ys ≡ true → length (remove x ys) < length ys
unfolding remove member
length-remove-member x [] h = cc
length-remove-member x (y ∷ ys) h = elim (Bool-cases (y == x)) [
  | inl t ↦ rw t (omega (arith, length-remove x ys))
  | inr f ↦ let h' = rw f at h in rw f (omega (arith, length-remove-member x ys h'))
]

member-remove : (x z : ℕ) (ys : List ℕ) → z ≢ x → member z ys ≡ true → member z (remove x ys) ≡ true
unfolding remove member
member-remove x z [] d h = cc
member-remove x z (y ∷ ys) d h = elim (Bool-cases (y == z)) [
  | inl t ↦ let kept : (y == x) ≡ false = ground (arith, t, d) in rw (kept, t) refl
  | inr f ↦
      let rest = member-remove x z ys d (let h' = rw f at h in h') in
      elim (Bool-cases (y == x)) [ inl t ↦ rw t rest | inr g ↦ rw (g, f) rest ]
]

keys : Pairings → List ℕ
keys [] = []
keys ((k, p) ∷ rest) = k ∷ keys rest

-- The ids that the loop passes over.
used : ℕ → Pairings → Bool
used id pairings = id == 0 || has id pairings

has-member :
    (id : ℕ) (pairings : Pairings) → has id pairings ≡ true → member id (keys pairings) ≡ true
unfolding find member keys
has-member id [] h = cc
has-member id ((k, p) ∷ rest) h = elim (Bool-cases (k == id)) [
  | inl t ↦ rw t refl
  | inr f ↦ rw f (
      has-member id rest
        (ap (λ o. elim o [ none ↦ false | some q ↦ true ]) (sym (find-skip id k p rest f)) ∙ h))
]

used-member :
    (id : ℕ) (pairings : Pairings) → used id pairings ≡ true → member id (0 ∷ keys pairings) ≡ true
unfolding used member keys
used-member id pairings h = elim (Bool-cases (has id pairings)) [
  | inl t ↦ ground (arith, has-member id pairings t)
  | inr f ↦ ground (arith, f)
]

length-keys : (pairings : Pairings) → length (keys pairings) ≡ length pairings
unfolding keys
length-keys [] = refl
length-keys (x ∷ rest) = omega (arith, length-keys rest)

-- The id of the i-th round.
round_id : ℕ → ℕ → ℕ → ℕ
round_id counter salt i = bit_xor ((counter + i) % 2 ^ 64) salt

choose_id-ends :
    (fuel counter salt : ℕ) (pairings : Pairings) (bad : List ℕ)
    → length bad < fuel
    → fuel ≤ 2 ^ 64
    → counter < 2 ^ 64
    → ((i : ℕ)
        → i < fuel
        → used (round_id counter salt i) pairings ≡ true
        → member (round_id counter salt i) bad ≡ true)
    → (id : ℕ) × (next : ℕ) × (choose_id fuel counter salt pairings ≡ some (id, next))
      × (used id pairings ≡ false)
unfolding choose_id used round_id
choose_id-ends zero counter salt pairings bad h big small all = ground arith
choose_id-ends (suc fuel) counter salt pairings bad h big small all =
    let id = bit_xor counter salt in
    let next = (counter + 1) % 2 ^ 64 in
    let first : round_id counter salt 0 ≡ id =
      ap (λ k. bit_xor k salt) {x = (counter + 0) % 2 ^ 64} {y = counter} (omega arith) in
    elim (Bool-cases (used id pairings)) [
      | inl t ↦
          let passed : member id bad ≡ true = rw⁻¹ first (all 0 (omega arith) (rw first t)) in
          let later : (i : ℕ)
              → i < fuel
              → used (round_id next salt i) pairings ≡ true
              → member (round_id next salt i) (remove id bad) ≡ true =
            λ i l u.
              let same : round_id next salt i ≡ round_id counter salt (suc i) =
                ap (λ k. bit_xor k salt) {x = (next + i) % 2 ^ 64} {y = (counter + suc i) % 2 ^ 64}
                  (omega arith) in
              member-remove id (round_id next salt i) bad
                (λ e.
                  absurd (omega (arith, bit_xor_injective ((next + i) % 2 ^ 64) counter salt e)))
                (rw same (all (suc i) (omega arith) (rw⁻¹ same u))) in
          let shorter = length-remove-member id bad passed in
          rw t (
            choose_id-ends fuel next salt pairings (remove id bad) (omega (arith, shorter, h))
              (omega arith) (omega arith) later)
      | inr f ↦ rw f (id, next, refl, f)
    ]

unused :
    (id : ℕ) (pairings : Pairings) → used id pairings ≡ false → (id ≢ 0) × (find id pairings ≡ none)
unfolding used
unused id pairings h = (
  λ e. absurd (ground (arith, h, e)),
  elim (Option-cases (find id pairings)) [ inl e ↦ e | inr (p, e) ↦ absurd (ground (arith, h, e)) ],
)

ready_salt-rest :
    (random : ℕ) (t : PairingTable)
    → ((ready_salt random t).pairings ≡ t.pairings)
      × ((ready_salt random t).next_pairing_counter ≡ t.next_pairing_counter)
unfolding ready_salt
ready_salt-rest random t = elim (Bool-cases t.salt_ready) [
  | inl e ↦ rw e (refl, refl)
  | inr e ↦ rw e (refl, refl)
]

-- What a pairing that is made under a new id has to satisfy.
record Made (now_ms sender receiver id : ℕ) (table after : PairingTable) : Type 0 where
  nonzero : id ≢ 0
  new : find id table.pairings ≡ none
  found : find id after.pairings ≡ some (new_pairing id sender receiver now_ms)
  others : (other : ℕ) → id ≢ other → find other after.pairings ≡ find other table.pairings

create_pairing-Made :
    (random now_ms sender receiver : ℕ) (table : PairingTable) (id next : ℕ)
    → let t = ready_salt random table in
      choose_id (length t.pairings + 2) t.next_pairing_counter t.pairing_id_salt t.pairings
        ≡ some (id, next)
      → used id t.pairings ≡ false
      → (after : PairingTable) × (create_pairing random now_ms sender receiver table
          ≡ some (id, after))
        × Made now_ms sender receiver id table after
unfolding create_pairing
create_pairing-Made random now_ms sender receiver table id next chosen free =
    let t = ready_salt random table in
    let same = (ready_salt-rest random table).0 in
    let p = new_pairing id sender receiver now_ms in
    (
      record t { next_pairing_counter = next; pairings = (id, p) ∷ t.pairings },
      ap
          (λ o. elim o [
            | none ↦ none
            | some (k, n) ↦ some (
              k,
              record t {
                next_pairing_counter = n;
                pairings = (k, new_pairing k sender receiver now_ms) ∷ t.pairings;
              },
            )
          ])
          chosen,
      record {
        nonzero = (unused id t.pairings free).0;
        new = ap (find id) (sym same) ∙ (unused id t.pairings free).1;
        found = find-here id p t.pairings;
        others = λ other d. find-there other id p t.pairings d ∙ ap (find other) same;
      },
    )

-- Where the counter fits 64 bits and there are at most 2 ^ 64 - 2 pairings, a pairing is made:
-- the loop ends, with an id that is not 0 and that no pairing has. The new pairing is found
-- under it, and every other one as before.
pub create_pairing-find :
    (random now_ms sender receiver : ℕ) (table : PairingTable)
    → table.next_pairing_counter < 2 ^ 64
    → length table.pairings + 2 ≤ 2 ^ 64
    → (id : ℕ) × (after : PairingTable) × (create_pairing random now_ms sender receiver table
        ≡ some (id, after))
      × (id ≢ 0)
      × (find id table.pairings ≡ none)
      × (find id after.pairings ≡ some (new_pairing id sender receiver now_ms))
      × ((other : ℕ) → id ≢ other → find other after.pairings ≡ find other table.pairings)
create_pairing-find random now_ms sender receiver table small room =
    let t = ready_salt random table in
    let (same, same_counter) = ready_salt-rest random table in
    let bad = 0 ∷ keys t.pairings in
    let (id, next, chosen, free) =
      choose_id-ends (length t.pairings + 2) t.next_pairing_counter t.pairing_id_salt t.pairings bad
        (omega (arith, length-keys t.pairings)) (omega (arith, room, ap length same))
        (omega (arith, small, same_counter))
        (λ i l u. used-member (round_id t.next_pairing_counter t.pairing_id_salt i) t.pairings u) in
    let (after, made, m) =
      create_pairing-Made random now_ms sender receiver table id next chosen free in
    (id, after, made, m.nonzero, m.new, m.found, m.others)
