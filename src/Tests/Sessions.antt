-- ===== src/Tests/Sessions.antt =====
-- The properties of the session table, at concrete values.
use drop_zone.Base.{
  ℕ, ◌+◌, ◌≡◌, ◌≢◌, ◌↔◌, refl, ap, sym, Bool, true, false, List, [], ◌∷◌, none, some, length,
  same_bytes, same_bytes_iff, ltb, arith,
}
use drop_zone.Protocol.Name.{is_valid_username, name_char}
use drop_zone.Server.Map.{number_key, name_key, find}
use drop_zone.Server.Claims.{
  Claims, granted, claim, release, lookup, lock, claim-lookup, release-lookup,
}
use drop_zone.Server.Pairing.{
  Pairing, Pairings, PairingTable, new_pairing, new_pairing_table, create_pairing, expire_pairings,
}
use drop_zone.Server.Pairing.Fresh.{create_pairing-find}
use drop_zone.Server.Pairing.Relay.{requests, expected_starts, requests-once}
use drop_zone.Server.Pairing.Expire.{IsCurrent, expire_pairings-find}
use drop_zone.Server.Group.{Group, Groups, join_group}
use drop_zone.Server.Group.Members.{GoodGroup}
use drop_zone.Server.Group.Steps.{no_groups, next, joins, Reached-GoodGroups}
use drop_zone.Server.Group.Outcome.{Promise, join_group-Promise}

abbrev ann : List ℕ
ann = b'a' ∷ b'n' ∷ b'n' ∷ []

ann_valid : is_valid_username ann ≡ true
unfolding is_valid_username name_char
ann_valid = refl

-- Every connection but 0 exists.
abbrev live : ℕ → Bool
live n = ltb 0 n

abbrev holder : ℕ
holder = 4

abbrev claims : Claims
claims = (ann, 4) ∷ []

claim-lookup_example :
    let (result, after) = claim live ann 5 claims in
    ((result ≡ granted) ↔ (is_valid_username ann ≡ true) × (lookup live ann claims ≡ none))
    × (result ≡ granted → lookup live ann after ≡ lock live 5)
    × (result ≢ granted → after ≡ claims)
    × ((name : List ℕ) → ann ≢ name → lookup live name after ≡ lookup live name claims)
claim-lookup_example = claim-lookup live ann 5 claims

ann_held : lookup live ann claims ≡ some 4
unfolding lookup find
ann_held = refl

release-lookup_example :
    let after = release live ann 4 claims in
    (holder ≡ 4 → lookup live ann after ≡ none)
    × (holder ≢ 4 → after ≡ claims)
    × ((name : List ℕ) → ann ≢ name → lookup live name after ≡ lookup live name claims)
release-lookup_example = release-lookup live ann 4 holder claims ann_valid ann_held

create_pairing-find_example :
    (id : ℕ) × (after : PairingTable) × (create_pairing 1 1000 4 5 new_pairing_table
      ≡ some (id, after))
    × (id ≢ 0)
    × (find id new_pairing_table.pairings ≡ none)
    × (find id after.pairings ≡ some (new_pairing id 4 5 1000))
    × ((other : ℕ) → id ≢ other → find other after.pairings ≡ find other new_pairing_table.pairings)
create_pairing-find_example =
    create_pairing-find 1 1000 4 5 new_pairing_table (omega arith) (omega arith)

abbrev pairings : Pairings
pairings = (7, new_pairing 7 4 5 1000) ∷ []

seven_found : find 7 pairings ≡ some (new_pairing 7 4 5 1000)
unfolding find
seven_found = refl

requests-once_example :
    (requests 7 (true ∷ true ∷ false ∷ true ∷ []) pairings).0
    ≡ expected_starts (true ∷ true ∷ false ∷ true ∷ []) (new_pairing 7 4 5 1000)
requests-once_example =
    requests-once 7 (true ∷ true ∷ false ∷ true ∷ []) pairings (new_pairing 7 4 5 1000) seven_found
      refl

expire_pairings-find_example :
    let (removed, left) = expire_pairings live 5000 3000 pairings in
    (removed + length left ≡ length pairings)
    × ((id : ℕ) (p : Pairing) → find id left ≡ some p → IsCurrent live 5000 3000 p)
    × ((id : ℕ) (p : Pairing)
        → find id pairings ≡ some p
        → IsCurrent live 5000 3000 p
        → find id left ≡ some p)
expire_pairings-find_example = expire_pairings-find live 5000 3000 pairings

abbrev secret : List ℕ
secret = 1 ∷ 2 ∷ []

abbrev club : Group
club = record { verifier = secret; members = 4 ∷ [] }

abbrev groups : Groups
groups = (ann, club) ∷ []

club_made : groups ≡ (join_group live same_bytes ann secret (some 4) []).1
unfolding join_group is_valid_username name_char find
club_made = refl

club_found : find ann groups ≡ some club
unfolding find
club_found = refl

Reached-GoodGroups_example : GoodGroup club
Reached-GoodGroups_example =
    Reached-GoodGroups groups (next no_groups (joins live same_bytes ann secret (some 4) club_made))
      ann club club_found

club_sizes : (group : Group) → find ann groups ≡ some group → length group.verifier ≡ length secret
unfolding find
club_sizes group h = ap (λ g. elim g [ none ↦ 2 | some k ↦ length k.verifier ]) (sym h)

join_group-Promise_example :
    let (result, after) = join_group live same_bytes ann secret (some 5) groups in
    Promise live ann secret 5 groups result after
    × ((other : List ℕ) → ann ≢ other → find other after ≡ find other groups)
join_group-Promise_example =
    join_group-Promise live ann secret 5 groups same_bytes (λ a b s. same_bytes_iff a b) club_sizes
