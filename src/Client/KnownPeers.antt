-- ===== src/Client/KnownPeers.antt =====
-- client/src/known_peers.cpp: the identity keys that are pinned to user names. The file that `remember`
-- writes is not modelled; `constant_time_equal` is a call of libcrypto: the argument `equal`.
use drop_zone.Base.{
  ℕ, ◌≡◌, ◌≢◌, ◌↔◌, refl, ap, sym, ◌∙◌, inl, inr, Bool, true, false, List, [], ◌∷◌, Option, none,
  some, Bool-cases, length, same_bytes, same_bytes-true, same_bytes_refl, if◌then◌else◌,
}

pub record KnownPeer : Type 0 where
  pub username : List ℕ
  pub identity_key : List ℕ
  pub first_seen : ℕ

pub data PinResult : Type 0 where
  first_sight matches changed : PinResult

unfoldable pub find : List ℕ → List KnownPeer → Option KnownPeer
find username [] = none
find username (peer ∷ peers) =
    if same_bytes peer.username username then some peer else find username peers

unfoldable pub check : (List ℕ → List ℕ → Bool) → List ℕ → List ℕ → List KnownPeer → PinResult
unfolding find
check equal username identity_key peers = elim (find username peers) [
  | none ↦ first_sight
  | some peer ↦ if equal peer.identity_key identity_key then matches else changed
]

-- `now` is what std::time gives.
unfoldable pub remember : ℕ → List ℕ → List ℕ → List KnownPeer → List KnownPeer
remember now username identity_key [] =
    record { username = username; identity_key = identity_key; first_seen = now } ∷ []
remember now username identity_key (peer ∷ peers) =
    if same_bytes peer.username username
    then record peer { identity_key = identity_key } ∷ peers
    else peer ∷ remember now username identity_key peers

find_remembered :
    (now : ℕ) (username key : List ℕ) (peers : List KnownPeer)
    → (peer : KnownPeer) × (find username (remember now username key peers) ≡ some peer)
      × (peer.identity_key ≡ key)
unfolding find remember
find_remembered now username key [] = (
  record { username = username; identity_key = key; first_seen = now },
  rw (same_bytes_refl username) refl,
  refl,
)
find_remembered now username key (p ∷ peers) = elim (Bool-cases (same_bytes p.username username)) [
  | inl t ↦ rw (t, t) (record p { identity_key = key }, refl, refl)
  | inr f ↦ rw (f, f) (find_remembered now username key peers)
]

find_other :
    (now : ℕ) (username key other : List ℕ) (peers : List KnownPeer)
    → username ≢ other
    → find other (remember now username key peers) ≡ find other peers
unfolding find remember
find_other now username key other [] d =
    let f : same_bytes username other ≡ false = elim (Bool-cases (same_bytes username other)) [
      | inl t ↦ absurd (d (same_bytes-true username other t))
      | inr g ↦ g
    ] in
    rw f refl
find_other now username key other (p ∷ peers) d =
    elim (Bool-cases (same_bytes p.username username)) [
      | inl t ↦
          let f : same_bytes p.username other ≡ false =
            elim (Bool-cases (same_bytes p.username other)) [
              | inl u ↦ absurd (
                  d (
                    sym (same_bytes-true p.username username t)
                    ∙ same_bytes-true p.username other u))
              | inr g ↦ g
            ] in
          rw (t, f) refl
      | inr f ↦ rw f (
          ap (λ o. if same_bytes p.username other then some p else o)
            (find_other now username key other peers d))
    ]

-- Where `equal` says of two keys of one length whether they are equal: after a key is remembered for
-- a name, that key matches and every other key of its length is reported as changed, whatever was
-- pinned before; the answers for the other names stay as they were.
pub check-remember :
    (equal : List ℕ → List ℕ → Bool)
    → ((a b : List ℕ) → length a ≡ length b → (equal a b ≡ true) ↔ (a ≡ b))
    → (now : ℕ) (username key : List ℕ) (peers : List KnownPeer)
    → let after = remember now username key peers in
      (check equal username key after ≡ matches)
      × ((forged : List ℕ)
          → length key ≡ length forged
          → key ≢ forged
          → check equal username forged after ≡ changed)
      × ((other offered : List ℕ)
          → username ≢ other
          → check equal other offered after ≡ check equal other offered peers)
unfolding check
check-remember equal compares now username key peers =
    let (peer, found, kept) = find_remembered now username key peers in
    (
      rw (check, found, kept, (compares key key refl).1 refl) refl,
      λ forged l d.
          let f : equal key forged ≡ false = elim (Bool-cases (equal key forged)) [
            | inl t ↦ absurd (d ((compares key forged l).0 t))
            | inr g ↦ g
          ] in
          rw (check, found, kept, f) refl,
      λ other offered d. rw (check, find_other now username key other peers d) refl,
    )
