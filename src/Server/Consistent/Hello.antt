-- ===== src/Server/Consistent/Hello.antt =====
-- Lemmas on the changes of `handle_client_hello` in server/src/server.cpp.
use drop_zone.Base.{
  ℕ, ◌≡◌, ◌≢◌, refl, Bool, true, false, List, [], some, ◌==◌, arith, inl, inr, Bool-cases,
  Option-cases, sym, ap, ◌∙◌, same_bytes, same_bytes_iff, ◌⊎◌, ◌<◌, ◌∷◌,
}
use drop_zone.Protocol.Name.{is_valid_username}
use drop_zone.Server.Map.{
  name_key, number_key, find, erase, find-here, find-there, find-erase_other,
}
use drop_zone.Server.Claims.{Claims, ClaimResult, granted, already_claimed, invalid_username, claim}
use drop_zone.Server.Pairing.{Pairing}
use drop_zone.Server.Group.{ConnectionState, awaiting_hello, receiver_idle, sender_idle, closing}
use drop_zone.Server.Store.{Core, set}
use drop_zone.Server.Handle.Hello.{greet, become_sender, settle, take_name}
use drop_zone.Server.Consistent.{IsEnd, IsConsistent, is_single, End}

-- A connection that was not introduced is no end of a pairing.
pub single-stranger :
    (c : ℕ) (k : Core)
    → IsConsistent k
    → is_single (k.state c) ≡ true
    → (id : ℕ) (p : Pairing) → find id k.table.pairings ≡ some p
    → (p.sender ≢ c) × (p.receiver ≢ c)
single-stranger c k h a id p f =
    let (nonzero, apart, first, second) = h.paired id p f in
    let zero_id = h.single c a in
    (λ e. nonzero (let i = first.knows in cc), λ e. nonzero (let i = second.knows in cc))

-- Changing the state of a connection that is no end of the pairing changes no end.
pub set-End :
    (c d other id : ℕ) (state : ConnectionState) (k : Core)
    → state ≢ closing
    → End k id d other
    → IsEnd (k.live d) (set c state k.state d) (k.pairing_id d) (k.relay_peer d) id other
unfolding set
set-End c d other id state k n e = record {
  exists = e.exists;
  stays = let s = e.stays in ground arith;
  knows = e.knows;
  relayed = e.relayed;
}

pub greet-IsConsistent : (c : ℕ) (k : Core) → IsConsistent k → IsConsistent (greet c k)
unfolding greet set
greet-IsConsistent c k h = record {
  owned = h.owned;
  held = h.held;
  paired = h.paired;
  single = h.single;
  silent = λ d f. ground (arith, h.silent d);
  apart = h.apart;
  both = h.both;
  made = h.made;
  distinct = h.distinct;
  exist = h.exist;
  relays = h.relays;
}

pub become_sender-IsConsistent :
    (c : ℕ) (k : Core)
    → IsConsistent k
    → k.state c ≡ awaiting_hello
    → k.hello_received c ≡ true
    → IsConsistent (become_sender c k)
unfolding become_sender set
become_sender-IsConsistent c k h a g = record {
  owned = h.owned;
  held = λ d l. ground (arith, h.held d l, a);
  paired = λ id p f.
      let (nonzero, apart, first, second) = h.paired id p f in
      (
        nonzero,
        apart,
        set-End c p.sender p.receiver id sender_idle k (λ e. cc) first,
        set-End c p.receiver p.sender id sender_idle k (λ e. cc) second,
      );
  single = λ d. ground (arith, h.single d, h.single c);
  silent = λ d. ground (arith, h.silent d, g);
  apart = λ d e q. ground (arith, h.apart d e q, a);
  both = h.both;
  made = h.made;
  distinct = h.distinct;
  exist = h.exist;
  relays = h.relays;
}

valid_nonempty : (name : List ℕ) → is_valid_username name ≡ true → name ≢ []
unfolding is_valid_username
valid_nonempty [] v e = cc
valid_nonempty (x ∷ xs) v e = cc

pub same_name : (a b : List ℕ) → (a ≡ b) ⊎ (a ≢ b)
same_name a b = elim (Bool-cases (same_bytes a b)) [
  | inl t ↦ inl ((same_bytes_iff a b).0 t)
  | inr f ↦ inr λ e. let t = (same_bytes_iff a b).1 e in cc
]

-- A claim that is granted: under what name, and in which map.
record IsGranted (live : ℕ → Bool) (name : List ℕ) (c : ℕ) (claims after : Claims) : Type 0 where
  here : find name after ≡ some c
  others : (other : List ℕ) → name ≢ other → find other after ≡ find other claims
  named : name ≢ []
  vacant : (d : ℕ) → find name claims ≡ some d → live d ≡ false

claim-IsGranted :
    (live : ℕ → Bool) (name : List ℕ) (c : ℕ) (claims : Claims)
    → ((after : Claims) × (claim live name c claims ≡ (granted, after))
        × IsGranted live name c claims after)
      ⊎ ((r : ClaimResult) × (r ≢ granted) × (claim live name c claims ≡ (r, claims)))
unfolding claim
claim-IsGranted live name c claims = elim (Bool-cases (is_valid_username name)) [
  | inr f ↦ inr (invalid_username, λ e. cc, rw f refl)
  | inl t ↦
      let named : name ≢ [] = λ e. valid_nonempty name t e in
      elim (Option-cases (find name claims)) [
        | inl e ↦ inl (
          (name, c) ∷ claims,
          rw (t, e) refl,
          record {
            here = find-here name c claims;
            others = λ other d. find-there other name c claims d;
            named = named;
            vacant = λ d f. cc;
          },
        )
        | inr (holder, e) ↦ elim (Bool-cases (live holder)) [
          | inl l ↦ inr (already_claimed, λ e. cc, rw (t, e, l) refl)
          | inr l ↦ inl (
            (name, c) ∷ erase name claims,
            rw (t, e, l) refl,
            record {
              here = find-here name c (erase name claims);
              others = λ other d.
                  find-there other name c (erase name claims) d
                  ∙ find-erase_other other name claims d;
              named = named;
              vacant = λ d f. let same : holder ≡ d = cc in rw⁻¹ same l;
            },
          )
        ]
      ]
]

grant-IsConsistent :
    (c : ℕ) (name : List ℕ) (after : Claims) (k : Core)
    → IsConsistent k
    → k.state c ≡ awaiting_hello
    → k.hello_received c ≡ true
    → k.claimed_username c ≡ []
    → c < k.next_object
    → IsGranted k.live name c k.claims after
    → IsConsistent (settle c name granted (record k { claims = after }))
unfolding settle set
grant-IsConsistent c name after k h a g fresh small q = record {
  owned = λ other d f l. elim (same_name name other) [
    | inl e ↦ let same : c ≡ d = let z = q.here in cc in ground (arith, same, e)
    | inr n ↦
        let old = sym (q.others other n) ∙ f in
        let mine = h.owned other d old l in
        let real = (h.made other d old).1 in
        elim (Bool-cases (c == d)) [
          | inl t ↦ absurd (let same : c ≡ d = ground (arith, t) in real (let w = fresh in cc))
          | inr t ↦ rw t mine
        ]
  ];
  held = λ d l n m. elim (Bool-cases (c == d)) [
    | inl t ↦ let same : c ≡ d = ground (arith, t) in rw t (q.here ∙ ap some same)
    | inr t ↦
        let old = h.held d l (let n' = rw t at n in n') (let m' = rw t at m in m') in
        rw t (elim (same_name name (k.claimed_username d)) [
          | inl e ↦ absurd (let z = q.vacant d (ap (λ x. find x k.claims) e ∙ old) in cc)
          | inr e ↦ q.others (k.claimed_username d) e ∙ old
        ])
  ];
  paired = λ id p f.
      let (nonzero, apart, first, second) = h.paired id p f in
      (
        nonzero,
        apart,
        set-End c p.sender p.receiver id receiver_idle k (λ e. cc) first,
        set-End c p.receiver p.sender id receiver_idle k (λ e. cc) second,
      );
  single = λ d. ground (arith, h.single d, h.single c);
  silent = λ d. ground (arith, h.silent d, g);
  apart = λ d e f. ground (arith, h.apart d e f, a);
  both = h.both;
  made = λ other d f. elim (same_name name other) [
    | inl e ↦
        let same : c ≡ d = let z = q.here in cc in
        (rw⁻¹ same small, let z = q.named in λ x. z (e ∙ x))
    | inr n ↦ h.made other d (sym (q.others other n) ∙ f)
  ];
  distinct = h.distinct;
  exist = h.exist;
  relays = h.relays;
}

pub take_name-IsConsistent :
    (c : ℕ) (name : List ℕ) (k : Core)
    → IsConsistent k
    → k.state c ≡ awaiting_hello
    → k.hello_received c ≡ true
    → k.claimed_username c ≡ []
    → c < k.next_object
    → IsConsistent (take_name c name k)
unfolding take_name settle
take_name-IsConsistent c name k h a g fresh small = elim (claim-IsGranted k.live name c k.claims) [
  | inl (after, e, q) ↦ rw e (grant-IsConsistent c name after k h a g fresh small q)
  | inr (granted, d, e) ↦ absurd (d refl)
  | inr (already_claimed, d, e) ↦ rw e h
  | inr (invalid_username, d, e) ↦ rw e h
]
