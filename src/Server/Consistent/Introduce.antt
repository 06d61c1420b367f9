-- ===== src/Server/Consistent/Introduce.antt =====
-- Lemmas on the changes of an introduction in server/src/server.cpp: a pairing that is made, one that
-- is dropped, a connection that is idle again.
use drop_zone.Base.{
  ℕ, ◌≡◌, ◌≢◌, refl, sym, ◌∙◌, inl, inr, ◌⊎◌, true, false, none, some, Bool-cases, Option-cases,
  ◌==◌, arith,
}
use drop_zone.Server.Map.{number_key, find, erase, find-erase, find-erase_other}
use drop_zone.Server.Pairing.{Pairing, PairingTable, new_pairing, destroy_pairing}
use drop_zone.Server.Pairing.Distinct.{Distinct, erase-Distinct}
use drop_zone.Server.Pairing.Made.{IsMade}
use drop_zone.Server.Group.{
  ConnectionState, receiver_idle, receiver_matched, sender_idle, sender_waiting,
}
use drop_zone.Server.Store.{Core, set}
use drop_zone.Server.Handle.Introduce.{pair_up, drop_pairing, to_idle, stand_down, is_matched}
use drop_zone.Server.Consistent.{IsEnd, End, IsConsistent, is_relayed}
use drop_zone.Server.Consistent.Hello.{single-stranger}

-- Every pairing of the new table has the ends of one of the old.
pub table-IsConsistent :
    (table : PairingTable) (k : Core)
    → IsConsistent k
    → Distinct table.pairings
    → ((id : ℕ) (p : Pairing)
        → find id table.pairings ≡ some p
        → (q : Pairing) × (find id k.table.pairings ≡ some q)
          × (q.sender ≡ p.sender)
          × (q.receiver ≡ p.receiver))
    → IsConsistent (record k { table = table })
table-IsConsistent table k h distinct old = record {
  owned = h.owned;
  held = h.held;
  paired = λ id p f.
      let (q, g, same_sender, same_receiver) = old id p f in
      rw⁻¹ (same_sender, same_receiver) (h.paired id q g);
  single = h.single;
  silent = h.silent;
  apart = h.apart;
  both = h.both;
  made = h.made;
  distinct = distinct;
  exist = h.exist;
  relays = h.relays;
}

pub drop_pairing-IsConsistent :
    (id : ℕ) (k : Core) → IsConsistent k → IsConsistent (drop_pairing id k)
unfolding drop_pairing destroy_pairing
drop_pairing-IsConsistent id k h =
    table-IsConsistent (record k.table { pairings = erase id k.table.pairings }) k h
      (erase-Distinct id k.table.pairings h.distinct)
      (λ other p f. elim (Bool-cases (id == other)) [
        | inl t ↦
            let same : id ≡ other = ground (arith, t) in
            let gone = find-erase id k.table.pairings in absurd cc
        | inr t ↦
            let kept = find-erase_other other id k.table.pairings (λ e. ground (arith, t, e)) in
            (p, sym kept ∙ f, refl, refl)
      ])

-- No pairing has the connection at an end.
abbrev pub IsStranger : Core → ℕ → Type 0
IsStranger k c =
    (id : ℕ) (p : Pairing) → find id k.table.pairings ≡ some p → (p.sender ≢ c) × (p.receiver ≢ c)

-- An end is the same after writes to another connection.
pub other-End :
    (c d other id : ℕ) (state : ConnectionState) (new_id : ℕ) (k : Core)
    → d ≢ c
    → End k id d other
    → IsEnd
        (k.live d)
        (set c state k.state d)
        (set c new_id k.pairing_id d)
        (k.relay_peer d)
        id
        other
unfolding set
other-End c d other id state new_id k n e = record {
  exists = e.exists;
  stays = let s = e.stays in ground (arith, n);
  knows = let s = e.knows in ground (arith, n);
  relayed = e.relayed;
}

pub to_idle-IsConsistent :
    (c : ℕ) (k : Core)
    → IsConsistent k
    → k.state c ≡ receiver_matched
    → IsStranger k c
    → IsConsistent (to_idle c k)
unfolding to_idle set
to_idle-IsConsistent c k h m s = record {
  owned = h.owned;
  held = λ d l n. h.held d l (ground (arith, n, m));
  paired = λ id p f.
      let (nonzero, apart, first, second) = h.paired id p f in
      let (not_sender, not_receiver) = s id p f in
      (
        nonzero,
        apart,
        other-End c p.sender p.receiver id receiver_idle 0 k not_sender first,
        other-End c p.receiver p.sender id receiver_idle 0 k not_receiver second,
      );
  single = λ d. ground (arith, h.single d);
  silent = λ d. ground (arith, h.silent d, m);
  apart = λ d e f. ground (arith, h.apart d e f, m);
  both = h.both;
  made = h.made;
  distinct = h.distinct;
  exist = h.exist;
  relays = h.relays;
}

zero_id-IsConsistent :
    (c : ℕ) (k : Core)
    → IsConsistent k
    → IsStranger k c
    → IsConsistent (record k { pairing_id = set c 0 k.pairing_id })
unfolding set
zero_id-IsConsistent c k h s = record {
  owned = h.owned;
  held = h.held;
  paired = λ id p f.
      let (nonzero, apart, first, second) = h.paired id p f in
      let (not_sender, not_receiver) = s id p f in
      (
        nonzero,
        apart,
        record {
          exists = first.exists;
          stays = first.stays;
          knows = let i = first.knows in ground (arith, not_sender);
          relayed = first.relayed;
        },
        record {
          exists = second.exists;
          stays = second.stays;
          knows = let i = second.knows in ground (arith, not_receiver);
          relayed = second.relayed;
        },
      );
  single = λ d. ground (arith, h.single d);
  silent = h.silent;
  apart = h.apart;
  both = h.both;
  made = h.made;
  distinct = h.distinct;
  exist = h.exist;
  relays = h.relays;
}

is_matched-true : (state : ConnectionState) → is_matched state ≡ true → state ≡ receiver_matched
is_matched-true state h = ground arith

pub stand_down-IsConsistent :
    (c : ℕ) (k : Core) → IsConsistent k → IsStranger k c → IsConsistent (stand_down c k)
unfolding stand_down to_idle
stand_down-IsConsistent c k h s = elim (Bool-cases (is_matched (k.state c))) [
  | inl t ↦ rw t (to_idle-IsConsistent c k h (is_matched-true (k.state c) t) s)
  | inr f ↦ rw f (zero_id-IsConsistent c k h s)
]

stamped-End :
    (c r d other old id : ℕ) (k : Core)
    → d ≢ c
    → d ≢ r
    → End k old d other
    → IsEnd
        (k.live d)
        (set r receiver_matched (set c sender_waiting k.state) d)
        (set r id (set c id k.pairing_id) d)
        (k.relay_peer d)
        old
        other
unfolding set
stamped-End c r d other old id k n m e = record {
  exists = e.exists;
  stays = let s = e.stays in ground (arith, n, m);
  knows = let s = e.knows in ground (arith, n, m);
  relayed = e.relayed;
}

fresh-End :
    (c r d id other : ℕ) (k : Core)
    → (d ≡ c) ⊎ (d ≡ r)
    → k.live d ≡ true
    → k.relay_peer d ≡ none
    → IsEnd
        (k.live d)
        (set r receiver_matched (set c sender_waiting k.state) d)
        (set r id (set c id k.pairing_id) d)
        (k.relay_peer d)
        id
        other
unfolding set
fresh-End c r d id other k n l e = record {
  exists = l;
  stays = ground (arith, n);
  knows = ground (arith, n);
  relayed = λ x f. cc;
}

unrelayed :
    (c : ℕ) (k : Core) → IsConsistent k → is_relayed (k.state c) ≡ false → k.relay_peer c ≡ none
unrelayed c k h n = elim (Option-cases (k.relay_peer c)) [
  | inl e ↦ e
  | inr (d, e) ↦ absurd (let z = h.apart c d e in cc)
]

pub pair_up-IsConsistent :
    (now_ms c r id : ℕ) (table : PairingTable) (k : Core)
    → IsConsistent k
    → k.state c ≡ sender_idle
    → k.state r ≡ receiver_idle
    → k.live c ≡ true
    → k.live r ≡ true
    → IsMade now_ms c r id k.table.pairings table.pairings
    → IsConsistent (pair_up c r id table k)
unfolding pair_up set
pair_up-IsConsistent now_ms c r id table k h sc sr lc lr m = record {
  owned = h.owned;
  held = λ d l n. h.held d l (ground (arith, n, sc, sr));
  paired = λ other p f. elim (Bool-cases (id == other)) [
    | inl t ↦
        let same : id ≡ other = ground (arith, t) in
        let made : new_pairing id c r now_ms ≡ p = let z = m.found in cc in
        let apart : c ≢ r = λ e. cc in
        rw⁻¹ (made, same)
          (
            m.nonzero,
            apart,
            fresh-End c r c id r k (inl refl) lc (unrelayed c k h (rw sc refl)),
            fresh-End c r r id c k (inr refl) lr (unrelayed r k h (rw sr refl)),
          )
    | inr t ↦
        let differ : id ≢ other = λ e. ground (arith, t, e) in
        let old = sym (m.others other differ) ∙ f in
        let (nonzero, apart, first, second) = h.paired other p old in
        let (a, b) = single-stranger c k h (rw sc refl) other p old in
        let (a', b') = single-stranger r k h (rw sr refl) other p old in
        (
          nonzero,
          apart,
          stamped-End c r p.sender p.receiver other id k a a' first,
          stamped-End c r p.receiver p.sender other id k b b' second,
        )
  ];
  single = λ d. ground (arith, h.single d);
  silent = λ d. ground (arith, h.silent d, sc, sr);
  apart = λ d e f. ground (arith, h.apart d e f, sc, sr);
  both = h.both;
  made = h.made;
  distinct = m.distinct h.distinct;
  exist = h.exist;
  relays = h.relays;
}
