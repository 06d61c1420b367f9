-- ===== src/Server/Consistent/Closing.antt =====
-- Lemmas on the changes of server/src/server.cpp when connections come and go.
use drop_zone.Base.{
  ℕ, ◌≡◌, ◌≢◌, refl, sym, ap, ◌∙◌, inl, inr, Bool, true, not, ◌&&◌, ◌||◌, List, none, some,
  Bool-cases, Option-cases, ◌==◌, arith,
}
use drop_zone.Server.Map.{name_key, number_key, find, erase, find-erase, find-erase_other}
use drop_zone.Server.Claims.{Claims, release}
use drop_zone.Server.Pairing.{destroy_pairing, expire_pairings}
use drop_zone.Server.Pairing.Distinct.{expire-Distinct, find-expired}
use drop_zone.Server.Group.{ConnectionState, awaiting_hello, closing, is_empty}
use drop_zone.Server.Store.{Core, set}
use drop_zone.Server.Handle.Introduce.{drop_pairing}
use drop_zone.Server.Closing.{
  start_closing, release_name, destroy_closed, arrive, is_closing, expire,
}
use drop_zone.Server.Consistent.{IsEnd, End, IsConsistent}
use drop_zone.Server.Consistent.Hello.{same_name}
use drop_zone.Server.Consistent.Introduce.{IsStranger, table-IsConsistent}

pub gone-IsStranger :
    (c : ℕ) (k : Core)
    → IsConsistent k
    → find (k.pairing_id c) k.table.pairings ≡ none
    → IsStranger k c
gone-IsStranger c k h n id p f =
    let (nonzero, apart, first, second) = h.paired id p f in
    (λ e. let i = first.knows in cc, λ e. let i = second.knows in cc)

pub zero-IsStranger : (c : ℕ) (k : Core) → IsConsistent k → k.pairing_id c ≡ 0 → IsStranger k c
zero-IsStranger c k h n id p f =
    let (nonzero, apart, first, second) = h.paired id p f in
    (λ e. nonzero (let i = first.knows in cc), λ e. nonzero (let i = second.knows in cc))

pub dropped : (id : ℕ) (k : Core) → find id (drop_pairing id k).table.pairings ≡ none
unfolding drop_pairing destroy_pairing
dropped id k = find-erase id k.table.pairings

closed-End :
    (c d other id : ℕ) (k : Core)
    → d ≢ c
    → End k id d other
    → IsEnd (k.live d) (set c closing k.state d) (k.pairing_id d) (k.relay_peer d) id other
unfolding set
closed-End c d other id k n e = record {
  exists = e.exists;
  stays = let s = e.stays in ground (arith, n);
  knows = e.knows;
  relayed = e.relayed;
}

pub start_closing-IsConsistent :
    (c : ℕ) (k : Core) → IsConsistent k → IsStranger k c → IsConsistent (start_closing c k)
unfolding start_closing set
start_closing-IsConsistent c k h s = record {
  owned = h.owned;
  held = λ d l n. h.held d l (ground (arith, n));
  paired = λ id p f.
      let (nonzero, apart, first, second) = h.paired id p f in
      let (not_sender, not_receiver) = s id p f in
      (
        nonzero,
        apart,
        closed-End c p.sender p.receiver id k not_sender first,
        closed-End c p.receiver p.sender id k not_receiver second,
      );
  single = λ d. ground (arith, h.single d);
  silent = λ d. ground (arith, h.silent d);
  apart = λ d e f. ground (arith, h.apart d e f);
  both = h.both;
  made = h.made;
  distinct = h.distinct;
  exist = h.exist;
  relays = h.relays;
}

-- A release keeps the entry of every connection but the one that releases, and makes none.
pub release-keeps :
    (live : ℕ → Bool) (name other : List ℕ) (c d : ℕ) (claims : Claims)
    → let after = release live name c claims in
      (find other after ≡ some d → find other claims ≡ some d)
      × (find other claims ≡ some d → live d ≡ true → d ≢ c → find other after ≡ some d)
unfolding release
release-keeps live name other c d claims = elim (Bool-cases (is_empty name)) [
  | inl t ↦ rw t (λ f. f, λ f l n. f)
  | inr t ↦ elim (Option-cases (find name claims)) [
    | inl e ↦ rw (t, e) (λ f. f, λ f l n. f)
    | inr (holder, e) ↦ elim (Bool-cases (not (live holder) || holder == c)) [
      | inr u ↦ rw (t, e, u) (λ f. f, λ f l n. f)
      | inl u ↦
          rw (t, e, u)
            (elim (same_name name other) [
              | inl same ↦
                  let gone = find-erase name claims in
                  (
                    λ f. absurd (let g = sym (ap (λ x. find x (erase name claims)) same) in cc),
                    λ f l n. absurd (
                        let z : holder ≡ d = (let g = ap (λ x. find x claims) same in cc) in
                        ground (arith, u, z, l, n)),
                  )
              | inr n ↦
                  let kept = find-erase_other other name claims n in
                  (λ f. sym kept ∙ f, λ f l m. kept ∙ f)
            ])
    ]
  ]
]

pub release_name-IsConsistent :
    (c : ℕ) (k : Core) → IsConsistent k → k.state c ≡ closing → IsConsistent (release_name c k)
unfolding release_name
release_name-IsConsistent c k h s = elim (Bool-cases (is_empty (k.claimed_username c))) [
  | inl t ↦ rw t h
  | inr t ↦
      let name = k.claimed_username c in
      let keeps = λ (other : List ℕ) (d : ℕ). release-keeps k.live name other c d k.claims in
      rw t (record {
        owned = λ other d f. h.owned other d ((keeps other d).0 f);
        held = λ d l n m.
            (keeps (k.claimed_username d) d).1 (h.held d l n m) l (λ e. n (ap k.state e ∙ s));
        paired = h.paired;
        single = h.single;
        silent = h.silent;
        apart = h.apart;
        both = h.both;
        made = λ other d f. h.made other d ((keeps other d).0 f);
        distinct = h.distinct;
        exist = h.exist;
        relays = h.relays;
      })
]

not_closing : (state : ConnectionState) → state ≢ closing → not (is_closing state) ≡ true
not_closing state n = ground (arith, n)

kept-End :
    (k : Core) (id d other : ℕ)
    → End k id d other
    → IsEnd
        (k.live d && not (is_closing (k.state d)))
        (k.state d)
        (k.pairing_id d)
        (k.relay_peer d)
        id
        other
kept-End k id d other e = record {
  exists = let l = e.exists in let s = not_closing (k.state d) e.stays in ground (arith, l, s);
  stays = e.stays;
  knows = e.knows;
  relayed = e.relayed;
}

pub destroy_closed-IsConsistent : (k : Core) → IsConsistent k → IsConsistent (destroy_closed k)
unfolding destroy_closed
destroy_closed-IsConsistent k h = record {
  owned = λ other d f l. h.owned other d f (ground (arith, l));
  held = λ d l. h.held d (ground (arith, l));
  paired = λ id p f.
      let (nonzero, apart, first, second) = h.paired id p f in
      (
        nonzero,
        apart,
        kept-End k id p.sender p.receiver first,
        kept-End k id p.receiver p.sender second,
      );
  single = h.single;
  silent = h.silent;
  apart = h.apart;
  both = h.both;
  made = h.made;
  distinct = h.distinct;
  exist = λ d l. h.exist d (ground (arith, l));
  relays = h.relays;
}

pub expire-IsConsistent :
    (now_ms limit_ms : ℕ) (k : Core) → IsConsistent k → IsConsistent (expire now_ms limit_ms k)
unfolding expire
expire-IsConsistent now_ms limit_ms k h =
    let m = k.table.pairings in
    table-IsConsistent (record k.table { pairings = (expire_pairings k.live now_ms limit_ms m).1 })
      k h (expire-Distinct k.live now_ms limit_ms m h.distinct)
      (λ id p f. (p, find-expired k.live now_ms limit_ms id p m h.distinct f, refl, refl))

new-End :
    (d other id c : ℕ) (k : Core)
    → d ≢ c
    → End k id d other
    → IsEnd
        (set c true k.live d)
        (set c awaiting_hello k.state d)
        (set c 0 k.pairing_id d)
        (set c none k.relay_peer d)
        id
        other
unfolding set
new-End d other id c k n e = record {
  exists = let s = e.exists in ground (arith, n);
  stays = let s = e.stays in ground (arith, n);
  knows = let s = e.knows in ground (arith, n);
  relayed = λ x f. e.relayed x (ground (arith, n, f));
}

pub arrive-IsConsistent : (k : Core) → IsConsistent k → IsConsistent (arrive k)
unfolding arrive set
arrive-IsConsistent k h =
    let c = k.next_object in
    record {
      owned = λ name d f. let small = (h.made name d f).0 in ground (arith, h.owned name d f);
      held = λ d. ground (arith, h.held d);
      paired = λ id p f.
          let (nonzero, apart, first, second) = h.paired id p f in
          let a = h.exist p.sender first.exists in
          let b = h.exist p.receiver second.exists in
          (
            nonzero,
            apart,
            new-End p.sender p.receiver id c k (λ e. omega (arith, a, e)) first,
            new-End p.receiver p.sender id c k (λ e. omega (arith, b, e)) second,
          );
      single = λ d. ground (arith, h.single d);
      silent = λ d. ground (arith, h.silent d);
      apart = λ d e f. ground (arith, h.apart d e);
      both = λ d e. ground (arith, h.both d e, h.relays d e, h.relays e d);
      made = λ name d f. let (small, real) = h.made name d f in (omega (arith, small), real);
      distinct = h.distinct;
      exist = λ d. ground (arith, h.exist d);
      relays = λ d e f. ground (arith, h.relays d e);
    }
