-- ===== src/Server/Consistent/Relay.antt =====
-- Lemmas on the changes of relaying in server/src/server.cpp.
use drop_zone.Base.{
  ℕ, ◌<◌, ◌≡◌, ◌≢◌, refl, sym, ap, ◌∙◌, inl, inr, Bool, true, Option, some, Bool-cases, arith,
}
use drop_zone.Server.Map.{number_key, find}
use drop_zone.Server.Pairing.{Pairing, request_relay}
use drop_zone.Server.Pairing.Distinct.{request_relay-Distinct}
use drop_zone.Server.Pairing.Ends.{request_relay-ends}
use drop_zone.Server.Group.{ConnectionState, relaying}
use drop_zone.Server.Store.{Core, set}
use drop_zone.Server.Handle.Relay.{attach, want_relay}
use drop_zone.Server.Consistent.{IsEnd, End, IsConsistent, is_relayed}
use drop_zone.Server.Consistent.Introduce.{table-IsConsistent}

pub want_relay-IsConsistent :
    (id : ℕ) (from_sender : Bool) (k : Core)
    → IsConsistent k
    → IsConsistent (want_relay id from_sender k)
unfolding want_relay
want_relay-IsConsistent id from_sender k h =
    table-IsConsistent
      (record k.table { pairings = (request_relay id from_sender k.table.pairings).1 }) k h
      (request_relay-Distinct id from_sender k.table.pairings h.distinct)
      (λ other p f. request_relay-ends id other from_sender k.table.pairings p f)

-- Two pairings that share an end are one pairing.
one_pairing :
    (k : Core) (id other c d : ℕ) (p q : Pairing)
    → find id k.table.pairings ≡ some p
    → find other k.table.pairings ≡ some q
    → k.pairing_id c ≡ id
    → k.pairing_id d ≡ other
    → d ≡ c
    → p ≡ q
one_pairing k id other c d p q f g i j e = let same : id ≡ other = cc in cc

attached-End :
    (s r d other id : ℕ) (k : Core)
    → s ≢ r
    → End k id d other
    → (d ≡ s → r ≡ other)
    → (d ≡ r → s ≡ other)
    → IsEnd
        (k.live d)
        (set r relaying (set s relaying k.state) d)
        (k.pairing_id d)
        (set r (some s) (set s (some r) k.relay_peer) d)
        id
        other
unfolding set
attached-End s r d other id k n e to_receiver to_sender = record {
  exists = e.exists;
  stays = let z = e.stays in ground arith;
  knows = e.knows;
  relayed = λ x. let z = e.relayed x in ground (arith, to_receiver, to_sender);
}

greeted-End :
    (k : Core)
    → IsConsistent k
    → (id c other : ℕ) → End k id c other
    → id ≢ 0
    → k.hello_received c ≡ true
greeted-End k h id c other e n = elim (Bool-cases (k.hello_received c)) [
  | inl t ↦ t
  | inr f ↦
      let state = (h.silent c f).1 e.stays in
      let zero_id = h.single c (rw state refl) in absurd (n (let i = e.knows in cc))
]

attach_relays :
    (peer : ℕ → Option ℕ) (s r next : ℕ)
    → s < next
    → r < next
    → ((d e : ℕ) → peer d ≡ some e → d < next)
    → (d e : ℕ) → set r (some s) (set s (some r) peer) d ≡ some e
    → d < next
unfolding set
attach_relays peer s r next x y old d e f = ground (arith, old d e)

attach_apart :
    (state : ℕ → ConnectionState) (peer : ℕ → Option ℕ) (s r : ℕ)
    → ((d e : ℕ) → peer d ≡ some e → is_relayed (state d) ≡ true)
    → (d e : ℕ) → set r (some s) (set s (some r) peer) d ≡ some e
    → is_relayed (set r relaying (set s relaying state) d) ≡ true
unfolding set
attach_apart state peer s r old d e f = ground (arith, old d e)

attach_both :
    (peer : ℕ → Option ℕ) (s r : ℕ)
    → s ≢ r
    → ((d e : ℕ) → peer d ≡ some e → peer e ≡ some d)
    → ((d : ℕ) → peer s ≡ some d → d ≡ r)
    → ((d : ℕ) → peer r ≡ some d → d ≡ s)
    → (d e : ℕ) → set r (some s) (set s (some r) peer) d ≡ some e
    → set r (some s) (set s (some r) peer) e ≡ some d
unfolding set
attach_both peer s r apart both first second d e f =
    ground (arith, apart, both d e, first d, second d)

pub attach-IsConsistent :
    (id : ℕ) (p : Pairing) (k : Core)
    → IsConsistent k
    → find id k.table.pairings ≡ some p
    → IsConsistent (attach p.sender p.receiver k)
unfolding attach set
attach-IsConsistent id p k h found =
    let (nonzero, apart, first, second) = h.paired id p found in
    let s = p.sender in
    let r = p.receiver in
    record {
      owned = h.owned;
      held = λ d l n.
          h.held d l (let x = first.stays in let y = second.stays in ground (arith, x, y, n));
      paired = λ other q f.
          let (nonzero', apart', first', second') = h.paired other q f in
          let same = λ (x : ℕ) (y : ℕ). one_pairing k id other x y p q found f in
          (
            nonzero',
            apart',
            attached-End s r q.sender q.receiver other k apart first'
                (λ e. ap Pairing.receiver (same s q.sender first.knows first'.knows e))
                (λ e.
                  absurd
                    (apart (ap Pairing.sender (same r q.sender second.knows first'.knows e) ∙ e))),
            attached-End s r q.receiver q.sender other k apart second'
                (λ e. absurd (
                  apart (
                    sym (ap Pairing.receiver (same s q.receiver first.knows second'.knows e) ∙ e))))
                (λ e. ap Pairing.sender (same r q.receiver second.knows second'.knows e)),
          );
      single = λ d. ground (arith, h.single d);
      silent = λ d. ground (
        arith,
        greeted-End k h id s r first nonzero,
        greeted-End k h id r s second nonzero,
        h.silent d,
      );
      apart = attach_apart k.state k.relay_peer s r h.apart;
      both = attach_both k.relay_peer s r apart h.both first.relayed second.relayed;
      made = h.made;
      distinct = h.distinct;
      exist = h.exist;
      relays =
          attach_relays k.relay_peer s r k.next_object (h.exist s first.exists)
            (h.exist r second.exists) h.relays;
    }
