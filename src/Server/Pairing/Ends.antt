-- ===== src/Server/Pairing/Ends.antt =====
-- server/src/session_table.cpp: the two ends of the pairings that `request_relay` and
-- `expire_pairings` leave in the table.
use drop_zone.Base.{
  ℕ, ◌≡◌, refl, sym, ap, ◌∙◌, inl, inr, Bool, some, Bool-cases, Option-cases, ◌==◌, arith,
}
use drop_zone.Server.Map.{number_key, find, find-update, find-update_other}
use drop_zone.Server.Pairing.{Pairing, Pairings, request_relay, note_request, start_relay}

request-ends :
    (from_sender : Bool) (p : Pairing)
    → let after = (start_relay (note_request from_sender p)).1 in
      (p.sender ≡ after.sender) × (p.receiver ≡ after.receiver)
unfolding note_request start_relay
request-ends from_sender p = ground arith

-- A pairing that is found after a request for relaying has the ends of the one found before.
pub request_relay-ends :
    (id other : ℕ) (from_sender : Bool) (pairings : Pairings) (p : Pairing)
    → find other (request_relay id from_sender pairings).1 ≡ some p
    → (q : Pairing) × (find other pairings ≡ some q)
      × (q.sender ≡ p.sender)
      × (q.receiver ≡ p.receiver)
unfolding request_relay
request_relay-ends id other from_sender pairings p f = elim (Option-cases (find id pairings)) [
  | inl e ↦ (p, let f' = rw (request_relay, e) at f in f', refl, refl)
  | inr (q, e) ↦
      let after = (start_relay (note_request from_sender q)).1 in
      let ends = request-ends from_sender q in
      let f' = rw (request_relay, e) at f in
      elim (Bool-cases (id == other)) [
        | inl t ↦
            let same : id ≡ other = ground (arith, t) in
            let now = find-update id (λ old. after) pairings q e in
            let is_p : after ≡ p = cc in
            (q, rw⁻¹ same e, ends.0 ∙ ap Pairing.sender is_p, ends.1 ∙ ap Pairing.receiver is_p)
        | inr t ↦
            let kept =
              find-update_other other id (λ old. after) pairings (λ e. ground (arith, t, e)) in
            (p, sym kept ∙ f', refl, refl)
      ]
]

-- A pairing is found after a request for relaying if it was found before.
pub request_relay-found :
    (id : ℕ) (from_sender : Bool) (pairings : Pairings) (p : Pairing)
    → find id pairings ≡ some p
    → (q : Pairing) × (find id (request_relay id from_sender pairings).1 ≡ some q)
      × (p.sender ≡ q.sender)
      × (p.receiver ≡ q.receiver)
unfolding request_relay
request_relay-found id from_sender pairings p e =
    let after = (start_relay (note_request from_sender p)).1 in
    let (same_sender, same_receiver) = request-ends from_sender p in
    (
      after,
      rw (request_relay, e) (find-update id (λ old. after) pairings p e),
      same_sender,
      same_receiver,
    )
