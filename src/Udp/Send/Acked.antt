-- ===== src/Udp/Send/Acked.antt =====
-- client/src/reliable_udp.cpp: what an acknowledgement leaves in flight.
use drop_zone.Base.{
  ℕ, suc, ◌+◌, ◌-◌, ◌%◌, ◌^◌, ◌≤◌, ◌<◌, ◌≡◌, refl, sym, subst, ap, ◌∙◌, inl, inr, true, false, List,
  [], ◌∷◌, max, length, drop, leb, ◌==◌, if◌then◌else◌, Bool-cases, arith,
}
use drop_zone.Udp.Sequence.{next_sequence, is_negative, distance, distance-ahead, distance-behind}
use drop_zone.Udp.Send.{Real, UdpTuning, SentPacket, Timer, since}
use drop_zone.Udp.Send.Ack.{pop_acknowledged, mark_reported, is_reported, update_rtt}
use drop_zone.Udp.Send.Flight.{payload_of, payloads, Runs}

pub mark_reported-payloads :
    (ack ack_bits from to : ℕ) (ps : List SentPacket)
    → Runs from ps to
    → (payloads (mark_reported ack ack_bits ps).2 ≡ payloads ps)
      × Runs from (mark_reported ack ack_bits ps).2 to
unfolding mark_reported
mark_reported-payloads ack ack_bits from to [] r = (refl, r)
mark_reported-payloads ack ack_bits from to (p ∷ rest) r =
    let (same, run) = mark_reported-payloads ack ack_bits (next_sequence from) to rest r.1 in
    elim (Bool-cases (is_reported ack ack_bits p)) [
      | inl t ↦ rw t (ap (λ x. payload_of p ∷ x) same, (r.0, run))
      | inr t ↦ rw t (ap (λ x. payload_of p ∷ x) same, (r.0, run))
    ]

drop_none {ℓ} : {A : Type ℓ} (n : ℕ) (xs : List A) → n ≡ 0 → drop n xs ≡ xs
drop_none n xs e = ap (λ k. drop k xs) e

drop_first {ℓ} :
    {A : Type ℓ} (n m : ℕ) (x : A) (xs : List A) → n ≡ suc m → drop n (x ∷ xs) ≡ drop m xs
drop_first n m x xs e = ap (λ k. drop k (x ∷ xs)) e

same_run :
    (n m : ℕ) (ps : List SentPacket) (to : ℕ)
    → n ≡ m
    → Runs (m % 2 ^ 32) ps to
    → Runs (n % 2 ^ 32) ps to
same_run n m ps to e r = subst (λ k. Runs (k % 2 ^ 32) ps to) (sym e) r

module _ {W : Type 0} ⦃d : Real W⦄ (tuning : UdpTuning W) where
  -- The queue begins with packet `i`, and the peer awaits packet `heard`: what leaves the queue is what
  -- is before that packet, no more and no less.
  pub pop_acknowledged-payloads :
      (heard now_us i to : ℕ) (ps : List SentPacket) (timer : Timer)
      → Runs (i % 2 ^ 32) ps to
      → heard ≤ i + length ps
      → heard ≤ i + 2 ^ 31
      → i + length ps < heard + 2 ^ 31
      → let left = (pop_acknowledged tuning (heard % 2 ^ 32) now_us ps timer).2 in
        (payloads left ≡ drop (heard - i) (payloads ps)) × Runs (max i heard % 2 ^ 32) left to
  unfolding pop_acknowledged
  pop_acknowledged-payloads heard now_us i to [] timer r known near recent = (
    sym (drop_none (heard - i) [] (omega (arith, known))),
    same_run _ i [] to (omega (arith, known)) r,
  )
  pop_acknowledged-payloads heard now_us i to (front ∷ rest) timer r known near recent =
      elim (Bool-cases (leb heard i)) [
        | inl l ↦
            let early : heard ≤ i = ground (arith, l) in
            let ahead : distance front.sequence (heard % 2 ^ 32) ≡ i - heard =
              ap (λ n. distance n (heard % 2 ^ 32)) r.0
              ∙ distance-ahead i heard early (omega (arith, recent)) in
            let stays : is_negative (distance front.sequence (heard % 2 ^ 32)) ≡ false =
              ground (arith, ahead, recent) in
            rw stays (
              sym (drop_none (heard - i) (payloads (front ∷ rest)) (omega (arith, early))),
              same_run _ i (front ∷ rest) to (omega (arith, early)) r,
            )
        | inr l ↦
            let late : i < heard = ground (arith, l) in
            let leaves : is_negative (distance front.sequence (heard % 2 ^ 32)) ≡ true =
              ap (λ n. is_negative (distance n (heard % 2 ^ 32))) r.0
              ∙ distance-behind i heard late near in
            let sampled =
              if front.transmissions == 1
              then update_rtt tuning (since now_us front.sent_us) timer
              else timer in
            let run =
              subst (λ n. Runs n rest to) {x = next_sequence (i % 2 ^ 32)} {y = suc i % 2 ^ 32}
                (omega arith) r.1 in
            let (same, left_run) =
              pop_acknowledged-payloads heard now_us (suc i) to rest sampled run
                (omega (arith, known)) (omega (arith, near)) (omega (arith, recent)) in
            let left = (pop_acknowledged tuning (heard % 2 ^ 32) now_us rest sampled).2 in
            rw leaves (
              same
                  ∙ sym (
                      drop_first (heard - i) (heard - suc i) (payload_of front) (payloads rest)
                        (omega (arith, late))),
              same_run _ (max (suc i) heard) left to (omega (arith, late)) left_run,
            )
      ]
