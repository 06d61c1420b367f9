-- ===== src/Udp/Send/Resent.antt =====
-- client/src/reliable_udp.cpp: the packets in flight after timeouts and acknowledgements.
use drop_zone.Base.{
  ℕ, ◌+◌, ◌-◌, ◌%◌, ◌^◌, ◌≤◌, ◌<◌, ◌≡◌, refl, sym, ap, subst, ◌∙◌, inl, inr, ◌&&◌, ◌/◌, not, List,
  ◌∷◌, length, drop, drop-drop, max, ltb, leb, Bool-cases, arith,
}
use drop_zone.Base.Result.{ok, err}
use drop_zone.Udp.Send.{Real, UdpTuning, SentPacket, Sender, resend, retransmit_timed_out, since}
use drop_zone.Udp.Send.Ack.{pop_acknowledged, mark_reported, fast_retransmit, process_ack}
use drop_zone.Udp.Send.Flight.{payload_of, payloads, Runs, drop-write_header, queue-cases}
use drop_zone.Udp.Send.Acked.{pop_acknowledged-payloads, mark_reported-payloads}
use drop_zone.Udp.Send.Stream.{IsStream, count-IsStream}

ok_injective : {A : Type 0} {x y : A} → ok x ≡ ok y → x ≡ y
ok_injective {x = x} e = ap (λ r. elim r [ ok z ↦ z | err _ ↦ x ]) e

module _ {W : Type 0} ⦃d : Real W⦄ (tuning : UdpTuning W) where
  payload-resend :
      (now_us receive_next : ℕ) (p : SentPacket)
      → (payload_of (resend now_us receive_next p) ≡ payload_of p)
        × ((resend now_us receive_next p).sequence ≡ p.sequence)
  unfolding resend
  payload-resend now_us receive_next p = (drop-write_header _ (payload_of p), refl)

  -- A packet that is sent again has its payload and its number.
  again-IsStream :
      (now_us confirmed : ℕ) (packets : List (List ℕ)) (sent : List ℕ) (s : Sender W)
      (p : SentPacket) (rest : List SentPacket)
      → s.unacknowledged ≡ p ∷ rest
      → IsStream tuning confirmed packets sent s
      → (payloads (resend now_us s.receive_next p ∷ rest) ≡ drop confirmed packets)
        × Runs (confirmed % 2 ^ 32) (resend now_us s.receive_next p ∷ rest) s.next_sequence
  again-IsStream now_us confirmed packets sent s p rest e h =
      let (same, number) = payload-resend now_us s.receive_next p in
      let run = subst (λ q. Runs (confirmed % 2 ^ 32) q s.next_sequence) e h.run in
      (ap (λ x. x ∷ payloads rest) same ∙ sym (ap payloads e) ∙ h.queue, (number ∙ run.0, run.1))

  fast_retransmit-IsStream :
      (now_us confirmed : ℕ) (packets : List (List ℕ)) (sent : List ℕ) (s : Sender W)
      → IsStream tuning confirmed packets sent s
      → IsStream tuning confirmed packets sent (fast_retransmit tuning now_us s)
  unfolding fast_retransmit
  fast_retransmit-IsStream now_us confirmed packets sent s h = elim (queue-cases s.unacknowledged) [
    | inl e ↦ rw (fast_retransmit, e) h
    | inr (missing, rest, e) ↦
        let (queue, run) = again-IsStream now_us confirmed packets sent s missing rest e h in
        elim (Bool-cases
          (not missing.acknowledged && ltb (s.timer.srtt_us / 2) (since now_us missing.sent_us))) [
            | inl t ↦
                rw (fast_retransmit, e, t)
                  (record {
                    run = run;
                    queue = queue;
                    next = h.next;
                    known = h.known;
                    bytes = h.bytes;
                    within = h.within;
                  })
            | inr t ↦ rw (fast_retransmit, e, t) h
          ]
  ]

  fast_retransmit-outgoing :
      (now_us : ℕ) (s : Sender W) → (fast_retransmit tuning now_us s).outgoing ≡ s.outgoing
  unfolding fast_retransmit
  fast_retransmit-outgoing now_us s = elim (queue-cases s.unacknowledged) [
    | inl e ↦ rw (fast_retransmit, e) refl
    | inr (missing, rest, e) ↦
        elim (Bool-cases
          (not missing.acknowledged && ltb (s.timer.srtt_us / 2) (since now_us missing.sent_us))) [
            | inl t ↦ rw (fast_retransmit, e, t) refl
            | inr t ↦ rw (fast_retransmit, e, t) refl
          ]
  ]

  -- The peer says that it awaits packet `heard`.
  pub process_ack-IsStream :
      (heard ack_bits now_us confirmed : ℕ) (packets : List (List ℕ)) (sent : List ℕ) (s : Sender W)
      → IsStream tuning confirmed packets sent s
      → heard ≤ length packets
      → heard ≤ confirmed + 2 ^ 31
      → length packets < heard + 2 ^ 31
      → IsStream tuning
          (max confirmed heard)
          packets
          sent
          (process_ack tuning (heard % 2 ^ 32) ack_bits now_us s)
  unfolding process_ack
  process_ack-IsStream heard ack_bits now_us confirmed packets sent s h made near recent =
      let ack = heard % 2 ^ 32 in
      let count = count-IsStream tuning confirmed packets sent s h in
      let popped =
        pop_acknowledged-payloads tuning heard now_us confirmed s.next_sequence s.unacknowledged
          s.timer h.run (omega (arith, count, made)) near (omega (arith, count, recent)) in
      let left = (pop_acknowledged tuning ack now_us s.unacknowledged s.timer).2 in
      let (kept, run) =
        mark_reported-payloads ack ack_bits (max confirmed heard % 2 ^ 32) s.next_sequence left
          popped.1 in
      let known = h.known in
      let queue =
        kept
        ∙ popped.0
        ∙ ap (λ q. drop (heard - confirmed) q) h.queue
        ∙ drop-drop (heard - confirmed) confirmed packets
        ∙ ap (λ k. drop k packets) {x = confirmed + (heard - confirmed)} {y = max confirmed heard}
            (omega arith) in
      let within : max confirmed heard ≤ length packets = omega (arith, known, made) in
      elim (Bool-cases (leb tuning.fast_retransmit_threshold (mark_reported ack ack_bits left).1)) [
        | inl t ↦ rw t (
            fast_retransmit-IsStream now_us (max confirmed heard) packets sent _ (record {
              run = run;
              queue = queue;
              next = h.next;
              known = within;
              bytes = h.bytes;
              within = h.within;
            }))
        | inr t ↦ rw t (record {
          run = run;
          queue = queue;
          next = h.next;
          known = within;
          bytes = h.bytes;
          within = h.within;
        })
      ]

  pub process_ack-outgoing :
      (ack ack_bits now_us : ℕ) (s : Sender W)
      → (process_ack tuning ack ack_bits now_us s).outgoing ≡ s.outgoing
  unfolding process_ack
  process_ack-outgoing ack ack_bits now_us s =
      let left = (pop_acknowledged tuning ack now_us s.unacknowledged s.timer).2 in
      elim (Bool-cases (leb tuning.fast_retransmit_threshold (mark_reported ack ack_bits left).1)) [
        | inl t ↦ rw t (fast_retransmit-outgoing now_us _)
        | inr t ↦ rw t refl
      ]

  pub retransmit_timed_out-IsStream :
      (now_us confirmed : ℕ) (packets : List (List ℕ)) (sent : List ℕ) (s t : Sender W)
      → IsStream tuning confirmed packets sent s
      → retransmit_timed_out tuning now_us s ≡ ok t
      → IsStream tuning confirmed packets sent t × (t.outgoing ≡ s.outgoing)
  unfolding retransmit_timed_out
  retransmit_timed_out-IsStream now_us confirmed packets sent s t h e =
      let Kept =
        λ (u : Sender W). IsStream tuning confirmed packets sent u × (u.outgoing ≡ s.outgoing) in
      elim (queue-cases s.unacknowledged) [
        | inl q ↦
            let e' = rw (retransmit_timed_out, q) at e in subst Kept (ok_injective e') (h, refl)
        | inr (oldest, rest, q) ↦
            let (queue, run) = again-IsStream now_us confirmed packets sent s oldest rest q h in
            let timeouts = (s.consecutive_timeouts + 1) % 2 ^ 32 in
            elim (Bool-cases (ltb (since now_us oldest.sent_us) s.timer.rto_us)) [
              | inl i ↦
                  let e' = rw (retransmit_timed_out, q, i) at e in
                  subst Kept (ok_injective e') (h, refl)
              | inr i ↦ elim (Bool-cases (ltb tuning.max_timeouts timeouts)) [
                | inl k ↦ let e' = rw (retransmit_timed_out, q, i, k) at e in absurd (cc e')
                | inr k ↦
                    let e' = rw (retransmit_timed_out, q, i, k) at e in
                    subst Kept (ok_injective e') (
                      record {
                        run = run;
                        queue = queue;
                        next = h.next;
                        known = h.known;
                        bytes = h.bytes;
                        within = h.within;
                      },
                      refl,
                    )
              ]
            ]
      ]
