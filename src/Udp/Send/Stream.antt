-- ===== src/Udp/Send/Stream.antt =====
-- client/src/reliable_udp.cpp: the packets in flight, and how filling the window adds to them.
use drop_zone.Base.{
  ℕ, zero, suc, ◌+◌, ◌-◌, ◌%◌, ◌^◌, ◌≤◌, ◌<◌, ◌≡◌, refl, sym, ap, subst, ◌∙◌, inl, inr, true, List,
  [], ◌∷◌, ◌++◌, append-nil, append_assoc, Option, some, length, length-append, length-drop, take,
  drop, drop-append, min, ltb, Bool-cases, arith,
}
use drop_zone.Udp.Packet.{udp_max_payload}
use drop_zone.Udp.Send.{
  Real, UdpTuning, Sender, refill_pacing_tokens, send_packet, fill_loop, fill_window,
}
use drop_zone.Udp.Send.Flight.{
  payloads, joined, Runs, drop-write_header, payloads-append, length-payloads, joined-append,
  Runs-append, take_more,
}

module _ {W : Type 0} ⦃d : Real W⦄ (tuning : UdpTuning W) where
  -- `packets` were put in the queue, in this order from number 0 on; the peer has acknowledged those
  -- before `confirmed`; and `sent` was packetised before the queue of bytes was cleared last.
  pub record IsStream (confirmed : ℕ) (packets : List (List ℕ)) (sent : List ℕ) (s : Sender W)
      : Type 0 where
    pub run : Runs (confirmed % 2 ^ 32) s.unacknowledged s.next_sequence
    pub queue : payloads s.unacknowledged ≡ drop confirmed packets
    pub next : s.next_sequence ≡ length packets % 2 ^ 32
    pub known : confirmed ≤ length packets
    pub bytes : joined packets ≡ sent ++ take s.outgoing_consumed s.outgoing
    pub within : s.outgoing_consumed ≤ length s.outgoing

  pub count-IsStream :
      (confirmed : ℕ) (packets : List (List ℕ)) (sent : List ℕ) (s : Sender W)
      → IsStream confirmed packets sent s
      → confirmed + length s.unacknowledged ≡ length packets
  count-IsStream confirmed packets sent s h =
      let queued = ap length h.queue in
      let known = h.known in
      omega (arith, queued, known, length-payloads s.unacknowledged, length-drop confirmed packets)

  send_packet-IsStream :
      (now_us confirmed : ℕ) (packets : List (List ℕ)) (sent : List ℕ) (s : Sender W)
      → IsStream confirmed packets sent s
      → (payload : List ℕ) × IsStream confirmed
          (packets ++ payload ∷ [])
          sent
          (send_packet tuning now_us s)
  unfolding send_packet
  send_packet-IsStream now_us confirmed packets sent s h =
      let n = s.outgoing_consumed in
      let size = min (length s.outgoing - n) udp_max_payload in
      let payload = take size (drop n s.outgoing) in
      let b = h.within in
      let known = h.known in
      let next = h.next in
      let longer = length-append packets (payload ∷ []) in
      (
        payload,
        record {
          run = Runs-append (confirmed % 2 ^ 32) s.next_sequence s.unacknowledged _ h.run refl;
          queue =
              payloads-append s.unacknowledged _
              ∙ ap (λ x. payloads s.unacknowledged ++ x ∷ []) (drop-write_header _ payload)
              ∙ ap (λ x. x ++ payload ∷ []) h.queue
              ∙ sym (drop-append confirmed packets (payload ∷ []) known);
          next = omega (arith, next, longer);
          known = omega (arith, known, longer);
          bytes =
              joined-append packets payload
              ∙ ap (λ x. x ++ payload) h.bytes
              ∙ append_assoc sent (take n s.outgoing) payload
              ∙ ap (λ x. sent ++ x) (take_more n size s.outgoing);
          within = omega (arith, b);
        },
      )

  sent_more :
      (fuel now_us : ℕ) (s : Sender W)
      → length s.outgoing < suc fuel + s.outgoing_consumed
      → ltb s.outgoing_consumed (length s.outgoing) ≡ true
      → length (send_packet tuning now_us s).outgoing
        < fuel + (send_packet tuning now_us s).outgoing_consumed
  unfolding send_packet
  sent_more fuel now_us s h t = ground (arith, h, t)

  -- The window is filled with packets behind those of before.
  abbrev pub Filled : ℕ → List (List ℕ) → List ℕ → Sender W → Option (Sender W) → Type 0
  Filled confirmed packets sent s result =
      (t : Sender W) × (more : List (List ℕ)) × (result ≡ some t)
      × IsStream confirmed (packets ++ more) sent t
      × (t.outgoing ≡ s.outgoing)

  Filled-none :
      (confirmed : ℕ) (packets : List (List ℕ)) (sent : List ℕ) (s : Sender W)
      → IsStream confirmed packets sent s
      → Filled confirmed packets sent s (some s)
  Filled-none confirmed packets sent s h =
      (s, [], refl, subst (λ p. IsStream confirmed p sent s) (sym (append-nil packets)) h, refl)

  fill_loop-IsStream :
      (fuel now_us confirmed : ℕ) (packets : List (List ℕ)) (sent : List ℕ) (s : Sender W)
      → length s.outgoing < fuel + s.outgoing_consumed
      → IsStream confirmed packets sent s
      → Filled confirmed packets sent s (fill_loop tuning fuel now_us s)
  unfolding fill_loop send_packet
  fill_loop-IsStream zero now_us confirmed packets sent s h i =
      let b = i.within in absurd (omega (arith, b, h))
  fill_loop-IsStream (suc fuel) now_us confirmed packets sent s h i =
      let stop = Filled-none confirmed packets sent s i in
      elim (Bool-cases (ltb s.outgoing_consumed (length s.outgoing))) [
        | inr f ↦ rw f stop
        | inl t ↦
            elim (Bool-cases (d.at_least (d.count (length s.unacknowledged)) s.congestion.cwnd)) [
              | inl g ↦ rw (t, g) stop
              | inr g ↦ elim (Bool-cases (d.less s.send_tokens d.one)) [
                | inl k ↦ rw (t, g, k) stop
                | inr k ↦
                    let (payload, after) = send_packet-IsStream now_us confirmed packets sent s i in
                    let (u, more, result, stream, same) =
                      fill_loop-IsStream fuel now_us confirmed (packets ++ payload ∷ []) sent
                        (send_packet tuning now_us s) (sent_more fuel now_us s h t) after in
                    rw (t, g, k)
                      (
                        u,
                        payload ∷ more,
                        result,
                        subst (λ p. IsStream confirmed p sent u)
                            (append_assoc packets (payload ∷ []) more) stream,
                        same,
                      )
              ]
            ]
      ]

  pub fill_window-IsStream :
      (now_us confirmed : ℕ) (packets : List (List ℕ)) (sent : List ℕ) (s : Sender W)
      → IsStream confirmed packets sent s
      → Filled confirmed packets sent s (fill_window tuning now_us s)
  unfolding fill_window refill_pacing_tokens
  fill_window-IsStream now_us confirmed packets sent s h =
      let b = h.within in
      fill_loop-IsStream (length s.outgoing - s.outgoing_consumed + 1) now_us confirmed packets sent
        (refill_pacing_tokens tuning now_us s) (omega (arith, b))
        (record {
          run = h.run;
          queue = h.queue;
          next = h.next;
          known = h.known;
          bytes = h.bytes;
          within = h.within;
        })
