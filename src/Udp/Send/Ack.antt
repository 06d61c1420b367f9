-- ===== src/Udp/Send/Ack.antt =====
-- client/src/reliable_udp.cpp: what an acknowledgement changes: the round-trip estimate, the packets in
-- flight and the congestion window.
use drop_zone.Base.{
  ℕ, zero, suc, ◌+◌, ◌-◌, ◌*◌, ◌/◌, ◌%◌, ◌^◌, Bool, true, not, ◌&&◌, List, [], ◌∷◌, ◌++◌, ltb, leb,
  ◌==◌, if◌then◌else◌,
}
use drop_zone.Udp.Sequence.{distance, is_negative}
use drop_zone.Udp.Send.{
  Real, UdpTuning, SentPacket, Timer, Congestion, Sender, since, resend, halved,
}

abbrev pub is_reported : ℕ → ℕ → SentPacket → Bool
is_reported ack ack_bits p =
    let offset = distance p.sequence ack in
    leb 1 offset && leb offset 64 && ack_bits / 2 ^ (offset - 1) % 2 == 1

-- The bitmap: how many packets are newly acknowledged, how many are beyond the gap.
unfoldable pub mark_reported : ℕ → ℕ → List SentPacket → ℕ × ℕ × List SentPacket
mark_reported ack ack_bits [] = (0, 0, [])
mark_reported ack ack_bits (p ∷ rest) =
    let (newly, beyond, marked) = mark_reported ack ack_bits rest in
    if is_reported ack ack_bits p
    then (
      (if p.acknowledged then newly else newly + 1),
      beyond + 1,
      record p { acknowledged = true } ∷ marked,
    )
    else (newly, beyond, p ∷ marked)

module _ {W : Type 0} ⦃d : Real W⦄ (tuning : UdpTuning W) where
  -- The products are of uint64_t.
  unfoldable pub update_rtt : ℕ → Timer → Timer
  update_rtt sample t =
      let first = t.srtt_us == 0 in
      let apart = if ltb t.srtt_us sample then sample - t.srtt_us else t.srtt_us - sample in
      let rttvar = if first then sample / 2 else (3 * t.rttvar_us + apart) % 2 ^ 64 / 4 in
      let srtt = if first then sample else (7 * t.srtt_us + sample) % 2 ^ 64 / 8 in
      let rto = (srtt + 4 * rttvar) % 2 ^ 64 in
      record {
        srtt_us = srtt;
        rttvar_us = rttvar;
        rto_us =
            if ltb rto tuning.min_rto_us
            then tuning.min_rto_us
            else if ltb tuning.max_rto_us rto
            then tuning.max_rto_us
            else rto;
      }

  unfoldable pub on_loss : Congestion W → Congestion W
  on_loss c = record {
    cwnd = halved tuning c.cwnd;
    ssthresh = halved tuning c.cwnd;
    cwnd_fraction = d.nought;
  }

  -- The packets below `ack` leave the queue: how many, the timer, and what is left.
  unfoldable pub pop_acknowledged : ℕ → ℕ → List SentPacket → Timer → ℕ × Timer × List SentPacket
  pop_acknowledged ack now_us [] timer = (0, timer, [])
  pop_acknowledged ack now_us (front ∷ rest) timer =
      let sampled =
        if front.transmissions == 1 then update_rtt (since now_us front.sent_us) timer else timer in
      let (popped, last, left) = pop_acknowledged ack now_us rest sampled in
      if not (is_negative (distance front.sequence ack))
      then (0, timer, front ∷ rest)
      else (popped + 1, last, left)

  unfoldable pub grow : ℕ → Congestion W → Congestion W
  grow zero c = c
  grow (suc n) c =
      let fraction = d.sum c.cwnd_fraction (d.quotient d.one c.cwnd) in
      grow n (
        if d.less c.cwnd c.ssthresh
        then record c { cwnd = d.sum c.cwnd d.one }
        else if d.at_least fraction d.one
        then record c { cwnd = d.sum c.cwnd d.one; cwnd_fraction = d.difference fraction d.one }
        else record c { cwnd_fraction = fraction })

  abbrev pub bounded : Congestion W → Congestion W
  bounded c = if d.less tuning.max_cwnd c.cwnd then record c { cwnd = tuning.max_cwnd } else c

  unfoldable pub fast_retransmit : ℕ → Sender W → Sender W
  fast_retransmit now_us s = elim s.unacknowledged [
    | [] ↦ s
    | missing ∷ others ↦
        let again = resend now_us s.receive_next missing in
        if not missing.acknowledged && ltb (s.timer.srtt_us / 2) (since now_us missing.sent_us)
        then record s {
          congestion = on_loss s.congestion;
          unacknowledged = again ∷ others;
          send_batch = s.send_batch ++ again.datagram ∷ [];
        }
        else s
  ]

  unfoldable pub process_ack : ℕ → ℕ → ℕ → Sender W → Sender W
  process_ack ack ack_bits now_us s =
      let (popped, timer, left) = pop_acknowledged ack now_us s.unacknowledged s.timer in
      let (newly, beyond, marked) = mark_reported ack ack_bits left in
      let acknowledged = popped + newly in
      let t = record s {
        unacknowledged = marked;
        timer = timer;
        send_base = ack;
        consecutive_timeouts = if ltb 0 acknowledged then 0 else s.consecutive_timeouts;
        congestion = bounded (grow acknowledged s.congestion);
      } in
      if leb tuning.fast_retransmit_threshold beyond then fast_retransmit now_us t else t
