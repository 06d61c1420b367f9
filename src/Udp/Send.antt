-- ===== src/Udp/Send.antt =====
-- client/src/reliable_udp.cpp: the send side. What the code does with a `double` is an interface; the
-- datagrams that are queued for sendmmsg() are a list of copies, where the code queues pointers; the
-- statistics and the loss that the tests switch on are left out.
pub mod Flight
pub mod Ack
pub mod Acked
pub mod Stream
pub mod Resent
pub mod Course
use drop_zone.Base.{
  ℕ, zero, suc, ◌+◌, ◌-◌, ◌*◌, ◌/◌, ◌%◌, ◌^◌, Bool, true, false, not, ◌&&◌, ◌||◌, List, [], ◌∷◌,
  ◌++◌, Option, none, some, length, take, drop, min, max, ltb, leb, ◌==◌, if◌then◌else◌,
}
use drop_zone.Base.Result.{Result, ok, err, timed_out}
use drop_zone.Udp.Sequence.{distance, is_negative, next_sequence}
use drop_zone.Udp.Packet.{ParsedHeader, write_header, udp_header_size, udp_max_payload}

-- `count n` is `static_cast<double>(n)`; `sum`, `difference`, `product` and `quotient` are + - * /, `less` and
-- `at_least` are < and >=.
pub record Real (W : Type 0) : Type 0 where
  pub nought : W
  pub one : W
  pub two : W
  pub assumed_rtt_us : W
  pub count : ℕ → W
  pub sum : W → W → W
  pub difference : W → W → W
  pub product : W → W → W
  pub quotient : W → W → W
  pub less : W → W → Bool
  pub at_least : W → W → Bool

pub record UdpTuning (W : Type 0) : Type 0 where
  pub min_cwnd : W
  pub max_cwnd : W
  pub max_burst : W
  pub min_rto_us : ℕ
  pub max_rto_us : ℕ
  pub fast_retransmit_threshold : ℕ
  pub max_timeouts : ℕ

pub record SentPacket : Type 0 where
  pub sequence : ℕ
  pub datagram : List ℕ
  pub sent_us : ℕ
  pub transmissions : ℕ
  pub acknowledged : Bool

pub record Timer : Type 0 where
  pub srtt_us : ℕ
  pub rttvar_us : ℕ
  pub rto_us : ℕ

pub record Congestion (W : Type 0) : Type 0 where
  pub cwnd : W
  pub ssthresh : W
  pub cwnd_fraction : W

pub record Sender (W : Type 0) : Type 0 where
  pub outgoing : List ℕ
  pub outgoing_consumed : ℕ
  pub unacknowledged : List SentPacket
  pub next_sequence : ℕ
  pub send_base : ℕ
  pub congestion : Congestion W
  pub consecutive_timeouts : ℕ
  pub timer : Timer
  pub send_tokens : W
  pub last_token_us : ℕ
  pub receive_next : ℕ
  pub send_batch : List (List ℕ)

-- A difference of uint64_t.
abbrev pub since : ℕ → ℕ → ℕ
since now then_us = (now + 2 ^ 64 - then_us) % 2 ^ 64

abbrev pub data_header : ℕ → ℕ → ℕ → ParsedHeader
data_header sequence ack size = record {
  type = 3;
  sequence = sequence;
  ack = ack;
  ack_bits = 0;
  length = size % 2 ^ 16;
}

-- A datagram is sent again, with the acknowledgement of now in its header.
unfoldable pub resend : ℕ → ℕ → SentPacket → SentPacket
resend now_us receive_next p =
    let payload = drop udp_header_size p.datagram in
    record p {
      sent_us = now_us;
      transmissions = (p.transmissions + 1) % 2 ^ 32;
      datagram = write_header (data_header p.sequence receive_next (length payload)) ++ payload;
    }

-- What write_bytes() does before its loop, and after it.
unfoldable pub append_outgoing : {W : Type 0} → List ℕ → Sender W → Sender W
append_outgoing bytes s = record s { outgoing = s.outgoing ++ bytes }

unfoldable pub clear_outgoing : {W : Type 0} → Sender W → Sender W
clear_outgoing s = record s { outgoing = []; outgoing_consumed = 0 }

module _ {W : Type 0} ⦃d : Real W⦄ (tuning : UdpTuning W) where
  abbrev pub halved : W → W
  halved cwnd =
      let half = d.quotient cwnd d.two in
      if d.less tuning.min_cwnd half then half else tuning.min_cwnd

  unfoldable pub refill_pacing_tokens : ℕ → Sender W → Sender W
  refill_pacing_tokens now_us s =
      let rtt_us = if ltb 0 s.timer.srtt_us then d.count s.timer.srtt_us else d.assumed_rtt_us in
      let packets_per_us = d.quotient s.congestion.cwnd rtt_us in
      let elapsed_us = d.count (since now_us s.last_token_us) in
      let tokens = d.sum s.send_tokens (d.product elapsed_us packets_per_us) in
      record s {
        last_token_us = now_us;
        send_tokens =
            if s.last_token_us == 0
            then tuning.max_burst
            else if d.less tuning.max_burst tokens
            then tuning.max_burst
            else tokens;
      }

  unfoldable pub send_packet : ℕ → Sender W → Sender W
  send_packet now_us s =
      let size = min (length s.outgoing - s.outgoing_consumed) udp_max_payload in
      let payload = take size (drop s.outgoing_consumed s.outgoing) in
      let datagram = write_header (data_header s.next_sequence s.receive_next size) ++ payload in
      let packet : SentPacket = record {
        sequence = s.next_sequence;
        datagram = datagram;
        sent_us = now_us;
        transmissions = 1;
        acknowledged = false;
      } in
      record s {
        send_tokens = d.difference s.send_tokens d.one;
        next_sequence = next_sequence s.next_sequence;
        outgoing_consumed = s.outgoing_consumed + size;
        unacknowledged = s.unacknowledged ++ packet ∷ [];
        send_batch = s.send_batch ++ datagram ∷ [];
      }

  -- The loop; `none` is one that needs more rounds.
  unfoldable pub fill_loop : ℕ → ℕ → Sender W → Option (Sender W)
  fill_loop zero now_us s = none
  fill_loop (suc n) now_us s =
      let rest = fill_loop n now_us (send_packet now_us s) in
      if not (ltb s.outgoing_consumed (length s.outgoing))
      then some s
      else if d.at_least (d.count (length s.unacknowledged)) s.congestion.cwnd
      then some s
      else if d.less s.send_tokens d.one
      then some s
      else rest

  unfoldable pub fill_window : ℕ → Sender W → Option (Sender W)
  fill_window now_us s =
      fill_loop (length s.outgoing - s.outgoing_consumed + 1) now_us (refill_pacing_tokens now_us s)

  unfoldable pub retransmit_timed_out : ℕ → Sender W → Result (Sender W)
  retransmit_timed_out now_us s = elim s.unacknowledged [
    | [] ↦ ok s
    | oldest ∷ others ↦
        let timeouts = (s.consecutive_timeouts + 1) % 2 ^ 32 in
        let again = resend now_us s.receive_next oldest in
        if ltb (since now_us oldest.sent_us) s.timer.rto_us
        then ok s
        else if ltb tuning.max_timeouts timeouts
        then err (timed_out timeouts)
        else ok (record s {
          consecutive_timeouts = timeouts;
          congestion = record {
            cwnd = tuning.min_cwnd;
            ssthresh = halved s.congestion.cwnd;
            cwnd_fraction = d.nought;
          };
          timer = record s.timer { rto_us = min tuning.max_rto_us (s.timer.rto_us * 2 % 2 ^ 64) };
          send_tokens = d.nought;
          unacknowledged = again ∷ others;
          send_batch = s.send_batch ++ again.datagram ∷ [];
        })
  ]
