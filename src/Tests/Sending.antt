-- ===== src/Tests/Sending.antt =====
-- The properties of the send side of the UDP channel, with whole numbers for a `double`.
use drop_zone.Base.{ℕ, ◌+◌, ◌-◌, ◌*◌, ◌/◌, ◌≡◌, refl, [], ◌∷◌, none, some, leb, ltb}
use drop_zone.Udp.Send.{
  Real, UdpTuning, Sender, append_outgoing, fill_window, fill_loop, send_packet,
  refill_pacing_tokens,
}
use drop_zone.Udp.Send.Ack.{
  process_ack, pop_acknowledged, mark_reported, update_rtt, grow, fast_retransmit,
}
use drop_zone.Udp.Send.Flight.{payloads}
use drop_zone.Udp.Packet.{write_header}
use drop_zone.Wire.Endian.{store_u16, store_u32, store_u64}

instance abbrev whole_numbers : Real ℕ
whole_numbers = record {
  nought = 0;
  one = 1;
  two = 2;
  assumed_rtt_us = 50000;
  count = λ n. n;
  sum = λ a b. a + b;
  difference = λ a b. a - b;
  product = λ a b. a * b;
  quotient = λ a b. a / b;
  less = ltb;
  at_least = λ a b. leb b a;
}

abbrev small_tuning : UdpTuning ℕ
small_tuning = record {
  min_cwnd = 2;
  max_cwnd = 8;
  max_burst = 4;
  min_rto_us = 200000;
  max_rto_us = 4000000;
  fast_retransmit_threshold = 3;
  max_timeouts = 10;
}

abbrev empty_channel : Sender ℕ
empty_channel = record {
  outgoing = [];
  outgoing_consumed = 0;
  unacknowledged = [];
  next_sequence = 0;
  send_base = 0;
  congestion = record { cwnd = 2; ssthresh = 8; cwnd_fraction = 0 };
  consecutive_timeouts = 0;
  timer = record { srtt_us = 0; rttvar_us = 0; rto_us = 200000 };
  send_tokens = 0;
  last_token_us = 0;
  receive_next = 0;
  send_batch = [];
}

abbrev filled_channel : ℕ → Sender ℕ → Sender ℕ
filled_channel now_us s = elim (fill_window small_tuning now_us s) [ none ↦ s | some t ↦ t ]

abbrev three_written : Sender ℕ
three_written = append_outgoing (1 ∷ 2 ∷ 3 ∷ []) empty_channel

three_in_flight : payloads (filled_channel 5 three_written).unacknowledged ≡ (1 ∷ 2 ∷ 3 ∷ []) ∷ []
unfolding fill_window fill_loop send_packet refill_pacing_tokens append_outgoing write_header
    store_u16 store_u32 store_u64
three_in_flight = refl

-- Two more bytes are written and sent, and the packet of the first three is acknowledged.
abbrev five_written : Sender ℕ
five_written = append_outgoing (4 ∷ 5 ∷ []) (filled_channel 5 three_written)

abbrev two_left : Sender ℕ
two_left = process_ack small_tuning 1 0 105 (filled_channel 6 five_written)

two_in_flight : payloads two_left.unacknowledged ≡ (4 ∷ 5 ∷ []) ∷ []
unfolding fill_window fill_loop send_packet refill_pacing_tokens append_outgoing process_ack
    pop_acknowledged mark_reported update_rtt grow fast_retransmit write_header store_u16 store_u32
    store_u64
two_in_flight = refl
