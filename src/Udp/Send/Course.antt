-- ===== src/Udp/Send/Course.antt =====
-- client/src/reliable_udp.cpp: the steps of the send side in any order, from an empty channel.
use drop_zone.Base.{ℕ, ◌+◌, ◌-◌, ◌%◌, ◌^◌, ◌<◌, max, ◌≤◌, ◌≡◌, List, [], ◌++◌, some, length}
use drop_zone.Base.Result.{ok}
use drop_zone.Udp.Send.{
  Real, UdpTuning, Sender, append_outgoing, clear_outgoing, fill_window, retransmit_timed_out,
}
use drop_zone.Udp.Send.Ack.{process_ack}
use drop_zone.Udp.Send.Stream.{IsStream}

module _ {W : Type 0} ⦃d : Real W⦄ (tuning : UdpTuning W) where
  -- `written` was handed to write_bytes(), `count` packets were put in the queue, and the peer has said
  -- of those before `confirmed` that it has them.
  pub data Reached : List ℕ → ℕ → ℕ → Sender W → Type 0 where
    starts :
        (s : Sender W)
        → s.unacknowledged ≡ []
        → s.outgoing ≡ []
        → s.outgoing_consumed ≡ 0
        → s.next_sequence ≡ 0
        → Reached [] 0 0 s
    writes :
        {written : List ℕ} {count confirmed : ℕ} {s : Sender W} (bytes : List ℕ)
        → Reached written count confirmed s
        → Reached (written ++ bytes) count confirmed (append_outgoing bytes s)
    clears :
        {written : List ℕ} {count confirmed : ℕ} {s : Sender W}
        → Reached written count confirmed s
        → s.outgoing_consumed ≡ length s.outgoing
        → Reached written count confirmed (clear_outgoing s)
    -- Filling the window only adds to the queue.
    fills :
        {written : List ℕ} {count confirmed : ℕ} {s t : Sender W} (now_us : ℕ)
        → Reached written count confirmed s
        → fill_window tuning now_us s ≡ some t
        → Reached written (count + (length t.unacknowledged - length s.unacknowledged)) confirmed t
    times_out :
        {written : List ℕ} {count confirmed : ℕ} {s t : Sender W} (now_us : ℕ)
        → Reached written count confirmed s
        → retransmit_timed_out tuning now_us s ≡ ok t
        → Reached written count confirmed t
    -- A datagram of the peer says that it awaits packet `heard`, which may be old news, but by fewer
    -- than 2 ^ 31 packets, and is no packet after the next one to be sent.
    hears :
        {written : List ℕ} {count confirmed : ℕ} {s : Sender W} (heard ack_bits now_us : ℕ)
        → Reached written count confirmed s
        → heard ≤ count
        → heard ≤ confirmed + 2 ^ 31
        → count < heard + 2 ^ 31
        → Reached written count
            (max confirmed heard)
            (process_ack tuning (heard % 2 ^ 32) ack_bits now_us s)

  record Tracks (written : List ℕ) (count confirmed : ℕ) (s : Sender W) : Type 0 where
    packets : List (List ℕ)
    sent : List ℕ
    counted : length packets ≡ count
    all : sent ++ s.outgoing ≡ written
    stream : IsStream tuning confirmed packets sent s
