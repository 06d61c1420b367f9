-- ===== src/Udp/Receive/Stream.antt =====
-- client/src/reliable_udp.cpp: what the application reads, against what the peer sent. The peer's
-- n-th packet carries `payload n` under the wrapped counter n % 2 ^ 32; the network loses, repeats
-- and reorders packets, and delivers none that is 2 ^ 31 or more away from what is awaited.
use drop_zone.Base.{
  ℕ, suc, ◌+◌, ◌%◌, ◌^◌, ◌≤◌, ◌<◌, ◌≡◌, refl, subst, List, [], ◌++◌, length, arith,
}
use drop_zone.Base.Result.{ok}
use drop_zone.Udp.Receive.{Receiver, new_receiver, receive_data, deliver_in_order, read_some}
use drop_zone.Udp.Receive.Window.{none_waiting}
use drop_zone.Udp.Receive.Invariant.{
  stream, delivered_by, buffered, Inv, Kept, deliver_loop-Inv, compact-Inv, receive_data-Kept,
  read_some-Inv,
}

module _ (payload : ℕ → List ℕ) where
  -- What the two ends do, in any order: the network hands over a packet, the receiver delivers, the
  -- application reads. The packets before `N` are delivered, and `out` has been read.
  pub data Reach : ℕ → Receiver → List ℕ → Type 0 where
    start : Reach 0 new_receiver []
    arrives :
        {N : ℕ} {c d : Receiver} {out : List ℕ} (n : ℕ)
        → Reach N c out
        → N ≤ n + 2 ^ 31
        → n < N + 2 ^ 31
        → receive_data c (n % 2 ^ 32) (payload n) ≡ ok d
        → Reach N d out
    delivers :
        {N M : ℕ} {c d : Receiver} {out : List ℕ}
        → Reach N c out
        → M ≡ delivered_by (suc (length c.reorder_buffer)) N c
        → d ≡ deliver_in_order c
        → Reach M d out
    reads :
        {N : ℕ} {c d : Receiver} {out bytes : List ℕ} (wanted : ℕ)
        → Reach N c out
        → read_some wanted c ≡ (bytes, d)
        → Reach N d (out ++ bytes)

  Reach-Inv : (N : ℕ) (c : Receiver) (out : List ℕ) → Reach N c out → Inv payload N c out
  unfolding deliver_in_order Kept stream
  Reach-Inv _ _ _ start = record {
    next = refl;
    window = none_waiting;
    consumed = omega arith;
    bytes = refl;
  }
  Reach-Inv N d out (arrives {c = c} n r low high e) =
      subst (Kept payload N out) e
        (receive_data-Kept payload N n c out (Reach-Inv N c out r) low high)
  Reach-Inv M d out (delivers {N = N} {c = c} r e f) =
      rw (e, f)
        (compact-Inv payload _ _ out (deliver_loop-Inv payload _ N c out (Reach-Inv N c out r)))
  Reach-Inv N d _ (reads {c = c} {out = out} {bytes = bytes} wanted r e) =
      subst (λ p. Inv payload N p.1 (out ++ p.0)) e
        (read_some-Inv payload N wanted c out (Reach-Inv N c out r))

  -- As long as no packet arrives that is 2 ^ 31 or more away from the one awaited: whatever the
  -- network repeats, loses or reorders, and however often the counter wraps, what the
  -- application has read, followed by what waits for it, is the first N packets of the peer in
  -- order, where N is the number of packets delivered, and the counter awaited is that of packet
  -- N.
  pub read-stream :
      (N : ℕ) (c : Receiver) (out : List ℕ)
      → Reach N c out
      → (out ++ buffered c ≡ stream payload N) × (c.receive_next ≡ N % 2 ^ 32)
  unfolding buffered
  read-stream N c out r = let i = Reach-Inv N c out r in (i.bytes, i.next)
