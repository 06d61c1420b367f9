-- ===== src/Udp/Receive/Delivery.antt =====
-- The loop of `deliver_in_order` in client/src/reliable_udp.cpp ends, and where.
use drop_zone.Base.{
  ℕ, zero, suc, ◌-◌, ◌/◌, ◌≤◌, ◌<◌, ◌≡◌, ◌⊎◌, inl, inr, List, [], ◌∷◌, none, some, Option-cases,
  Bool-cases, length, length-drop, ltb, ◌&&◌, leb, ◌==◌, arith,
}
use drop_zone.Udp.Receive.{
  Receiver, Buffer, find_packet, erase_packet, deliver_packet, deliver_loop, compact,
  deliver_in_order, max_delivered_backlog,
}

length-erase_packet : (s : ℕ) (b : Buffer) → length (erase_packet s b) ≤ length b
unfolding erase_packet
length-erase_packet s [] = omega arith
length-erase_packet s ((k, p) ∷ b) = ground (arith, length-erase_packet s b)

length-erase_packet_found :
    (s : ℕ) (b : Buffer) (p : List ℕ)
    → find_packet s b ≡ some p
    → length (erase_packet s b) < length b
unfolding find_packet erase_packet
length-erase_packet_found s [] p e = ground arith
length-erase_packet_found s ((k, q) ∷ b) p e = elim (Bool-cases (k == s)) [
  | inl t ↦ rw t (omega (arith, length-erase_packet s b))
  | inr f ↦ let e' = rw f at e in rw f (omega (arith, length-erase_packet_found s b p e'))
]

abbrev Ended : Receiver → Type 0
Ended c =
    (max_delivered_backlog ≤ length c.delivered - c.delivered_consumed)
    ⊎ (find_packet c.receive_next c.reorder_buffer ≡ none)

compact-Ended : (c : Receiver) → Ended c → Ended (compact c)
unfolding compact
compact-Ended c h =
    elim (Bool-cases
      (ltb 0 c.delivered_consumed && leb (length c.delivered / 2) c.delivered_consumed)) [
        | inl t ↦ rw t (elim h [
          | inl k ↦ inl (omega (arith, k, length-drop c.delivered_consumed c.delivered))
          | inr n ↦ inr n
        ])
        | inr f ↦ rw f h
      ]

deliver_loop-ends :
    (fuel : ℕ) (c : Receiver) → length c.reorder_buffer < fuel → Ended (deliver_loop fuel c)
unfolding deliver_loop deliver_packet
deliver_loop-ends zero c h = ground arith
deliver_loop-ends (suc fuel) c h =
    elim (Bool-cases (leb max_delivered_backlog (length c.delivered - c.delivered_consumed))) [
      | inl t ↦ rw t (inl (ground (arith, t)))
      | inr f ↦ elim (Option-cases (find_packet c.receive_next c.reorder_buffer)) [
        | inl e ↦ rw (f, e) (inr e)
        | inr (p, e) ↦
            let shorter = length-erase_packet_found c.receive_next c.reorder_buffer p e in
            rw (f, e) (deliver_loop-ends fuel (deliver_packet c p) (omega (arith, shorter, h)))
      ]
    ]

-- `deliver_in_order` runs to its end: afterwards the bytes that wait for the application have reached
-- their limit, or the packet that is awaited is not in the buffer.
pub deliver_in_order-ends :
    (c : Receiver)
    → let d = deliver_in_order c in
      (max_delivered_backlog ≤ length d.delivered - d.delivered_consumed)
      ⊎ (find_packet d.receive_next d.reorder_buffer ≡ none)
unfolding deliver_in_order
deliver_in_order-ends c =
    compact-Ended _ (deliver_loop-ends (suc (length c.reorder_buffer)) c (omega arith))
