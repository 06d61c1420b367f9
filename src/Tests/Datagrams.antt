-- ===== src/Tests/Datagrams.antt =====
-- The properties of the UDP packets and of the receive side, at concrete values.
use drop_zone.Base.{
  ℕ, ◌+◌, ◌-◌, ◌%◌, ◌^◌, ◌≤◌, ◌≡◌, refl, ◌⊎◌, true, List, [], ◌∷◌, ◌++◌, none, some, length, arith,
}
use drop_zone.Base.Result.{ok}
use drop_zone.Udp.Packet.{ParsedHeader, write_header, parse_header, parse-write}
use drop_zone.Udp.Receive.{
  Receiver, new_receiver, receive_data, deliver_in_order, deliver_packet, find_packet, erase_packet,
  read_some, max_delivered_backlog,
}
use drop_zone.Udp.Receive.Invariant.{stream, delivered_by, buffered}
use drop_zone.Udp.Receive.Delivery.{deliver_in_order-ends}
use drop_zone.Udp.Receive.Stream.{Reach, start, arrives, delivers, reads, read-stream}

abbrev packet : ParsedHeader
packet = record { type = 3; sequence = 4000000000; ack = 17; ack_bits = 5; length = 2 }

parse-write_example : parse_header (write_header packet ++ 8 ∷ 9 ∷ []) ≡ some packet
parse-write_example =
    parse-write packet (8 ∷ 9 ∷ [])
      (record {
        sequence_fits = omega arith;
        ack_fits = omega arith;
        bits_fit = omega arith;
        length_fits = omega arith;
      })
      refl

-- Packet n carries the bytes n and n + 1.
abbrev payload : ℕ → List ℕ
payload n = n ∷ (n + 1) ∷ []

abbrev one_waits : Receiver
one_waits = record new_receiver {
  reorder_buffer = (1, 1 ∷ 2 ∷ []) ∷ [];
  ack_pending = true;
  reordered_received = 1;
}

abbrev both_wait : Receiver
both_wait = record one_waits { reorder_buffer = (0, 0 ∷ 1 ∷ []) ∷ (1, 1 ∷ 2 ∷ []) ∷ [] }

abbrev both_delivered : Receiver
both_delivered = record both_wait {
  reorder_buffer = [];
  receive_next = 2;
  delivered = 0 ∷ 1 ∷ 1 ∷ 2 ∷ [];
}

abbrev three_read : Receiver
three_read = record both_delivered { delivered_consumed = 3 }

second_arrives : receive_data new_receiver (1 % 2 ^ 32) (payload 1) ≡ ok one_waits
unfolding receive_data find_packet
second_arrives = refl

first_arrives : receive_data one_waits (0 % 2 ^ 32) (payload 0) ≡ ok both_wait
unfolding receive_data find_packet
first_arrives = refl

both_go : both_delivered ≡ deliver_in_order both_wait
unfolding deliver_in_order find_packet erase_packet
both_go = refl

two_counted : 2 ≡ delivered_by 3 0 both_wait
unfolding delivered_by deliver_packet find_packet erase_packet
two_counted = refl

three_taken : read_some 3 both_delivered ≡ (0 ∷ 1 ∷ 1 ∷ [], three_read)
unfolding read_some
three_taken = refl

run : Reach payload 2 three_read (0 ∷ 1 ∷ 1 ∷ [])
run =
    reads 3
      (delivers
        (arrives 0 (arrives 1 start (omega arith) (omega arith) second_arrives) (omega arith)
          (omega arith) first_arrives)
        two_counted both_go)
      three_taken

read-stream_example :
    (0 ∷ 1 ∷ 1 ∷ [] ++ buffered three_read ≡ stream payload 2)
    × (three_read.receive_next ≡ 2 % 2 ^ 32)
read-stream_example = read-stream payload 2 three_read (0 ∷ 1 ∷ 1 ∷ []) run

deliver_in_order-ends_example :
    let d = deliver_in_order both_wait in
    (max_delivered_backlog ≤ length d.delivered - d.delivered_consumed)
    ⊎ (find_packet d.receive_next d.reorder_buffer ≡ none)
deliver_in_order-ends_example = deliver_in_order-ends both_wait
