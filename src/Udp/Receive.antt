-- ===== src/Udp/Receive.antt =====
-- client/src/reliable_udp.cpp, the receive side: the reorder buffer, in-order delivery and the read
-- cursor. The std::map is a list of pairs with distinct keys.
pub mod Window
pub mod Invariant
pub mod Delivery
pub mod Stream
use drop_zone.Base.{
  ℕ, zero, suc, ◌+◌, ◌-◌, ◌*◌, ◌/◌, ◌%◌, ◌^◌, Bool, true, false, not, ◌&&◌, List, [], ◌∷◌, ◌++◌,
  Option, none, some, length, take, drop, min, ltb, leb, ◌==◌, if◌then◌else◌,
}
use drop_zone.Base.Result.{Result, ok, err, reorder_overflow}
use drop_zone.Udp.Sequence.{distance, is_negative, next_sequence}

abbrev pub max_reorder_packets : ℕ
max_reorder_packets = 16384

abbrev pub max_delivered_backlog : ℕ
max_delivered_backlog = 8 * 1024 * 1024

abbrev pub Buffer : Type 0
Buffer = List (ℕ × List ℕ)

unfoldable pub find_packet : ℕ → Buffer → Option (List ℕ)
find_packet s [] = none
find_packet s ((k, p) ∷ b) = if k == s then some p else find_packet s b

unfoldable pub erase_packet : ℕ → Buffer → Buffer
erase_packet s [] = []
erase_packet s ((k, p) ∷ b) = if k == s then erase_packet s b else (k, p) ∷ erase_packet s b

abbrev pub is_some {ℓ} : {A : Type ℓ} → Option A → Bool
is_some none = false
is_some (some a) = true

pub record Receiver : Type 0 where
  pub receive_next : ℕ
  pub reorder_buffer : Buffer
  pub delivered : List ℕ
  pub delivered_consumed : ℕ
  pub ack_pending : Bool
  pub duplicates_received : ℕ
  pub reordered_received : ℕ

abbrev pub new_receiver : Receiver
new_receiver = record {
  receive_next = 0;
  reorder_buffer = [];
  delivered = [];
  delivered_consumed = 0;
  ack_pending = false;
  duplicates_received = 0;
  reordered_received = 0;
}

-- `reorder_buffer_.emplace(sequence, payload)`, which keeps an entry that is there, and the
-- acknowledgement that it asks for.
pub insert_packet : Receiver → ℕ → List ℕ → Receiver
insert_packet c s payload =
    if is_some (find_packet s c.reorder_buffer)
    then record c { ack_pending = true; duplicates_received = (c.duplicates_received + 1) % 2 ^ 64 }
    else record c { reorder_buffer = (s, payload) ∷ c.reorder_buffer; ack_pending = true }

pub count_reordered : Receiver → ℕ → Receiver
count_reordered c word =
    if ltb 0 word then record c { reordered_received = (c.reordered_received + 1) % 2 ^ 64 } else c

-- `process_packet`, the case of a data packet.
unfoldable pub receive_data : Receiver → ℕ → List ℕ → Result Receiver
unfolding insert_packet count_reordered
receive_data c s payload =
    let word = distance s c.receive_next in
    if is_negative word
    then ok (record c {
      ack_pending = true;
      duplicates_received = (c.duplicates_received + 1) % 2 ^ 64;
    })
    else if leb max_reorder_packets (length c.reorder_buffer)
    then err reorder_overflow
    else ok (insert_packet (count_reordered c word) s payload)

-- The packet that is next goes to the application.
unfoldable pub deliver_packet : Receiver → List ℕ → Receiver
deliver_packet c payload = record c {
  delivered = c.delivered ++ payload;
  reorder_buffer = erase_packet c.receive_next c.reorder_buffer;
  receive_next = next_sequence c.receive_next;
}

-- The loop of `deliver_in_order`.
pub deliver_loop : ℕ → Receiver → Receiver
deliver_loop zero c = c
deliver_loop (suc fuel) c =
    if leb max_delivered_backlog (length c.delivered - c.delivered_consumed)
    then c
    else elim (find_packet c.receive_next c.reorder_buffer) [
      | none ↦ c
      | some payload ↦ deliver_loop fuel (deliver_packet c payload)
    ]

pub compact : Receiver → Receiver
compact c =
    if ltb 0 c.delivered_consumed && leb (length c.delivered / 2) c.delivered_consumed
    then record c { delivered = drop c.delivered_consumed c.delivered; delivered_consumed = 0 }
    else c

-- Each round takes a packet out of the buffer, so one more round than it has packets is enough.
unfoldable pub deliver_in_order : Receiver → Receiver
unfolding deliver_packet deliver_loop compact erase_packet find_packet
deliver_in_order c = compact (deliver_loop (suc (length c.reorder_buffer)) c)

-- One round of `read_exactly`: copy what is there, at most `wanted` bytes.
unfoldable pub read_some : ℕ → Receiver → List ℕ × Receiver
read_some wanted c =
    let available = length c.delivered - c.delivered_consumed in
    let count = min available wanted in
    let bytes = take count (drop c.delivered_consumed c.delivered) in
    let consumed = c.delivered_consumed + count in
    if consumed == length c.delivered
    then (bytes, record c { delivered = []; delivered_consumed = 0 })
    else (bytes, record c { delivered_consumed = consumed })
