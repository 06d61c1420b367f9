-- ===== src/Udp/Receive/Invariant.antt =====
-- What the receive side of client/src/reliable_udp.cpp keeps while the peer's n-th packet carries
-- `payload n` under the wrapped counter n % 2 ^ 32.
use drop_zone.Base.{
  ℕ, zero, suc, ◌+◌, ◌-◌, ◌/◌, ◌%◌, ◌&&◌, ◌^◌, ◌≤◌, ◌<◌, ◌≡◌, refl, ap, sym, ◌∙◌, inl, inr, true,
  false, List, [], ◌++◌, append_assoc, none, some, Option-cases, Bool-cases, length, take, drop,
  drop-drop, drop-append, drop-length, take-append-drop, min, ltb, ltb→lt, ==_iff, leb, ◌==◌,
  if◌then◌else◌, arith, length-append,
}
use drop_zone.Base.Result.{Result, ok, err}
use drop_zone.Udp.Sequence.{distance, distance-ahead, distance-behind, is_negative}
use drop_zone.Udp.Receive.{
  Receiver, receive_data, insert_packet, count_reordered, find_packet, deliver_packet, deliver_loop,
  compact, read_some, max_delivered_backlog, is_some, max_reorder_packets,
}
use drop_zone.Udp.Receive.Window.{Entry, waiting, InWindow, find-InWindow, erase-InWindow}

-- The bytes of the first n packets.
unfoldable pub stream : (ℕ → List ℕ) → ℕ → List ℕ
stream payload zero = []
stream payload (suc n) = stream payload n ++ payload n

-- The number of packets delivered when the loop of `deliver_in_order` ends, from N before it.
unfoldable pub delivered_by : ℕ → ℕ → Receiver → ℕ
delivered_by zero N c = N
delivered_by (suc fuel) N c =
    if leb max_delivered_backlog (length c.delivered - c.delivered_consumed)
    then N
    else elim (find_packet c.receive_next c.reorder_buffer) [
      | none ↦ N
      | some payload ↦ delivered_by fuel (suc N) (deliver_packet c payload)
    ]

unfoldable pub buffered : Receiver → List ℕ
buffered c = drop c.delivered_consumed c.delivered

module _ (payload : ℕ → List ℕ) where
  -- After the packets before N have been delivered and the application has read `out`.
  pub record Inv (N : ℕ) (c : Receiver) (out : List ℕ) : Type 0 where
    pub next : c.receive_next ≡ N % 2 ^ 32
    pub window : InWindow payload N c.reorder_buffer
    pub consumed : c.delivered_consumed ≤ length c.delivered
    pub bytes : out ++ drop c.delivered_consumed c.delivered ≡ stream payload N

  deliver_packet-Inv :
      (N : ℕ) (c : Receiver) (out p : List ℕ)
      → Inv N c out
      → find_packet c.receive_next c.reorder_buffer ≡ some p
      → Inv (suc N) (deliver_packet c p) out
  unfolding deliver_packet stream buffered
  deliver_packet-Inv N c out p i e =
      let content =
        find-InWindow payload N c.reorder_buffer p i.window (let e' = rw i.next at e in e') in
      record {
        next = omega (arith, i.next);
        window = rw i.next (erase-InWindow payload N c.reorder_buffer i.window);
        consumed = omega (arith, i.consumed, length-append c.delivered p);
        bytes =
            rw (drop-append c.delivered_consumed c.delivered p i.consumed, content)
              (sym (append_assoc out (buffered c) (payload N))
                ∙ ap (λ bs. bs ++ payload N) i.bytes);
      }

  pub deliver_loop-Inv :
      (fuel N : ℕ) (c : Receiver) (out : List ℕ)
      → Inv N c out
      → Inv (delivered_by fuel N c) (deliver_loop fuel c) out
  unfolding deliver_loop delivered_by
  deliver_loop-Inv zero N c out i = i
  deliver_loop-Inv (suc fuel) N c out i =
      elim (Bool-cases (leb max_delivered_backlog (length c.delivered - c.delivered_consumed))) [
        | inl t ↦ rw t i
        | inr f ↦ elim (Option-cases (find_packet c.receive_next c.reorder_buffer)) [
          | inl e ↦ rw (f, e) i
          | inr (p, e) ↦
              rw (f, e)
                (deliver_loop-Inv fuel (suc N) (deliver_packet c p) out
                  (deliver_packet-Inv N c out p i e))
        ]
      ]

  pub compact-Inv : (N : ℕ) (c : Receiver) (out : List ℕ) → Inv N c out → Inv N (compact c) out
  unfolding compact
  compact-Inv N c out i =
      elim (Bool-cases
        (ltb 0 c.delivered_consumed && leb (length c.delivered / 2) c.delivered_consumed)) [
          | inl t ↦
              rw t (record {
                next = i.next;
                window = i.window;
                consumed = omega arith;
                bytes = i.bytes;
              })
          | inr f ↦ rw f i
        ]

  count_reordered-Inv :
      (N word : ℕ) (c : Receiver) (out : List ℕ) → Inv N c out → Inv N (count_reordered c word) out
  unfolding count_reordered
  count_reordered-Inv N word c out i = elim (Bool-cases (ltb 0 word)) [
    | inl t ↦
        rw t (record { next = i.next; window = i.window; consumed = i.consumed; bytes = i.bytes })
    | inr f ↦ rw f i
  ]

  insert_packet-Inv :
      (N s : ℕ) (p : List ℕ) (c : Receiver) (out : List ℕ)
      → Entry payload N s p
      → Inv N c out
      → Inv N (insert_packet c s p) out
  unfolding insert_packet
  insert_packet-Inv N s p c out h i = elim (Bool-cases (is_some (find_packet s c.reorder_buffer))) [
    | inl t ↦
        rw t (record { next = i.next; window = i.window; consumed = i.consumed; bytes = i.bytes })
    | inr f ↦ rw f (record {
      next = i.next;
      window = waiting h i.window;
      consumed = i.consumed;
      bytes = i.bytes;
    })
  ]

  -- The invariant, where there is a next state.
  unfoldable pub Kept : (N : ℕ) (out : List ℕ) → Result Receiver → Type 0
  Kept N out (ok d) = Inv N d out
  Kept N out (err x) = Unit

  pub receive_data-Kept :
      (N n : ℕ) (c : Receiver) (out : List ℕ)
      → Inv N c out
      → N ≤ n + 2 ^ 31
      → n < N + 2 ^ 31
      → Kept N out (receive_data c (n % 2 ^ 32) (payload n))
  unfolding receive_data Kept
  receive_data-Kept N n c out i low high = elim (Bool-cases (ltb n N)) [
    | inl t ↦
        let behind : is_negative (distance (n % 2 ^ 32) c.receive_next) ≡ true =
          rw i.next (distance-behind n N (ltb→lt n N t) low) in
        rw behind
          (record { next = i.next; window = i.window; consumed = i.consumed; bytes = i.bytes })
    | inr f ↦
        let ahead : N ≤ n = ground (arith, f) in
        let near : is_negative (distance (n % 2 ^ 32) c.receive_next) ≡ false =
          rw (i.next, distance-ahead n N ahead high) (ground (arith, high)) in
        let h : Entry payload N (n % 2 ^ 32) (payload n) = record {
          number = n;
          low = ahead;
          high = high;
          wrapped = refl;
          content = refl;
        } in
        elim (Bool-cases (leb max_reorder_packets (length c.reorder_buffer))) [
          | inl t ↦ rw (near, t) tt
          | inr g ↦ rw (near, g) (insert_packet-Inv N _ _ _ out h (count_reordered-Inv N _ c out i))
        ]
  ]

  pub read_some-Inv :
      (N wanted : ℕ) (c : Receiver) (out : List ℕ)
      → Inv N c out
      → let (bytes, d) = read_some wanted c in Inv N d (out ++ bytes)
  unfolding read_some
  read_some-Inv N wanted c out i =
      let available = length c.delivered - c.delivered_consumed in
      let count = min available wanted in
      let unread = drop c.delivered_consumed c.delivered in
      let rest : take count unread ++ drop (c.delivered_consumed + count) c.delivered ≡ unread =
        ap (◌++◌ (take count unread)) (sym (drop-drop count c.delivered_consumed c.delivered))
        ∙ take-append-drop count unread in
      let bytes : (out ++ take count unread) ++ drop (c.delivered_consumed + count) c.delivered
          ≡ stream payload N =
        append_assoc out _ _ ∙ ap (◌++◌ out) rest ∙ i.bytes in
      let drop_all : (c.delivered_consumed + count == length c.delivered) ≡ true
          → drop (c.delivered_consumed + count) c.delivered ≡ [] =
        λ e.
          rw ((==_iff (c.delivered_consumed + count) (length c.delivered)).0 e)
            (drop-length c.delivered) in
      elim (Bool-cases (c.delivered_consumed + count == length c.delivered)) [
        | inl t ↦ rw t (record {
          next = i.next;
          window = i.window;
          consumed = omega arith;
          bytes = rw (drop_all t) at bytes;
        })
        | inr f ↦ rw f (record {
          next = i.next;
          window = i.window;
          consumed = omega (arith, i.consumed);
          bytes = bytes;
        })
      ]
