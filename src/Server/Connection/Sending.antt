-- ===== src/Server/Connection/Sending.antt =====
-- The output buffer of server/src/connection.cpp: what is queued is sent, in order.
use drop_zone.Base.{
  ℕ, zero, suc, ◌+◌, ◌*◌, ◌≤◌, ◌≡◌, refl, ap, subst, sym, ◌∙◌, inl, inr, Bool, true, ◌&&◌, List, [],
  ◌∷◌, ◌++◌, append_assoc, Option, none, some, Bool-cases, length, length-append, take, drop,
  drop-drop, drop-append, drop-length, take-append-drop, min, ltb, ◌==◌, ==_iff, if◌then◌else◌,
  arith,
}
use drop_zone.Base.Result.{ok}
use drop_zone.Wire.Header.{encode_frame_header, protocol_version, max_frame_length}
use drop_zone.Server.Connection.{
  Output, compact_output, enqueue_frame, pending_output, flush_output, Sent, room, send_interrupted,
  send_would_block, send_failed, cleared,
}

-- The bytes that wait to be sent.
unfoldable pub waiting : Output → List ℕ
waiting c = drop c.output_sent c.output

-- The cursor is within the buffer.
abbrev pub Within : Output → Type 0
Within c = c.output_sent ≤ length c.output

compact_output-waiting :
    (c : Output) → Within c → Within (compact_output c) × (waiting (compact_output c) ≡ waiting c)
unfolding compact_output waiting
compact_output-waiting c w =
    elim (Bool-cases (ltb 0 c.output_sent && c.output_sent == length c.output)) [
      | inl t ↦
          let all_sent : c.output_sent ≡ length c.output = ground (arith, t) in
          rw t (omega arith, rw all_sent (sym (drop-length c.output)))
      | inr f ↦ elim (Bool-cases (ltb (64 * 1024) c.output_sent)) [
        | inl t ↦ rw (f, t) (omega arith, refl)
        | inr g ↦ rw (f, g) (w, refl)
      ]
    ]

-- The bytes of a frame.
abbrev pub frame_bytes : ℕ → ℕ → List ℕ → List ℕ
frame_bytes type flags payload =
    encode_frame_header
      (record { version = protocol_version; type = type; flags = flags; length = length payload })
    ++ payload

enqueue_frame-waiting :
    (type flags : ℕ) (payload : List ℕ) (c d : Output)
    → Within c
    → enqueue_frame type flags payload c ≡ ok d
    → Within d × (waiting d ≡ waiting c ++ frame_bytes type flags payload)
unfolding enqueue_frame waiting
enqueue_frame-waiting type flags payload c d w e =
    elim (Bool-cases (ltb max_frame_length (length payload))) [
      | inl t ↦ let e' = rw t at e in cc
      | inr f ↦
          let (within, same) = compact_output-waiting c w in
          let before = compact_output c in
          let bytes = frame_bytes type flags payload in
          let e' = rw f at e in
          let made : record before { output = before.output ++ bytes } ≡ d = cc in
          rw⁻¹ made (
            omega (arith, within, length-append before.output bytes),
            drop-append before.output_sent before.output bytes within ∙ ap (λ bs. bs ++ bytes) same,
          )
    ]

-- What the result of `flush_output` says of the bytes.
Flushed : Output → Option (Bool × List ℕ × Output) → Type 0
Flushed c none = Unit
Flushed c (some (result, bytes, d)) = Within d × (waiting c ≡ bytes ++ waiting d)

drop_all : (n : ℕ) (xs : List ℕ) → length xs ≤ n → drop n xs ≡ []
drop_all zero [] h = refl
drop_all (suc n) [] h = refl
drop_all zero (x ∷ xs) h = absurd (omega arith)
drop_all (suc n) (x ∷ xs) h = drop_all n xs (omega arith)

Within-pending :
    (n : ℕ) (c : Output) → Within c → c.output_sent + min n (pending_output c) ≤ length c.output
unfolding pending_output
Within-pending n c w = omega (arith, w)

nothing_waits : (c : Output) → (pending_output c == 0) ≡ true → waiting c ≡ []
unfolding waiting pending_output
nothing_waits c h = drop_all c.output_sent c.output (ground (arith, h))

taken_first :
    (n sent : ℕ) (bytes : List ℕ)
    → drop sent bytes ≡ take n (drop sent bytes) ++ drop (sent + n) bytes
taken_first n sent bytes =
    sym (take-append-drop n (drop sent bytes))
    ∙ ap (◌++◌ (take n (drop sent bytes))) (drop-drop n sent bytes)

unless_empty :
    (c : Output) (otherwise : Option (Bool × List ℕ × Output))
    → Flushed c otherwise
    → Flushed c (if pending_output c == 0 then some (true, [], cleared) else otherwise)
unfolding Flushed waiting
unless_empty c otherwise h = elim (Bool-cases (pending_output c == 0)) [
  | inl t ↦ rw t (omega arith, nothing_waits c t)
  | inr f ↦ rw f h
]

-- The bytes of one send() come before those of the ones after it.
then_more :
    (c after : Output) (now : List ℕ) (o : Option (Bool × List ℕ × Output))
    → waiting c ≡ now ++ waiting after
    → Flushed after o
    → Flushed c
        (elim o [ none ↦ none | some (result, more, last) ↦ some (result, now ++ more, last) ])
unfolding Flushed
then_more c after now none first h = tt
then_more c after now (some (result, more, last)) first h =
    (h.0, first ∙ (ap (◌++◌ now) h.1 ∙ sym (append_assoc now more (waiting last))))

flush_output-Flushed :
    (answers : List Sent) (c : Output) → Within c → Flushed c (flush_output answers c)
unfolding flush_output Flushed waiting
flush_output-Flushed [] c w = unless_empty c none tt
flush_output-Flushed (room n ∷ rest) c w =
    let written = min n (pending_output c) in
    let after : Output = record c { output_sent = c.output_sent + written } in
    let bytes = take written (waiting c) in
    let first = taken_first written c.output_sent c.output in
    let inside : after.output_sent ≤ length c.output = Within-pending n c w in
    unless_empty c _ (elim (Bool-cases (ltb 0 written)) [
      | inr z ↦ rw z (w, refl)
      | inl p ↦ elim (Bool-cases (after.output_sent == length c.output)) [
        | inl t ↦
            let none_left : drop after.output_sent c.output ≡ [] =
              rw ((==_iff after.output_sent (length c.output)).0 t) (drop-length c.output) in
            rw (p, t) (omega arith, first ∙ ap (◌++◌ bytes) none_left)
        | inr g ↦
            rw (p, g)
              (then_more c after bytes (flush_output rest after) first
                (flush_output-Flushed rest after inside))
      ]
    ])
flush_output-Flushed (send_interrupted ∷ rest) c w =
    unless_empty c _ (flush_output-Flushed rest c w)
flush_output-Flushed (send_would_block ∷ rest) c w = unless_empty c _ (w, refl)
flush_output-Flushed (send_failed ∷ rest) c w = unless_empty c _ (w, refl)

-- The frames that are queued and the bytes that send() has taken, over any sequence of the two
-- operations.
pub data Sending : List ℕ → List ℕ → Output → Type 0 where
  nothing_yet : Sending [] [] cleared
  enqueues :
      {queued sent : List ℕ} {c d : Output} (type flags : ℕ) (payload : List ℕ)
      → Sending queued sent c
      → enqueue_frame type flags payload c ≡ ok d
      → Sending (queued ++ frame_bytes type flags payload) sent d
  flushes :
      {queued sent bytes : List ℕ} {c d : Output} {result : Bool} (answers : List Sent)
      → Sending queued sent c
      → flush_output answers c ≡ some (result, bytes, d)
      → Sending queued (sent ++ bytes) d

-- Whatever send() takes at a time and whenever frames are queued in between, what has been sent,
-- followed by what waits, is the frames that were queued, in order: no byte is lost, repeated or
-- moved when the buffer is cleared or compacted.
pub sent-waiting :
    (queued sent : List ℕ) (c : Output)
    → Sending queued sent c
    → Within c × (sent ++ waiting c ≡ queued)
unfolding Flushed waiting
sent-waiting _ _ _ nothing_yet = (omega arith, refl)
sent-waiting _ sent d (enqueues {queued = queued} {c = c} type flags payload s e) =
    let (w, same) = sent-waiting queued sent c s in
    let (within, grown) = enqueue_frame-waiting type flags payload c d w e in
    (
      within,
      ap (◌++◌ sent) grown
          ∙ (sym (append_assoc sent (waiting c) (frame_bytes type flags payload))
              ∙ ap (λ bs. bs ++ frame_bytes type flags payload) same),
    )
sent-waiting queued _ d (flushes {sent = sent} {bytes = bytes} {c = c} answers s e) =
    let (w, same) = sent-waiting queued sent c s in
    let (within, split) : Within d × (waiting c ≡ bytes ++ waiting d) =
      subst (Flushed c) e (flush_output-Flushed answers c w) in
    (within, append_assoc sent bytes (waiting d) ∙ (ap (◌++◌ sent) (sym split) ∙ same))
