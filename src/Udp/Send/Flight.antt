-- ===== src/Udp/Send/Flight.antt =====
-- client/src/reliable_udp.cpp: the queue of the packets that wait for an acknowledgement, as bytes and as
-- sequence numbers.
use drop_zone.Base.{
  ℕ, zero, suc, ◌+◌, ◌≤◌, ◌≡◌, refl, sym, ap, ◌∙◌, inl, inr, ◌⊎◌, List, [], ◌∷◌, ◌++◌, append-nil,
  append_assoc, length, take, drop, take-append-drop, arith,
}
use drop_zone.Wire.Endian.{store_u16, store_u32, store_u64}
use drop_zone.Udp.Sequence.{next_sequence}
use drop_zone.Udp.Packet.{ParsedHeader, write_header, udp_header_size}
use drop_zone.Udp.Send.{SentPacket}

abbrev pub payload_of : SentPacket → List ℕ
payload_of p = drop udp_header_size p.datagram

-- What was sent and not acknowledged, in order.
abbrev pub payloads : List SentPacket → List (List ℕ)
payloads [] = []
payloads (p ∷ ps) = payload_of p ∷ payloads ps

-- The bytes of packets, one after the other.
abbrev pub joined : List (List ℕ) → List ℕ
joined [] = []
joined (bytes ∷ rest) = bytes ++ joined rest

-- The sequence numbers go up by one, from the first to the one before the last.
abbrev pub Runs : ℕ → List SentPacket → ℕ → Type 0
Runs from [] to = from ≡ to
Runs from (p ∷ ps) to = (p.sequence ≡ from) × Runs (next_sequence from) ps to

pub drop-write_header :
    (h : ParsedHeader) (rest : List ℕ) → drop udp_header_size (write_header h ++ rest) ≡ rest
unfolding write_header store_u16 store_u32 store_u64
drop-write_header h rest = refl

pub payloads-append :
    (ps : List SentPacket) (p : SentPacket)
    → payloads (ps ++ p ∷ []) ≡ payloads ps ++ payload_of p ∷ []
payloads-append [] p = refl
payloads-append (q ∷ ps) p = ap (λ x. payload_of q ∷ x) (payloads-append ps p)

pub length-payloads : (ps : List SentPacket) → length (payloads ps) ≡ length ps
length-payloads [] = refl
length-payloads (p ∷ ps) = ap suc (length-payloads ps)

pub joined-append :
    (packets : List (List ℕ)) (bytes : List ℕ)
    → joined (packets ++ bytes ∷ []) ≡ joined packets ++ bytes
joined-append [] bytes = append-nil bytes
joined-append (first ∷ rest) bytes =
    ap (λ x. first ++ x) (joined-append rest bytes) ∙ sym (append_assoc first (joined rest) bytes)

pub Runs-append :
    (from to : ℕ) (ps : List SentPacket) (p : SentPacket)
    → Runs from ps to
    → p.sequence ≡ to
    → Runs from (ps ++ p ∷ []) (next_sequence to)
Runs-append from to [] p r e = (e ∙ sym r, ap next_sequence r)
Runs-append from to (q ∷ ps) p r e = (r.0, Runs-append (next_sequence from) to ps p r.1 e)

take_nil {ℓ} : {A : Type ℓ} (n : ℕ) → take {A = A} n [] ≡ []
take_nil zero = refl
take_nil (suc n) = refl

pub take_more {ℓ} :
    {A : Type ℓ} (n m : ℕ) (xs : List A) → take n xs ++ take m (drop n xs) ≡ take (n + m) xs
take_more zero m xs = ap (λ k. take k xs) {x = m} {y = 0 + m} (omega arith)
take_more (suc n) m [] = take_nil m ∙ sym (take_nil (suc n + m))
take_more (suc n) m (x ∷ xs) =
    ap (λ ys. x ∷ ys) (take_more n m xs)
    ∙ ap (λ k. take k (x ∷ xs)) {x = suc (n + m)} {y = suc n + m} (omega arith)

pub take_within {ℓ} :
    {A : Type ℓ} (n : ℕ) (xs ys : List A) → n ≤ length xs → take n (xs ++ ys) ≡ take n xs
take_within zero xs ys h = refl
take_within (suc n) [] ys h = absurd (omega (arith, h))
take_within (suc n) (x ∷ xs) ys h = ap (λ zs. x ∷ zs) (take_within n xs ys (omega (arith, h)))

pub queue-cases :
    (ps : List SentPacket)
    → (ps ≡ []) ⊎ ((p : SentPacket) × (rest : List SentPacket) × (ps ≡ p ∷ rest))
queue-cases [] = inl refl
queue-cases (p ∷ rest) = inr (p, rest, refl)

drop_all {ℓ} : {A : Type ℓ} (n : ℕ) (xs : List A) → n ≡ length xs → drop n xs ≡ []
drop_all zero [] e = refl
drop_all zero (x ∷ xs) e = absurd (omega (arith, e))
drop_all (suc n) [] e = refl
drop_all (suc n) (x ∷ xs) e = drop_all n xs (omega (arith, e))

pub length_append_le {ℓ} : {A : Type ℓ} (xs ys : List A) → length xs ≤ length (xs ++ ys)
length_append_le [] ys = omega arith
length_append_le (x ∷ xs) ys = let h = length_append_le xs ys in omega (arith, h)

pub take_all {ℓ} : {A : Type ℓ} (n : ℕ) (xs : List A) → n ≡ length xs → take n xs ≡ xs
take_all n xs e =
    sym (append-nil (take n xs))
    ∙ ap (λ ys. take n xs ++ ys) (sym (drop_all n xs e))
    ∙ take-append-drop n xs
