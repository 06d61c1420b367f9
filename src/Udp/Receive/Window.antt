-- ===== src/Udp/Receive/Window.antt =====
-- The reorder buffer of client/src/reliable_udp.cpp: every packet in it is one that the peer sent.
use drop_zone.Base.{
  ℕ, suc, ◌+◌, ◌%◌, ◌^◌, ◌≤◌, ◌<◌, ◌≡◌, ap, sym, ◌∙◌, List, [], ◌∷◌, some, Bool-cases, inl, inr,
  ◌==◌, ==_iff, arith,
}
use drop_zone.Udp.Sequence.{same_sequence}
use drop_zone.Udp.Receive.{Buffer, find_packet, erase_packet}

pub record Entry (payload : ℕ → List ℕ) (N s : ℕ) (p : List ℕ) : Type 0 where
  pub number : ℕ
  pub low : N ≤ number
  pub high : number < N + 2 ^ 31
  pub wrapped : s ≡ number % 2 ^ 32
  pub content : p ≡ payload number

-- The packets awaited after the N that have been delivered.
pub data InWindow (payload : ℕ → List ℕ) (N : ℕ) : Buffer → Type 0 where
  none_waiting : InWindow payload N []
  waiting :
      {s : ℕ} {p : List ℕ} {b : Buffer}
      → Entry payload N s p
      → InWindow payload N b
      → InWindow payload N ((s, p) ∷ b)

find-InWindow_here :
    (payload : ℕ → List ℕ) (N s : ℕ) (p : List ℕ)
    → Entry payload N s p
    → s ≡ N % 2 ^ 32
    → p ≡ payload N
find-InWindow_here payload N s p h e =
    h.content ∙ ap payload (same_sequence h.number N h.low h.high (sym h.wrapped ∙ e))

next-Entry :
    (payload : ℕ → List ℕ) (N s : ℕ) (p : List ℕ)
    → Entry payload N s p
    → ¬ (s ≡ N % 2 ^ 32)
    → Entry payload (suc N) s p
next-Entry payload N s p h d = record {
  number = h.number;
  low = ground (arith, h.low, h.wrapped, d);
  high = omega (arith, h.high);
  wrapped = h.wrapped;
  content = h.content;
}

pub find-InWindow :
    (payload : ℕ → List ℕ) (N : ℕ) (b : Buffer) (p : List ℕ)
    → InWindow payload N b
    → find_packet (N % 2 ^ 32) b ≡ some p
    → p ≡ payload N
unfolding find_packet
find-InWindow payload N _ p none_waiting e = ground arith
find-InWindow payload N _ p (waiting {s = s} {p = q} {b = b} h w) e =
    elim (Bool-cases (s == N % 2 ^ 32)) [
      | inl t ↦
          let awaited = find-InWindow_here payload N s q h ((==_iff s (N % 2 ^ 32)).0 t) in
          let e' = rw t at e in cc
      | inr f ↦ find-InWindow payload N b p w (let e' = rw f at e in e')
    ]

pub erase-InWindow :
    (payload : ℕ → List ℕ) (N : ℕ) (b : Buffer)
    → InWindow payload N b
    → InWindow payload (suc N) (erase_packet (N % 2 ^ 32) b)
unfolding erase_packet
erase-InWindow payload N _ none_waiting = none_waiting
erase-InWindow payload N _ (waiting {s = s} {p = q} {b = b} h w) =
    elim (Bool-cases (s == N % 2 ^ 32)) [
      | inl t ↦ rw t (erase-InWindow payload N b w)
      | inr f ↦ rw f (
          waiting (next-Entry payload N s q h (λ e. absurd (ground (arith, f, e))))
            (erase-InWindow payload N b w))
    ]
