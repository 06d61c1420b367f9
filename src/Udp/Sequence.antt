-- ===== src/Udp/Sequence.antt =====
-- Sequence numbers of client/src/reliable_udp.cpp: uint32_t counters that wrap, compared as signed
-- differences.
use drop_zone.Base.{ℕ, ◌+◌, ◌-◌, ◌%◌, ◌^◌, ◌≤◌, ◌<◌, ◌≡◌, Bool, true, arith, leb}

-- The bit pattern of `static_cast<std::int32_t>(a - b)`.
abbrev pub distance : ℕ → ℕ → ℕ
distance a b = (a + 2 ^ 32 - b) % 2 ^ 32

-- Its sign.
abbrev pub is_negative : ℕ → Bool
is_negative word = leb (2 ^ 31) word

-- `++sequence`.
abbrev pub next_sequence : ℕ → ℕ
next_sequence s = (s + 1) % 2 ^ 32

-- The difference of two counters that are less than 2 ^ 31 steps apart has the sign and the size of
-- the true one, however often they have wrapped.
pub distance-ahead : (n m : ℕ) → m ≤ n → n < m + 2 ^ 31 → distance (n % 2 ^ 32) (m % 2 ^ 32) ≡ n - m
distance-ahead n m h k = omega arith

pub distance-behind :
    (n m : ℕ) → n < m → m ≤ n + 2 ^ 31 → is_negative (distance (n % 2 ^ 32) (m % 2 ^ 32)) ≡ true
distance-behind n m h k = ground arith

pub same_sequence : (n m : ℕ) → m ≤ n → n < m + 2 ^ 31 → n % 2 ^ 32 ≡ m % 2 ^ 32 → n ≡ m
same_sequence n m h k e = omega arith
