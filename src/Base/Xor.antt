-- ===== src/Base/Xor.antt =====
-- Exclusive or as a masking of numbers: with a fixed mask, different numbers stay different.
use Prim.Native.Nat.{bit_xor, differ}
use Prim.Native.Nat.{ℕ, zero, suc, ◌+◌, ◌/◌, ◌%◌, ◌≤◌, ◌<◌}
use mathlib.Core.Path.{◌≡◌}
use native.Mathlib.Omega.{arith}
use drop_zone.Base.Digits.{lowest_xor}

differ_injective : (x y z : ℕ) → x < 2 → y < 2 → z < 2 → differ x z ≡ differ y z → x ≡ y
differ_injective x y z p q r e = ground arith

differ_small : (x z : ℕ) → x < 2 → z < 2 → differ x z < 2
differ_small zero z p r = r
differ_small (suc x) zero p r = p
differ_small (suc x) (suc z) p r = differ_small x z (omega arith) (omega arith)

injective_up_to : (n a b c : ℕ) → a ≤ n → b ≤ n → bit_xor a c ≡ bit_xor b c → a ≡ b
injective_up_to zero a b c p q e = omega arith
injective_up_to (suc n) a b c p q e =
    let small_a = differ_small (a % 2) (c % 2) (omega arith) (omega arith) in
    let small_b = differ_small (b % 2) (c % 2) (omega arith) (omega arith) in
    let rest : bit_xor (a / 2) (c / 2) ≡ bit_xor (b / 2) (c / 2) =
      omega (arith, lowest_xor a c, lowest_xor b c, small_a, small_b, e) in
    let digit : differ (a % 2) (c % 2) ≡ differ (b % 2) (c % 2) =
      omega (arith, lowest_xor a c, lowest_xor b c, small_a, small_b, e) in
    omega (
      arith,
      injective_up_to n (a / 2) (b / 2) (c / 2) (omega arith) (omega arith) rest,
      differ_injective (a % 2) (b % 2) (c % 2) (omega arith) (omega arith) (omega arith) digit,
    )

pub bit_xor_injective : (a b c : ℕ) → bit_xor a c ≡ bit_xor b c → a ≡ b
bit_xor_injective a b c e = injective_up_to (a + b) a b c (omega arith) (omega arith) e
