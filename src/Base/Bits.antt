-- ===== src/Base/Bits.antt =====
-- Laws of the bit operations at variables: `|` of numbers with no common digit is `+`, and `&` with
-- a mask of ones is at most the mask and keeps what the mask covers.
use Prim.Native.Nat.{
  ℕ, zero, suc, ◌+◌, ◌-◌, ◌*◌, ◌/◌, ◌^◌, ◌≤◌, ◌<◌, bit_and, bit_or, bit_or-bitwise, bit_and-bitwise,
}
use native.Mathlib.Nat.{pow-suc}
use mathlib.Core.Path.{◌≡◌, ap}
use native.Mathlib.Omega.{arith}
use drop_zone.Base.Digits.{lowest_and, lowest_or}

doubled : (k b : ℕ) → b * 2 ^ suc k ≡ b * 2 ^ k * 2
doubled k b = omega (arith, ap (λ (p : ℕ). b * p) (pow-suc 2 k))

halved : (c : ℕ) → c * 2 / 2 ≡ c
halved c = omega arith

-- `a | b << k` is a sum where `a` has at most `k` digits.
pub bit_or_shift : (k a b : ℕ) → a < 2 ^ k → bit_or a (b * 2 ^ k) ≡ a + b * 2 ^ k
bit_or_shift zero zero b h = omega (arith, bit_or-bitwise 0 (b * 2 ^ 0))
bit_or_shift zero (suc a) b h = absurd (omega arith)
bit_or_shift (suc k) a b h = rw (doubled k b) (
    omega (
      arith,
      lowest_or a (b * 2 ^ k * 2),
      ap (λ (c : ℕ). bit_or (a / 2) c) (halved (b * 2 ^ k)),
      bit_or_shift k (a / 2) b (omega (arith, pow-suc 2 k)),
    ))

masked_up_to : (n a b : ℕ) → a ≤ n → bit_and a b ≤ b
masked_up_to n zero b h = omega (arith, bit_and-bitwise 0 b)
masked_up_to zero (suc a) b h = absurd (omega arith)
masked_up_to (suc n) (suc a) b h =
    omega (arith, lowest_and (suc a) b, masked_up_to n (suc a / 2) (b / 2) (omega arith))

-- A masked number is at most the mask.
pub bit_and-le : (a b : ℕ) → bit_and a b ≤ b
bit_and-le a b = masked_up_to a a b (omega arith)

two_pow_positive : (k : ℕ) → 1 ≤ 2 ^ k
two_pow_positive zero = omega arith
two_pow_positive (suc k) = omega (arith, two_pow_positive k, pow-suc 2 k)

half_mask : (k : ℕ) → (2 ^ suc k - 1) / 2 ≡ 2 ^ k - 1
half_mask k = omega (arith, two_pow_positive k, pow-suc 2 k)

-- A mask that covers a number changes nothing.
pub bit_and-mask : (k a : ℕ) → a < 2 ^ k → bit_and a (2 ^ k - 1) ≡ a
bit_and-mask zero zero h = bit_and-bitwise 0 (2 ^ 0 - 1)
bit_and-mask zero (suc a) h = absurd (omega arith)
bit_and-mask (suc k) a h =
    rw (lowest_and a (2 ^ suc k - 1), half_mask k)
      (omega (
        arith,
        bit_and-mask k (a / 2) (omega (arith, pow-suc 2 k)),
        pow-suc 2 k,
        two_pow_positive k,
      ))
