-- ===== src/Base/Digits.antt =====
-- The native bit operations as operations on the lowest binary digit and on the halves.
use Prim.Native.Nat.{
  ℕ, zero, suc, ◌+◌, ◌*◌, ◌/◌, ◌%◌, ◌≤◌, min, max, digits, differ, bit_and, bit_or, bit_xor,
  bit_and-bitwise, bit_or-bitwise, bit_xor-bitwise,
}
use mathlib.Core.Path.{◌≡◌, refl, ap, sym, ◌∙◌}
use native.Mathlib.Omega.{arith}

-- `run_out` is the result when the first number has no digit left, `on_digits` that on two digits.
module _ (run_out : ℕ → ℕ) (on_digits : ℕ → ℕ → ℕ) where
  digits-zero : (count b : ℕ) → digits run_out on_digits count 0 b ≡ run_out b
  digits-zero zero b = refl
  digits-zero (suc count) b = refl

  -- A count beyond the number of digits makes no difference.
  spare_digits :
      (few many a b : ℕ)
      → a ≤ few
      → a ≤ many
      → digits run_out on_digits many a b ≡ digits run_out on_digits few a b
  spare_digits few many zero b p q = digits-zero many b ∙ sym (digits-zero few b)
  spare_digits zero many (suc a) b p q = absurd (omega arith)
  spare_digits (suc few) zero (suc a) b p q = absurd (omega arith)
  spare_digits (suc few) (suc many) (suc a) b p q =
      ap (λ rest. rest * 2 + on_digits (suc a % 2) (b % 2))
        (spare_digits few many (suc a / 2) (b / 2) (omega arith) (omega arith))

  lowest_digit :
      (op : ℕ → ℕ → ℕ)
      → ((a b : ℕ) → op a b ≡ digits run_out on_digits a a b)
      → ((b : ℕ) → run_out b ≡ run_out (b / 2) * 2 + on_digits 0 (b % 2))
      → (a b : ℕ) → op a b ≡ op (a / 2) (b / 2) * 2 + on_digits (a % 2) (b % 2)
  lowest_digit op meaning last zero b =
      meaning 0 b ∙ (last b ∙ ap (λ rest. rest * 2 + on_digits 0 (b % 2)) (sym (meaning 0 (b / 2))))
  lowest_digit op meaning last (suc a) b =
      let half = suc a / 2 in
      meaning (suc a) b
      ∙ ap (λ rest. rest * 2 + on_digits (suc a % 2) (b % 2))
          (spare_digits half a half (b / 2) (omega arith) (omega arith)
            ∙ sym (meaning half (b / 2)))

pub lowest_and : (a b : ℕ) → bit_and a b ≡ bit_and (a / 2) (b / 2) * 2 + min (a % 2) (b % 2)
lowest_and a b = lowest_digit (λ n. 0) min bit_and bit_and-bitwise (λ n. omega arith) a b

pub lowest_or : (a b : ℕ) → bit_or a b ≡ bit_or (a / 2) (b / 2) * 2 + max (a % 2) (b % 2)
lowest_or a b = lowest_digit (λ n. n) max bit_or bit_or-bitwise (λ n. omega arith) a b

pub lowest_xor : (a b : ℕ) → bit_xor a b ≡ bit_xor (a / 2) (b / 2) * 2 + differ (a % 2) (b % 2)
lowest_xor a b = lowest_digit (λ n. n) differ bit_xor bit_xor-bitwise (λ n. omega arith) a b
