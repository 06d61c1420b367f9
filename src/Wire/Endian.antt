-- ===== src/Wire/Endian.antt =====
-- common/include/dz/endian.hpp: little-endian integers. A store gives the bytes that it writes; a
-- load reads at the front of the bytes it is given. Shifts are `* 2 ^ k` and `/ 2 ^ k`, and a cast
-- to uint8_t is `% 256`.
use Prim.Native.Nat.{bit_or}
use drop_zone.Base.{
  ℕ, zero, suc, ◌+◌, ◌*◌, ◌/◌, ◌%◌, ◌^◌, ◌<◌, ◌≡◌, refl, ◌∙◌, List, [], ◌∷◌, ◌++◌, get_or, arith,
}
use drop_zone.Base.Bits.{bit_or_shift}

-- `in[i]`.
abbrev pub byte : List ℕ → ℕ → ℕ
byte bytes i = get_or bytes i 0

unfoldable pub store_u16 : ℕ → List ℕ
store_u16 value = value % 256 ∷ value / 2 ^ 8 % 256 ∷ []

unfoldable pub store_u32 : ℕ → List ℕ
store_u32 value =
    value % 256 ∷ value / 2 ^ 8 % 256 ∷ value / 2 ^ 16 % 256 ∷ value / 2 ^ 24 % 256 ∷ []

-- The loop of `store_u64`, with `rounds` left and the index at `i`.
store_bytes : ℕ → ℕ → ℕ → List ℕ
store_bytes zero i value = []
store_bytes (suc rounds) i value = value / 2 ^ (8 * i) % 256 ∷ store_bytes rounds (suc i) value

unfoldable pub store_u64 : ℕ → List ℕ
unfolding store_bytes
store_u64 value = store_bytes 8 0 value

unfoldable pub load_u16 : List ℕ → ℕ
load_u16 bytes = bit_or (byte bytes 0) (byte bytes 1 * 2 ^ 8) % 2 ^ 16

unfoldable pub load_u32 : List ℕ → ℕ
load_u32 bytes =
    bit_or (bit_or (bit_or (byte bytes 0) (byte bytes 1 * 2 ^ 8)) (byte bytes 2 * 2 ^ 16))
      (byte bytes 3 * 2 ^ 24)

-- The loop of `load_u64`.
load_bytes : ℕ → ℕ → List ℕ → ℕ → ℕ
load_bytes zero i bytes value = value
load_bytes (suc rounds) i bytes value =
    load_bytes rounds (suc i) bytes (bit_or value (byte bytes i * 2 ^ (8 * i)))

unfoldable pub load_u64 : List ℕ → ℕ
unfolding load_bytes
load_u64 bytes = load_bytes 8 0 bytes 0

-- A load reads back what the store of that width wrote, whatever follows.
pub load-store_u16 : (v : ℕ) (rest : List ℕ) → v < 2 ^ 16 → load_u16 (store_u16 v ++ rest) ≡ v
unfolding load_u16 store_u16
load-store_u16 v rest h = omega (arith, bit_or_shift 8 (v % 256) (v / 2 ^ 8 % 256) (omega arith))

pub load-store_u32 : (v : ℕ) (rest : List ℕ) → v < 2 ^ 32 → load_u32 (store_u32 v ++ rest) ≡ v
unfolding load_u32 store_u32
load-store_u32 v rest h =
    rw
      (
        bit_or_shift 8 (v % 256) (v / 2 ^ 8 % 256) (omega arith),
        bit_or_shift 16 (v % 256 + v / 2 ^ 8 % 256 * 2 ^ 8) (v / 2 ^ 16 % 256) (omega arith),
        bit_or_shift 24 (v % 256 + v / 2 ^ 8 % 256 * 2 ^ 8 + v / 2 ^ 16 % 256 * 2 ^ 16)
            (v / 2 ^ 24 % 256) (omega arith),
      )
      (omega arith)

-- One round of the loop of `load_u64`: the low digits gain the next byte.
load_round : (k a b c : ℕ) → a < 2 ^ k → a + b * 2 ^ k ≡ c → bit_or a (b * 2 ^ k) ≡ c
load_round k a b c h e = bit_or_shift k a b h ∙ e

-- A number below 2 ^ 64 is loaded as it was stored, whatever bytes follow it.
pub load-store_u64 : (v : ℕ) (rest : List ℕ) → v < 2 ^ 64 → load_u64 (store_u64 v ++ rest) ≡ v
unfolding load_u64 store_u64
load-store_u64 v rest h =
    rw
      (
        load_round 0 0 (v / 2 ^ 0 % 256) (v % 2 ^ 8) (omega arith) (omega arith),
        load_round 8 (v % 2 ^ 8) (v / 2 ^ 8 % 256) (v % 2 ^ 16) (omega arith) (omega arith),
        load_round 16 (v % 2 ^ 16) (v / 2 ^ 16 % 256) (v % 2 ^ 24) (omega arith) (omega arith),
        load_round 24 (v % 2 ^ 24) (v / 2 ^ 24 % 256) (v % 2 ^ 32) (omega arith) (omega arith),
        load_round 32 (v % 2 ^ 32) (v / 2 ^ 32 % 256) (v % 2 ^ 40) (omega arith) (omega arith),
        load_round 40 (v % 2 ^ 40) (v / 2 ^ 40 % 256) (v % 2 ^ 48) (omega arith) (omega arith),
        load_round 48 (v % 2 ^ 48) (v / 2 ^ 48 % 256) (v % 2 ^ 56) (omega arith) (omega arith),
        load_round 56 (v % 2 ^ 56) (v / 2 ^ 56 % 256) v (omega arith) (omega arith),
      )
      refl
