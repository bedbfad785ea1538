-- ===== src/Base/Bits.antt =====
-- `&`, `|` and `^` of C with the masks and fields of the code.
use Prim.Native.Nat.{
  ℕ, zero, suc, ◌+◌, ◌-◌, ◌*◌, ◌/◌, ◌%◌, ◌^◌, ◌≤◌, ◌<◌, min, bit_and, bit_or, bit_xor,
  bit_and-bitwise, bit_or-bitwise,
}
use mathlib.Core.Path.{◌≡◌, refl}
use mathlib.Core.Bool.{Bool, true, ◌&&◌}
use native.Mathlib.Nat.{le_refl, pow-suc, one-le-pow, mod-lt, div-add-mod}
use native.Mathlib.Omega.{arith}
use m.Base.Digits.{
  IsDigitwise, half_lt, and_IsDigitwise, or_IsDigitwise, xor_IsDigitwise, split-lt, split_fields,
  bit_and_step, bit_or_step,
}

bit_and-le_fuel : (n a b : ℕ) → a ≤ n → bit_and a b ≤ b
bit_and-le_fuel n zero b h = omega (arith, bit_and-bitwise 0 b)
bit_and-le_fuel zero (suc a) b h = absurd (omega arith)
bit_and-le_fuel (suc n) (suc a) b h =
    omega (arith, bit_and_step (suc a) b, bit_and-le_fuel n (suc a / 2) (b / 2) (omega arith))

-- `a & b` is at most the mask.
pub bit_and-le : (a b : ℕ) → bit_and a b ≤ b
bit_and-le a b = bit_and-le_fuel a a b (le_refl _)

pub bit_and-lt : (k a b : ℕ) → a < 2 ^ k → b < 2 ^ k → bit_and a b < 2 ^ k
bit_and-lt = split-lt and_IsDigitwise

pub bit_or-lt : (k a b : ℕ) → a < 2 ^ k → b < 2 ^ k → bit_or a b < 2 ^ k
bit_or-lt = split-lt or_IsDigitwise

pub bit_xor-lt : (k a b : ℕ) → a < 2 ^ k → b < 2 ^ k → bit_xor a b < 2 ^ k
bit_xor-lt = split-lt xor_IsDigitwise

bit_and_zero_fuel : (n a : ℕ) → a ≤ n → bit_and a 0 ≡ 0
bit_and_zero_fuel n zero h = refl
bit_and_zero_fuel zero (suc a) h = absurd (omega arith)
bit_and_zero_fuel (suc n) (suc a) h =
    omega (arith, bit_and_step (suc a) 0, bit_and_zero_fuel n (suc a / 2) (omega arith))

pub bit_and_zero : (a : ℕ) → bit_and a 0 ≡ 0
bit_and_zero a = bit_and_zero_fuel a a (le_refl _)

bit_or_zero_fuel : (n a : ℕ) → a ≤ n → bit_or a 0 ≡ a
bit_or_zero_fuel n zero h = refl
bit_or_zero_fuel zero (suc a) h = absurd (omega arith)
bit_or_zero_fuel (suc n) (suc a) h =
    omega (arith, bit_or_step (suc a) 0, bit_or_zero_fuel n (suc a / 2) (omega arith))

pub bit_or_zero : (a : ℕ) → bit_or a 0 ≡ a
bit_or_zero a = bit_or_zero_fuel a a (le_refl _)

bit_and_ones : (k r : ℕ) → r < 2 ^ k → bit_and r (2 ^ k - 1) ≡ r
bit_and_ones zero r h = ground (arith, bit_and_zero r)
bit_and_ones (suc k) r h = ground (
  arith,
  bit_and_step r (2 ^ suc k - 1),
  bit_and_ones k (r / 2) (half_lt r k h),
  pow-suc 2 k,
  one-le-pow k 2,
)

-- A mask of the `k` lowest bits is the remainder.
pub bit_and_low : (k a : ℕ) → bit_and a (2 ^ k - 1) ≡ a % 2 ^ k
bit_and_low k a = ground (
  arith,
  one-le-pow k 2,
  div-add-mod a (2 ^ k),
  bit_and_zero (a / 2 ^ k),
  bit_and_ones k (a % 2 ^ k) (mod-lt a (one-le-pow k 2 (omega arith))),
  split_fields and_IsDigitwise k (a / 2 ^ k) (a % 2 ^ k) 0 (2 ^ k - 1),
)

-- A mask that is zero on the `k` lowest bits.
pub bit_and_high : (k a p : ℕ) → bit_and a (p * 2 ^ k) ≡ bit_and (a / 2 ^ k) p * 2 ^ k
bit_and_high k a p = ground (
  arith,
  one-le-pow k 2,
  div-add-mod a (2 ^ k),
  bit_and_zero (a % 2 ^ k),
  mod-lt a (one-le-pow k 2 (omega arith)),
  split_fields and_IsDigitwise k (a / 2 ^ k) (a % 2 ^ k) p 0,
)

-- `(q << k) | r` is a sum when `r` fits `k` bits.
pub bit_or_low : (k q r : ℕ) → r < 2 ^ k → bit_or (q * 2 ^ k) r ≡ q * 2 ^ k + r
bit_or_low k q r h = ground (
  arith,
  one-le-pow k 2,
  bit_or_zero q,
  bit_or-bitwise 0 r,
  split_fields or_IsDigitwise k q 0 0 r,
)

-- The masks of the sources.
pub bit_and_3 : (a : ℕ) → bit_and a 3 ≡ a % 4
bit_and_3 = bit_and_low 2

pub bit_and_7 : (a : ℕ) → bit_and a 7 ≡ a % 8
bit_and_7 = bit_and_low 3

pub bit_and_7ff : (a : ℕ) → bit_and a 0x07ff ≡ a % 2048
bit_and_7ff = bit_and_low 11

pub bit_and_ff : (a : ℕ) → bit_and a 0xff ≡ a % 256
bit_and_ff = bit_and_low 8

pub bit_and_1 : (a : ℕ) → bit_and a 1 ≡ a % 2
bit_and_1 = bit_and_low 1

pub bit_and_80 : (a : ℕ) → bit_and a 0x80 ≡ a / 128 % 2 * 128
bit_and_80 a = omega (arith, bit_and_high 7 a 1, bit_and_1 (a / 128))

pub bit_and_4 : (a : ℕ) → bit_and a 4 ≡ a / 4 % 2 * 4
bit_and_4 a = omega (arith, bit_and_high 2 a 1, bit_and_1 (a / 4))

pub bit_and_ff00 : (a : ℕ) → bit_and a 0xff00 ≡ a / 256 % 256 * 256
bit_and_ff00 a = omega (arith, bit_and_high 8 a 255, bit_and_ff (a / 256))

pub bit_and_2007 : (a : ℕ) → bit_and a 0x2007 ≡ a / 8192 % 2 * 8192 + a % 8
bit_and_2007 a = ground (
  arith,
  bit_and_high 10 (a / 8) 1,
  bit_and_1 (a / 8 / 1024),
  bit_and_ones 3 (a % 8),
  split_fields and_IsDigitwise 3 (a / 8) (a % 8) 1024 7,
)

-- A test at 0, 1, ..., `n`, one after the other.
unfoldable pub passes_to : (ℕ → Bool) → ℕ → Bool
passes_to test zero = test 0
passes_to test (suc n) = passes_to test n && test (suc n)

pub passes_to_sound : (test : ℕ → Bool) (n i : ℕ) → i ≤ n → passes_to test n ≡ true → test i ≡ true
unfolding passes_to
passes_to_sound test zero zero p h = h
passes_to_sound test zero (suc i) p h = absurd (omega arith)
passes_to_sound test (suc n) i p h = ground (arith, passes_to_sound test n i)

module _ {op f : ℕ → ℕ → ℕ} (d : IsDigitwise op f) where
  halve : (a b : ℕ) → op a b / 2 ≡ op (a / 2) (b / 2)
  halve a b = omega (arith, d.step a b, d.small a b)

  -- The digit of 128 of a result.
  digit_7 : (a b : ℕ) → op a b / 128 % 2 ≡ f (a / 128 % 2) (b / 128 % 2)
  digit_7 a b = ground (
    arith,
    halve a b,
    halve (a / 2) (b / 2),
    halve (a / 4) (b / 4),
    halve (a / 8) (b / 8),
    halve (a / 16) (b / 16),
    halve (a / 32) (b / 32),
    halve (a / 64) (b / 64),
    d.step (a / 128) (b / 128),
    d.small (a / 128) (b / 128),
  )

pub bit_and_digit_7 : (a b : ℕ) → bit_and a b / 128 % 2 ≡ min (a / 128 % 2) (b / 128 % 2)
bit_and_digit_7 = digit_7 and_IsDigitwise

pub bit_xor_digit_7 : (a b : ℕ) → bit_xor a b / 128 % 2 ≡ (a / 128 % 2 + b / 128 % 2) % 2
bit_xor_digit_7 = digit_7 xor_IsDigitwise
