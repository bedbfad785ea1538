-- ===== src/Base/Digits.antt =====
-- `&`, `|` and `^` of C at variables: the law of the lowest digit, and from it the laws of fields.
use Prim.Native.Nat.{
  ℕ, zero, suc, ◌+◌, ◌*◌, ◌/◌, ◌%◌, ◌^◌, ◌≤◌, ◌<◌, min, max, digits, bitwise, differ, bit_and,
  bit_or, bit_xor, bit_and-bitwise, bit_or-bitwise, bit_xor-bitwise,
}
use mathlib.Core.Path.{◌≡◌, refl, sym, ap, ◌∙◌}
use native.Mathlib.Nat.{le_refl, pow-suc}
use native.Mathlib.Omega.{arith}

module _ (rest : ℕ → ℕ) (digit : ℕ → ℕ → ℕ) where
  digits_of_zero : (fuel b : ℕ) → digits rest digit fuel 0 b ≡ rest b
  digits_of_zero zero b = refl
  digits_of_zero (suc fuel) b = refl

  -- As many rounds as the first number are enough: more change nothing.
  enough_rounds :
      (a b fuel spare : ℕ)
      → a ≤ spare
      → a ≤ fuel
      → digits rest digit spare a b ≡ digits rest digit fuel a b
  enough_rounds zero b fuel spare p q = digits_of_zero spare b ∙ sym (digits_of_zero fuel b)
  enough_rounds (suc a) b zero spare p q = absurd (omega arith)
  enough_rounds (suc a) b (suc fuel) zero p q = absurd (omega arith)
  enough_rounds (suc a) b (suc fuel) (suc spare) p q =
      let half = suc a / 2 in
      ap (λ high. high * 2 + digit (suc a % 2) (b % 2))
        (enough_rounds half (b / 2) fuel spare (omega arith) (omega arith))

  one_round :
      (a b : ℕ)
      → bitwise rest digit (suc a) b
        ≡ digit (suc a % 2) (b % 2) + 2 * bitwise rest digit (suc a / 2) (b / 2)
  one_round a b =
      let half = suc a / 2 in
      omega (arith, enough_rounds half (b / 2) half a (omega arith) (le_refl half))

-- The law of the lowest digit, for the three operations.
pub bit_and_step : (a b : ℕ) → bit_and a b ≡ min (a % 2) (b % 2) + 2 * bit_and (a / 2) (b / 2)
bit_and_step zero b = omega (arith, bit_and-bitwise 0 b, bit_and-bitwise 0 (b / 2))
bit_and_step (suc a) b = simp bit_and-bitwise (one_round (λ y. 0) min a b)

pub bit_or_step : (a b : ℕ) → bit_or a b ≡ max (a % 2) (b % 2) + 2 * bit_or (a / 2) (b / 2)
bit_or_step zero b = omega (arith, bit_or-bitwise 0 b, bit_or-bitwise 0 (b / 2))
bit_or_step (suc a) b = simp bit_or-bitwise (one_round (λ y. y) max a b)

differ_bits : (x y : ℕ) → x < 2 → y < 2 → differ x y ≡ (x + y) % 2
differ_bits zero zero p q = refl
differ_bits zero (suc y) p q = omega arith
differ_bits (suc x) zero p q = omega arith
differ_bits (suc zero) (suc zero) p q = refl
differ_bits (suc zero) (suc (suc y)) p q = absurd (omega arith)
differ_bits (suc (suc x)) (suc y) p q = absurd (omega arith)

pub bit_xor_step : (a b : ℕ) → bit_xor a b ≡ (a % 2 + b % 2) % 2 + 2 * bit_xor (a / 2) (b / 2)
bit_xor_step zero b = omega (arith, bit_xor-bitwise 0 b, bit_xor-bitwise 0 (b / 2))
bit_xor_step (suc a) b =
    simp bit_xor-bitwise (one_round (λ y. y) differ a b)
    ∙ ap (λ low. low + 2 * bit_xor (suc a / 2) (b / 2))
        (differ_bits (suc a % 2) (b % 2) (omega arith) (omega arith))

-- What the three operations share: they work digit by digit, and 0 with 0 is 0.
pub record IsDigitwise (op : ℕ → ℕ → ℕ) (f : ℕ → ℕ → ℕ) : Type 0 where
  pub zeros : op 0 0 ≡ 0
  pub small : (a b : ℕ) → f (a % 2) (b % 2) < 2
  pub step : (a b : ℕ) → op a b ≡ f (a % 2) (b % 2) + 2 * op (a / 2) (b / 2)

pub mul-two-pow : (q k : ℕ) → q * 2 ^ suc k ≡ 2 * (q * 2 ^ k)
mul-two-pow q k = omega (arith, ap (λ (t : ℕ). q * t) (pow-suc 2 k))

pub half_lt : (a k : ℕ) → a < 2 ^ suc k → a / 2 < 2 ^ k
half_lt a k h = omega (arith, pow-suc 2 k)

module _ {op f : ℕ → ℕ → ℕ} (d : IsDigitwise op f) where
  pub split-lt : (k a b : ℕ) → a < 2 ^ k → b < 2 ^ k → op a b < 2 ^ k
  split-lt zero zero zero p q = omega (arith, d.zeros)
  split-lt zero zero (suc b) p q = absurd (omega arith)
  split-lt zero (suc a) b p q = absurd (omega arith)
  split-lt (suc k) a b p q = omega (
    arith,
    pow-suc 2 k,
    d.step a b,
    d.small a b,
    split-lt k (a / 2) (b / 2) (half_lt a k p) (half_lt b k q),
  )

  -- The high digits and the `k` low ones do not meet.
  pub split_fields :
      (k q r p t : ℕ)
      → r < 2 ^ k
      → t < 2 ^ k
      → op (q * 2 ^ k + r) (p * 2 ^ k + t) ≡ op q p * 2 ^ k + op r t
  split_fields zero q r p t x y = ground (arith, d.zeros)
  split_fields (suc k) q r p t x y = ground (
    arith,
    d.step (q * 2 ^ suc k + r) (p * 2 ^ suc k + t),
    d.step r t,
    mul-two-pow q k,
    mul-two-pow p k,
    mul-two-pow (op q p) k,
    split_fields k q (r / 2) p (t / 2) (half_lt r k x) (half_lt t k y),
  )

pub and_IsDigitwise : IsDigitwise bit_and min
and_IsDigitwise = record { zeros = refl; small = λ a b. omega arith; step = bit_and_step }

pub or_IsDigitwise : IsDigitwise bit_or max
or_IsDigitwise = record { zeros = refl; small = λ a b. omega arith; step = bit_or_step }

pub xor_IsDigitwise : IsDigitwise bit_xor (λ x y. (x + y) % 2)
xor_IsDigitwise = record { zeros = refl; small = λ a b. omega arith; step = bit_xor_step }
