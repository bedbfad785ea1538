-- ===== src/Alu/Add.antt =====
-- ADC and SBC of src/olc6502.c.
use m.Base.{
  ℕ, ◌+◌, ◌-◌, ◌/◌, ◌%◌, ◌≤◌, ◌<◌, ◌≡◌, ◌∙◌, ap, arith, Bool, true, false, not, ◌||◌, ◌&&◌, some,
  ◌==◌, ltb, leb, lt→ltb, le→ltb, to_bit, u8, u16, bit_and, bit_xor, if◌then◌else◌,
}
use native.Mathlib.Decide.{dec_lt}
use m.Base.Int.{ℤ, pos, negsuc, ◌+ℤ◌, ltb_ℤ}
use m.Base.Bits.{bit_and_80, bit_and_digit_7, bit_xor_digit_7}
use m.Cpu.{State, ◌>>=◌, gets, set_flag, set_a, get_bit, put_bit, flag_c, flag_z, flag_v, flag_n}
use m.Blocks.Arithmetic.{add_to_a, addend}
use m.Alu.Flags.{zn, update_flags_lem}

-- A byte as a signed number.
unfoldable pub signed8 : ℕ → ℤ
signed8 v = if ltb v 128 then pos v else negsuc (255 - v)

-- The signed sum does not fit a signed byte.
unfoldable pub overflows : ℕ → ℕ → ℕ → Bool
unfolding ◌+ℤ◌
overflows a v c =
    let sum = signed8 a +ℤ signed8 v +ℤ pos c in ltb_ℤ (pos 127) sum || ltb_ℤ sum (negsuc 127)

-- The test of the code for overflow.
abbrev pub overflow_bit : ℕ → ℕ → ℕ → ℕ
overflow_bit sum a value =
    to_bit (not (bit_and (bit_and (bit_xor sum a) (bit_xor sum value)) 0x0080 == 0))

pub overflow_bit_digits :
    (sum a value : ℕ)
    → overflow_bit sum a value
      ≡ to_bit (not ((sum / 128 % 2 == a / 128 % 2) || (sum / 128 % 2 == value / 128 % 2)))
overflow_bit_digits sum a value = ground (
  arith,
  bit_and_80 (bit_and (bit_xor sum a) (bit_xor sum value)),
  bit_and_digit_7 (bit_xor sum a) (bit_xor sum value),
  bit_xor_digit_7 sum a,
  bit_xor_digit_7 sum value,
)

-- The same as cases on the signs.
abbrev pub by_sign : ℕ → ℕ → ℕ → Bool
by_sign a v c =
    (ltb a 128 && ltb v 128 && leb 128 (a + v + c))
    || (leb 128 a && leb 128 v && ltb (a + v + c) 384)

module _ (a v c : ℕ) (p : a < 256) (q : v < 256) (r : c < 2) where
  low_low : a < 128 → v < 128 → overflows a v c ≡ by_sign a v c
  unfolding overflows signed8
  low_low h k = rw (lt→ltb a 128 h, lt→ltb v 128 k) (ground arith)

  low_high : a < 128 → 128 ≤ v → overflows a v c ≡ by_sign a v c
  unfolding overflows signed8
  low_high h k = rw (lt→ltb a 128 h, le→ltb v 128 k) (ground arith)

  high_low : 128 ≤ a → v < 128 → overflows a v c ≡ by_sign a v c
  unfolding overflows signed8
  high_low h k = rw (le→ltb a 128 h, lt→ltb v 128 k) (ground arith)

  high_high : 128 ≤ a → 128 ≤ v → overflows a v c ≡ by_sign a v c
  unfolding overflows signed8
  high_high h k = rw (le→ltb a 128 h, le→ltb v 128 k) (ground arith)

  pub overflows-by_sign : overflows a v c ≡ by_sign a v c
  overflows-by_sign = elim (dec_lt a 128) [
    | yes h ↦ elim (dec_lt v 128) [ yes k ↦ low_low h k | no k ↦ low_high h (omega arith) ]
    | no h ↦ elim (dec_lt v 128) [
      | yes k ↦ high_low (omega arith) k
      | no k ↦ high_high (omega arith) (omega arith)
    ]
  ]

-- The flag byte and the state after `add_to_a`.
abbrev pub sum_ps : ℕ → ℕ → ℕ → ℕ → ℕ
sum_ps sum a value ps =
    zn (sum % 256)
      (put_bit flag_c (to_bit (ltb 0xff sum)) (put_bit flag_v (overflow_bit sum a value) ps))

abbrev pub sum_of : State → ℕ → ℕ
sum_of s value = u16 (s.cpu.a + value + get_bit flag_c s.cpu.ps)

abbrev pub added : State → ℕ → State
added s value = record s {
  cpu = record s.cpu {
    a = sum_of s value % 256;
    ps = sum_ps (sum_of s value) s.cpu.a value s.cpu.ps;
  };
}

pub add_to_a_lem : (value : ℕ) (s : State) → add_to_a value s ≡ some (tt, added s value)
unfolding add_to_a ◌>>=◌ gets set_flag set_a
add_to_a_lem value s =
    let same : u8 (u8 (sum_of s value)) ≡ sum_of s value % 256 = omega arith in
    rw (same, update_flags_lem (sum_of s value % 256) _ (omega arith))

-- The flags of a result `v` with the carry `c` and the overflow `o`.
pub sum_bits :
    (v c o ps : ℕ)
    → v < 256
    → c < 2
    → o < 2
    → let p = zn v (put_bit flag_c c (put_bit flag_v o ps)) in
      (get_bit flag_c p ≡ c)
      × (get_bit flag_v p ≡ o)
      × (get_bit flag_z p ≡ to_bit (v == 0))
      × (get_bit flag_n p ≡ v / 128)
      × (p / 4 % 16 ≡ ps / 4 % 16)
sum_bits v c o ps h k l = ground arith

pub to_bit-lt : (b : Bool) → to_bit b < 2
to_bit-lt true = omega arith
to_bit-lt false = omega arith

pub over_255 : (sum total : ℕ) → total < 512 → sum ≡ total → to_bit (ltb 0xff sum) ≡ total / 256
over_255 sum total h e = ground (arith, e)

-- The test of the code is signed overflow.
pub overflow_bit-overflows :
    (a v c : ℕ)
    → a < 256
    → v < 256
    → c < 2
    → overflow_bit (u16 (a + v + c)) a v ≡ to_bit (overflows a v c)
overflow_bit-overflows a v c p q r =
    rw (overflow_bit_digits (u16 (a + v + c)) a v, overflows-by_sign a v c p q r) (ground arith)

-- ADC: for bytes `a` and `v` the accumulator becomes the sum of both and the carry modulo 256. C is
-- set exactly if the sum does not fit a byte, V exactly if the sum of the signed bytes does not fit a
-- signed byte, Z and N are those of the result, and the flags I, D, B and the unused one stay.
pub add_to_a-adc :
    (v : ℕ) (s : State)
    → s.cpu.a < 256
    → v < 256
    → let total = s.cpu.a + v + get_bit flag_c s.cpu.ps in
      (t : State) × (add_to_a (addend 3 v) s ≡ some (tt, t))
      × (t.cpu.a ≡ total % 256)
      × (get_bit flag_c t.cpu.ps ≡ total / 256)
      × (get_bit flag_v t.cpu.ps ≡ to_bit (overflows s.cpu.a v (get_bit flag_c s.cpu.ps)))
      × (get_bit flag_z t.cpu.ps ≡ to_bit (total % 256 == 0))
      × (get_bit flag_n t.cpu.ps ≡ total % 256 / 128)
      × (t.cpu.ps / 4 % 16 ≡ s.cpu.ps / 4 % 16)
unfolding addend
add_to_a-adc v s h k =
    let carry = get_bit flag_c s.cpu.ps in
    let small : carry < 2 = omega arith in
    let same : u16 v ≡ v = omega arith in
    let sum = sum_of s v in
    let whole : sum ≡ s.cpu.a + v + carry = omega arith in
    let bits =
      sum_bits (sum % 256) (to_bit (ltb 0xff sum)) (overflow_bit sum s.cpu.a v) s.cpu.ps
        (omega arith) (to_bit-lt _) (to_bit-lt _) in
    (
      added s v,
      rw (same) (add_to_a_lem v s),
      omega arith,
      bits.0 ∙ over_255 sum (s.cpu.a + v + carry) (omega arith) whole,
      bits.1 ∙ overflow_bit-overflows s.cpu.a v carry h k small,
      bits.2 ∙ ap (λ x. to_bit (x % 256 == 0)) whole,
      bits.3 ∙ ap (λ x. x % 256 / 128) whole,
      bits.4,
    )
