-- ===== src/Alu/Subtract.antt =====
-- SBC of src/olc6502.c: the block adds the two's complement of the operand in 16 bits.
use m.Base.{
  ℕ, ◌+◌, ◌-◌, ◌/◌, ◌%◌, ◌≤◌, ◌<◌, ◌≡◌, ◌∙◌, sym, ap, arith, Bool, not, ◌||◌, some, ◌==◌, ltb,
  lt→ltb, le→ltb, to_bit, u16, if◌then◌else◌,
}
use native.Mathlib.Decide.{dec_lt}
use m.Base.Int.{pos, negsuc, ◌+ℤ◌, ◌-ℤ◌, ltb_ℤ}
use m.Cpu.{State, get_bit, flag_c, flag_v, flag_z, flag_n}
use m.Blocks.Arithmetic.{add_to_a, addend}
use m.Alu.Add.{
  added, add_to_a_lem, sum_of, sum_bits, to_bit-lt, overflow_bit, overflow_bit_digits,
  overflow_bit-overflows, overflows, overflows-by_sign, by_sign, signed8,
}

-- The difference of two bytes taken as signed numbers, with the carry added, does not fit a signed byte.
unfoldable pub sub_overflows : ℕ → ℕ → ℕ → Bool
unfolding ◌+ℤ◌ ◌-ℤ◌
sub_overflows a n c =
    let difference = signed8 a -ℤ signed8 n +ℤ pos c in
    ltb_ℤ (pos 127) difference || ltb_ℤ difference (negsuc 127)

-- What the code leaves in V: for the operand 0x80, whose two's complement is itself, the opposite of
-- signed overflow.
abbrev pub sbc_flag_v : ℕ → ℕ → ℕ → Bool
sbc_flag_v a n c = if n == 0x80 then not (sub_overflows a n c) else sub_overflows a n c

-- Signed overflow of the difference by the signed numbers moved up by 128.
abbrev moved_up : ℕ → ℕ → ℕ → Bool
moved_up a n c =
    let a' = (a + 128) % 256 in
    let n' = (n + 128) % 256 in ltb (n' + 127) (a' + c) || ltb (a' + c + 128) n'

module _ (a v c : ℕ) (p : a < 256) (q : v < 256) (r : c < 2) where
  pub difference : u16 (a + u16 (65536 - v) + c) % 256 ≡ (a + c + 256 - v) % 256
  difference = omega arith

  pub over_255 :
      to_bit (ltb 0xff (u16 (a + u16 (65536 - v) + c)))
      ≡ to_bit (ltb (a + c) v || ltb (v + 255) (a + c))
  over_255 = ground arith

  low_low : a < 128 → v < 128 → sub_overflows a v c ≡ moved_up a v c
  unfolding sub_overflows signed8
  low_low h k = rw (lt→ltb a 128 h, lt→ltb v 128 k) (ground arith)

  low_high : a < 128 → 128 ≤ v → sub_overflows a v c ≡ moved_up a v c
  unfolding sub_overflows signed8
  low_high h k = rw (lt→ltb a 128 h, le→ltb v 128 k) (ground arith)

  high_low : 128 ≤ a → v < 128 → sub_overflows a v c ≡ moved_up a v c
  unfolding sub_overflows signed8
  high_low h k = rw (le→ltb a 128 h, lt→ltb v 128 k) (ground arith)

  high_high : 128 ≤ a → 128 ≤ v → sub_overflows a v c ≡ moved_up a v c
  unfolding sub_overflows signed8
  high_high h k = rw (le→ltb a 128 h, le→ltb v 128 k) (ground arith)

  sub_overflows-moved_up : sub_overflows a v c ≡ moved_up a v c
  sub_overflows-moved_up = elim (dec_lt a 128) [
    | yes h ↦ elim (dec_lt v 128) [ yes k ↦ low_low h k | no k ↦ low_high h (omega arith) ]
    | no h ↦ elim (dec_lt v 128) [
      | yes k ↦ high_low (omega arith) k
      | no k ↦ high_high (omega arith) (omega arith)
    ]
  ]

  complement-moved_up :
      by_sign a ((256 - v) % 256) c ≡ (if v == 0x80 then not (moved_up a v c) else moved_up a v c)
  complement-moved_up = ground arith

  -- Signed overflow of the sum with the two's complement, by that of the difference.
  pub overflows-complement : overflows a ((256 - v) % 256) c ≡ sbc_flag_v a v c
  overflows-complement =
      overflows-by_sign a ((256 - v) % 256) c p (omega arith) r
      ∙ complement-moved_up
      ∙ sym (ap (λ b. if v == 0x80 then not b else b) sub_overflows-moved_up)

  pub sbc_overflow :
      overflow_bit (u16 (a + u16 (65536 - v) + c)) a (u16 (65536 - v)) ≡ to_bit (sbc_flag_v a v c)
  sbc_overflow =
      let m = (256 - v) % 256 in
      let low_sum : u16 (a + u16 (65536 - v) + c) / 128 % 2 ≡ u16 (a + m + c) / 128 % 2 =
        omega arith in
      let low_value : u16 (65536 - v) / 128 % 2 ≡ m / 128 % 2 = omega arith in
      overflow_bit_digits (u16 (a + u16 (65536 - v) + c)) a (u16 (65536 - v))
      ∙ rw (low_sum, low_value) (sym (overflow_bit_digits (u16 (a + m + c)) a m))
      ∙ overflow_bit-overflows a m c p (omega arith) r
      ∙ ap to_bit overflows-complement

-- SBC: for bytes `a` and `v` the accumulator becomes `a - v + C` modulo 256. C is set exactly if this
-- number is below 0 or above 255, so the code keeps a borrow in C, where the 6502 keeps its
-- complement. V is set exactly if the signed difference does not fit a signed byte, and for `v` = 0x80
-- exactly if it does. Z and N are those of the result, and the flags I, D, B and the unused one
-- stay.
pub add_to_a-sbc :
    (v : ℕ) (s : State)
    → s.cpu.a < 256
    → v < 256
    → let plus_c = s.cpu.a + get_bit flag_c s.cpu.ps in
      let result = (plus_c + 256 - v) % 256 in
      (t : State) × (add_to_a (addend 7 v) s ≡ some (tt, t))
      × (t.cpu.a ≡ result)
      × (get_bit flag_c t.cpu.ps ≡ to_bit (ltb plus_c v || ltb (v + 255) plus_c))
      × (get_bit flag_v t.cpu.ps ≡ to_bit (sbc_flag_v s.cpu.a v (get_bit flag_c s.cpu.ps)))
      × (get_bit flag_z t.cpu.ps ≡ to_bit (result == 0))
      × (get_bit flag_n t.cpu.ps ≡ result / 128)
      × (t.cpu.ps / 4 % 16 ≡ s.cpu.ps / 4 % 16)
unfolding addend
add_to_a-sbc v s h k =
    let carry = get_bit flag_c s.cpu.ps in
    let small : carry < 2 = omega arith in
    let value = u16 (65536 - v) in
    let sum = sum_of s value in
    let low = difference s.cpu.a v carry h k small in
    let bits =
      sum_bits (sum % 256) (to_bit (ltb 0xff sum)) (overflow_bit sum s.cpu.a value) s.cpu.ps
        (omega arith) (to_bit-lt _) (to_bit-lt _) in
    (
      added s value,
      add_to_a_lem value s,
      low,
      bits.0 ∙ over_255 s.cpu.a v carry h k small,
      bits.1 ∙ sbc_overflow s.cpu.a v carry h k small,
      bits.2 ∙ ap (λ x. to_bit (x == 0)) low,
      bits.3 ∙ ap (λ x. x / 128) low,
      bits.4,
    )
