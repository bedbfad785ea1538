-- ===== src/Alu/Shift.antt =====
-- The shifts and rotates of src/olc6502.c.
use m.Base.{
  ℕ, ◌+◌, ◌*◌, ◌/◌, ◌%◌, ◌<◌, ◌≡◌, ◌∙◌, ap, arith, true, some, ◌==◌, to_bit, to_bool, u8, not,
  bit_or, bit_and, if◌then◌else◌, refl,
}
use m.Cpu.{State, after, ◌>>=◌, gets, set_flag, set_temp, set_fetched, get_bit, put_bit, flag_c}
use m.Blocks.Shift.{shift_by}
use m.Base.Bits.{bit_and_1, bit_or_low, bit_or_zero, passes_to, passes_to_sound}
use m.Alu.Flags.{sign_bit}

-- The carry as the byte that a rotate joins to the operand.
abbrev pub joined : ℕ → ℕ → ℕ
joined weight c = u8 (if to_bool c then weight else 0)

or_carry_low : (f c : ℕ) → f < 256 → c < 2 → u8 (bit_or (f * 2) (joined 0x01 c)) ≡ (f * 2 + c) % 256
or_carry_low f c h k = ground (arith, bit_or_low 1 f (joined 0x01 c))

or_80_test : (f : ℕ) → f < 256 → (bit_or (f / 2) 0x80 == f / 2 + 128) ≡ true
unfolding passes_to
or_80_test f h = passes_to_sound (λ f. bit_or (f / 2) 0x80 == f / 2 + 128) 255 f (omega arith) refl

or_carry_high : (f c : ℕ) → f < 256 → c < 2 → u8 (bit_or (f / 2) (joined 0x80 c)) ≡ f / 2 + c * 128
or_carry_high f c h k = ground (arith, or_80_test f h, bit_or_zero (f / 2))

low_bit : (f : ℕ) → to_bit (not (bit_and f 0x01 == 0)) ≡ f % 2
low_bit f = ground (arith, bit_and_1 f)

-- The state with the operand `f`, the carry `c` and `temp`.
abbrev pub shifted : State → ℕ → ℕ → ℕ → State
shifted s f c temp = record s {
  cpu = record s.cpu { ps = put_bit flag_c c s.cpu.ps };
  fetched = f;
  temp = temp;
}

pub asl :
    (s : State)
    → s.fetched < 256
    → shift_by 0 s ≡ some (tt, shifted s (s.fetched * 2 % 256) (s.fetched / 128) s.temp)
unfolding shift_by ◌>>=◌ gets set_flag set_temp set_fetched
asl s h = rw (sign_bit s.fetched h)

pub lsr :
    (s : State)
    → s.fetched < 256
    → shift_by 2 s ≡ some (tt, shifted s (s.fetched / 2) (s.fetched % 2) s.temp)
unfolding shift_by ◌>>=◌ gets set_flag set_temp set_fetched
lsr s h =
    let same : u8 (s.fetched / 2) ≡ s.fetched / 2 = omega arith in rw (low_bit s.fetched, same)

module _ (s : State) (h : s.fetched < 256) where
  pub rol :
      shift_by 1 s
      ≡ some (
        tt,
        shifted s
            ((s.fetched * 2 + get_bit flag_c s.cpu.ps) % 256)
            (s.fetched / 128)
            (joined 0x01 (get_bit flag_c s.cpu.ps)),
      )
  unfolding shift_by ◌>>=◌ gets set_flag set_temp set_fetched
  rol =
      let c = get_bit flag_c s.cpu.ps in
      let small : c < 2 = omega arith in rw (sign_bit s.fetched h, or_carry_low s.fetched c h small)

  pub ror :
      shift_by 3 s
      ≡ some (
        tt,
        shifted s
            (s.fetched / 2 + get_bit flag_c s.cpu.ps * 128)
            (s.fetched % 2)
            (joined 0x80 (get_bit flag_c s.cpu.ps)),
      )
  unfolding shift_by ◌>>=◌ gets set_flag set_temp set_fetched
  ror =
      let c = get_bit flag_c s.cpu.ps in
      let small : c < 2 = omega arith in rw (low_bit s.fetched, or_carry_high s.fetched c h small)

-- ASL, ROL, LSR and ROR of an operand that is a byte, without its store. With the carry C as the
-- ninth bit, above the operand for the left shifts and below it for the right ones: ASL multiplies
-- by 2, ROL multiplies by 2 and adds the old carry, LSR is the halving with the remainder in C, ROR
-- the same of the operand with the old carry above it. The other flags stay.
pub shift_by-value :
    (s : State)
    → s.fetched < 256
    → let c = get_bit flag_c s.cpu.ps in
      ((t : State) × (shift_by 0 s ≡ some (tt, t))
        × (get_bit flag_c t.cpu.ps * 256 + t.fetched ≡ s.fetched * 2)
        × (t.cpu.ps / 2 ≡ s.cpu.ps / 2))
      × ((t : State) × (shift_by 1 s ≡ some (tt, t))
          × (get_bit flag_c t.cpu.ps * 256 + t.fetched ≡ s.fetched * 2 + c)
          × (t.cpu.ps / 2 ≡ s.cpu.ps / 2))
      × ((t : State) × (shift_by 2 s ≡ some (tt, t))
          × (t.fetched * 2 + get_bit flag_c t.cpu.ps ≡ s.fetched)
          × (t.cpu.ps / 2 ≡ s.cpu.ps / 2))
      × ((t : State) × (shift_by 3 s ≡ some (tt, t))
          × (t.fetched * 2 + get_bit flag_c t.cpu.ps ≡ c * 256 + s.fetched)
          × (t.cpu.ps / 2 ≡ s.cpu.ps / 2))
shift_by-value s h = (
  (_, asl s h, omega arith, omega arith),
  (_, rol s h, omega arith, omega arith),
  (_, lsr s h, omega arith, omega arith),
  (_, ror s h, omega arith, omega arith),
)

-- ROR after ROL gives back the operand and all flags, for an operand that is a byte.
pub ror_after_rol :
    (s : State)
    → s.fetched < 256
    → (t : State) × ((shift_by 1 >>= λ _. shift_by 3) s ≡ some (tt, t))
      × (t.fetched ≡ s.fetched)
      × (t.cpu.ps ≡ s.cpu.ps)
unfolding ◌>>=◌
ror_after_rol s h = (
  _,
  ap (λ r. after r (λ _. shift_by 3)) (rol s h) ∙ ror _ (omega arith),
  omega arith,
  omega arith,
)
