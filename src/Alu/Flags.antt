-- ===== src/Alu/Flags.antt =====
-- The zero and negative flags, and CMP, CPX and CPY of src/olc6502.c.
use m.Base.{
  ℕ, ◌+◌, ◌-◌, ◌/◌, ◌%◌, ◌<◌, ◌≡◌, ◌∙◌, arith, not, some, ◌==◌, leb, to_bit, u8, u16, bit_and,
}
use m.Base.Bits.{bit_and_80, bit_and_ff}
use m.Cpu.{
  State, ◌>>=◌, gets, set_flag, get_bit, put_bit, flag_c, flag_z, flag_n,
  update_flags_from_register,
}
use m.Blocks.Compare.{compare_flags}

-- The flag byte with Z and N set from a byte.
abbrev pub zn : ℕ → ℕ → ℕ
zn v ps = put_bit flag_n (v / 128) (put_bit flag_z (to_bit (v == 0)) ps)

abbrev pub with_ps : State → ℕ → State
with_ps s ps = record s { cpu = record s.cpu { ps = ps } }

pub sign_bit : (v : ℕ) → v < 256 → to_bit (not (bit_and v 0x80 == 0)) ≡ v / 128
sign_bit v h = ground (arith, bit_and_80 v)

-- `update_flags_from_register` of a byte changes the flags to `zn` and nothing else.
pub update_flags_lem :
    (v : ℕ) (s : State)
    → v < 256
    → update_flags_from_register v s ≡ some (tt, with_ps s (zn v s.cpu.ps))
unfolding update_flags_from_register ◌>>=◌ set_flag
update_flags_lem v s h = let same : u8 v ≡ v = omega arith in rw (same, sign_bit v h)

-- Z says whether the byte is 0 and N is its top bit; the other flags stay.
pub zn_bits :
    (v ps : ℕ)
    → v < 256
    → (get_bit flag_z (zn v ps) ≡ to_bit (v == 0))
      × (get_bit flag_n (zn v ps) ≡ v / 128)
      × (get_bit flag_c (zn v ps) ≡ get_bit flag_c ps)
      × (zn v ps / 4 % 32 ≡ ps / 4 % 32)
zn_bits v ps h = ground arith

-- The state after the comparison of `temp` with `fetched`.
unfoldable pub compared : State → ℕ
compared s =
    zn ((s.temp + 256 - s.fetched) % 256) (put_bit flag_c (to_bit (leb s.fetched s.temp)) s.cpu.ps)

pub compare_flags_lem :
    (s : State)
    → s.temp < 256
    → s.fetched < 256
    → compare_flags s ≡ some (tt, with_ps s (compared s))
unfolding compare_flags ◌>>=◌ gets set_flag compared
compare_flags_lem s h k =
    let low : bit_and (u16 (s.temp + 65536 - s.fetched)) 0xff ≡ (s.temp + 256 - s.fetched) % 256 =
      bit_and_ff (u16 (s.temp + 65536 - s.fetched)) ∙ omega arith in
    rw (low, update_flags_lem ((s.temp + 256 - s.fetched) % 256) _ (omega arith))

-- CMP, CPX and CPY: for a register and an operand that are bytes the comparison changes the flags
-- only. C is set exactly if the register is not below the operand, Z exactly if they are equal, N is
-- the top bit of the difference modulo 256, and the other flags stay.
pub compare_flags-flags :
    (s : State)
    → s.temp < 256
    → s.fetched < 256
    → (ps : ℕ) × (compare_flags s ≡ some (tt, with_ps s ps))
      × (get_bit flag_c ps ≡ to_bit (leb s.fetched s.temp))
      × (get_bit flag_z ps ≡ to_bit (s.temp == s.fetched))
      × (get_bit flag_n ps ≡ (s.temp + 256 - s.fetched) % 256 / 128)
      × (ps / 4 % 32 ≡ s.cpu.ps / 4 % 32)
unfolding compared
compare_flags-flags s h k =
    (compared s, compare_flags_lem s h k, ground arith, ground arith, ground arith, ground arith)
