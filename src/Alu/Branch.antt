-- ===== src/Alu/Branch.antt =====
-- The conditional branches of src/olc6502.c.
use m.Base.{
  ℕ, zero, suc, ◌+◌, ◌/◌, ◌%◌, ◌<◌, ◌≡◌, arith, Bool, true, false, not, some, ◌==◌, u8, u16,
  bit_and, if◌then◌else◌, refl, Bool-cases, inl, inr,
}
use m.Base.Int.{pos, ◌-ℤ◌}
use m.Decoder.Map.{byte_at, line_of, bus_read_byte-total}
use m.Cpu.{
  State, ◌>>=◌, gets, pure, skip, read, set_pc, set_fetched, spend, get_bit, flag_c, flag_z, flag_v,
  flag_n, page_boundary_crossed, set_oops,
}
use m.Cpu.Address.{fetch_operand}
use m.Blocks.Branch.{branch_block, should_branch, take_branch, plus_signed}

-- The flag that the two high bits of the opcode select.
unfoldable pub branch_flag : ℕ → ℕ
branch_flag zero = flag_n
branch_flag (suc zero) = flag_v
branch_flag (suc (suc zero)) = flag_c
branch_flag (suc (suc (suc _))) = flag_z

-- The flag has the value that the third bit of the opcode asks for.
abbrev pub holds : ℕ → State → Bool
holds aaa s = get_bit (branch_flag (aaa / 2)) s.cpu.ps == aaa % 2

should_branch_lem : (aaa : ℕ) (s : State) → aaa < 8 → should_branch aaa s ≡ some (holds aaa s, s)
unfolding should_branch branch_flag ◌>>=◌ gets pure
should_branch_lem zero s h = ground arith
should_branch_lem (suc zero) s h = ground arith
should_branch_lem (suc (suc zero)) s h = ground arith
should_branch_lem (suc (suc (suc zero))) s h = ground arith
should_branch_lem (suc (suc (suc (suc zero)))) s h = ground arith
should_branch_lem (suc (suc (suc (suc (suc zero))))) s h = ground arith
should_branch_lem (suc (suc (suc (suc (suc (suc zero)))))) s h = ground arith
should_branch_lem (suc (suc (suc (suc (suc (suc (suc zero))))))) s h = ground arith
should_branch_lem (suc (suc (suc (suc (suc (suc (suc (suc n)))))))) s h = absurd (omega arith)

-- The state after the operand is fetched, and after it is stored in `fetched`.
abbrev pub operand_read : State → State
operand_read s = record s {
  cpu = record s.cpu { pc = u16 (s.cpu.pc + 1); ce = record s.cpu.ce { ce = line_of s.cpu.pc } };
  cycles = s.cycles -ℤ pos 1;
}

abbrev pub fetched_at : State → State
fetched_at s = record (operand_read s) { fetched = u8 (byte_at s.cpu.ce s.cpu.pc) }

pub fetch_lem :
    (s : State)
    → s.cpu.pc < 65536
    → fetch_operand s ≡ some (byte_at s.cpu.ce s.cpu.pc, operand_read s)
unfolding fetch_operand ◌>>=◌ gets spend set_pc read
fetch_lem s h =
    let here : u16 s.cpu.pc ≡ s.cpu.pc = omega arith in
    rw (here, bus_read_byte-total s.cpu.ce s.cpu.pc h)

-- The state after the jump.
abbrev pub jumped : State → State
jumped s = record s {
  cpu = record s.cpu { pc = u16 (plus_signed s.cpu.pc s.fetched) };
  oops_cycle = true;
  cycles =
      s.cycles
      -ℤ pos (
          if not (
            bit_and (u16 (s.cpu.pc + 65535)) 0xff00
            == bit_and (u16 (plus_signed s.cpu.pc s.fetched)) 0xff00)
          then 2
          else 1);
}

pub take_branch_lem : (s : State) → take_branch s ≡ some (tt, jumped s)
unfolding take_branch ◌>>=◌ gets set_pc page_boundary_crossed set_oops spend pure
take_branch_lem s = refl

module _ (aaa : ℕ) (s : State) (small : aaa < 8) (h : s.cpu.pc < 65536) where
  taken : holds aaa s ≡ true → branch_block aaa 4 0 s ≡ some (tt, jumped (fetched_at s))
  unfolding branch_block set_fetched ◌>>=◌
  taken c = rw (should_branch_lem aaa s small, c, fetch_lem s h) (take_branch_lem (fetched_at s))

  not_taken : holds aaa s ≡ false → branch_block aaa 4 0 s ≡ some (tt, fetched_at s)
  unfolding branch_block set_fetched ◌>>=◌ skip
  not_taken c = rw (should_branch_lem aaa s small, c, fetch_lem s h)

-- A conditional branch, with `pc` at its operand and `aaa` the high bits of its opcode: if the flag
-- has the value asked for, `pc` becomes the address behind the operand plus the operand as a signed
-- byte, modulo 65536, and otherwise the address behind the operand. The sum is stated on values
-- raised by 128, which makes the signed byte a natural number.
pub branch_block-target :
    (aaa : ℕ) (s : State)
    → aaa < 8
    → s.cpu.pc < 65536
    → (t : State) × (branch_block aaa 4 0 s ≡ some (tt, t))
      × ((t.cpu.pc + 128) % 65536 ≡ (
          if holds aaa s
          then (s.cpu.pc + 1 + (byte_at s.cpu.ce s.cpu.pc + 128) % 256) % 65536
          else (s.cpu.pc + 1 + 128) % 65536))
branch_block-target aaa s small h = elim (Bool-cases (holds aaa s)) [
  | inl yes_taken ↦ (_, taken aaa s small h yes_taken, rw (yes_taken) (ground arith))
  | inr no_branch ↦ (_, not_taken aaa s small h no_branch, rw (no_branch) (ground arith))
]
