-- ===== src/Instructions/Compare.antt =====
-- CMP, CPX and CPY of src/olc6502.c as instructions: what a round of the loop does when their opcode is at
-- `pc`.
use m.Base.{ℕ, ◌+◌, ◌-◌, ◌/◌, ◌%◌, ◌<◌, ◌≡◌, ◌∙◌, refl, arith, some, ◌==◌, leb, to_bit, u8}
use m.Base.Int.{ -ℤ_twice}
use m.Decoder.Map.{byte_at}
use m.Cpu.{State, gets, get_bit, flag_c, flag_z, flag_n}
use m.Clock.{step}
use m.Valid.{IsValid}
use m.Alu.Flags.{with_ps, compare_flags-flags}
use m.Instructions.{
  Mode, IndexIns, cpx, cpy, IndexMode, Instruction, cmp, compare_index, cmp_opcode, index_opcode,
  code,
}
use m.Instructions.Meaning.{meaning, index_mode, compare_register}
use m.Instructions.Operand.{effective, cost, IsReadable, obtained}
use m.Instructions.Addressing.{byte_at-byte}
use m.Instructions.Round.{begun, begun-IsValid, operand_of, step_at}
use m.Instructions.Placed.{placed, with_temp, compare_register_lem, kept_a, kept_x, kept_y}
use m.Instructions.Sum.{Advances}

-- The comparison of a register that holds `value` with the operand, in the round from `s` to `t`.
abbrev pub Compares : Mode → ℕ → State → State → Type 0
Compares mode value s t =
    ((step s ≡ some (tt, t)) × Advances mode s t)
    × (t.cpu.a ≡ s.cpu.a)
    × (get_bit flag_c t.cpu.ps ≡ to_bit (leb (operand_of mode s) value))
    × (get_bit flag_z t.cpu.ps ≡ to_bit (value == operand_of mode s))
    × (get_bit flag_n t.cpu.ps ≡ (value + 256 - operand_of mode s) % 256 / 128)

module _ (g : State → ℕ) (kept : (mode : Mode) (s : State) → g (placed mode s) ≡ g s) where
  step_compare :
      (i : Instruction) (mode : Mode) (s : State) (value : ℕ)
      → meaning i (begun s) ≡ compare_register (gets g) mode (begun s)
      → g (begun s) ≡ value
      → value < 256
      → IsValid s
      → byte_at s.cpu.ce s.cpu.pc ≡ code i
      → IsReadable mode (begun s)
      → (t : State) × Compares mode value s t
  unfolding obtained byte_at
  step_compare i mode s value same holds byte v here w =
      let u = begun s in
      let register : u8 (g u) ≡ value = rw (holds) (omega arith) in
      let operand = byte_at-byte s.cpu.ce (effective mode u) v.mem_bytes in
      let (ps, e, c, z, n, _) =
        compare_flags-flags (with_temp (obtained mode u) value) byte operand in
      let whole =
        step_at i s v here ∙ same ∙ compare_register_lem g kept mode u (begun-IsValid s v) w in
      (
        with_ps (with_temp (obtained mode u) value) ps,
        (
          (
            rw (whole, register) e,
            (omega arith, -ℤ_twice s.cycles 1 (cost mode u), refl, (refl, refl, refl)),
          ),
          refl,
          c,
          z,
          n,
        ),
      )

-- CMP in each of its eight modes, with its opcode at `pc`, in a state whose variables are in range and
-- where the words that the mode reads do not span two devices. The effective address is that of the
-- code, which takes the high byte at 0x0100 for ($FF),Y and does not wrap n + X to the zero page for
-- (n,X). The round returns and changes of the registers the flags and `pc` only. C is set exactly if the accumulator is not below the operand at
-- the effective address, Z exactly if they are equal, N is the top bit of the difference modulo 256;
-- `pc` moves behind the instruction, and the cycles are those of the mode.
pub step-cmp :
    (mode : Mode) (s : State)
    → IsValid s
    → byte_at s.cpu.ce s.cpu.pc ≡ cmp_opcode mode
    → IsReadable mode (begun s)
    → (t : State) × Compares mode s.cpu.a s t
unfolding code meaning
step-cmp mode s v here w =
    step_compare (λ u. u.cpu.a) kept_a (cmp mode) mode s s.cpu.a refl refl v.a_byte v here w

abbrev pub index_value : IndexIns → State → ℕ
index_value cpx s = s.cpu.x
index_value cpy s = s.cpu.y

-- CPX and CPY in each of their three modes, with the opcode at `pc`, in a state whose variables are in range
-- and where the words that the mode reads do not span two devices: the round returns and changes of the
-- registers the flags and `pc` only. C is set exactly if the register X or Y is not below the operand
-- at the effective address, Z exactly if they are equal, N is the top bit of the difference modulo 256;
-- `pc` moves behind the instruction, and the cycles are those of the mode. The immediate opcodes are
-- run in the indexed indirect mode and not in the immediate one, with a word that is read at n + X
-- without a return to the zero page.
pub step-compare_index :
    (i : IndexIns) (mode : IndexMode) (s : State)
    → IsValid s
    → byte_at s.cpu.ce s.cpu.pc ≡ index_opcode i mode
    → IsReadable (index_mode mode) (begun s)
    → (t : State) × Compares (index_mode mode) (index_value i s) s t
unfolding code meaning
step-compare_index cpx mode s v here w =
    step_compare (λ u. u.cpu.x) kept_x (compare_index cpx mode) (index_mode mode) s s.cpu.x refl
      refl v.x_byte v here w
step-compare_index cpy mode s v here w =
    step_compare (λ u. u.cpu.y) kept_y (compare_index cpy mode) (index_mode mode) s s.cpu.y refl
      refl v.y_byte v here w
