-- ===== src/Isa/Blind/Round.antt =====
-- The same for whole instructions and rounds of the reference.
use m.Base.{ℕ, ◌+◌, ◌-◌, ◌%◌, leb, to_bit, ◌∙◌, ap}
use m.Base.Int.{ℤ, pos, ◌-ℤ◌}
use m.Cpu.{put_bit, flag_c}
use m.Alu.Flags.{zn}
use m.Switch.{
  Case, load_case, store_case, transfer_case, shift_case, logic_case, bit_case, jump_case,
  stack_case,
}
use m.Switch.Shift.{ShiftMode}
use m.Switch.Jump.{JumpIns, jmp_abs, jmp_ind, jsr, rts, brk, rti}
use m.Switch.Bitwise.{apply}
use m.Instructions.{
  Instruction, labelled, flag, branch, sum, cmp, compare_index, count, SumIns, Mode, CountIns,
  CountMode,
}
use m.Isa.{Visible, Register, reg_a, get, put, poke, advance, peek}
use m.Isa.Address.{Place, address, size, IsReadable}
use m.Isa.Reference.{
  run_load, load_place, load_register, load_cycles, read_cycles, run_logic, logic_place,
}
use m.Isa.Effects.{run_store, store_place, store_register, store_cycles}
use m.Isa.Operations.{
  run_sum, add_in, mode_place, operand_cycles, run_compare, index_register, index_place, counted,
  run_count, count_place,
}
use m.Isa.Control.{bit_place, IsShiftable, IsJumpable}
use m.Isa.Exec.{exec, exec_case, Permits, PermitsCase, next, begin}
use m.Isa.Blind.{
  with_cycles, Alike, address_same, IsReadable-same, IsWritable-same, value_same, get_same,
  load-Alike, transfer-Alike, flag-Alike, stack-Alike, shift-Alike, bit-Alike, jump-Alike,
  sum_in-Alike, branch-Alike,
}

module _ (c : ℤ) (v : Visible) where
  case-Alike : (i : Case) → Alike (exec_case i (with_cycles c v)) (exec_case i v)
  unfolding exec_case run_load run_store run_logic peek
  case-Alike (load_case i) =
      let p = load_place i in
      let r = load_register i in
      load-Alike c v r (peek (with_cycles c v) (address p (with_cycles c v))) (size p)
        (load_cycles i (with_cycles c v)) (load_cycles i v)
      ∙ ap (λ n. with_cycles (pos 1) (advance (size p) (load_cycles i v) (put r n v)))
          (value_same c v p)
  case-Alike (store_case i) =
      let p = store_place i in
      let r = store_register i in
      ap
        (λ a.
          with_cycles (pos 1)
            (advance (size p) (store_cycles p) (poke a (get r (with_cycles c v)) v)))
        (address_same c v p)
      ∙ ap (λ n. with_cycles (pos 1) (advance (size p) (store_cycles p) (poke (address p v) n v)))
          (get_same c v r)
  case-Alike (transfer_case i) = transfer-Alike c v i
  case-Alike (shift_case op mode) = shift-Alike c v op mode
  case-Alike (logic_case op mode) =
      let p = logic_place mode in
      ap
        (λ n.
          with_cycles (pos 1) (advance (size p) (read_cycles p v) (put reg_a (apply op v.a n) v)))
        (value_same c v p)
  case-Alike (bit_case i) = bit-Alike c v i
  case-Alike (jump_case i) = jump-Alike c v i
  case-Alike (stack_case i) = stack-Alike c v i

  sum-Alike :
      (i : SumIns) (mode : Mode) → Alike (run_sum i mode (with_cycles c v)) (run_sum i mode v)
  unfolding run_sum
  sum-Alike i mode =
      let p = mode_place mode in
      sum_in-Alike c v i (peek (with_cycles c v) (address p (with_cycles c v))) (size p)
        (operand_cycles p (with_cycles c v)) (operand_cycles p v)
      ∙ ap (λ n. with_cycles (pos 1) (advance (size p) (operand_cycles p v) (add_in i n v)))
          (value_same c v p)

  compare-Alike :
      (r : Register) (p : Place) → Alike (run_compare r p (with_cycles c v)) (run_compare r p v)
  unfolding run_compare
  compare-Alike r p =
      let seen : ℕ → ℕ → Visible = λ n k. record v {
        pc = (v.pc + size p) % 65536;
        ps = zn ((k + 256 - n) % 256) (put_bit flag_c (to_bit (leb n k)) v.ps);
        cycles = pos 1;
      } in
      ap (λ n. seen n (get r (with_cycles c v))) (value_same c v p)
      ∙ ap (seen (peek v (address p v))) (get_same c v r)

  count-Alike :
      (i : CountIns) (mode : CountMode)
      → Alike (run_count i mode (with_cycles c v)) (run_count i mode v)
  unfolding run_count
  count-Alike i mode =
      let p = count_place mode in
      let n = counted i v.a in
      ap (λ a. with_cycles (pos 1) (advance (size p) 0 (record (poke a n v) { ps = zn n v.ps })))
        (address_same c v p)

  exec-Alike : (i : Instruction) → Alike (exec i (with_cycles c v)) (exec i v)
  unfolding exec
  exec-Alike (labelled i) = case-Alike i
  exec-Alike (flag i) = flag-Alike c v i
  exec-Alike (branch i) = branch-Alike c v i
  exec-Alike (sum i mode) = sum-Alike i mode
  exec-Alike (cmp mode) = compare-Alike reg_a (mode_place mode)
  exec-Alike (compare_index i mode) = compare-Alike (index_register i) (index_place mode)
  exec-Alike (count i mode) = count-Alike i mode

  IsShiftable-same : (mode : ShiftMode) → IsShiftable mode v → IsShiftable mode (with_cycles c v)
  unfolding IsShiftable IsReadable address peek
  IsShiftable-same ShiftMode.accumulator h = h
  IsShiftable-same ShiftMode.zp h = h
  IsShiftable-same ShiftMode.zpx h = h
  IsShiftable-same ShiftMode.abs h = h
  IsShiftable-same ShiftMode.absx h = h

  IsJumpable-same : (i : JumpIns) → IsJumpable i v → IsJumpable i (with_cycles c v)
  unfolding IsJumpable IsReadable
  IsJumpable-same jmp_abs h = h
  IsJumpable-same jmp_ind h = h
  IsJumpable-same jsr h = h
  IsJumpable-same rts h = h
  IsJumpable-same brk h = h
  IsJumpable-same rti h = h

  case_permits : (i : Case) → PermitsCase i v → PermitsCase i (with_cycles c v)
  unfolding PermitsCase
  case_permits (load_case i) h = IsReadable-same c v (load_place i) h
  case_permits (store_case i) (h, w) =
      (IsReadable-same c v (store_place i) h, IsWritable-same c v (store_place i) w)
  case_permits (transfer_case i) h = h
  case_permits (shift_case op mode) h = IsShiftable-same mode h
  case_permits (logic_case op mode) h = IsReadable-same c v (logic_place mode) h
  case_permits (bit_case i) h = IsReadable-same c v (bit_place i) h
  case_permits (jump_case i) h = IsJumpable-same i h
  case_permits (stack_case i) h = h

  permits : (i : Instruction) → Permits i v → Permits i (with_cycles c v)
  unfolding Permits
  permits (labelled i) h = case_permits i h
  permits (flag i) h = h
  permits (branch i) h = h
  permits (sum i mode) h = IsReadable-same c v (mode_place mode) h
  permits (cmp mode) h = IsReadable-same c v (mode_place mode) h
  permits (compare_index i mode) h = IsReadable-same c v (index_place mode) h
  permits (count i mode) (h, w) =
      (IsReadable-same c v (count_place mode) h, IsWritable-same c v (count_place mode) w)

-- A round does not depend on the cycles left.
pub next-Alike :
    (i : Instruction) (c : ℤ) (v : Visible) → Alike (next i (with_cycles c v)) (next i v)
next-Alike i c v = exec-Alike (c -ℤ pos 1) (begin v) i

pub begin-Permits :
    (i : Instruction) (c : ℤ) (v : Visible)
    → Permits i (begin v)
    → Permits i (begin (with_cycles c v))
begin-Permits i c v h = permits (c -ℤ pos 1) (begin v) i h
