-- ===== src/Isa/Blind.antt =====
-- The registers and the memory behind an instruction of the reference, and the cycles left before it.
pub mod Round
use m.Base.{
  ℕ, ◌+◌, ◌-◌, ◌%◌, leb, to_bit, ◌≡◌, ◌∙◌, refl, ap, subst, sym, Bool, true, false, Bool-cases, inl,
  inr,
}
use m.Base.Int.{ℤ, pos, ◌-ℤ◌}
use m.Cpu.{put_bit, flag_c}
use m.Alu.Flags.{zn}
use m.Switch.{
  Case, load_case, store_case, transfer_case, shift_case, logic_case, bit_case, jump_case,
  stack_case,
}
use m.Switch.Transfer.{tax, txa, tay, tya, inx, dex, iny, dey, TransferIns}
use m.Switch.StackOps.{StackOp, pha, pla, php, plp, txs, tsx, nop}
use m.Switch.Shift.{ShiftOp, ShiftMode}
use m.Switch.Jump.{JumpIns, jmp_abs, jmp_ind, jsr, rts, brk, rti}
use m.Switch.Bitwise.{apply, Bit, bit_zp, bit_abs}
use m.Instructions.{
  Instruction, labelled, flag, branch, sum, cmp, compare_index, count, FlagIns, clc, sec, cld, sed,
  cli, sei, clv, SumIns, adc, sbc, Mode, CountIns, CountMode, BranchIns, beq, bne, bcs, bcc, bmi,
  bpl, bvc, bvs,
}
use m.Isa.{Visible, Register, reg_a, reg_x, reg_y, get, put, poke, advance, peek}
use m.Isa.Address.{Place, address, size, IsReadable, IsWritable}
use m.Isa.Reference.{
  run_load, load_place, load_register, load_cycles, read_cycles, run_logic, logic_place,
}
use m.Isa.Effects.{
  run_store, store_place, store_register, store_cycles, run_transfer, run_flag, run_stack,
}
use m.Isa.Operations.{
  run_sum, add_in, mode_place, operand_cycles, run_compare, index_register, index_place, counted,
  run_count, count_place, run_branch, taken,
}
use m.Isa.Control.{run_shift, run_bit, bit_place, run_jump, IsShiftable, IsJumpable}
use m.Isa.Exec.{exec, exec_case, Permits, PermitsCase, next, begin}

abbrev pub with_cycles : ℤ → Visible → Visible
with_cycles c v = record v { cycles = c }

-- The same registers and memory.
abbrev pub Alike : Visible → Visible → Type 0
Alike v w = with_cycles (pos 1) v ≡ with_cycles (pos 1) w

module _ (c : ℤ) (v : Visible) where
  pub address_same : (p : Place) → address p (with_cycles c v) ≡ address p v
  unfolding address peek
  address_same Place.im = refl
  address_same Place.zp = refl
  address_same Place.zpx = refl
  address_same Place.zpy = refl
  address_same Place.abs = refl
  address_same Place.absx = refl
  address_same Place.absy = refl
  address_same Place.indx = refl
  address_same Place.indy = refl

  pub IsReadable-same : (p : Place) → IsReadable p v → IsReadable p (with_cycles c v)
  unfolding IsReadable peek
  IsReadable-same Place.im h = h
  IsReadable-same Place.zp h = h
  IsReadable-same Place.zpx h = h
  IsReadable-same Place.zpy h = h
  IsReadable-same Place.abs h = h
  IsReadable-same Place.absx h = h
  IsReadable-same Place.absy h = h
  IsReadable-same Place.indx h = h
  IsReadable-same Place.indy h = h

  pub IsWritable-same :
      (p : Place) → IsWritable (address p v) → IsWritable (address p (with_cycles c v))
  IsWritable-same p h = subst IsWritable (sym (address_same p)) h

  pub value_same :
      (p : Place) → peek (with_cycles c v) (address p (with_cycles c v)) ≡ peek v (address p v)
  unfolding peek
  value_same p = ap (peek v) (address_same p)

  pub get_same : (r : Register) → get r (with_cycles c v) ≡ get r v
  get_same reg_a = refl
  get_same reg_x = refl
  get_same reg_y = refl

  pub load-Alike :
      (r : Register) (n k d e : ℕ)
      → Alike (advance k d (put r n (with_cycles c v))) (advance k e (put r n v))
  load-Alike reg_a n k d e = refl
  load-Alike reg_x n k d e = refl
  load-Alike reg_y n k d e = refl

  pub transfer-Alike :
      (i : TransferIns) → Alike (run_transfer i (with_cycles c v)) (run_transfer i v)
  unfolding run_transfer
  transfer-Alike tax = refl
  transfer-Alike txa = refl
  transfer-Alike tay = refl
  transfer-Alike tya = refl
  transfer-Alike inx = refl
  transfer-Alike dex = refl
  transfer-Alike iny = refl
  transfer-Alike dey = refl

  pub flag-Alike : (i : FlagIns) → Alike (run_flag i (with_cycles c v)) (run_flag i v)
  unfolding run_flag
  flag-Alike clc = refl
  flag-Alike sec = refl
  flag-Alike cld = refl
  flag-Alike sed = refl
  flag-Alike cli = refl
  flag-Alike sei = refl
  flag-Alike clv = refl

  pub stack-Alike : (i : StackOp) → Alike (run_stack i (with_cycles c v)) (run_stack i v)
  unfolding run_stack peek
  stack-Alike pha = refl
  stack-Alike pla = refl
  stack-Alike php = refl
  stack-Alike plp = refl
  stack-Alike txs = refl
  stack-Alike tsx = refl
  stack-Alike nop = refl

  pub shift-Alike :
      (op : ShiftOp) (mode : ShiftMode)
      → Alike (run_shift op mode (with_cycles c v)) (run_shift op mode v)
  unfolding run_shift peek address
  shift-Alike op ShiftMode.accumulator = refl
  shift-Alike op ShiftMode.zp = refl
  shift-Alike op ShiftMode.zpx = refl
  shift-Alike op ShiftMode.abs = refl
  shift-Alike op ShiftMode.absx = refl

  pub bit-Alike : (i : Bit) → Alike (run_bit i (with_cycles c v)) (run_bit i v)
  unfolding run_bit peek address
  bit-Alike bit_zp = refl
  bit-Alike bit_abs = refl

  pub jump-Alike : (i : JumpIns) → Alike (run_jump i (with_cycles c v)) (run_jump i v)
  unfolding run_jump peek
  jump-Alike jmp_abs = refl
  jump-Alike jmp_ind = refl
  jump-Alike jsr = refl
  jump-Alike rts = refl
  jump-Alike brk = refl
  jump-Alike rti = refl

  pub sum_in-Alike :
      (i : SumIns) (n k d e : ℕ)
      → Alike (advance k d (add_in i n (with_cycles c v))) (advance k e (add_in i n v))
  unfolding add_in
  sum_in-Alike adc n k d e = refl
  sum_in-Alike sbc n k d e = refl

  taken_same : (i : BranchIns) → taken i (with_cycles c v) ≡ taken i v
  unfolding taken
  taken_same beq = refl
  taken_same bne = refl
  taken_same bcs = refl
  taken_same bcc = refl
  taken_same bmi = refl
  taken_same bpl = refl
  taken_same bvc = refl
  taken_same bvs = refl

  pub branch-Alike : (i : BranchIns) → Alike (run_branch i (with_cycles c v)) (run_branch i v)
  unfolding run_branch peek
  branch-Alike i = elim (Bool-cases (taken i v)) [
    | inl jumps ↦ rw (taken_same i, jumps)
    | inr stays ↦ rw (taken_same i, stays)
  ]
