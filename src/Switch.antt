-- ===== src/Switch.antt =====
-- The `switch (opcode)` of src/olc6502.c: its case labels, and the code of each case.
pub mod Load
pub mod Store
pub mod Transfer
pub mod Shift
pub mod Bitwise
pub mod Jump
pub mod StackOps
pub mod Labels
use m.Base.{ℕ, Option, none, some, List, [], ◌∷◌, ◌==◌, if◌then◌else◌}
use m.Cpu.{M, skip}
use m.Switch.Load.{
  LoadIns, lda_im, lda_zp, lda_zpx, lda_abs, lda_absx, lda_absy, lda_indx, lda_indy, ldx_im, ldx_zp,
  ldx_zpy, ldx_abs, ldx_absy, ldy_im, ldy_zp, ldy_zpx, ldy_abs, ldy_absx, load, load_opcode,
}
use m.Switch.Store.{
  StoreIns, sta_zp, sta_zpx, sta_abs, sta_absx, sta_absy, sta_indx, sta_indy, stx_zp, stx_zpy,
  stx_abs, sty_zp, sty_zpx, sty_abs, store, store_opcode,
}
use m.Switch.Transfer.{
  TransferIns, tax, txa, tay, tya, inx, dex, iny, dey, transfer, transfer_opcode,
}
use m.Switch.Shift.{ShiftOp, asl, lsr, rol, ror, ShiftMode, shift_operand, shift_opcode}
use m.Switch.Bitwise.{
  Logic, and, ora, eor, LogicMode, Bit, bit_zp, bit_abs, logic, logic_opcode, bit, bit_opcode,
}
use m.Switch.Jump.{JumpIns, jmp_abs, jmp_ind, jsr, rts, brk, rti, jump, jump_opcode}
use m.Switch.StackOps.{StackOp, pha, pla, php, plp, txs, tsx, nop, stack_op, stack_opcode}

-- A case of the switch.
pub data Case : Type 0 where
  load_case : LoadIns → Case
  store_case : StoreIns → Case
  transfer_case : TransferIns → Case
  shift_case : ShiftOp → ShiftMode → Case
  logic_case : Logic → LogicMode → Case
  bit_case : Bit → Case
  jump_case : JumpIns → Case
  stack_case : StackOp → Case

-- The label of a case, from src/include/olc6502_constants.h.
unfoldable pub opcode_of : Case → ℕ
unfolding load_opcode store_opcode transfer_opcode shift_opcode logic_opcode bit_opcode jump_opcode
    stack_opcode
opcode_of (load_case i) = load_opcode i
opcode_of (store_case i) = store_opcode i
opcode_of (transfer_case i) = transfer_opcode i
opcode_of (shift_case op mode) = shift_opcode op mode
opcode_of (logic_case op mode) = logic_opcode op mode
opcode_of (bit_case i) = bit_opcode i
opcode_of (jump_case i) = jump_opcode i
opcode_of (stack_case i) = stack_opcode i

-- The cases in the order of the source.
unfoldable pub cases : List Case
cases =
    load_case lda_im
    ∷ load_case lda_zp
    ∷ load_case lda_zpx
    ∷ load_case lda_abs
    ∷ load_case lda_absx
    ∷ load_case lda_absy
    ∷ load_case lda_indx
    ∷ load_case lda_indy
    ∷ store_case sta_zp
    ∷ store_case sta_zpx
    ∷ store_case sta_abs
    ∷ store_case sta_absx
    ∷ store_case sta_absy
    ∷ store_case sta_indx
    ∷ store_case sta_indy
    ∷ load_case ldx_im
    ∷ load_case ldx_zp
    ∷ load_case ldx_zpy
    ∷ load_case ldx_abs
    ∷ load_case ldx_absy
    ∷ store_case stx_zp
    ∷ store_case stx_zpy
    ∷ store_case stx_abs
    ∷ load_case ldy_im
    ∷ load_case ldy_zp
    ∷ load_case ldy_zpx
    ∷ load_case ldy_abs
    ∷ load_case ldy_absx
    ∷ store_case sty_zp
    ∷ store_case sty_zpx
    ∷ store_case sty_abs
    ∷ transfer_case tax
    ∷ transfer_case txa
    ∷ transfer_case tay
    ∷ transfer_case tya
    ∷ transfer_case inx
    ∷ transfer_case dex
    ∷ transfer_case iny
    ∷ transfer_case dey
    ∷ shift_case asl ShiftMode.accumulator
    ∷ shift_case asl ShiftMode.zp
    ∷ shift_case asl ShiftMode.zpx
    ∷ shift_case asl ShiftMode.abs
    ∷ shift_case asl ShiftMode.absx
    ∷ shift_case lsr ShiftMode.accumulator
    ∷ shift_case lsr ShiftMode.zp
    ∷ shift_case lsr ShiftMode.zpx
    ∷ shift_case lsr ShiftMode.abs
    ∷ shift_case lsr ShiftMode.absx
    ∷ shift_case rol ShiftMode.accumulator
    ∷ shift_case rol ShiftMode.zp
    ∷ shift_case rol ShiftMode.zpx
    ∷ shift_case rol ShiftMode.abs
    ∷ shift_case rol ShiftMode.absx
    ∷ shift_case ror ShiftMode.accumulator
    ∷ shift_case ror ShiftMode.zp
    ∷ shift_case ror ShiftMode.zpx
    ∷ shift_case ror ShiftMode.abs
    ∷ shift_case ror ShiftMode.absx
    ∷ logic_case and LogicMode.im
    ∷ logic_case and LogicMode.zp
    ∷ logic_case and LogicMode.zpx
    ∷ logic_case and LogicMode.abs
    ∷ logic_case and LogicMode.absx
    ∷ logic_case and LogicMode.absy
    ∷ logic_case and LogicMode.indx
    ∷ logic_case and LogicMode.indy
    ∷ logic_case ora LogicMode.im
    ∷ logic_case ora LogicMode.zp
    ∷ logic_case ora LogicMode.zpx
    ∷ logic_case ora LogicMode.abs
    ∷ logic_case ora LogicMode.absx
    ∷ logic_case ora LogicMode.absy
    ∷ logic_case ora LogicMode.indx
    ∷ logic_case ora LogicMode.indy
    ∷ logic_case eor LogicMode.im
    ∷ logic_case eor LogicMode.zp
    ∷ logic_case eor LogicMode.zpx
    ∷ logic_case eor LogicMode.abs
    ∷ logic_case eor LogicMode.absx
    ∷ logic_case eor LogicMode.absy
    ∷ logic_case eor LogicMode.indx
    ∷ logic_case eor LogicMode.indy
    ∷ bit_case bit_zp
    ∷ bit_case bit_abs
    ∷ jump_case jmp_abs
    ∷ jump_case jmp_ind
    ∷ jump_case jsr
    ∷ jump_case rts
    ∷ jump_case brk
    ∷ jump_case rti
    ∷ stack_case pha
    ∷ stack_case pla
    ∷ stack_case php
    ∷ stack_case plp
    ∷ stack_case txs
    ∷ stack_case tsx
    ∷ stack_case nop
    ∷ []

-- The case that an opcode selects; `none` is the default case, which does nothing.
unfoldable pub find_case : ℕ → List Case → Option Case
unfolding opcode_of
find_case opcode [] = none
find_case opcode (c ∷ rest) = if opcode == opcode_of c then some c else find_case opcode rest

unfoldable pub run_case : Case → M (Unit {0})
run_case (load_case i) = load i
run_case (store_case i) = store i
run_case (transfer_case i) = transfer i
run_case (shift_case op mode) = shift_operand mode
run_case (logic_case op mode) = logic op mode
run_case (bit_case i) = bit i
run_case (jump_case i) = jump i
run_case (stack_case i) = stack_op i

abbrev pub run_selected : Option Case → M (Unit {0})
run_selected none = skip
run_selected (some c) = run_case c

unfoldable pub switch : ℕ → M (Unit {0})
unfolding find_case cases
switch opcode = run_selected (find_case opcode cases)
