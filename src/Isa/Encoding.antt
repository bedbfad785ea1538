-- ===== src/Isa/Encoding.antt =====
-- The opcodes of src/include/olc6502_constants.h against the layout of the 6502's opcodes: three bits for the
-- operation, three for the addressing mode, and two for the group.
use m.Base.{ℕ, ◌+◌, ◌*◌, ◌≡◌, refl}
use m.Switch.Load.{lda_im}
use m.Switch.Store.{sta_zp}
use m.Switch.Transfer.{TransferIns, tax, txa, tay, tya, inx, dex, iny, dey}
use m.Switch.Shift.{ShiftOp, asl, lsr, rol, ror, ShiftMode}
use m.Switch.Bitwise.{Logic, and, ora, eor, LogicMode, bit_zp}
use m.Switch.Jump.{JumpIns, jmp_abs, jmp_ind, jsr, rts, brk, rti}
use m.Switch.StackOps.{StackOp, pha, pla, php, plp, txs, tsx, nop}
use m.Switch.{
  Case, load_case, store_case, transfer_case, shift_case, logic_case, bit_case, jump_case,
  stack_case, opcode_of,
}
use m.Instructions.{
  FlagIns, clc, sec, cld, sed, cli, sei, clv, BranchIns, beq, bne, bcs, bcc, bmi, bpl, bvc, bvs,
  Mode, SumIns, adc, sbc, cpx, cpy, IndexMode, inc, dec, CountMode, Instruction, labelled, flag,
  branch, sum, cmp, compare_index, count, code,
}
use m.Isa.{Register, reg_a, reg_x, reg_y}
use m.Isa.Address.{Place}
use m.Isa.Reference.{load_register, load_place, logic_place}
use m.Isa.Effects.{store_register, store_place}
use m.Isa.Operations.{mode_place, count_place}
use m.Isa.Control.{bit_place}

-- The opcode with the bits aaabbbcc.
abbrev bits : ℕ → ℕ → ℕ → ℕ
bits aaa bbb cc = 32 * aaa + 4 * bbb + cc

-- The bits bbb of an addressing mode: in the group 01, which has the instructions on the accumulator,
-- and in the groups 00 and 10.
column_01 : Place → ℕ
column_01 Place.indx = 0
column_01 Place.zp = 1
column_01 Place.im = 2
column_01 Place.abs = 3
column_01 Place.indy = 4
column_01 Place.zpx = 5
column_01 Place.zpy = 5
column_01 Place.absy = 6
column_01 Place.absx = 7

column_x0 : Place → ℕ
column_x0 Place.zp = 1
column_x0 Place.abs = 3
column_x0 Place.zpx = 5
column_x0 Place.zpy = 5
column_x0 Place.absx = 7
column_x0 Place.absy = 7
column_x0 _ = 0

-- An operation on the operand, in the group of the register that it is about.
of_register : Register → ℕ → Place → ℕ
unfolding column_01 column_x0
of_register reg_a aaa p = bits aaa (column_01 p) 1
of_register reg_x aaa p = bits aaa (column_x0 p) 2
of_register reg_y aaa p = bits aaa (column_x0 p) 0

shift_number : ShiftOp → ℕ
shift_number asl = 0
shift_number rol = 1
shift_number lsr = 2
shift_number ror = 3

shift_column : ShiftMode → ℕ
shift_column ShiftMode.accumulator = 2
shift_column ShiftMode.zp = 1
shift_column ShiftMode.abs = 3
shift_column ShiftMode.zpx = 5
shift_column ShiftMode.absx = 7

logic_number : Logic → ℕ
logic_number ora = 0
logic_number and = 1
logic_number eor = 2

transfer_bits : TransferIns → ℕ
transfer_bits dey = bits 4 2 0
transfer_bits tay = bits 5 2 0
transfer_bits iny = bits 6 2 0
transfer_bits inx = bits 7 2 0
transfer_bits txa = bits 4 2 2
transfer_bits tax = bits 5 2 2
transfer_bits dex = bits 6 2 2
transfer_bits tya = bits 4 6 0

jump_bits : JumpIns → ℕ
jump_bits brk = bits 0 0 0
jump_bits jsr = bits 1 0 0
jump_bits rti = bits 2 0 0
jump_bits rts = bits 3 0 0
jump_bits jmp_abs = bits 2 3 0
jump_bits jmp_ind = bits 3 3 0

stack_bits : StackOp → ℕ
stack_bits php = bits 0 2 0
stack_bits plp = bits 1 2 0
stack_bits pha = bits 2 2 0
stack_bits pla = bits 3 2 0
stack_bits nop = bits 7 2 2
stack_bits txs = bits 4 6 2
stack_bits tsx = bits 5 6 2

-- A branch has the number of its flag (N, V, C, Z) and the value of it on which it is taken.
branch_number : BranchIns → ℕ
branch_number bpl = 2 * 0 + 0
branch_number bmi = 2 * 0 + 1
branch_number bvc = 2 * 1 + 0
branch_number bvs = 2 * 1 + 1
branch_number bcc = 2 * 2 + 0
branch_number bcs = 2 * 2 + 1
branch_number bne = 2 * 3 + 0
branch_number beq = 2 * 3 + 1

-- A change of a flag has the number of its flag (C, I, V, D) and the value that it gets; CLV stands at
-- the value 1.
flag_number : FlagIns → ℕ
flag_number clc = 2 * 0 + 0
flag_number sec = 2 * 0 + 1
flag_number cli = 2 * 1 + 0
flag_number sei = 2 * 1 + 1
flag_number clv = 2 * 2 + 1
flag_number cld = 2 * 3 + 0
flag_number sed = 2 * 3 + 1

sum_number : SumIns → ℕ
sum_number adc = 3
sum_number sbc = 7

-- The mode that the name of CPX or CPY says.
index_named : IndexMode → Place
index_named IndexMode.im = Place.im
index_named IndexMode.zp = Place.zp
index_named IndexMode.abs = Place.abs

case_bits : Case → ℕ
unfolding of_register shift_number shift_column logic_number transfer_bits jump_bits stack_bits
    load_register load_place store_register store_place logic_place
case_bits (load_case i) = of_register (load_register i) 5 (load_place i)
case_bits (store_case i) = of_register (store_register i) 4 (store_place i)
case_bits (transfer_case i) = transfer_bits i
case_bits (shift_case op mode) = bits (shift_number op) (shift_column mode) 2
case_bits (logic_case op mode) = of_register reg_a (logic_number op) (logic_place mode)
case_bits (bit_case i) = bits 1 (column_x0 (bit_place i)) 0
case_bits (jump_case i) = jump_bits i
case_bits (stack_case i) = stack_bits i

-- The opcode of an instruction by the layout: its operation and the addressing mode that the reference gives
-- it, in the group of its register.
unfoldable pub encoding : Instruction → ℕ
unfolding case_bits branch_number flag_number sum_number index_named mode_place count_place
encoding (labelled c) = case_bits c
encoding (flag i) = bits (flag_number i) 6 0
encoding (branch i) = bits (branch_number i) 4 0
encoding (sum i mode) = of_register reg_a (sum_number i) (mode_place mode)
encoding (cmp mode) = of_register reg_a 6 (mode_place mode)
encoding (compare_index cpy mode) = bits 6 (column_x0 (index_named mode)) 0
encoding (compare_index cpx mode) = bits 7 (column_x0 (index_named mode)) 0
encoding (count dec mode) = bits 6 (column_x0 (count_place mode)) 2
encoding (count inc mode) = bits 7 (column_x0 (count_place mode)) 2

case-encoding : (c : Case) → opcode_of c ≡ case_bits c
unfolding opcode_of case_bits
case-encoding (load_case lda_im) = refl
case-encoding (load_case _) = refl
case-encoding (store_case sta_zp) = refl
case-encoding (store_case _) = refl
case-encoding (transfer_case tax) = refl
case-encoding (transfer_case _) = refl
case-encoding (shift_case asl ShiftMode.zp) = refl
case-encoding (shift_case asl _) = refl
case-encoding (shift_case lsr ShiftMode.zp) = refl
case-encoding (shift_case lsr _) = refl
case-encoding (shift_case rol ShiftMode.zp) = refl
case-encoding (shift_case rol _) = refl
case-encoding (shift_case ror ShiftMode.zp) = refl
case-encoding (shift_case ror _) = refl
case-encoding (logic_case and LogicMode.im) = refl
case-encoding (logic_case and _) = refl
case-encoding (logic_case ora LogicMode.im) = refl
case-encoding (logic_case ora _) = refl
case-encoding (logic_case eor LogicMode.im) = refl
case-encoding (logic_case eor _) = refl
case-encoding (bit_case bit_zp) = refl
case-encoding (bit_case _) = refl
case-encoding (jump_case brk) = refl
case-encoding (jump_case _) = refl
case-encoding (stack_case nop) = refl
case-encoding (stack_case _) = refl

-- Each of the 151 opcodes that the code gives to the documented instructions, as case label or for the
-- blocks, is the number aaabbbcc of the 6502's layout. For an instruction with an operand in memory
-- aaa is the operation, cc the group, which for a load or store is that of its register (Y 00, A 01,
-- X 10), and bbb the column of the addressing mode that the reference runs it in, but for CPX and CPY
-- immediate, which have that of the mode in their name. A branch, or a change of a flag, has the
-- flag and its value in aaa; the other instructions have the bits given in `encoding`.
pub code-encoding : (i : Instruction) → code i ≡ encoding i
unfolding code encoding
code-encoding (labelled c) = case-encoding c
code-encoding (flag clc) = refl
code-encoding (flag _) = refl
code-encoding (branch beq) = refl
code-encoding (branch _) = refl
code-encoding (sum adc Mode.im) = refl
code-encoding (sum adc _) = refl
code-encoding (sum sbc Mode.im) = refl
code-encoding (sum sbc _) = refl
code-encoding (cmp Mode.im) = refl
code-encoding (cmp _) = refl
code-encoding (compare_index cpx IndexMode.im) = refl
code-encoding (compare_index cpx _) = refl
code-encoding (compare_index cpy IndexMode.im) = refl
code-encoding (compare_index cpy _) = refl
code-encoding (count dec CountMode.zp) = refl
code-encoding (count dec _) = refl
code-encoding (count inc CountMode.zp) = refl
code-encoding (count inc _) = refl
