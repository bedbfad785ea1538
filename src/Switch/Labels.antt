-- ===== src/Switch/Labels.antt =====
-- The case labels of the `switch (opcode)` of src/olc6502.c.
use m.Base.{◌≡◌, refl, some, ap}
use m.Switch.Load.{LoadIns, lda_im, load_opcode}
use m.Switch.Store.{StoreIns, sta_zp, store_opcode}
use m.Switch.Transfer.{TransferIns, tax, transfer_opcode}
use m.Switch.Shift.{ShiftOp, asl, lsr, rol, ror, ShiftMode, shift_opcode}
use m.Switch.Bitwise.{Logic, and, ora, eor, LogicMode, Bit, bit_zp, logic_opcode, bit_opcode}
use m.Switch.Jump.{JumpIns, jmp_abs, jump_opcode}
use m.Switch.StackOps.{StackOp, pha, stack_opcode}
use m.Switch.{
  Case, load_case, store_case, transfer_case, shift_case, logic_case, bit_case, jump_case,
  stack_case, find_case, cases, opcode_of, run_selected, run_case, switch,
}

IsFound : Case → Type 0
unfolding find_case cases opcode_of
IsFound c = find_case (opcode_of c) cases ≡ some c

load-IsFound : (i : LoadIns) → IsFound (load_case i)
unfolding IsFound load_opcode
load-IsFound lda_im = refl
load-IsFound _ = refl

store-IsFound : (i : StoreIns) → IsFound (store_case i)
unfolding IsFound store_opcode
store-IsFound sta_zp = refl
store-IsFound _ = refl

transfer-IsFound : (i : TransferIns) → IsFound (transfer_case i)
unfolding IsFound transfer_opcode
transfer-IsFound tax = refl
transfer-IsFound _ = refl

jump-IsFound : (i : JumpIns) → IsFound (jump_case i)
unfolding IsFound jump_opcode
jump-IsFound jmp_abs = refl
jump-IsFound _ = refl

stack-IsFound : (i : StackOp) → IsFound (stack_case i)
unfolding IsFound stack_opcode
stack-IsFound pha = refl
stack-IsFound _ = refl

bit-IsFound : (i : Bit) → IsFound (bit_case i)
unfolding IsFound bit_opcode
bit-IsFound bit_zp = refl
bit-IsFound _ = refl

shift-IsFound : (op : ShiftOp) (mode : ShiftMode) → IsFound (shift_case op mode)
unfolding IsFound shift_opcode
shift-IsFound asl ShiftMode.accumulator = refl
shift-IsFound asl _ = refl
shift-IsFound lsr ShiftMode.accumulator = refl
shift-IsFound lsr _ = refl
shift-IsFound rol ShiftMode.accumulator = refl
shift-IsFound rol _ = refl
shift-IsFound ror ShiftMode.accumulator = refl
shift-IsFound ror _ = refl

logic-IsFound : (op : Logic) (mode : LogicMode) → IsFound (logic_case op mode)
unfolding IsFound logic_opcode
logic-IsFound and LogicMode.im = refl
logic-IsFound and _ = refl
logic-IsFound ora LogicMode.im = refl
logic-IsFound ora _ = refl
logic-IsFound eor LogicMode.im = refl
logic-IsFound eor _ = refl

case-IsFound : (c : Case) → IsFound c
case-IsFound (load_case i) = load-IsFound i
case-IsFound (store_case i) = store-IsFound i
case-IsFound (transfer_case i) = transfer-IsFound i
case-IsFound (shift_case op mode) = shift-IsFound op mode
case-IsFound (logic_case op mode) = logic-IsFound op mode
case-IsFound (bit_case i) = bit-IsFound i
case-IsFound (jump_case i) = jump-IsFound i
case-IsFound (stack_case i) = stack-IsFound i

-- No label of the switch hides another: the opcode of each case runs the code of that case.
pub switch-opcode_of : (c : Case) → switch (opcode_of c) ≡ run_case c
unfolding switch IsFound
switch-opcode_of c = ap run_selected (case-IsFound c)
