-- ===== src/Valid/Cases.antt =====
-- Every case of the switch of src/olc6502.c keeps the ranges.
use m.Base.{ℕ, Option, none, some}
use m.Switch.Load.{LoadIns, lda_im, load}
use m.Switch.Store.{StoreIns, sta_zp, store}
use m.Switch.Transfer.{TransferIns, tax, transfer}
use m.Switch.Shift.{ShiftMode, accumulator, shift_operand}
use m.Switch.Bitwise.{Logic, LogicMode, im, logic, assign_a, Bit, bit_zp, bit}
use m.Switch.Jump.{JumpIns, jmp_abs, jump}
use m.Switch.StackOps.{StackOp, pha, stack_address, stack_op}
use m.Switch.{
  Case, load_case, store_case, transfer_case, shift_case, logic_case, bit_case, jump_case,
  stack_case, run_case, run_selected, switch, find_case, cases,
}
use m.Valid.{Keeps, Keeps-skip}
use m.Valid.Helpers.{helper_rules}

load-Keeps : (i : LoadIns) → Keeps (load i)
unfolding load
load-Keeps lda_im = search helper_rules depth 30
load-Keeps _ = search helper_rules depth 30

store-Keeps : (i : StoreIns) → Keeps (store i)
unfolding store
store-Keeps sta_zp = search helper_rules depth 30
store-Keeps _ = search helper_rules depth 30

transfer-Keeps : (i : TransferIns) → Keeps (transfer i)
unfolding transfer
transfer-Keeps tax = search helper_rules depth 30
transfer-Keeps _ = search helper_rules depth 30

shift_operand-Keeps : (mode : ShiftMode) → Keeps (shift_operand mode)
unfolding shift_operand
shift_operand-Keeps accumulator = search helper_rules depth 30
shift_operand-Keeps _ = search helper_rules depth 30

assign_a-Keeps : (op : Logic) (v : ℕ) → Keeps (assign_a op v)
unfolding assign_a
assign_a-Keeps op v = search helper_rules depth 30

logic-Keeps : (op : Logic) (mode : LogicMode) → Keeps (logic op mode)
unfolding logic
logic-Keeps op im = search (helper_rules, assign_a-Keeps) depth 30
logic-Keeps op _ = search (helper_rules, assign_a-Keeps) depth 30

bit-Keeps : (i : Bit) → Keeps (bit i)
unfolding bit
bit-Keeps bit_zp = search helper_rules depth 30
bit-Keeps _ = search helper_rules depth 30

jump-Keeps : (i : JumpIns) → Keeps (jump i)
unfolding jump
jump-Keeps jmp_abs = search helper_rules depth 30
jump-Keeps _ = search helper_rules depth 30

stack_address-Keeps : Keeps stack_address
unfolding stack_address
stack_address-Keeps = search helper_rules depth 30

stack_op-Keeps : (i : StackOp) → Keeps (stack_op i)
unfolding stack_op
stack_op-Keeps pha = search (helper_rules, stack_address-Keeps) depth 30
stack_op-Keeps _ = search (helper_rules, stack_address-Keeps) depth 30

run_case-Keeps : (c : Case) → Keeps (run_case c)
unfolding run_case
run_case-Keeps (load_case i) = load-Keeps i
run_case-Keeps (store_case i) = store-Keeps i
run_case-Keeps (transfer_case i) = transfer-Keeps i
run_case-Keeps (shift_case op mode) = shift_operand-Keeps mode
run_case-Keeps (logic_case op mode) = logic-Keeps op mode
run_case-Keeps (bit_case i) = bit-Keeps i
run_case-Keeps (jump_case i) = jump-Keeps i
run_case-Keeps (stack_case i) = stack_op-Keeps i

run_selected-Keeps : (c : Option Case) → Keeps (run_selected c)
run_selected-Keeps none = Keeps-skip
run_selected-Keeps (some c) = run_case-Keeps c

pub switch-Keeps : (opcode : ℕ) → Keeps (switch opcode)
unfolding switch
switch-Keeps opcode = run_selected-Keeps (find_case opcode cases)
