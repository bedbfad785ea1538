-- ===== src/Cost/Cases.antt =====
-- Cycles of each case of the switch of src/olc6502.c, on top of the fetch of the opcode.
use m.Base.{ℕ, Option, none, some}
use m.Switch.Load.{LoadIns, lda_im, load}
use m.Switch.Store.{StoreIns, sta_zp, store}
use m.Switch.Transfer.{TransferIns, tax, transfer}
use m.Switch.Shift.{ShiftMode, accumulator, zp, zpx, abs, absx, shift_operand}
use m.Switch.Bitwise.{Logic, LogicMode, im, logic, assign_a, Bit, bit_zp, bit, bit_flags}
use m.Switch.Jump.{JumpIns, jmp_abs, jump}
use m.Switch.StackOps.{StackOp, pha, stack_address, stack_op}
use m.Switch.{
  Case, load_case, store_case, transfer_case, shift_case, logic_case, bit_case, jump_case,
  stack_case, run_case, run_selected, switch, find_case, cases,
}
use m.Cost.{Costs, Takes, takes, Costs-last_0}
use m.Cost.Actions.{Takes-skip}
use m.Cost.Helpers.{helper_costs}

load-Costs : (i : LoadIns) → Costs 5 (load i)
unfolding load
load-Costs lda_im = search helper_costs depth 30
load-Costs _ = search helper_costs depth 30

store-Costs : (i : StoreIns) → Costs 5 (store i)
unfolding store
store-Costs sta_zp = search helper_costs depth 30
store-Costs _ = search helper_costs depth 30

transfer-Costs : (i : TransferIns) → Costs 1 (transfer i)
unfolding transfer
transfer-Costs tax = search helper_costs depth 30
transfer-Costs _ = search helper_costs depth 30

-- What `shift_operand` consumes at most; the block behind the switch adds its own cycles.
abbrev pub operand_cycles : ShiftMode → ℕ
operand_cycles accumulator = 0
operand_cycles zp = 1
operand_cycles zpx = 1
operand_cycles abs = 2
operand_cycles absx = 2

shift_operand-Costs : (mode : ShiftMode) → Costs (operand_cycles mode) (shift_operand mode)
unfolding shift_operand
shift_operand-Costs accumulator = search helper_costs depth 30
shift_operand-Costs _ = search helper_costs depth 30

assign_a-Takes : (op : Logic) (v : ℕ) → Takes 0 (assign_a op v)
unfolding assign_a
assign_a-Takes op v = takes (search helper_costs depth 30)

bit_flags-Takes : Takes 1 bit_flags
unfolding bit_flags
bit_flags-Takes = takes (search helper_costs depth 30)

logic-Costs : (op : Logic) (mode : LogicMode) → Costs 5 (logic op mode)
unfolding logic
logic-Costs op im = search (helper_costs, assign_a-Takes) depth 30
logic-Costs op _ = search (helper_costs, assign_a-Takes) depth 30

bit-Costs : (i : Bit) → Costs 3 (bit i)
unfolding bit
bit-Costs bit_zp = search (helper_costs, bit_flags-Takes) depth 30
bit-Costs _ = search (helper_costs, bit_flags-Takes) depth 30

jump-Costs : (i : JumpIns) → Costs 6 (jump i)
unfolding jump
jump-Costs jmp_abs = search helper_costs depth 30
jump-Costs _ = search helper_costs depth 30

stack_address-Takes : Takes 0 stack_address
unfolding stack_address
stack_address-Takes = takes (search helper_costs depth 30)

stack_op-Costs : (i : StackOp) → Costs 3 (stack_op i)
unfolding stack_op
stack_op-Costs pha = search (helper_costs, stack_address-Takes) depth 30
stack_op-Costs _ = search (helper_costs, stack_address-Takes) depth 30

abbrev pub case_cycles : Case → ℕ
case_cycles (load_case i) = 5
case_cycles (store_case i) = 5
case_cycles (transfer_case i) = 1
case_cycles (shift_case op mode) = operand_cycles mode
case_cycles (logic_case op mode) = 5
case_cycles (bit_case i) = 3
case_cycles (jump_case i) = 6
case_cycles (stack_case i) = 3

run_case-Costs : (c : Case) → Costs (case_cycles c) (run_case c)
unfolding run_case
run_case-Costs (load_case i) = load-Costs i
run_case-Costs (store_case i) = store-Costs i
run_case-Costs (transfer_case i) = transfer-Costs i
run_case-Costs (shift_case op mode) = shift_operand-Costs mode
run_case-Costs (logic_case op mode) = logic-Costs op mode
run_case-Costs (bit_case i) = bit-Costs i
run_case-Costs (jump_case i) = jump-Costs i
run_case-Costs (stack_case i) = stack_op-Costs i

abbrev pub selected_cycles : Option Case → ℕ
selected_cycles none = 0
selected_cycles (some c) = case_cycles c

run_selected-Costs : (c : Option Case) → Costs (selected_cycles c) (run_selected c)
run_selected-Costs none = Costs-last_0 _ Takes-skip
run_selected-Costs (some c) = run_case-Costs c

pub switch-Costs : (opcode : ℕ) → Costs (selected_cycles (find_case opcode cases)) (switch opcode)
unfolding switch
switch-Costs opcode = run_selected-Costs (find_case opcode cases)
