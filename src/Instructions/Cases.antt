-- ===== src/Instructions/Cases.antt =====
-- The opcodes with a case in the `switch (opcode)` of src/olc6502.c: what the blocks behind it add.
use m.Base.{◌≡◌, ◌∙◌, refl, sym, ap, some}
use m.Cpu.{State, ◌>>=◌, after, skip}
use m.Switch.{
  Case, load_case, store_case, transfer_case, shift_case, logic_case, bit_case, jump_case,
  stack_case, opcode_of, run_case,
}
use m.Switch.Load
use m.Switch.Store
use m.Switch.Transfer
use m.Switch.Shift
use m.Switch.Bitwise
use m.Switch.Jump
use m.Switch.StackOps
use m.Switch.Labels.{switch-opcode_of}
use m.Clock.{blocks, aaa_of, bbb_of, cc_of}
use m.Instructions.{labelled}
use m.Instructions.Meaning.{case_meaning}
use m.Instructions.Decode.{Decodes, after-skip, after-agree}

-- The blocks do nothing at the opcode of the case.
IsQuiet : Case → Type 0
unfolding blocks opcode_of ◌>>=◌ skip m.Blocks.Flag.flag_block m.Blocks.Shift.shift_block
    m.Blocks.Arithmetic.arithmetic_block m.Blocks.Compare.compare_block
    m.Blocks.IncDec.inc_dec_block m.Blocks.Branch.branch_block
IsQuiet c =
    (s : State)
    → blocks (aaa_of (opcode_of c)) (bbb_of (opcode_of c)) (cc_of (opcode_of c)) s ≡ some (tt, s)

load-IsQuiet : (i : Load.LoadIns) → IsQuiet (load_case i)
unfolding IsQuiet
load-IsQuiet Load.lda_im = λ s. refl
load-IsQuiet Load.lda_zp = λ s. refl
load-IsQuiet Load.lda_zpx = λ s. refl
load-IsQuiet Load.lda_abs = λ s. refl
load-IsQuiet Load.lda_absx = λ s. refl
load-IsQuiet Load.lda_absy = λ s. refl
load-IsQuiet Load.lda_indx = λ s. refl
load-IsQuiet Load.lda_indy = λ s. refl
load-IsQuiet Load.ldx_im = λ s. refl
load-IsQuiet Load.ldx_zp = λ s. refl
load-IsQuiet Load.ldx_zpy = λ s. refl
load-IsQuiet Load.ldx_abs = λ s. refl
load-IsQuiet Load.ldx_absy = λ s. refl
load-IsQuiet Load.ldy_im = λ s. refl
load-IsQuiet Load.ldy_zp = λ s. refl
load-IsQuiet Load.ldy_zpx = λ s. refl
load-IsQuiet Load.ldy_abs = λ s. refl
load-IsQuiet Load.ldy_absx = λ s. refl

store-IsQuiet : (i : Store.StoreIns) → IsQuiet (store_case i)
unfolding IsQuiet
store-IsQuiet Store.sta_zp = λ s. refl
store-IsQuiet Store.sta_zpx = λ s. refl
store-IsQuiet Store.sta_abs = λ s. refl
store-IsQuiet Store.sta_absx = λ s. refl
store-IsQuiet Store.sta_absy = λ s. refl
store-IsQuiet Store.sta_indx = λ s. refl
store-IsQuiet Store.sta_indy = λ s. refl
store-IsQuiet Store.stx_zp = λ s. refl
store-IsQuiet Store.stx_zpy = λ s. refl
store-IsQuiet Store.stx_abs = λ s. refl
store-IsQuiet Store.sty_zp = λ s. refl
store-IsQuiet Store.sty_zpx = λ s. refl
store-IsQuiet Store.sty_abs = λ s. refl

transfer-IsQuiet : (i : Transfer.TransferIns) → IsQuiet (transfer_case i)
unfolding IsQuiet
transfer-IsQuiet Transfer.tax = λ s. refl
transfer-IsQuiet Transfer.txa = λ s. refl
transfer-IsQuiet Transfer.tay = λ s. refl
transfer-IsQuiet Transfer.tya = λ s. refl
transfer-IsQuiet Transfer.inx = λ s. refl
transfer-IsQuiet Transfer.dex = λ s. refl
transfer-IsQuiet Transfer.iny = λ s. refl
transfer-IsQuiet Transfer.dey = λ s. refl

bit-IsQuiet : (i : Bitwise.Bit) → IsQuiet (bit_case i)
unfolding IsQuiet
bit-IsQuiet Bitwise.bit_zp = λ s. refl
bit-IsQuiet Bitwise.bit_abs = λ s. refl

jump-IsQuiet : (i : Jump.JumpIns) → IsQuiet (jump_case i)
unfolding IsQuiet
jump-IsQuiet Jump.jmp_abs = λ s. refl
jump-IsQuiet Jump.jmp_ind = λ s. refl
jump-IsQuiet Jump.jsr = λ s. refl
jump-IsQuiet Jump.rts = λ s. refl
jump-IsQuiet Jump.brk = λ s. refl
jump-IsQuiet Jump.rti = λ s. refl

stack-IsQuiet : (i : StackOps.StackOp) → IsQuiet (stack_case i)
unfolding IsQuiet
stack-IsQuiet StackOps.pha = λ s. refl
stack-IsQuiet StackOps.pla = λ s. refl
stack-IsQuiet StackOps.php = λ s. refl
stack-IsQuiet StackOps.plp = λ s. refl
stack-IsQuiet StackOps.txs = λ s. refl
stack-IsQuiet StackOps.tsx = λ s. refl
stack-IsQuiet StackOps.nop = λ s. refl

logic-IsQuiet : (op : Bitwise.Logic) (mode : Bitwise.LogicMode) → IsQuiet (logic_case op mode)
unfolding IsQuiet
logic-IsQuiet Bitwise.and Bitwise.LogicMode.im = λ s. refl
logic-IsQuiet Bitwise.and Bitwise.LogicMode.zp = λ s. refl
logic-IsQuiet Bitwise.and Bitwise.LogicMode.zpx = λ s. refl
logic-IsQuiet Bitwise.and Bitwise.LogicMode.abs = λ s. refl
logic-IsQuiet Bitwise.and Bitwise.LogicMode.absx = λ s. refl
logic-IsQuiet Bitwise.and Bitwise.LogicMode.absy = λ s. refl
logic-IsQuiet Bitwise.and Bitwise.LogicMode.indx = λ s. refl
logic-IsQuiet Bitwise.and Bitwise.LogicMode.indy = λ s. refl
logic-IsQuiet Bitwise.ora Bitwise.LogicMode.im = λ s. refl
logic-IsQuiet Bitwise.ora Bitwise.LogicMode.zp = λ s. refl
logic-IsQuiet Bitwise.ora Bitwise.LogicMode.zpx = λ s. refl
logic-IsQuiet Bitwise.ora Bitwise.LogicMode.abs = λ s. refl
logic-IsQuiet Bitwise.ora Bitwise.LogicMode.absx = λ s. refl
logic-IsQuiet Bitwise.ora Bitwise.LogicMode.absy = λ s. refl
logic-IsQuiet Bitwise.ora Bitwise.LogicMode.indx = λ s. refl
logic-IsQuiet Bitwise.ora Bitwise.LogicMode.indy = λ s. refl
logic-IsQuiet Bitwise.eor Bitwise.LogicMode.im = λ s. refl
logic-IsQuiet Bitwise.eor Bitwise.LogicMode.zp = λ s. refl
logic-IsQuiet Bitwise.eor Bitwise.LogicMode.zpx = λ s. refl
logic-IsQuiet Bitwise.eor Bitwise.LogicMode.abs = λ s. refl
logic-IsQuiet Bitwise.eor Bitwise.LogicMode.absx = λ s. refl
logic-IsQuiet Bitwise.eor Bitwise.LogicMode.absy = λ s. refl
logic-IsQuiet Bitwise.eor Bitwise.LogicMode.indx = λ s. refl
logic-IsQuiet Bitwise.eor Bitwise.LogicMode.indy = λ s. refl

quiet-Decodes : (c : Case) → case_meaning c ≡ run_case c → IsQuiet c → Decodes (labelled c)
unfolding Decodes IsQuiet
quiet-Decodes c same h = λ s.
    let selected =
      ap
        (λ m.
          after (m s)
            (λ _. blocks (aaa_of (opcode_of c)) (bbb_of (opcode_of c)) (cc_of (opcode_of c))))
        (switch-opcode_of c) in
    selected
    ∙ after-agree (run_case c s) _ (λ _ t. some (tt, t)) (λ _ t. h t)
    ∙ after-skip (run_case c s)
    ∙ ap (λ m. m s) (sym same)

-- A case of a shift leaves the operand, and the block behind the switch shifts it.
shift-Decodes :
    (op : Shift.ShiftOp) (mode : Shift.ShiftMode) → Decodes (labelled (shift_case op mode))
unfolding Decodes m.Blocks.Shift.shift_result run_case
shift-Decodes Shift.asl Shift.ShiftMode.accumulator =
    λ s. after-agree (Shift.shift_operand Shift.ShiftMode.accumulator s) _ _ λ _ t. after-skip _
shift-Decodes Shift.asl Shift.ShiftMode.zp =
    λ s. after-agree (Shift.shift_operand Shift.ShiftMode.zp s) _ _ λ _ t. after-skip _
shift-Decodes Shift.asl Shift.ShiftMode.zpx =
    λ s. after-agree (Shift.shift_operand Shift.ShiftMode.zpx s) _ _ λ _ t. after-skip _
shift-Decodes Shift.asl Shift.ShiftMode.abs =
    λ s. after-agree (Shift.shift_operand Shift.ShiftMode.abs s) _ _ λ _ t. after-skip _
shift-Decodes Shift.asl Shift.ShiftMode.absx =
    λ s. after-agree (Shift.shift_operand Shift.ShiftMode.absx s) _ _ λ _ t. after-skip _
shift-Decodes Shift.lsr Shift.ShiftMode.accumulator =
    λ s. after-agree (Shift.shift_operand Shift.ShiftMode.accumulator s) _ _ λ _ t. after-skip _
shift-Decodes Shift.lsr Shift.ShiftMode.zp =
    λ s. after-agree (Shift.shift_operand Shift.ShiftMode.zp s) _ _ λ _ t. after-skip _
shift-Decodes Shift.lsr Shift.ShiftMode.zpx =
    λ s. after-agree (Shift.shift_operand Shift.ShiftMode.zpx s) _ _ λ _ t. after-skip _
shift-Decodes Shift.lsr Shift.ShiftMode.abs =
    λ s. after-agree (Shift.shift_operand Shift.ShiftMode.abs s) _ _ λ _ t. after-skip _
shift-Decodes Shift.lsr Shift.ShiftMode.absx =
    λ s. after-agree (Shift.shift_operand Shift.ShiftMode.absx s) _ _ λ _ t. after-skip _
shift-Decodes Shift.rol Shift.ShiftMode.accumulator =
    λ s. after-agree (Shift.shift_operand Shift.ShiftMode.accumulator s) _ _ λ _ t. after-skip _
shift-Decodes Shift.rol Shift.ShiftMode.zp =
    λ s. after-agree (Shift.shift_operand Shift.ShiftMode.zp s) _ _ λ _ t. after-skip _
shift-Decodes Shift.rol Shift.ShiftMode.zpx =
    λ s. after-agree (Shift.shift_operand Shift.ShiftMode.zpx s) _ _ λ _ t. after-skip _
shift-Decodes Shift.rol Shift.ShiftMode.abs =
    λ s. after-agree (Shift.shift_operand Shift.ShiftMode.abs s) _ _ λ _ t. after-skip _
shift-Decodes Shift.rol Shift.ShiftMode.absx =
    λ s. after-agree (Shift.shift_operand Shift.ShiftMode.absx s) _ _ λ _ t. after-skip _
shift-Decodes Shift.ror Shift.ShiftMode.accumulator =
    λ s. after-agree (Shift.shift_operand Shift.ShiftMode.accumulator s) _ _ λ _ t. after-skip _
shift-Decodes Shift.ror Shift.ShiftMode.zp =
    λ s. after-agree (Shift.shift_operand Shift.ShiftMode.zp s) _ _ λ _ t. after-skip _
shift-Decodes Shift.ror Shift.ShiftMode.zpx =
    λ s. after-agree (Shift.shift_operand Shift.ShiftMode.zpx s) _ _ λ _ t. after-skip _
shift-Decodes Shift.ror Shift.ShiftMode.abs =
    λ s. after-agree (Shift.shift_operand Shift.ShiftMode.abs s) _ _ λ _ t. after-skip _
shift-Decodes Shift.ror Shift.ShiftMode.absx =
    λ s. after-agree (Shift.shift_operand Shift.ShiftMode.absx s) _ _ λ _ t. after-skip _

pub case-Decodes : (c : Case) → Decodes (labelled c)
unfolding case_meaning
case-Decodes (load_case i) = quiet-Decodes (load_case i) refl (load-IsQuiet i)
case-Decodes (store_case i) = quiet-Decodes (store_case i) refl (store-IsQuiet i)
case-Decodes (transfer_case i) = quiet-Decodes (transfer_case i) refl (transfer-IsQuiet i)
case-Decodes (bit_case i) = quiet-Decodes (bit_case i) refl (bit-IsQuiet i)
case-Decodes (jump_case i) = quiet-Decodes (jump_case i) refl (jump-IsQuiet i)
case-Decodes (stack_case i) = quiet-Decodes (stack_case i) refl (stack-IsQuiet i)
case-Decodes (shift_case op mode) = shift-Decodes op mode
case-Decodes (logic_case op mode) = quiet-Decodes (logic_case op mode) refl (logic-IsQuiet op mode)
