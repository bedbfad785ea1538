-- ===== src/Instructions/Decode.antt =====
-- The decoding of an opcode by the `switch (opcode)` of src/olc6502.c and the blocks behind it.
use m.Base.{ℕ, ◌≡◌, refl, Option, none, some}
use m.Cpu.{M, State, ◌>>=◌, ◌>>◌, after, skip, get_i_nxt, set_flag, flag_i}
use m.Switch.{switch}
use m.Clock.{blocks, aaa_of, bbb_of, cc_of}
use m.Instructions.{
  FlagIns, clc, BranchIns, beq, Mode, SumIns, adc, sbc, IndexIns, cpx, cpy, IndexMode, CountIns,
  dec, inc, CountMode, Instruction, flag, branch, sum, cmp, compare_index, count, code,
}
use m.Instructions.Meaning.{meaning}

-- What `step` runs behind the fetch of the opcode.
unfoldable pub decode : ℕ → M (Unit {0})
decode opcode = do switch opcode; blocks (aaa_of opcode) (bbb_of opcode) (cc_of opcode)

pub after-skip : (r : Option (Unit {0} × State)) → after r (λ _ t. some (tt, t)) ≡ r
after-skip none = refl
after-skip (some (tt, s)) = refl

pub after-agree :
    {A : Type 0} (r : Option (A × State)) (f g : A → M (Unit {0}))
    → ((a : A) (s : State) → f a s ≡ g a s)
    → after r f ≡ after r g
after-agree none f g h = refl
after-agree (some (a, s)) f g h = h a s

-- The blocks that do not belong to an opcode do nothing.
unfoldable pub Decodes : Instruction → Type 0
unfolding decode code blocks meaning switch ◌>>=◌ skip m.Blocks.Flag.flag_block
    m.Blocks.Shift.shift_block m.Blocks.Arithmetic.arithmetic_block m.Blocks.Compare.compare_block
    m.Blocks.IncDec.inc_dec_block m.Blocks.Branch.branch_block m.Cpu.gets m.Cpu.pure
Decodes i = (s : State) → decode (code i) s ≡ meaning i s

pub flag-Decodes : (i : FlagIns) → Decodes (flag i)
unfolding Decodes m.Blocks.Flag.set_selected_flag m.Cpu.set_flag m.Cpu.set_i_nxt m.Cpu.spend
flag-Decodes clc = λ s. refl
flag-Decodes _ = λ s. refl

pub branch-Decodes : (i : BranchIns) → Decodes (branch i)
unfolding Decodes m.Blocks.Branch.should_branch
branch-Decodes beq = λ s. refl
branch-Decodes _ = λ s. refl

-- An instruction with one block: what stands behind the block does nothing.
pub sum-Decodes : (i : SumIns) (mode : Mode) → Decodes (sum i mode)
unfolding Decodes m.Blocks.Operand.operand_address m.Blocks.Operand.operand_fetch
    m.Blocks.Arithmetic.addend
sum-Decodes adc Mode.im = λ s. after-skip (meaning (sum adc Mode.im) s)
sum-Decodes adc Mode.zp = λ s. after-skip (meaning (sum adc Mode.zp) s)
sum-Decodes adc Mode.zpx = λ s. after-skip (meaning (sum adc Mode.zpx) s)
sum-Decodes adc Mode.abs = λ s. after-skip (meaning (sum adc Mode.abs) s)
sum-Decodes adc Mode.absx = λ s. after-skip (meaning (sum adc Mode.absx) s)
sum-Decodes adc Mode.absy = λ s. after-skip (meaning (sum adc Mode.absy) s)
sum-Decodes adc Mode.indx = λ s. after-skip (meaning (sum adc Mode.indx) s)
sum-Decodes adc Mode.indy = λ s. after-skip (meaning (sum adc Mode.indy) s)
sum-Decodes sbc Mode.im = λ s. after-skip (meaning (sum sbc Mode.im) s)
sum-Decodes sbc Mode.zp = λ s. after-skip (meaning (sum sbc Mode.zp) s)
sum-Decodes sbc Mode.zpx = λ s. after-skip (meaning (sum sbc Mode.zpx) s)
sum-Decodes sbc Mode.abs = λ s. after-skip (meaning (sum sbc Mode.abs) s)
sum-Decodes sbc Mode.absx = λ s. after-skip (meaning (sum sbc Mode.absx) s)
sum-Decodes sbc Mode.absy = λ s. after-skip (meaning (sum sbc Mode.absy) s)
sum-Decodes sbc Mode.indx = λ s. after-skip (meaning (sum sbc Mode.indx) s)
sum-Decodes sbc Mode.indy = λ s. after-skip (meaning (sum sbc Mode.indy) s)

pub cmp-Decodes : (mode : Mode) → Decodes (cmp mode)
unfolding Decodes m.Blocks.Operand.operand_address m.Blocks.Operand.operand_fetch
cmp-Decodes Mode.im = λ s. after-skip (meaning (cmp Mode.im) s)
cmp-Decodes Mode.zp = λ s. after-skip (meaning (cmp Mode.zp) s)
cmp-Decodes Mode.zpx = λ s. after-skip (meaning (cmp Mode.zpx) s)
cmp-Decodes Mode.abs = λ s. after-skip (meaning (cmp Mode.abs) s)
cmp-Decodes Mode.absx = λ s. after-skip (meaning (cmp Mode.absx) s)
cmp-Decodes Mode.absy = λ s. after-skip (meaning (cmp Mode.absy) s)
cmp-Decodes Mode.indx = λ s. after-skip (meaning (cmp Mode.indx) s)
cmp-Decodes Mode.indy = λ s. after-skip (meaning (cmp Mode.indy) s)

pub index-Decodes : (i : IndexIns) (mode : IndexMode) → Decodes (compare_index i mode)
unfolding Decodes m.Blocks.Operand.operand_address m.Blocks.Operand.operand_fetch
index-Decodes cpx IndexMode.im = λ s. after-skip (meaning (compare_index cpx IndexMode.im) s)
index-Decodes cpx IndexMode.zp = λ s. after-skip (meaning (compare_index cpx IndexMode.zp) s)
index-Decodes cpx IndexMode.abs = λ s. after-skip (meaning (compare_index cpx IndexMode.abs) s)
index-Decodes cpy IndexMode.im = λ s. after-skip (meaning (compare_index cpy IndexMode.im) s)
index-Decodes cpy IndexMode.zp = λ s. after-skip (meaning (compare_index cpy IndexMode.zp) s)
index-Decodes cpy IndexMode.abs = λ s. after-skip (meaning (compare_index cpy IndexMode.abs) s)

pub count-Decodes : (i : CountIns) (mode : CountMode) → Decodes (count i mode)
unfolding Decodes m.Blocks.IncDec.inc_dec_address
count-Decodes dec CountMode.zp = λ s. after-skip (meaning (count dec CountMode.zp) s)
count-Decodes dec CountMode.zpx = λ s. after-skip (meaning (count dec CountMode.zpx) s)
count-Decodes dec CountMode.abs = λ s. after-skip (meaning (count dec CountMode.abs) s)
count-Decodes dec CountMode.absx = λ s. after-skip (meaning (count dec CountMode.absx) s)
count-Decodes inc CountMode.zp = λ s. after-skip (meaning (count inc CountMode.zp) s)
count-Decodes inc CountMode.zpx = λ s. after-skip (meaning (count inc CountMode.zpx) s)
count-Decodes inc CountMode.abs = λ s. after-skip (meaning (count inc CountMode.abs) s)
count-Decodes inc CountMode.absx = λ s. after-skip (meaning (count inc CountMode.absx) s)
