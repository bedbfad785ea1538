-- ===== src/Instructions/Dispatch.antt =====
-- One round of the loop of `olc6502_clock` in src/olc6502.c, by the instruction whose opcode is fetched.
use m.Base.{ℕ, ◌≡◌, ◌∙◌, ap, Option, some, u8}
use m.Cpu.{State, ◌>>=◌, ◌>>◌, gets, get_i_nxt, set_flag, flag_i, after, put_bit}
use m.Cpu.Address.{fetch_operand}
use m.Clock.{step}
use m.Instructions.{Instruction, labelled, flag, branch, sum, cmp, compare_index, count, code}
use m.Instructions.Meaning.{meaning}
use m.Instructions.Decode.{
  decode, Decodes, flag-Decodes, branch-Decodes, sum-Decodes, cmp-Decodes, index-Decodes,
  count-Decodes,
}
use m.Instructions.Cases.{case-Decodes}

instruction-Decodes : (i : Instruction) → Decodes i
instruction-Decodes (labelled c) = case-Decodes c
instruction-Decodes (flag i) = flag-Decodes i
instruction-Decodes (branch i) = branch-Decodes i
instruction-Decodes (sum i mode) = sum-Decodes i mode
instruction-Decodes (cmp mode) = cmp-Decodes mode
instruction-Decodes (compare_index i mode) = index-Decodes i mode
instruction-Decodes (count i mode) = count-Decodes i mode

-- The round behind the fetch.
round : ℕ → State → Option (Unit {0} × State)
unfolding decode ◌>>=◌ gets set_flag
round opcode = do set_flag flag_i (← get_i_nxt); decode opcode

-- If the byte fetched at `pc` is the opcode of a documented instruction, then the rest of the round
-- copies the delayed interrupt flag and runs the meaning of that instruction, and nothing else: no
-- other case or block takes part. The meaning is the code of the case, for a shift followed by
-- the shift of that name, and for an instruction without a case what its name and its addressing
-- mode say. All 151 instructions are covered. Where the code departs from the 6502, the meaning is that of
-- the code: of the instructions without a case, CPX and CPY immediate take their operand by
-- indexed indirect addressing, CLV sets the flag, INC and DEC count from the accumulator, SBC adds
-- the carry and leaves C as a borrow, with V reversed for the operand 0x80, a
-- taken branch compares the page of its operand with that of its target, and the indirect
-- modes do not wrap in the zero page.
pub step-meaning :
    (i : Instruction) (v : ℕ) (s t : State)
    → fetch_operand s ≡ some (v, t)
    → u8 v ≡ code i
    → step s ≡ (do set_flag flag_i (← get_i_nxt); meaning i) t
unfolding step round Decodes
step-meaning i v s t fetched same =
    ap (λ r. after r (λ b u. round (u8 b) u)) fetched
    ∙ ap (λ opcode. round opcode t) same
    ∙ instruction-Decodes i
        (record t { cpu = record t.cpu { ps = put_bit flag_i t.cpu.i_nxt t.cpu.ps } })
