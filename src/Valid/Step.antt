-- ===== src/Valid/Step.antt =====
-- One instruction, and any run of the loop of src/olc6502.c, keep the ranges.
use m.Base.{ℕ, suc, ◌≡◌, arith, Bool, some, subst}
use m.Base.Int.{ℤ, pos_part}
use m.Cpu.{Cpu, State}
use m.Blocks.Flag.{flag_block, set_selected_flag}
use m.Blocks.Shift.{shift_block, shift_by}
use m.Blocks.Operand.{operand_address, operand_fetch}
use m.Blocks.Arithmetic.{arithmetic_block, add_to_a}
use m.Blocks.Compare.{compare_block}
use m.Blocks.IncDec.{inc_dec_block, inc_dec_address}
use m.Blocks.Branch.{branch_block, should_branch}
use m.Clock.{step, done, enter, olc6502_clock}
use m.Clock.Rule.{clock-done, loop_inv}
use m.Valid.{IsValid, Ensures, Keeps}
use m.Valid.Helpers.{helper_rules}
use m.Valid.Cases.{switch-Keeps}

set_selected_flag-Keeps : (n v : ℕ) → Keeps (set_selected_flag n v)
unfolding set_selected_flag
set_selected_flag-Keeps (suc (suc (suc (suc _)))) v = search helper_rules depth 30
set_selected_flag-Keeps _ v = search helper_rules depth 30

shift_by-Keeps : (n : ℕ) → Keeps (shift_by n)
unfolding shift_by
shift_by-Keeps (suc (suc (suc (suc _)))) = search helper_rules depth 30
shift_by-Keeps _ = search helper_rules depth 30

operand_address-Keeps : (n : ℕ) → Keeps (operand_address n)
unfolding operand_address
operand_address-Keeps (suc (suc (suc (suc (suc (suc (suc (suc _)))))))) =
    search helper_rules depth 30
operand_address-Keeps _ = search helper_rules depth 30

operand_fetch-Keeps : (n : ℕ) → Keeps (operand_fetch n)
unfolding operand_fetch
operand_fetch-Keeps n = search helper_rules depth 30

inc_dec_address-Keeps : (n : ℕ) → Keeps (inc_dec_address n)
unfolding inc_dec_address
inc_dec_address-Keeps (suc (suc (suc (suc (suc (suc (suc (suc _)))))))) =
    search helper_rules depth 30
inc_dec_address-Keeps _ = search helper_rules depth 30

should_branch-Keeps : (n : ℕ) → Keeps (should_branch n)
unfolding should_branch
should_branch-Keeps (suc (suc (suc (suc (suc (suc (suc (suc _)))))))) = search helper_rules depth 30
should_branch-Keeps _ = search helper_rules depth 30

module _ (aaa bbb cc : ℕ) where
  flag_block-Keeps : Keeps (flag_block aaa bbb cc)
  unfolding flag_block
  flag_block-Keeps = search (helper_rules, set_selected_flag-Keeps) depth 30

  shift_block-Keeps : Keeps (shift_block aaa bbb cc)
  unfolding shift_block
  shift_block-Keeps = search (helper_rules, shift_by-Keeps) depth 30

  arithmetic_block-Keeps : Keeps (arithmetic_block aaa bbb cc)
  unfolding arithmetic_block add_to_a
  arithmetic_block-Keeps =
      search (helper_rules, operand_address-Keeps, operand_fetch-Keeps) depth 30

  compare_block-Keeps : Keeps (compare_block aaa bbb cc)
  unfolding compare_block
  compare_block-Keeps = search (helper_rules, operand_address-Keeps, operand_fetch-Keeps) depth 30

  inc_dec_block-Keeps : Keeps (inc_dec_block aaa bbb cc)
  unfolding inc_dec_block
  inc_dec_block-Keeps = search (helper_rules, inc_dec_address-Keeps) depth 30

  branch_block-Keeps : Keeps (branch_block aaa bbb cc)
  unfolding branch_block
  branch_block-Keeps = search (helper_rules, should_branch-Keeps) depth 30

ruleset block_rules = (
  flag_block-Keeps, shift_block-Keeps, arithmetic_block-Keeps, compare_block-Keeps,
  inc_dec_block-Keeps, branch_block-Keeps,
)

-- One instruction, whatever its opcode, keeps every variable in the range of its type and every
-- byte of the memory a byte.
pub step-Keeps : Keeps step
unfolding step
step-Keeps = search (helper_rules, block_rules, switch-Keeps) depth 30

pub step-IsValid : (s t : State) → IsValid s → step s ≡ some (tt, t) → IsValid t
step-IsValid s t v e = subst (Ensures IsValid) e (step-Keeps.at s v)

entered_again :
    (s : State) (cpu : Cpu) (oops : Bool) (cycles : ℤ)
    → s.cpu ≡ cpu
    → IsValid s
    → IsValid (enter cpu oops cycles)
unfolding enter
entered_again s cpu oops cycles same v = rw (← same) (ground (arith, v.mem_bytes))

-- If `olc6502_clock` is entered with every register in the range of its type and a memory of bytes,
-- and returns, it leaves them so, however many instructions it runs.
pub olc6502_clock-IsValid :
    (cpu cpu' : Cpu) (oops oops' : Bool) (cycles returned : ℤ)
    → IsValid (enter cpu oops cycles)
    → olc6502_clock cpu oops cycles ≡ done (cpu', oops', returned)
    → IsValid (enter cpu' oops' returned)
olc6502_clock-IsValid cpu cpu' oops oops' cycles returned v e =
    let (s, ends, same, _, _) = clock-done cpu cpu' oops oops' cycles returned e in
    let (w, _) =
      loop_inv IsValid (λ s t v more p. step-IsValid s t v p) (pos_part cycles)
        (enter cpu oops cycles) s v ends in
    entered_again s cpu' oops' returned same w
