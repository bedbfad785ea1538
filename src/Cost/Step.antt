-- ===== src/Cost/Step.antt =====
-- Cycles of the blocks behind the switch of src/olc6502.c, of an instruction and of the loop.
use m.Base.{
  ℕ, suc, ◌+◌, ◌≤◌, ◌<◌, leb, leb→le, u8, ◌≡◌, refl, ap, subst, arith, Bool, ◌&&◌, ◌||◌, not, ◌==◌,
  ltb, if◌then◌else◌, true, false, Option, none, some,
}
use m.Base.Int.{pos, neg_part, pos_part, ◌+ℤ◌, ◌-ℤ◌, ◌≤ℤ◌, +ℤ_parts, -ℤ_parts}
use m.Cpu.{State, M, after, ◌>>=◌, gets, set_pc, read, ◌>>◌, get_i_nxt, set_flag, flag_i, spend}
use m.Blocks.Flag.{flag_block, set_selected_flag}
use m.Blocks.Shift.{shift_block, shift_by, shift_result}
use m.Blocks.Operand.{operand_address, operand_fetch}
use m.Blocks.Arithmetic.{arithmetic_block, add_to_a}
use m.Blocks.Compare.{compare_block, compare_flags, is_compare}
use m.Blocks.IncDec.{inc_dec_block, inc_dec_address}
use m.Blocks.Branch.{branch_block, should_branch, take_branch}
use m.Clock.{step, blocks, aaa_of, bbb_of, cc_of}
use m.Switch.{find_case, cases, switch}
use m.Cpu.Address.{fetch_operand}
use m.Base.Bits.{passes_to, passes_to_sound}
use m.Cost.{
  Ends, Costs, Costs-at, Takes, takes, Takes-Costs, Takes-gets, Costs-bind, Costs-bind_5,
  Costs-bind_6, Costs-weaken,
}
use m.Cost.Actions.{Takes-spend, Takes-set_flag}
use m.Cost.Helpers.{helper_costs, two_or_one}
use m.Cost.Cases.{selected_cycles, switch-Costs}

set_selected_flag-Takes : (n v : ℕ) → Takes 0 (set_selected_flag n v)
unfolding set_selected_flag
set_selected_flag-Takes (suc (suc (suc (suc _)))) v = takes (search helper_costs depth 30)
set_selected_flag-Takes _ v = takes (search helper_costs depth 30)

shift_by-Takes : (n : ℕ) → Takes 0 (shift_by n)
unfolding shift_by
shift_by-Takes (suc (suc (suc (suc _)))) = takes (search helper_costs depth 30)
shift_by-Takes _ = takes (search helper_costs depth 30)

-- The two sources of the cycles of an operand: none at all for an illegal field.
operand_address-Takes : (n : ℕ) → Takes 5 (operand_address n)
unfolding operand_address
operand_address-Takes (suc (suc (suc (suc (suc (suc (suc (suc _)))))))) =
    takes (search helper_costs depth 30)
operand_address-Takes _ = takes (search helper_costs depth 30)

operand_fetch-Takes : (n : ℕ) → Takes 0 (operand_fetch n)
unfolding operand_fetch
operand_fetch-Takes n = takes (search helper_costs depth 30)

add_to_a-Takes : (n : ℕ) → Takes 0 (add_to_a n)
unfolding add_to_a
add_to_a-Takes n = takes (search helper_costs depth 30)

compare_flags-Takes : Takes 0 compare_flags
unfolding compare_flags
compare_flags-Takes = takes (search helper_costs depth 30)

inc_dec_address-Takes : (n : ℕ) → Takes 6 (inc_dec_address n)
unfolding inc_dec_address
inc_dec_address-Takes (suc (suc (suc (suc (suc (suc (suc (suc _)))))))) =
    takes (search helper_costs depth 30)
inc_dec_address-Takes _ = takes (search helper_costs depth 30)

should_branch-Takes : (n : ℕ) → Takes 0 (should_branch n)
unfolding should_branch
should_branch-Takes (suc (suc (suc (suc (suc (suc (suc (suc _)))))))) =
    takes (search helper_costs depth 30)
should_branch-Takes _ = takes (search helper_costs depth 30)

take_branch-Costs : Costs 2 take_branch
unfolding take_branch
take_branch-Costs = search (helper_costs, two_or_one) depth 30

four_or_three : (b : Bool) → Takes 4 (spend (if b then 3 else 4))
four_or_three true = takes (Costs-weaken (spend 3) (Takes-Costs (Takes-spend 3)) (omega arith))
four_or_three false = Takes-spend 4

-- A shift of the accumulator takes one more cycle, of memory at most four.
abbrev pub result_cycles : ℕ → ℕ
result_cycles bbb = if bbb == 2 then 1 else 4

-- What a branch consumes at most, by its test.
branch :
    {a b : ℕ} (c : Bool) (m n : M (Unit {0}))
    → Costs a m
    → Costs b n
    → Takes (if c then a else b) (if c then m else n)
branch true m n h k = takes h
branch false m n h k = takes k

ruleset branch_costs = (branch, Costs-bind_5, Costs-bind_6, helper_costs)

shift_result-Costs : (bbb : ℕ) → Costs (result_cycles bbb) (shift_result bbb)
unfolding shift_result
shift_result-Costs bbb = Takes-Costs (search (branch_costs, four_or_three) depth 30)

module _ (aaa bbb cc : ℕ) where
  abbrev pub flag_cycles : ℕ
  flag_cycles = if not (aaa == 4) && (bbb == 6) && (cc == 0) then 1 else 0

  flag_block-Takes : Takes flag_cycles (flag_block aaa bbb cc)
  unfolding flag_block
  flag_block-Takes = search (branch_costs, set_selected_flag-Takes) depth 30

  abbrev pub shift_cycles : ℕ
  shift_cycles = if ltb aaa 4 && (cc == 2) then result_cycles bbb else 0

  shift_block-Takes : Takes shift_cycles (shift_block aaa bbb cc)
  unfolding shift_block
  shift_block-Takes = search (branch_costs, shift_by-Takes, shift_result-Costs) depth 30

  abbrev pub arithmetic_cycles : ℕ
  arithmetic_cycles = if ((aaa == 3) || (aaa == 7)) && (cc == 1) then 5 else 0

  arithmetic_block-Takes : Takes arithmetic_cycles (arithmetic_block aaa bbb cc)
  unfolding arithmetic_block
  arithmetic_block-Takes =
      search (branch_costs, operand_address-Takes, operand_fetch-Takes, add_to_a-Takes) depth 30

  abbrev pub compare_cycles : ℕ
  compare_cycles = if is_compare aaa bbb cc then 5 else 0

  compare_block-Takes : Takes compare_cycles (compare_block aaa bbb cc)
  unfolding compare_block
  compare_block-Takes =
      search (branch_costs, operand_address-Takes, operand_fetch-Takes, compare_flags-Takes) depth
        30

  abbrev pub inc_dec_cycles : ℕ
  inc_dec_cycles = if (cc == 2) && ltb 5 aaa && not (bbb == 2) then 6 else 0

  inc_dec_block-Takes : Takes inc_dec_cycles (inc_dec_block aaa bbb cc)
  unfolding inc_dec_block
  inc_dec_block-Takes = search (branch_costs, inc_dec_address-Takes) depth 30

  abbrev pub branch_cycles : ℕ
  branch_cycles = if (cc == 0) && (bbb == 4) then 3 else 0

  branch_block-Takes : Takes branch_cycles (branch_block aaa bbb cc)
  unfolding branch_block
  branch_block-Takes = search (branch_costs, should_branch-Takes, take_branch-Costs) depth 30

  abbrev pub block_cycles : ℕ
  block_cycles =
      flag_cycles
      + (shift_cycles + (arithmetic_cycles + (compare_cycles + (inc_dec_cycles + branch_cycles))))

  blocks-Costs : Costs block_cycles (blocks aaa bbb cc)
  unfolding blocks
  blocks-Costs = Costs-bind _ _ flag_block-Takes λ _. Costs-bind _ _ shift_block-Takes λ _.
      Costs-bind _ _ arithmetic_block-Takes λ _.
        Costs-bind _ _ compare_block-Takes
          λ _. Costs-bind _ _ inc_dec_block-Takes λ _. Takes-Costs branch_block-Takes

-- What an instruction consumes at most after the fetch of its opcode.
abbrev rest_cycles : ℕ → ℕ
rest_cycles opcode =
    selected_cycles (find_case opcode cases)
    + block_cycles (aaa_of opcode) (bbb_of opcode) (cc_of opcode)

-- No opcode has much to do in the switch and in a block.
rest_cycles_table : passes_to (λ opcode. leb (rest_cycles opcode) 6) 255 ≡ true
unfolding passes_to find_case cases is_compare
rest_cycles_table = refl

rest_cycles-le : (opcode : ℕ) → opcode < 256 → rest_cycles opcode ≤ 6
rest_cycles-le opcode h = leb→le _ _ (
    passes_to_sound (λ opcode. leb (rest_cycles opcode) 6) 255 opcode (omega arith)
      rest_cycles_table)

pub rest_of_step : ℕ → M (Unit {0})
rest_of_step opcode = do
  set_flag flag_i (← get_i_nxt)
  switch opcode
  blocks (aaa_of opcode) (bbb_of opcode) (cc_of opcode)

rest_of_step-Costs : (opcode : ℕ) → opcode < 256 → Costs 6 (rest_of_step opcode)
unfolding rest_of_step
rest_of_step-Costs opcode h =
    Costs-weaken _
      (Costs-bind _ _ (Takes-gets _) λ i. Costs-bind _ _ (Takes-set_flag flag_i i) λ _.
        Costs-bind _ _ (takes (switch-Costs opcode))
          λ _. blocks-Costs (aaa_of opcode) (bbb_of opcode) (cc_of opcode))
      (omega (arith, rest_cycles-le opcode h))

-- The fetch of the opcode takes one cycle.
fetch_operand-cycles :
    (s t : State) (v : ℕ) → fetch_operand s ≡ some (v, t) → t.cycles ≡ s.cycles -ℤ pos 1
unfolding fetch_operand ◌>>=◌ spend gets set_pc read
fetch_operand-cycles s t v e = ground arith

after_fetch :
    (s t : State) (r : Option (ℕ × State))
    → ((v : ℕ) (u : State) → r ≡ some (v, u) → u.cycles ≡ s.cycles -ℤ pos 1)
    → after r (λ v. rest_of_step (u8 v)) ≡ some (tt, t)
    → (t.cycles +ℤ pos 1 ≤ℤ s.cycles) × (s.cycles ≤ℤ t.cycles +ℤ pos 7)
after_fetch s t none h e = absurd (cc)
after_fetch s t (some (v, u)) h e =
    let spent : Ends 6 u (some (tt, t)) =
      subst (Ends 6 u) e (Costs-at (rest_of_step-Costs (u8 v) (omega arith)) u) in
    let taken : u.cycles ≡ s.cycles -ℤ pos 1 = h v u refl in
    omega (
      arith,
      spent,
      ap pos_part taken,
      ap neg_part taken,
      -ℤ_parts s.cycles (pos 1),
      +ℤ_parts t.cycles (pos 1),
      +ℤ_parts t.cycles (pos 7),
    )

-- Every instruction that returns, whatever its opcode, consumes at least 1 cycle and at most 7.
pub step-cycles :
    (s t : State)
    → step s ≡ some (tt, t)
    → (t.cycles +ℤ pos 1 ≤ℤ s.cycles) × (s.cycles ≤ℤ t.cycles +ℤ pos 7)
unfolding step rest_of_step ◌>>=◌
step-cycles s t e = after_fetch s t (fetch_operand s) (λ v u p. fetch_operand-cycles s u v p) e
