-- ===== src/Isa/Refines.antt =====
-- A round and a call of `olc6502_clock` of src/olc6502.c against the reference.
use m.Base.{
  ℕ, zero, suc, ◌≡◌, ◌∙◌, refl, sym, ap, subst, Bool, true, false, ◌≢◌, Option, none, some,
}
use m.Base.Int.{ℤ, pos, pos_part, ltb_ℤ, ◌-ℤ◌}
use m.Decoder.Map.{byte_at}
use m.Cpu.{Cpu, State}
use m.Clock.{
  done, out_of_fuel, after_step, map_outcome, result, step, loop, enter, to_int32, olc6502_clock,
}
use m.Clock.Rule.{loop-over, loop-more, loop-empty}
use m.Cost.Loop.{loop_terminates}
use m.Valid.Step.{step-IsValid}
use native.Mathlib.Nat.{le_refl}
use m.Valid.{IsValid}
use m.Switch.{
  Case, load_case, store_case, transfer_case, shift_case, logic_case, bit_case, jump_case,
  stack_case, run_case,
}
use m.Instructions.{Instruction, labelled, flag, branch, sum, cmp, compare_index, count, code}
use m.Instructions.Meaning.{meaning, case_meaning}
use m.Instructions.Round.{begun, begun-IsValid, step_at}
use m.Isa.{Visible, visible, peek}
use m.Isa.Aim.{Lands, Lands-subst}
use m.Isa.Load.{load-Lands}
use m.Isa.Store.{store-Lands}
use m.Isa.Plain.{transfer-Lands, flag-Lands, stack-Lands}
use m.Isa.Shift.{shift-Lands}
use m.Isa.Logic.{logic-Lands}
use m.Isa.Bit.{bit-Lands}
use m.Isa.Jump.{jump-Lands}
use m.Isa.Sum.{sum-Lands}
use m.Isa.Compare.{cmp-Lands, compare_index-Lands}
use m.Isa.Count.{count-Lands}
use m.Isa.Branch.{branch-Lands}
use m.Isa.Exec.{exec, exec_case, Permits, PermitsCase, begin, next, Executes, halt, round}

case-Lands :
    (c : Case) (u : State)
    → IsValid u
    → PermitsCase c (visible u)
    → Lands (case_meaning c u) (exec_case c (visible u))
unfolding PermitsCase case_meaning run_case exec_case
case-Lands (load_case i) u v w = load-Lands i u v w
case-Lands (store_case i) u v (w, h) = store-Lands i u v w h
case-Lands (transfer_case i) u v w = transfer-Lands i u v
case-Lands (shift_case op mode) u v w = shift-Lands op mode u v w
case-Lands (logic_case op mode) u v w = logic-Lands op mode u v w
case-Lands (bit_case i) u v w = bit-Lands i u v w
case-Lands (jump_case i) u v w = jump-Lands i u v w
case-Lands (stack_case i) u v w = stack-Lands i u v

meaning-Lands :
    (i : Instruction) (u : State)
    → IsValid u
    → Permits i (visible u)
    → Lands (meaning i u) (exec i (visible u))
unfolding Permits meaning exec
meaning-Lands (labelled c) u v w = case-Lands c u v w
meaning-Lands (flag i) u v w = flag-Lands i u
meaning-Lands (branch i) u v w = branch-Lands i u v
meaning-Lands (sum i mode) u v w = sum-Lands i mode u v w
meaning-Lands (cmp mode) u v w = cmp-Lands mode u v w
meaning-Lands (compare_index i mode) u v w = compare_index-Lands i mode u v w
meaning-Lands (count i mode) u v (w, h) = count-Lands i mode u v w h

-- One round of the loop of `olc6502_clock`, in a state whose variables are in range, with the opcode of a
-- documented instruction at `pc`: where what the instruction reads lies in the devices and what it
-- stores in the memory array, the round returns, and what a program then sees (the registers, the
-- flags, the memory and the cycles left) is what the reference says of that instruction, from what the program
-- saw before. All 151 documented instructions are covered. The reference has the code's departures from
-- the 6502 in it, among them that the indirect modes read their word without a return to the zero page
-- (the high byte of ($FF),Y is that at 0x0100), the carry and V of SBC, CPX and CPY immediate, CLV,
-- INC and DEC, TXS and TSX, PLP, RTI and BIT, and the cycles of some modes.
pub step-Lands :
    (i : Instruction) (s : State)
    → IsValid s
    → peek (visible s) s.cpu.pc ≡ code i
    → Permits i (begin (visible s))
    → Lands (step s) (next i (visible s))
unfolding peek byte_at
step-Lands i s v here w =
    Lands-subst (next i (visible s)) (step_at i s v here)
      (meaning-Lands i (begun s) (begun-IsValid s v) w)

pub land :
    (r : Option (Unit {0} × State)) (x : Visible)
    → Lands r x
    → (t : State) × (r ≡ some (tt, t)) × (visible t ≡ x)
land none x h = absurd h
land (some (tt, t)) x h = (t, refl, h)

loop-Executes :
    (fuel : ℕ) (s : State) (v x : Visible)
    → visible s ≡ v
    → IsValid s
    → loop fuel s ≢ out_of_fuel
    → Executes v x
    → (t : State) × (loop fuel s ≡ done t) × (visible t ≡ x)
loop-Executes fuel s v _ e k h (halt over) =
    let over' : ltb_ℤ (pos 0) s.cycles ≡ false = cc in (s, loop-over fuel s over', e)
loop-Executes zero s v x e k h (round i more here w rest) =
    let more' : ltb_ℤ (pos 0) s.cycles ≡ true = cc in absurd (h (loop-empty s more'))
loop-Executes (suc fuel) s v x e k h (round i more here w rest) =
    let more' : ltb_ℤ (pos 0) s.cycles ≡ true = cc in
    let here' : peek (visible s) s.cpu.pc ≡ code i =
      subst (λ v. peek v v.pc ≡ code i) (sym e) here in
    let w' = subst (λ v. Permits i (begin v)) (sym e) w in
    let (t, stepped, seen) = land (step s) (next i (visible s)) (step-Lands i s k here' w') in
    let on : loop (suc fuel) s ≡ loop fuel t =
      loop-more fuel s more' ∙ ap (λ r. after_step r (loop fuel)) stepped in
    let (last, ends, shown) =
      loop-Executes fuel t (next i v) x (seen ∙ ap (next i) e) (step-IsValid s t k stepped)
        (λ o. h (on ∙ o)) rest in
    (last, on ∙ ends, shown)

-- If from what a program sees at the start of a call of `olc6502_clock`, entered with every register in
-- the range of its type and a memory of bytes, the reference runs documented instructions until the requested
-- cycles are used up, then the call returns: with what the program sees at the end of
-- that run, whatever the variables of the function and the chip-enable line held, and with the
-- number of cycles that the reference counts, converted to `int32_t`. The reference has the code's departures
-- from the 6502 in it, among them the words of ($FF),Y and (n,X), which are read without a return to
-- the zero page, and the carry and V of SBC.
pub olc6502_clock-Executes :
    (cpu : Cpu) (oops : Bool) (cycles : ℤ) (x : Visible)
    → IsValid (enter cpu oops cycles)
    → Executes (visible (enter cpu oops cycles)) x
    → (cpu' : Cpu) × (oops' : Bool) × (olc6502_clock cpu oops cycles
        ≡ done (cpu', oops', to_int32 (cycles -ℤ x.cycles)))
      × (visible (enter cpu' oops' x.cycles) ≡ x)
unfolding olc6502_clock enter
olc6502_clock-Executes cpu oops cycles x k run =
    let s = enter cpu oops cycles in
    let (t, ends, seen) =
      loop-Executes (pos_part cycles) s (visible s) x refl k
        (loop_terminates (pos_part cycles) s (le_refl _)) run in
    let left : t.cycles ≡ x.cycles = ap (λ v. v.cycles) seen in
    (
      t.cpu,
      t.oops_cycle,
      ap (map_outcome (result cycles)) ends
          ∙ ap (λ z. done (t.cpu, t.oops_cycle, to_int32 (cycles -ℤ z))) left,
      ap (λ z. visible (enter t.cpu t.oops_cycle z)) (sym left) ∙ seen,
    )
