-- ===== src/Cost/Loop.antt =====
-- The loop of `olc6502_clock` in src/olc6502.c ends, and how many cycles it reports.
use m.Base.{
  ℕ, zero, suc, ◌+◌, ◌^◌, ◌≤◌, ◌<◌, ◌≡◌, ◌≢◌, refl, ap, sym, ◌∙◌, arith, inl, inr, Bool, true,
  Bool-cases, Option, none, some,
}
use native.Mathlib.Nat.{le_refl}
use m.Base.Int.{
  ℤ, pos, negsuc, pos_part, neg_part, ltb_ℤ, ◌+ℤ◌, ◌-ℤ◌, ◌≤ℤ◌, +ℤ_parts, -ℤ_parts, eq_of_parts,
}
use m.Cpu.{Cpu, State}
use m.Clock.{
  Outcome, done, fault, out_of_fuel, after_step, map_outcome, step, loop, enter, to_int32,
  olc6502_clock,
}
use m.Clock.Rule.{more→pos, over→neg, clock-done, loop-over, loop-more, loop_inv}
use m.Cost.Step.{step-cycles}

after_step-ne :
    (r : Option (Unit {0} × State)) (k : State → Outcome State)
    → ((t : State) → r ≡ some (tt, t) → k t ≢ out_of_fuel)
    → after_step r k ≢ out_of_fuel
after_step-ne none k h e = cc
after_step-ne (some (tt, t)) k h e = h t refl e

-- At most one part of an integer is not 0.
one_side : (z : ℤ) (n : ℕ) → pos_part z ≤ n + neg_part z → pos_part z ≤ n
one_side (pos k) n h = omega arith
one_side (negsuc k) n h = omega arith

fewer :
    (s t : State) (fuel : ℕ)
    → ltb_ℤ (pos 0) s.cycles ≡ true
    → pos_part s.cycles ≤ suc fuel
    → (t.cycles +ℤ pos 1 ≤ℤ s.cycles) × (s.cycles ≤ℤ t.cycles +ℤ pos 7)
    → pos_part t.cycles ≤ fuel
fewer s t fuel more h c =
    one_side t.cycles fuel (omega (arith, more→pos s.cycles more, +ℤ_parts t.cycles (pos 1)))

-- One round for each cycle requested is enough: the loop ends by its test or leaves an array.
pub loop_terminates : (fuel : ℕ) (s : State) → pos_part s.cycles ≤ fuel → loop fuel s ≢ out_of_fuel
loop_terminates zero s h e = elim (Bool-cases (ltb_ℤ (pos 0) s.cycles)) [
  | inl more ↦ absurd (omega (arith, more→pos s.cycles more))
  | inr over ↦ cc (loop-over zero s over)
]
loop_terminates (suc fuel) s h e = elim (Bool-cases (ltb_ℤ (pos 0) s.cycles)) [
  | inl more ↦
      after_step-ne (step s) (loop fuel)
        (λ t p. loop_terminates fuel t (fewer s t fuel more h (step-cycles s t p)))
        (sym (loop-more fuel s more) ∙ e)
  | inr over ↦ cc (loop-over (suc fuel) s over)
]

clock_outcome :
    (r : Outcome State) {A : Type 0} (f : State → A)
    → r ≢ out_of_fuel
    → map_outcome f r ≢ out_of_fuel
clock_outcome (done s) f h e = cc
clock_outcome fault f h e = cc
clock_outcome out_of_fuel f h e = h refl

-- `olc6502_clock` terminates for every processor and every number of cycles: the model's fuel of
-- one instruction for each requested cycle is never used up.
pub olc6502_clock-terminates :
    (cpu : Cpu) (oops : Bool) (cycles : ℤ) → olc6502_clock cpu oops cycles ≢ out_of_fuel
unfolding olc6502_clock enter
olc6502_clock-terminates cpu oops cycles =
    clock_outcome _ _ (loop_terminates (pos_part cycles) (enter cpu oops cycles) (le_refl _))

-- The cycles left never fall below -6.
overrun :
    (s t : State)
    → neg_part s.cycles ≤ 6
    → ltb_ℤ (pos 0) s.cycles ≡ true
    → step s ≡ some (tt, t)
    → neg_part t.cycles ≤ 6
overrun s t h more e =
    ground (arith, step-cycles s t e, more→pos s.cycles more, +ℤ_parts t.cycles (pos 7))

to_int32-small : (k : ℕ) → k < 2 ^ 31 → to_int32 (pos k) ≡ pos k
to_int32-small k h = ground arith

returned_range :
    (n : ℕ) (z r : ℤ)
    → 0 < n
    → n + 6 < 2 ^ 31
    → neg_part z ≤ 6
    → pos_part z ≡ 0
    → to_int32 (pos n -ℤ z) ≡ r
    → (k : ℕ) × (r ≡ pos k) × (n ≤ k) × (k ≤ n + 6)
returned_range n z r p q h over e =
    let total : pos n -ℤ z ≡ pos (n + neg_part z) =
      eq_of_parts _ _ (omega (arith, -ℤ_parts (pos n) z)) in
    (
      n + neg_part z,
      sym e ∙ ap to_int32 total ∙ to_int32-small (n + neg_part z) (omega arith),
      omega arith,
      omega arith,
    )

-- A call that requests `n` cycles, at least one and small enough for `int32_t`, and returns, reports
-- at least `n` cycles and at most `n + 6`: it stops at the first instruction that ends the budget.
pub olc6502_clock-returned :
    (cpu cpu' : Cpu) (oops oops' : Bool) (n : ℕ) (returned : ℤ)
    → 0 < n
    → n + 6 < 2 ^ 31
    → olc6502_clock cpu oops (pos n) ≡ done (cpu', oops', returned)
    → (k : ℕ) × (returned ≡ pos k) × (n ≤ k) × (k ≤ n + 6)
unfolding enter
olc6502_clock-returned cpu cpu' oops oops' n returned p q e =
    let (s, ends, _, _, ret) = clock-done cpu cpu' oops oops' (pos n) returned e in
    let (low, over) =
      loop_inv (λ s. neg_part s.cycles ≤ 6) overrun n (enter cpu oops (pos n)) s (omega arith)
        ends in
    returned_range n s.cycles returned p q low (over→neg s.cycles over) ret
