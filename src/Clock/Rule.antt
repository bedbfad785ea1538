-- ===== src/Clock/Rule.antt =====
-- The rules of the loop of `olc6502_clock` in src/olc6502.c.
use m.Base.{
  ℕ, zero, suc, ◌<◌, arith, Bool, ◌≡◌, refl, sym, ◌∙◌, inl, inr, Bool-cases, true, false, Option,
  none, some, subst,
}
use m.Base.Int.{ℤ, pos, negsuc, pos_part, neg_part, ltb_ℤ, ◌-ℤ◌}
use m.Cpu.{Cpu, State}
use m.Clock.{
  Outcome, done, fault, out_of_fuel, after_step, step, loop, enter, map_outcome, result, to_int32,
  olc6502_clock,
}

pub loop-over : (fuel : ℕ) (s : State) → ltb_ℤ (pos 0) s.cycles ≡ false → loop fuel s ≡ done s
unfolding loop
loop-over zero s h = rw h
loop-over (suc fuel) s h = rw h

pub loop-more :
    (fuel : ℕ) (s : State)
    → ltb_ℤ (pos 0) s.cycles ≡ true
    → loop (suc fuel) s ≡ after_step (step s) (loop fuel)
unfolding loop
loop-more fuel s h = rw h

after_step-done :
    (r : Option (Unit {0} × State)) (k : State → Outcome State) (s' : State)
    → after_step r k ≡ done s'
    → (t : State) × (r ≡ some (tt, t)) × (k t ≡ done s')
after_step-done none k s' h = absurd (cc)
after_step-done (some (tt, t)) k s' h = (t, refl, h)

pub loop-empty : (s : State) → ltb_ℤ (pos 0) s.cycles ≡ true → loop zero s ≡ out_of_fuel
unfolding loop
loop-empty s h = rw h

over_inv {ℓ} :
    (P : State → Type ℓ) (fuel : ℕ) (s s' : State)
    → ltb_ℤ (pos 0) s.cycles ≡ false
    → P s
    → loop fuel s ≡ done s'
    → P s' × (ltb_ℤ (pos 0) s'.cycles ≡ false)
over_inv P fuel s s' over p e =
    let same : s ≡ s' = cc (loop-over fuel s over) in
    (subst P same p, subst (λ t. ltb_ℤ (pos 0) t.cycles ≡ false) same over)

-- What every instruction keeps holds when the loop has ended, and the loop ends by its test.
pub loop_inv {ℓ} :
    (P : State → Type ℓ)
    → ((s t : State) → P s → ltb_ℤ (pos 0) s.cycles ≡ true → step s ≡ some (tt, t) → P t)
    → (fuel : ℕ) (s s' : State) → P s
    → loop fuel s ≡ done s'
    → P s' × (ltb_ℤ (pos 0) s'.cycles ≡ false)
loop_inv P keep zero s s' p e = elim (Bool-cases (ltb_ℤ (pos 0) s.cycles)) [
  | inl more ↦ absurd (cc (loop-empty s more))
  | inr over ↦ over_inv P zero s s' over p e
]
loop_inv P keep (suc fuel) s s' p e = elim (Bool-cases (ltb_ℤ (pos 0) s.cycles)) [
  | inl more ↦
      let (t, stepped, rest) =
        after_step-done (step s) (loop fuel) s' (sym (loop-more fuel s more) ∙ e) in
      loop_inv P keep fuel t s' (keep s t p more stepped) rest
  | inr over ↦ over_inv P (suc fuel) s s' over p e
]

-- What the test says of the cycles left.
pub more→pos : (z : ℤ) → ltb_ℤ (pos 0) z ≡ true → (0 < pos_part z) × (neg_part z ≡ 0)
more→pos (pos n) h = ground arith
more→pos (negsuc n) h = ground arith

pub over→neg : (z : ℤ) → ltb_ℤ (pos 0) z ≡ false → pos_part z ≡ 0
over→neg (pos n) h = ground arith
over→neg (negsuc n) h = refl

-- A call of `olc6502_clock` that returns has run the loop to its end.
pub clock-done :
    (cpu cpu' : Cpu) (oops oops' : Bool) (cycles returned : ℤ)
    → olc6502_clock cpu oops cycles ≡ done (cpu', oops', returned)
    → (s : State) × (loop (pos_part cycles) (enter cpu oops cycles) ≡ done s)
      × (s.cpu ≡ cpu')
      × (s.oops_cycle ≡ oops')
      × (to_int32 (cycles -ℤ s.cycles) ≡ returned)
unfolding olc6502_clock
clock-done cpu cpu' oops oops' cycles returned e =
    go (loop (pos_part cycles) (enter cpu oops cycles)) e
  where
    go :
        (r : Outcome State)
        → map_outcome (result cycles) r ≡ done (cpu', oops', returned)
        → (s : State) × (r ≡ done s)
          × (s.cpu ≡ cpu')
          × (s.oops_cycle ≡ oops')
          × (to_int32 (cycles -ℤ s.cycles) ≡ returned)
    go (done s) e = (s, refl, cc, cc, cc)
    go fault e = absurd (cc)
    go out_of_fuel e = absurd (cc)
