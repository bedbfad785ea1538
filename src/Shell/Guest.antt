-- ===== src/Shell/Guest.antt =====
-- The calls `olc6502_clock(&cpu, 1)` of src/main.c against the reference.
use m.Base.{ℕ, suc, ◌≡◌, ◌≢◌, ◌∙◌, refl, sym, ap, subst, arith, false, ◌==◌, ==_iff}
use m.Base.Int.{ℤ, pos, ltb_ℤ, ◌+ℤ◌, ◌-ℤ◌, ◌≤ℤ◌, +ℤ_parts}
use m.Cpu.{State}
use m.Clock.{done, enter, step, to_int32}
use m.Cost.Step.{step-cycles}
use m.Valid.{IsValid}
use m.Instructions.{Instruction, code}
use m.Isa.{Visible, visible, peek}
use m.Isa.Exec.{Permits, begin, next, halt, round, Leads, arrived, onward}
use m.Isa.Blind.{with_cycles}
use m.Isa.Blind.Round.{next-Alike, begin-Permits}
use m.Isa.Refines.{land, step-Lands, olc6502_clock-Executes}
use m.Shell.{Machine, clocked, clock_machine}
use m.Shell.Valid.{IsSound, Returns, clock_machine-IsSound, entered}
use m.Shell.Run.{Tick, Runs, stop, tick}

-- What a program sees of the machine at the start of a call.
abbrev pub shown : Machine → Visible
shown m = visible (enter m.cpu m.oops_cycle (pos 1))

one_cycle : (c : ℤ) → c +ℤ pos 1 ≤ℤ pos 1 → ltb_ℤ (pos 0) c ≡ false
one_cycle c h = ground (arith, +ℤ_parts c (pos 1))

-- The call ends behind its first instruction.
used_up :
    (i : Instruction) (s : State)
    → s.cycles ≡ pos 1
    → IsValid s
    → peek (visible s) s.cpu.pc ≡ code i
    → Permits i (begin (visible s))
    → ltb_ℤ (pos 0) (next i (visible s)).cycles ≡ false
used_up i s one v here h =
    let (t, stepped, seen) = land (step s) (next i (visible s)) (step-Lands i s v here h) in
    let (cost, _) = step-cycles s t stepped in
    ap (λ x. ltb_ℤ (pos 0) x.cycles) (sym seen)
    ∙ one_cycle t.cycles (subst (λ c. t.cycles +ℤ pos 1 ≤ℤ c) one cost)

module _ (i : Instruction) (m : Machine) (sound : IsSound m)
    (here : peek (shown m) m.cpu.pc ≡ code i) (h : Permits i (begin (shown m))) where
  one_instruction :
      (t : Machine) × (c : ℤ) × Tick m t c
      × (shown t ≡ with_cycles (pos 1) (next i (shown m)))
      × IsSound t
  unfolding Tick clock_machine enter
  one_instruction =
      let s = enter m.cpu m.oops_cycle (pos 1) in
      let v = entered m (pos 1) sound in
      let x = next i (shown m) in
      let over = used_up i s refl v here h in
      let (cpu', oops', returns, seen) =
        olc6502_clock-Executes m.cpu m.oops_cycle (pos 1) x v (round i refl here h (halt over)) in
      let t : Machine = record { cpu = cpu'; oops_cycle = oops' } in
      let ticked : clock_machine m (pos 1) ≡ done (t, to_int32 (pos 1 -ℤ x.cycles)) =
        ap clocked returns in
      (
        t,
        to_int32 (pos 1 -ℤ x.cycles),
        ticked,
        ap (with_cycles (pos 1)) seen,
        subst (Returns (λ r. IsSound r.0)) ticked (clock_machine-IsSound m (pos 1) sound),
      )

not_at : (n a : ℕ) → (n == a) ≡ false → n ≢ a
not_at n a h e = cc ((==_iff n a).1 e)

-- As long as the reference does not get to the address `a`, neither do the calls.
pub Leads-Runs :
    {a : ℕ} {v w : Visible} (m : Machine) (n : ℤ)
    → IsSound m
    → shown m ≡ with_cycles (pos 1) v
    → Leads a v w
    → (k : ℕ) × (t : Machine) × (total : ℤ) × Runs a k m t n total
      × (shown t ≡ with_cycles (pos 1) w)
      × IsSound t
unfolding peek enter
Leads-Runs m n sound e arrived = (0, m, n, stop m n, e, sound)
Leads-Runs {a} {v} m n sound e (onward i apart more here h rest) =
    let one = with_cycles (pos 1) v in
    let here' : peek (shown m) m.cpu.pc ≡ code i = subst (λ u. peek u u.pc ≡ code i) (sym e) here in
    let h' = subst (λ u. Permits i (begin u)) (sym e) (begin-Permits i (pos 1) v h) in
    let away = not_at m.cpu.pc a (ap (λ u. u.pc == a) e ∙ apart) in
    let (t, c, ticked, seen, sound') = one_instruction i m sound here' h' in
    let e' = seen ∙ ap (λ u. with_cycles (pos 1) (next i u)) e ∙ next-Alike i (pos 1) v in
    let (k, u, total, runs, last, kept) = Leads-Runs t (n +ℤ c) sound' e' rest in
    (suc k, u, total, tick t c away ticked runs, last, kept)
