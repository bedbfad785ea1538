-- ===== src/Shell/Run.antt =====
-- The loop of `run` in src/main.c: when it stops, and that it does.
use m.Base.{
  ℕ, zero, suc, ◌≤◌, ◌≡◌, ◌≢◌, ◌↔◌, subst, ◌∙◌, ap, sym, refl, arith, Bool, false, Bool-cases, inl,
  inr, ◌==◌, ==_iff, if◌then◌else◌,
}
use m.Base.Int.{ℤ, pos, ◌+ℤ◌}
use m.Cpu.{Cpu}
use m.Clock.{Outcome, done, fault, out_of_fuel, olc6502_clock}
use m.Cost.Loop.{olc6502_clock-returned}
use m.Shell.{Machine, then_do, clocked, clock_machine, run_loop, is_zero}

-- One call `olc6502_clock(&cpu, 1)` that returns, with the cycles that it reports.
unfoldable pub Tick : Machine → Machine → ℤ → Type 0
unfolding clock_machine
Tick m t n = clock_machine m (pos 1) ≡ done (t, n)

-- `Runs irq_address k m t n`: `k` calls lead from `m` to `t` and report `n` cycles in all, and `pc` is
-- not the IRQ address before any of them.
pub data Runs (irq_address : ℕ) : ℕ → Machine → Machine → ℤ → ℤ → Type 0 where
  stop : (m : Machine) (n : ℤ) → Runs irq_address 0 m m n n
  tick :
      {k : ℕ} {m u : Machine} {n total : ℤ} (t : Machine) (c : ℤ)
      → m.cpu.pc ≢ irq_address
      → Tick m t c
      → Runs irq_address k t u (n +ℤ c) total
      → Runs irq_address (suc k) m u n total

not_zero : (x : ℕ) → 1 ≤ x → is_zero (pos x) ≡ false
not_zero zero h = absurd (omega arith)
not_zero (suc x) h = refl

-- A call that returns reports a cycle or more.
Tick-positive : (m t : Machine) (n : ℤ) → Tick m t n → is_zero n ≡ false
unfolding Tick clock_machine
Tick-positive m t n e = go (olc6502_clock m.cpu m.oops_cycle (pos 1)) refl e
  where
    go :
        (r : Outcome (Cpu × Bool × ℤ))
        → olc6502_clock m.cpu m.oops_cycle (pos 1) ≡ r
        → clocked r ≡ done (t, n)
        → is_zero n ≡ false
    go (done (cpu, oops, k)) p e =
        let (x, value, least, _) =
          olc6502_clock-returned m.cpu cpu m.oops_cycle oops 1 k (omega arith) (omega arith) p in
        let same : k ≡ n = cc in ap is_zero (sym same ∙ value) ∙ not_zero x least
    go fault p e = absurd (cc)
    go out_of_fuel p e = absurd (cc)

at_address : (m : Machine) (a : ℕ) → m.cpu.pc ≢ a → (m.cpu.pc == a) ≡ false
at_address m a h = ground arith

-- The rounds of the loop.
run_loop-stop :
    (fuel a : ℕ) (n : ℤ) (m : Machine) → m.cpu.pc ≡ a → run_loop fuel a n m ≡ done (m, n)
unfolding run_loop
run_loop-stop zero a n m h = rw ((==_iff m.cpu.pc a).1 h)
run_loop-stop (suc fuel) a n m h = rw ((==_iff m.cpu.pc a).1 h)

run_loop-Tick :
    (fuel a : ℕ) (n c : ℤ) (m t : Machine)
    → m.cpu.pc ≢ a
    → Tick m t c
    → run_loop (suc fuel) a n m ≡ run_loop fuel a (n +ℤ c) t
unfolding run_loop Tick
run_loop-Tick fuel a n c m t h k = rw (at_address m a h, k, Tick-positive m t c k)

pub Runs-run_loop :
    {a k : ℕ} {m t : Machine} {n total : ℤ} (fuel : ℕ)
    → Runs a k m t n total
    → t.cpu.pc ≡ a
    → k ≤ fuel
    → run_loop fuel a n m ≡ done (t, total)
Runs-run_loop fuel (stop m n) e h = run_loop-stop fuel _ n m e
Runs-run_loop zero (tick t c ne k r) e h = absurd (omega arith)
Runs-run_loop {a} {m} {n} (suc fuel) (tick t c ne k r) e h =
    run_loop-Tick fuel a n c m t ne k ∙ Runs-run_loop fuel r e (omega arith)

abbrev round : ℕ → ℕ → ℤ → Machine × ℤ → Outcome (Machine × ℤ)
round fuel a n r =
    let rest = run_loop fuel a (n +ℤ r.1) r.0 in if is_zero r.1 then done (r.0, n +ℤ r.1) else rest

run_loop-round :
    (fuel a : ℕ) (n : ℤ) (m : Machine)
    → m.cpu.pc ≢ a
    → run_loop (suc fuel) a n m ≡ then_do (clock_machine m (pos 1)) (round fuel a n)
unfolding run_loop
run_loop-round fuel a n m ne = rw (at_address m a ne)

round_inv :
    (r : Outcome (Machine × ℤ)) (next : Machine × ℤ → Outcome (Machine × ℤ)) (x : Machine × ℤ)
    → then_do r next ≡ done x
    → (y : Machine × ℤ) × (r ≡ done y) × (next y ≡ done x)
round_inv (done y) next x e = (y, refl, e)
round_inv fault next x e = absurd (cc)
round_inv out_of_fuel next x e = absurd (cc)

run_loop-next :
    (fuel a : ℕ) (n total : ℤ) (m t : Machine)
    → m.cpu.pc ≢ a
    → run_loop (suc fuel) a n m ≡ done (t, total)
    → (u : Machine) × (c : ℤ) × Tick m u c × (run_loop fuel a (n +ℤ c) u ≡ done (t, total))
unfolding Tick
run_loop-next fuel a n total m t ne e =
    let ((u, c), ticked, ends) =
      round_inv (clock_machine m (pos 1)) (round fuel a n) (t, total)
        (sym (run_loop-round fuel a n m ne) ∙ e) in
    (u, c, ticked, rw (Tick-positive m u c ticked) at ends)

different : (m : Machine) (a : ℕ) → (m.cpu.pc == a) ≡ false → m.cpu.pc ≢ a
different m a h = ground arith

run_loop-empty : (a : ℕ) (n : ℤ) (m : Machine) → m.cpu.pc ≢ a → run_loop zero a n m ≡ out_of_fuel
unfolding run_loop
run_loop-empty a n m ne = rw (at_address m a ne)

-- The loop has ended in `r`, after at most `fuel` calls.
abbrev Ended : ℕ → ℕ → ℤ → Machine → Machine × ℤ → Type 0
Ended fuel a n m r = (k : ℕ) × (k ≤ fuel) × Runs a k m r.0 n r.1 × (r.0.cpu.pc ≡ a)

stopped :
    (fuel a : ℕ) (n : ℤ) (m : Machine) (r : Machine × ℤ)
    → m.cpu.pc ≡ a
    → run_loop fuel a n m ≡ done r
    → Ended fuel a n m r
stopped fuel a n m r h e =
    let same : (m, n) ≡ r = cc (run_loop-stop fuel a n m h) in
    subst (Ended fuel a n m) same (0, omega arith, stop m n, h)

run_loop-Ended :
    (fuel a : ℕ) (n : ℤ) (m : Machine) (r : Machine × ℤ)
    → run_loop fuel a n m ≡ done r
    → Ended fuel a n m r
run_loop-Ended zero a n m r e = elim (Bool-cases (m.cpu.pc == a)) [
  | inl there ↦ stopped zero a n m r ((==_iff m.cpu.pc a).0 there) e
  | inr more ↦ absurd (cc (run_loop-empty a n m (different m a more)))
]
run_loop-Ended (suc fuel) a n m r e = elim (Bool-cases (m.cpu.pc == a)) [
  | inl there ↦ stopped (suc fuel) a n m r ((==_iff m.cpu.pc a).0 there) e
  | inr more ↦
      let (u, c, ticked, rest) = run_loop-next fuel a n r.1 m r.0 (different m a more) e in
      let (k, bound, runs, there) = run_loop-Ended fuel a (n +ℤ c) u r rest in
      (suc k, omega arith, tick u c (different m a more) ticked runs, there)
]

-- The loop of `run` with fuel for `fuel` calls ends in a state exactly if at most so many calls of
-- `olc6502_clock(&cpu, 1)` lead there, `pc` is the IRQ address there, and it was not before; the
-- sum of what the calls report is the total. So if the program ever comes to the IRQ address without
-- leaving an array, `run` stops at its first visit, and the `break` is never taken.
pub run_loop_iff-Runs :
    (fuel a : ℕ) (n total : ℤ) (m t : Machine)
    → (run_loop fuel a n m ≡ done (t, total))
      ↔ ((k : ℕ) × (k ≤ fuel) × Runs a k m t n total × (t.cpu.pc ≡ a))
run_loop_iff-Runs fuel a n total m t = (
  run_loop-Ended fuel a n m (t, total),
  λ (k, bound, runs, there). Runs-run_loop fuel runs there bound,
)
