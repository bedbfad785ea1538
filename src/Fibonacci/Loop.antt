-- ===== src/Fibonacci/Loop.antt =====
-- The loop of the ROM's program: each turn makes the next number of Fibonacci.
use m.Base.{ℕ, zero, suc, ◌+◌, ◌*◌, ◌<◌, ◌≡◌, ◌∙◌, refl, sym, ap, subst, arith, true, false, ◌==◌}
use m.Base.Int.{pos, ◌-ℤ◌}
use m.Decoder.Map.{byte_at, real_address}
use m.Progmem.{progmem}
use m.Instructions.{branch, bne, code}
use m.Isa.{Visible, peek}
use m.Isa.Operations.{taken}
use m.Isa.Exec.{Permits, exec, begin}
use m.Fibonacci.{Computes, Left, left, instruction, branch-taken, branch-stays}
use m.Fibonacci.End.{comparing_at}
use m.Fibonacci.Turn.{
  at_once, turned, turning, AtLoop, low_turned, zero_turned, left_turned, not_last, next_turn,
  next_turn-AtLoop,
}

-- X behind `n + 1` turns that start with `lo` and `hi` at the addresses 0 and 1.
unfoldable pub fibonacci : ℕ → ℕ → ℕ → ℕ
fibonacci zero lo hi = hi
fibonacci (suc n) lo hi = fibonacci n hi (lo + hi)

-- The sums but the last one fit a byte.
unfoldable pub Fits : ℕ → ℕ → ℕ → Type 0
Fits zero lo hi = Unit {0}
Fits (suc n) lo hi = (lo + hi < 256) × Fits n hi (lo + hi)

-- The loop from its head to the comparison.
pub looping :
    (n lo hi : ℕ) (v : Visible)
    → AtLoop n lo hi v
    → Fits n lo hi
    → fibonacci n lo hi ≡ 233
    → Left (22 + n * 17) v.cycles
    → Computes (record v { pc = 0x8010 })
unfolding peek byte_at real_address progmem code Permits exec Fits fibonacci taken
looping zero lo hi v h f e l =
    let at = left_turned 8 v l in
    let stays : taken bne (begin (turned v)) ≡ false =
      ap (λ b. b == 0) (zero_turned zero lo hi v h) in
    let behind = record (turned v) {
      ps = at_once v (turned v).ps;
      cycles = (turned v).cycles -ℤ pos 1 -ℤ pos 1;
    } in
    let none_left : behind.y ≡ 0 = omega (arith, h.turns) in
    turning 8 v l (
      instruction (branch bne) (turned v) 8 at refl refl tt (
        subst Computes (sym (branch-stays bne (begin (turned v)) stays)) (
          comparing_at behind (h.high ∙ e) none_left (left 6 1 (turned v).cycles at)
            (low_turned zero lo hi v h ∙ e))))
looping (suc n) lo hi v h f e l =
    let at = left_turned (25 + n * 17) v (omega (arith, l)) in
    let jumps : taken bne (begin (turned v)) ≡ true =
      ap (λ b. b == 0) (zero_turned (suc n) lo hi v h) ∙ not_last n in
    turning (25 + n * 17) v (omega (arith, l)) (
      instruction (branch bne) (turned v) (25 + n * 17) at refl refl tt (
        subst Computes (sym (branch-taken bne (begin (turned v)) jumps)) (
          looping n hi (lo + hi) (next_turn v) (next_turn-AtLoop n lo hi v h f.0) f.1 e
            (left (22 + n * 17) 2 (turned v).cycles (omega (arith, at))))))
