-- ===== src/Fibonacci/Run.antt =====
-- `olc6502_clock` of src/olc6502.c on the program of the ROM.
use m.Base.{ℕ, ◌<◌, ◌≡◌, ◌∙◌, sym, ap, subst, Bool}
use m.Base.Int.{ℤ, pos, ◌-ℤ◌}
use m.Decoder.Map.{byte_at}
use m.Cpu.{Cpu}
use m.Clock.{done, enter, to_int32, olc6502_clock}
use m.Valid.{IsValid}
use m.Isa.{visible, peek}
use m.Isa.Refines.{olc6502_clock-Executes}
use m.Fibonacci.{Computes, IsComputed}
use m.Isa.Exec.{Leads-Executes}
use m.Fibonacci.End.{Waits, computed-Waits}
use m.Fibonacci.Start.{computing}

started :
    (cpu : Cpu) (oops : Bool) (n : ℕ)
    → cpu.pc ≡ 0x8000
    → 214 < n
    → Computes (visible (enter cpu oops (pos n)))
unfolding enter
started cpu oops n at h =
    subst (λ k. Computes (record (visible (enter cpu oops (pos n))) { pc = k })) (sym at)
      (computing (visible (enter cpu oops (pos n))) h)

-- The program of the ROM (src/program.h), started at its first byte, whatever the other registers, the flags
-- and the memory hold: a call of `olc6502_clock` with every register in the range of its type, a memory of bytes and
-- more than 214 cycles requested returns with the processor at the jump to itself behind the
-- successful comparison, with the Fibonacci number 233 in A, in X and at the address 0, and 0 in Y.
pub olc6502_clock-program :
    (cpu : Cpu) (oops : Bool) (n : ℕ)
    → IsValid (enter cpu oops (pos n))
    → cpu.pc ≡ 0x8000
    → 214 < n
    → (cpu' : Cpu) × (oops' : Bool) × (returned : ℤ) × (olc6502_clock cpu oops (pos n)
        ≡ done (cpu', oops', returned))
      × (cpu'.pc ≡ 0x8021)
      × ((cpu'.a ≡ 233) × (cpu'.x ≡ 233) × (cpu'.y ≡ 0))
      × (byte_at cpu'.ce 0 ≡ 233)
unfolding Computes Waits IsComputed peek byte_at enter
olc6502_clock-program cpu oops n v at h =
    let (u, leads, ends) = started cpu oops n at h in
    let (x, rest, (pc, a, x_same, y, result)) = computed-Waits u ends in
    let (cpu', oops', returns, seen) =
      olc6502_clock-Executes cpu oops (pos n) x v (Leads-Executes leads rest) in
    (
      cpu',
      oops',
      to_int32 (pos n -ℤ x.cycles),
      returns,
      ap (λ v. v.pc) seen ∙ pc,
      (ap (λ v. v.a) seen ∙ a, ap (λ v. v.x) seen ∙ x_same, ap (λ v. v.y) seen ∙ y),
      ap (λ v. peek v 0) seen ∙ result,
    )
