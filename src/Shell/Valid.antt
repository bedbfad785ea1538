-- ===== src/Shell/Valid.antt =====
-- The registers and the memory of the machine behind the prompt of src/main.c, and a call of its clock.
use m.Base.{ℕ, ◌<◌, ◌≡◌, refl, arith, Bool}
use m.Base.Int.{ℤ, pos}
use m.Decoder.{Decoder}
use m.Cpu.{Cpu}
use m.Clock.{Outcome, done, fault, out_of_fuel, olc6502_clock, enter}
use m.Valid.{IsValid}
use m.Valid.Step.{olc6502_clock-IsValid}
use m.Shell.{Machine, with_ce, clocked, clock_machine}

-- The registers are in the ranges of their types, and the memory holds bytes.
unfoldable pub IsSound : Machine → Type 0
unfolding enter
IsSound m = IsValid (enter m.cpu m.oops_cycle (pos 0))

-- What holds of the value that is returned, if one is.
abbrev pub Returns : {A : Type 0} → (A → Type 0) → Outcome A → Type 0
Returns P (done a) = P a
Returns P fault = Unit
Returns P out_of_fuel = Unit

abbrev pub HoldsBytes : Decoder → Type 0
HoldsBytes ce = (i : ℕ) → ce.mem.bytes i < 256

pub IsSound-bytes : (m : Machine) → IsSound m → HoldsBytes m.cpu.ce
unfolding IsSound
IsSound-bytes m v = v.mem_bytes

pub IsSound-with_ce :
    (m : Machine) (ce : Decoder) → IsSound m → HoldsBytes ce → IsSound (with_ce m ce)
unfolding IsSound
IsSound-with_ce m ce v h = ground (arith, h)

-- One call of the clock.
pub entered : (m : Machine) (cycles : ℤ) → IsSound m → IsValid (enter m.cpu m.oops_cycle cycles)
unfolding IsSound enter
entered m cycles v = ground (arith, v.mem_bytes)

left :
    (cpu : Cpu) (oops : Bool) (cycles : ℤ)
    → IsValid (enter cpu oops cycles)
    → IsSound (record { cpu = cpu; oops_cycle = oops })
unfolding IsSound enter
left cpu oops cycles v = ground (arith, v.mem_bytes)

pub clock_machine-IsSound :
    (m : Machine) (cycles : ℤ) → IsSound m → Returns (λ r. IsSound r.0) (clock_machine m cycles)
unfolding clock_machine
clock_machine-IsSound m cycles v = go (olc6502_clock m.cpu m.oops_cycle cycles) refl
  where
    go :
        (r : Outcome (Cpu × Bool × ℤ))
        → olc6502_clock m.cpu m.oops_cycle cycles ≡ r
        → Returns (λ x. IsSound x.0) (clocked r)
    go (done (cpu, oops, n)) e =
        left cpu oops n
          (olc6502_clock-IsValid m.cpu cpu m.oops_cycle oops cycles n (entered m cycles v) e)
    go fault e = tt
    go out_of_fuel e = tt
