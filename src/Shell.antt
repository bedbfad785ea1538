-- ===== src/Shell.antt =====
-- src/main.c: the commands of the shell on the one processor, decoder and memory of the program. The
-- shell itself, which reads the command lines, is RIOT's.
pub mod Wozmon
pub mod Session
pub mod Valid
pub mod Invariant
pub mod Run
pub mod Commands
pub mod Start
pub mod Guest
use m.Base.{
  ℕ, zero, suc, ◌+◌, ◌-◌, ◌<◌, ◌≤◌, Bool, true, false, not, ◌&&◌, Option, none, some, List, [], ◌∷◌,
  ◌++◌, u8, u16, ◌==◌, ltb, leb, to_bit, bit_and, if◌then◌else◌, length,
}
use m.Base.Int.{ℤ, pos, negsuc, ◌+ℤ◌}
use m.Text.{Bytes, until_nul, atoi, strtoul}
use m.Memory.{Memory, memory_init}
use m.Decoder.{Decoder, m74ls138_init, bus_read_byte, bus_write_byte, bus_read_word}
use m.Cpu.{Cpu, State}
use m.Cpu.Stack.{stack_base}
use m.Cpu.Reset.{irq_vector, olc6502_init, olc6502_reset}
use m.Clock.{Outcome, done, fault, out_of_fuel, olc6502_clock, enter}

abbrev pub acia_data : ℕ
acia_data = 0x4100

abbrev pub acia_status : ℕ
acia_status = 0x4101

-- The globals: `cpu`, with `ce` and `mem` behind its pointer, and `oops_cycle`.
pub record Machine : Type 0 where
  pub cpu : Cpu
  pub oops_cycle : Bool

pub data Command : Type 0 where
  clock print reset inspect run wozmon : Command

-- What `printf` puts out, with the values that it prints.
pub data Line : Type 0 where
  usage : Command → Line
  cycles_line : ℤ → ℤ → Line
  status_line : ℕ → ℕ → ℕ → ℕ → ℕ → ℕ → Line
  halted_line : ℤ → ℕ → Line
  wozmon_line : Bytes → Line
  range_line : Line
  memory_line : ℕ → Bytes → Line

-- The value returned by a command, and its output.
pub record Reply : Type 0 where
  pub machine : Machine
  pub status : ℤ
  pub lines : List Line

abbrev pub then_do : {A B : Type 0} → Outcome A → (A → Outcome B) → Outcome B
then_do (done a) next = next a
then_do fault next = fault
then_do out_of_fuel next = out_of_fuel

abbrev pub from_option : {A : Type 0} → Option A → Outcome A
from_option none = fault
from_option (some a) = done a

abbrev pub with_ce : Machine → Decoder → Machine
with_ce m ce = record m { cpu = record m.cpu { ce = ce } }

abbrev pub print_cpu_status : Cpu → Line
print_cpu_status cpu = status_line cpu.a cpu.x cpu.y cpu.sp cpu.ps cpu.pc

abbrev pub refused : Command → Machine → Outcome Reply
refused command m = done (record { machine = m; status = negsuc 0; lines = usage command ∷ [] })

abbrev pub succeeded : Machine → List Line → Outcome Reply
succeeded m lines = done (record { machine = m; status = pos 0; lines = lines })

-- `olc6502_clock(&cpu, cycles)`
abbrev pub clocked : Outcome (Cpu × Bool × ℤ) → Outcome (Machine × ℤ)
clocked (done (cpu, oops, n)) = done (record { cpu = cpu; oops_cycle = oops }, n)
clocked fault = fault
clocked out_of_fuel = out_of_fuel

unfoldable pub clock_machine : Machine → ℤ → Outcome (Machine × ℤ)
clock_machine m cycles = clocked (olc6502_clock m.cpu m.oops_cycle cycles)

unfoldable pub clock_command : List Bytes → Machine → Outcome Reply
unfolding clock_machine
clock_command (_ ∷ argument ∷ []) m =
    then_do (clock_machine m (atoi argument))
      λ r. succeeded r.0 (cycles_line (atoi argument) r.1 ∷ print_cpu_status r.0.cpu ∷ [])
clock_command _ m = refused clock m

abbrev pub is_zero : ℤ → Bool
is_zero (pos zero) = true
is_zero _ = false

-- The loop of `run`: until `pc` is the IRQ address, or a call reports no cycle.
unfoldable pub run_loop : ℕ → ℕ → ℤ → Machine → Outcome (Machine × ℤ)
unfolding clock_machine
run_loop zero irq_address total m = if m.cpu.pc == irq_address then done (m, total) else out_of_fuel
run_loop (suc fuel) irq_address total m =
    let next = then_do (clock_machine m (pos 1)) λ r.
      let rest = run_loop fuel irq_address (total +ℤ r.1) r.0 in
      if is_zero r.1 then done (r.0, total +ℤ r.1) else rest in
    if m.cpu.pc == irq_address then done (m, total) else next

-- `is_break`: 0 at the stack pointer of the reset, else a bit of the byte at `SP + 1`.
abbrev pub break_bit : Option (ℕ × Decoder) → Outcome (ℕ × Decoder)
break_bit none = fault
break_bit (some (v, ce)) = done (to_bit (not (bit_and v 0x10 == 0)), ce)

unfoldable pub is_break : Cpu → Outcome (ℕ × Decoder)
is_break cpu =
    if cpu.sp == stack_base - 3
    then done (0, cpu.ce)
    else break_bit (bus_read_byte cpu.ce (u16 (cpu.sp + 1)))

abbrev pub run_report : ℤ → Machine → Outcome (ℕ × Decoder) → Outcome Reply
run_report total m r =
    then_do r λ b. succeeded (with_ce m b.1) (halted_line total b.0 ∷ print_cpu_status m.cpu ∷ [])

unfoldable pub run_command : ℕ → List Bytes → Machine → Outcome Reply
unfolding run_loop is_break
run_command fuel (_ ∷ []) m = then_do (from_option (bus_read_word m.cpu.ce irq_vector)) λ w.
    then_do (run_loop fuel w.0 (pos 0) (with_ce m w.1)) λ r. run_report r.1 r.0 (is_break r.0.cpu)
run_command fuel _ m = refused run m
