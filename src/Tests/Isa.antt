-- ===== src/Tests/Isa.antt =====
-- The reference of src/olc6502.c, and the program of src/program.h, at concrete states.
use m.Base.{ℕ, ◌+◌, [], ◌∷◌, ◌≡◌, refl, arith, false, Bool}
use m.Base.Int.{ℤ, pos, ◌-ℤ◌}
use m.Cpu.{Cpu, State}
use m.Decoder.Map.{byte_at}
use m.Clock.{done, enter, step, to_int32, olc6502_clock}
use m.Instructions.{Instruction, labelled, code}
use m.Switch.{load_case, store_case}
use m.Switch.Load.{ldx_im}
use m.Switch.Store.{stx_zp}
use m.Valid.{IsValid}
use m.Isa.{Visible, visible}
use m.Isa.Aim.{Lands}
use m.Isa.Exec.{next, Executes, halt, round}
use m.Isa.Encoding.{encoding, code-encoding}
use m.Isa.Refines.{step-Lands, olc6502_clock-Executes}
use m.Text.{Bytes, atoi}
use m.Memory.{Memory}
use m.Shell.{Machine, Reply, run_command, clock_command}
use m.Shell.Session.{start_up}
use m.Fibonacci.Command.{HasResult, run_command-program, clock_command-program}
use m.Fibonacci.Run.{olc6502_clock-program}
use m.Tests.Processor.{boot}

boot_for-IsValid : (cycles : ℤ) → IsValid (enter boot false cycles)
unfolding enter
boot_for-IsValid cycles = record {
  a_byte = omega arith;
  x_byte = omega arith;
  y_byte = omega arith;
  sp_byte = omega arith;
  ps_byte = omega arith;
  pc_word = omega arith;
  i_nxt_bit = omega arith;
  mem_bytes = λ i. omega arith;
  addr_word = omega arith;
  fetched_byte = omega arith;
  temp_byte = omega arith;
}

-- The first two instructions of the program, which take 5 cycles.
abbrev first : Instruction
first = labelled (load_case ldx_im)

abbrev second : Instruction
second = labelled (store_case stx_zp)

abbrev at_start : State
at_start = enter boot false (pos 5)

abbrev behind : Visible
behind = next second (next first (visible at_start))

step-Lands_example : Lands (step at_start) (next first (visible at_start))
unfolding enter m.Instructions.code m.Isa.peek m.Progmem.progmem m.Isa.Exec.Permits
    m.Isa.Address.IsReadable m.Isa.Reference.load_place
step-Lands_example = step-Lands first at_start (boot_for-IsValid (pos 5)) refl tt

executes : Executes (visible at_start) behind
unfolding enter m.Instructions.code m.Isa.peek m.Progmem.progmem m.Isa.Exec.Permits
    m.Isa.Address.IsReadable m.Isa.Reference.load_place m.Isa.Address.address
    m.Isa.Effects.store_place m.Isa.Effects.run_store m.Isa.Reference.run_load
    m.Isa.Reference.load_cycles m.Isa.Exec.exec ◌-ℤ◌
executes =
    round {v = visible at_start} first refl refl tt
      (round second refl refl (tt, omega arith) (halt refl))

olc6502_clock-Executes_example :
    (cpu' : Cpu) × (oops' : Bool) × (olc6502_clock boot false (pos 5)
      ≡ done (cpu', oops', to_int32 (pos 5 -ℤ behind.cycles)))
    × (visible (enter cpu' oops' behind.cycles) ≡ behind)
olc6502_clock-Executes_example =
    olc6502_clock-Executes boot false (pos 5) behind (boot_for-IsValid (pos 5)) executes

olc6502_clock-program_example :
    (cpu' : Cpu) × (oops' : Bool) × (returned : ℤ) × (olc6502_clock boot false (pos 400)
      ≡ done (cpu', oops', returned))
    × (cpu'.pc ≡ 0x8021)
    × ((cpu'.a ≡ 233) × (cpu'.x ≡ 233) × (cpu'.y ≡ 0))
    × (byte_at cpu'.ce 0 ≡ 233)
olc6502_clock-program_example =
    olc6502_clock-program boot false 400 (boot_for-IsValid (pos 400)) refl (omega arith)

-- A memory of one byte everywhere before the start.
abbrev powered : Memory
powered = record { bytes = λ _. 0x5a }

run_command-program_example :
    (m : Machine) × (start_up powered ≡ done m)
    × (k : ℕ) × (r : Reply) × ((more : ℕ) → run_command (k + more) ((b'r' ∷ []) ∷ []) m ≡ done r)
    × (r.status ≡ pos 0)
    × HasResult r.machine
run_command-program_example = run_command-program powered (b'r' ∷ []) (λ _. omega arith)

-- `clock 400`
abbrev four_hundred : Bytes
four_hundred = b'4' ∷ b'0' ∷ b'0' ∷ []

four_hundred-atoi : atoi four_hundred ≡ pos 400
unfolding atoi m.Text.strtol
four_hundred-atoi = refl

clock_command-program_example :
    (m : Machine) × (start_up powered ≡ done m)
    × (r : Reply) × (clock_command ((b'c' ∷ []) ∷ four_hundred ∷ []) m ≡ done r)
    × (r.status ≡ pos 0)
    × HasResult r.machine
clock_command-program_example =
    clock_command-program powered (b'c' ∷ []) four_hundred 400 (λ _. omega arith) four_hundred-atoi
      (omega arith)

-- LDX #n.
code-encoding_example : code first ≡ encoding first
code-encoding_example = code-encoding first
