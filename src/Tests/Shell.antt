-- ===== src/Tests/Shell.antt =====
-- Commands of src/main.c on the program of the ROM.
use m.Base.{ℕ, ◌≡◌, ◌↔◌, ◌≤◌, refl, arith, false, List, [], ◌∷◌, ◌<◌, u16}
use m.Base.Int.{ℤ, pos}
use m.Text.{Bytes}
use m.Memory.{Memory}
use m.Clock.{Outcome, done, fault, out_of_fuel}
use m.Shell.{
  Machine, Command, Reply, Line, clock, print, inspect, status_line, memory_line, cycles_line,
  range_line, usage, run_loop,
}
use m.Shell.Session.{execute, start_up}
use m.Shell.Run.{Runs, run_loop_iff-Runs}
use m.SelfTest.{main, failed, main-failed}
use m.Memory.{total_memory_size}
use m.Decoder.{Decoder}
use m.Decoder.Map.{byte_at}
use m.Cpu.{get_bit, flag_i, flag_d}
use m.Text.{strtoul}
use m.Shell.{refused, with_ce}
use m.Shell.Wozmon.{wozmon_command, write_text}
use m.Shell.Session.{inspect_memory_command}
use m.Shell.Start.{start_up-returns}
use m.Shell.Commands.{take, values_from, inspect-memory, wozmon_command-take}
use m.Tests.Processor.{boot, blank}

abbrev noise : Memory
noise = record { bytes = λ _. 0xab }

abbrev idle : Machine
idle = record { cpu = boot; oops_cycle = false }

abbrev machine_in : Outcome Machine → Machine
machine_in (done x) = x
machine_in fault = idle
machine_in out_of_fuel = idle

-- The machine at the first prompt.
started : Machine
unfolding m.Tests.Processor.clocked start_up m.Shell.Session.reset_machine
started = machine_in (start_up noise)

started-eq : start_up noise ≡ done started
unfolding started
started-eq = refl

-- A command line with everything that it uses computed.
replied : Command → List Bytes → Machine → Outcome Reply
unfolding m.Tests.Processor.clocked execute m.Shell.clock_machine m.Shell.run_loop m.Shell.is_break
    m.Shell.Session.inspect_loop m.Shell.Wozmon.send_byte m.Shell.Wozmon.send_input
    m.Shell.Wozmon.read_loop m.Shell.Wozmon.equal m.Text.strtol m.Text.strtoul m.Text.atoi
    m.Text.until_nul
replied = execute 9

abbrev lines_of : Outcome Reply → List Line
lines_of (done r) = r.lines
lines_of fault = []
lines_of out_of_fuel = []

-- `clock 20`
abbrev clock_line : List Bytes
clock_line = (b'c' ∷ []) ∷ (b'2' ∷ b'0' ∷ []) ∷ []

clock_lines :
    lines_of (replied clock clock_line idle)
    ≡ cycles_line (pos 20) (pos 22) ∷ status_line 2 1 11 253 0x24 32784 ∷ []
unfolding replied
clock_lines = refl

inspect_line : List Bytes
inspect_line =
    (b'i' ∷ [])
    ∷ (b'0' ∷ b'x' ∷ b'8' ∷ b'0' ∷ b'0' ∷ b'0' ∷ [])
    ∷ (b'3' ∷ b'2' ∷ b'7' ∷ b'7' ∷ b'0' ∷ [])
    ∷ []

inspected :
    lines_of (replied inspect inspect_line idle) ≡ memory_line 0x8000 (0xa2 ∷ 0x01 ∷ 0x86 ∷ []) ∷ []
unfolding replied inspect_line
inspected = refl

-- `run` up to an address of the program: three instructions.
abbrev end_of : Outcome (Machine × ℤ) → Machine
end_of (done (x, _)) = x
end_of fault = idle
end_of out_of_fuel = idle

ran : Outcome (Machine × ℤ)
unfolding replied
ran = run_loop 5 0x8005 (pos 0) idle

run_loop_iff-Runs_example : (run_loop 5 0x8005 (pos 0) idle ≡ done (end_of ran, pos 7)) ↔ (
    (k : ℕ) × (k ≤ 5)
    × Runs 0x8005 k idle (end_of ran) (pos 0) (pos 7)
    × ((end_of ran).cpu.pc ≡ 0x8005))
run_loop_iff-Runs_example = run_loop_iff-Runs 5 0x8005 (pos 0) (pos 7) idle (end_of ran)

ran-eq : run_loop 5 0x8005 (pos 0) idle ≡ done (end_of ran, pos 7)
unfolding ran
ran-eq = refl

-- The test program stops at its assertion on line 54.
self_test : main noise ≡ failed 54
self_test = main-failed noise

start_up-returns_example :
    (x : Machine) × (start_up noise ≡ done x)
    × ((i : ℕ) → i < total_memory_size → x.cpu.ce.mem.bytes i ≡ 0)
    × (x.cpu.pc ≡ 0x8000)
    × ((x.cpu.a ≡ 0) × (x.cpu.x ≡ 0) × (x.cpu.y ≡ 0))
    × (x.cpu.sp ≡ 0xfd)
    × (get_bit flag_i x.cpu.ps ≡ 1)
    × (get_bit flag_d x.cpu.ps ≡ 0)
start_up-returns_example = start_up-returns noise

-- `inspect 8 9`
eight_nine : u16 (strtoul 0 (b'8' ∷ [])) ≤ u16 (strtoul 0 (b'9' ∷ []))
unfolding strtoul
eight_nine = omega arith

inspect-memory_example :
    (ce : Decoder) × (inspect_memory_command ((b'i' ∷ []) ∷ (b'8' ∷ []) ∷ (b'9' ∷ []) ∷ []) idle
      ≡ done (record {
        machine = with_ce idle ce;
        status = pos 0;
        lines = memory_line 8 (values_from (byte_at blank) 2 8) ∷ [];
      }))
    × (ce.mem ≡ blank.mem)
unfolding strtoul
inspect-memory_example = inspect-memory (b'i' ∷ []) (b'8' ∷ []) (b'9' ∷ []) idle eight_nine

wozmon_command-take_example :
    wozmon_command 9 ((b'w' ∷ []) ∷ write_text ∷ (b'1' ∷ b'2' ∷ b'3' ∷ b'4' ∷ b'5' ∷ []) ∷ []) idle
    ≡ wozmon_command 9 ((b'w' ∷ []) ∷ write_text ∷ (b'1' ∷ b'2' ∷ b'3' ∷ b'4' ∷ []) ∷ []) idle
unfolding take
wozmon_command-take_example =
    wozmon_command-take 9 (b'w' ∷ []) (b'1' ∷ b'2' ∷ b'3' ∷ b'4' ∷ b'5' ∷ []) [] idle
