-- ===== src/Shell/Session.antt =====
-- The other commands of src/main.c, their dispatch, and the start of `main`.
use m.Base.{
  ℕ, zero, suc, ◌+◌, ◌-◌, false, Option, none, some, List, [], ◌∷◌, u16, ltb, if◌then◌else◌,
}
use m.Base.Int.{pos, negsuc}
use m.Text.{Bytes, strtoul}
use m.Memory.{Memory, memory_init}
use m.Decoder.{Decoder, m74ls138_init, bus_read_byte}
use m.Cpu.{State}
use m.Cpu.Reset.{olc6502_init, olc6502_reset}
use m.Clock.{Outcome, done, fault, enter}
use m.Shell.{
  Machine, Command, clock, print, reset, inspect, run, wozmon, memory_line, range_line, Reply,
  then_do, from_option, with_ce, refused, succeeded, print_cpu_status, clock_command, run_command,
}
use m.Shell.Wozmon.{wozmon_command}

unfoldable pub print_command : List Bytes → Machine → Outcome Reply
print_command (_ ∷ []) m = succeeded m (print_cpu_status m.cpu ∷ [])
print_command _ m = refused print m

abbrev pub machine_of : State → Machine
machine_of s = record { cpu = s.cpu; oops_cycle = s.oops_cycle }

-- `olc6502_reset` with 9 cycles, of which it takes 7 off; what is left is not used.
unfoldable pub reset_machine : Machine → Outcome Machine
unfolding olc6502_reset
reset_machine m =
    then_do (from_option (olc6502_reset (enter m.cpu m.oops_cycle (pos 9))))
      λ r. done (machine_of r.1)

unfoldable pub reset_command : List Bytes → Machine → Outcome Reply
unfolding reset_machine
reset_command (_ ∷ []) m = then_do (reset_machine m) λ r. succeeded r (print_cpu_status r.cpu ∷ [])
reset_command _ m = refused reset m

-- The loop of `inspect`, with `left` addresses to go.
unfoldable pub inspect_loop : ℕ → ℕ → Decoder → Outcome (Bytes × Decoder)
inspect_loop zero addr ce = done ([], ce)
inspect_loop (suc left) addr ce =
    then_do (from_option (bus_read_byte ce (u16 addr)))
      λ r. then_do (inspect_loop left (addr + 1) r.1) λ rest. done (r.0 ∷ rest.0, rest.1)

unfoldable pub inspect_range : ℕ → ℕ → Machine → Outcome Reply
unfolding inspect_loop
inspect_range start end m =
    if ltb end start
    then done (record { machine = m; status = negsuc 0; lines = range_line ∷ [] })
    else (then_do (inspect_loop (end + 1 - start) start m.cpu.ce)
        λ r. succeeded (with_ce m r.1) (memory_line start r.0 ∷ []))

unfoldable pub inspect_memory_command : List Bytes → Machine → Outcome Reply
unfolding inspect_range
inspect_memory_command (_ ∷ start ∷ end ∷ []) m =
    inspect_range (u16 (strtoul 0 start)) (u16 (strtoul 0 end)) m
inspect_memory_command _ m = refused inspect m

-- The handlers that `SHELL_COMMAND` registers. The fuel is for the loops of `run` and `wozmon`.
unfoldable pub execute : ℕ → Command → List Bytes → Machine → Outcome Reply
unfolding clock_command print_command reset_command inspect_memory_command run_command
    wozmon_command
execute fuel clock argv m = clock_command argv m
execute fuel print argv m = print_command argv m
execute fuel reset argv m = reset_command argv m
execute fuel inspect argv m = inspect_memory_command argv m
execute fuel run argv m = run_command fuel argv m
execute fuel wozmon argv m = wozmon_command fuel argv m

-- The start of `main`, up to `shell_run`, with whatever the memory holds; `oops_cycle` starts false.
abbrev pub initialised : Option Decoder → Outcome Machine
initialised none = fault
initialised (some ce) = reset_machine (record { cpu = olc6502_init ce; oops_cycle = false })

unfoldable pub start_up : Memory → Outcome Machine
unfolding reset_machine
start_up mem = initialised (m74ls138_init (some (memory_init mem).1))
