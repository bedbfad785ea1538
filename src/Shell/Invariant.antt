-- ===== src/Shell/Invariant.antt =====
-- The start of `main` in src/main.c leaves registers and memory in range.
use m.Base.{ℕ, ◌<◌, arith, false, Option, none, some}
use native.Mathlib.Decide.{dec_lt}
use m.Base.Int.{pos}
use m.Memory.{Memory, memory_init, total_memory_size}
use m.Memory.Init.{clear_from-bytes}
use m.Decoder.{Decoder, m74ls138_init}
use m.Cpu.{State}
use m.Cpu.Reset.{olc6502_init, olc6502_reset}
use m.Clock.{done, enter}
use m.Valid.{IsValid, Ensures}
use m.Valid.Helpers.{Keeps-olc6502_reset}
use m.Shell.{Machine, then_do, from_option}
use m.Shell.Session.{reset_machine, start_up, machine_of}
use m.Shell.Valid.{IsSound, Returns, HoldsBytes}

-- The reset, from registers and memory in range; the state that it starts in is that of `enter`.
reset_state :
    (s : State) (r : Option (Unit {0} × State))
    → Ensures IsValid r
    → Returns IsSound (then_do (from_option r) λ x. done (machine_of x.1))
unfolding IsSound enter
reset_state s none h = tt
reset_state s (some (_, t)) h = ground (arith, h.mem_bytes)

reset_entered : (m : Machine) → IsSound m → IsValid (enter m.cpu m.oops_cycle (pos 9))
unfolding IsSound enter
reset_entered m v = ground (arith, v.mem_bytes)

reset_machine-IsSound : (m : Machine) → IsSound m → Returns IsSound (reset_machine m)
unfolding reset_machine
reset_machine-IsSound m v =
    let s = enter m.cpu m.oops_cycle (pos 9) in
    reset_state s (olc6502_reset s) (Keeps-olc6502_reset.at s (reset_entered m v))

memory_init_bytes :
    (mem : Memory) (i : ℕ) → ((j : ℕ) → mem.bytes j < 256) → (memory_init mem).1.bytes i < 256
unfolding memory_init
memory_init_bytes mem i h =
    let cleared = clear_from-bytes total_memory_size 0 i mem in
    elim (dec_lt i total_memory_size) [
      | yes inside ↦ omega (arith, cleared.0 (omega arith) (omega arith))
      | no outside ↦ omega (arith, cleared.2 (omega arith), h i)
    ]

powered_up :
    (ce : Decoder) → HoldsBytes ce → IsSound (record { cpu = olc6502_init ce; oops_cycle = false })
unfolding IsSound enter olc6502_init
powered_up ce h = ground (arith, h)

pub start_up-IsSound :
    (mem : Memory) → ((i : ℕ) → mem.bytes i < 256) → Returns IsSound (start_up mem)
unfolding start_up m74ls138_init
start_up-IsSound mem h = reset_machine-IsSound _ (powered_up _ λ i. memory_init_bytes mem i h)
