-- ===== src/Shell/Start.antt =====
-- The start of `main` in src/main.c, up to the first prompt.
use m.Base.{ℕ, ◌<◌, ◌≡◌, ◌∙◌, ap, arith, false}
use m.Base.Int.{pos}
use m.Memory.{Memory, memory_init, total_memory_size}
use m.Memory.Init.{clear_from-bytes}
use m.Decoder.{cpu_ram, m74ls138_init}
use m.Cpu.{get_bit, flag_i, flag_d}
use m.Cpu.Reset.{olc6502_init}
use m.Clock.{done, enter}
use m.Call.Restart.{olc6502_reset-returns}
use m.Shell.{Machine}
use m.Shell.Session.{reset_machine, start_up, machine_of}

-- Whatever the memory held, the start of `main` returns: the memory array is 0, the processor is at
-- the first byte of the ROM with A, X and Y 0, the stack pointer 0xFD, interrupts disabled and
-- decimal mode off.
pub start_up-returns :
    (mem : Memory)
    → (m : Machine) × (start_up mem ≡ done m)
      × ((i : ℕ) → i < total_memory_size → m.cpu.ce.mem.bytes i ≡ 0)
      × (m.cpu.pc ≡ 0x8000)
      × ((m.cpu.a ≡ 0) × (m.cpu.x ≡ 0) × (m.cpu.y ≡ 0))
      × (m.cpu.sp ≡ 0xfd)
      × (get_bit flag_i m.cpu.ps ≡ 1)
      × (get_bit flag_d m.cpu.ps ≡ 0)
unfolding start_up reset_machine m74ls138_init memory_init olc6502_init enter
start_up-returns mem =
    let cpu = olc6502_init (record { ce = cpu_ram; mem = (memory_init mem).1 }) in
    let (t, e, pc, sp, i, _, d, _, (a, x, y), _, same) =
      olc6502_reset-returns (enter cpu false (pos 9)) in
    (
      machine_of t,
      rw (e),
      (λ k h.
          ap (λ bytes. bytes.bytes k) same
          ∙ (clear_from-bytes total_memory_size 0 k mem).0 (omega arith) (omega arith)),
      pc,
      (a, x, y),
      sp,
      i,
      d,
    )
