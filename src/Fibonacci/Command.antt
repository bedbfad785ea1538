-- ===== src/Fibonacci/Command.antt =====
-- The commands of src/main.c on the program of the ROM.
use m.Base.{
  ℕ, ◌+◌, ◌≤◌, ◌<◌, ◌≡◌, ◌∙◌, refl, ap, subst, arith, false, Bool-cases, inl, inr, [], ◌∷◌, ◌==◌,
  u16, to_bit, not, bit_and,
}
use m.Base.Int.{ℤ, pos}
use m.Text.{Bytes, atoi}
use m.Memory.{Memory}
use m.Decoder.{Decoder, prg_rom3}
use m.Decoder.Map.{byte_at, line_of, bus_read_byte-total}
use m.Cpu.{Cpu}
use m.Clock.{done, enter}
use m.Isa.{peek}
use m.Isa.Jump.{irq_address, irq_word}
use m.Isa.Blind.{with_cycles}
use m.Shell.{
  Machine, Reply, with_ce, is_break, run_command, succeeded, halted_line, cycles_line,
  clock_command, clock_machine, print_cpu_status,
}
use m.Shell.Session.{start_up}
use m.Shell.Valid.{IsSound, IsSound-with_ce, IsSound-bytes, Returns, entered}
use m.Shell.Invariant.{start_up-IsSound}
use m.Shell.Start.{start_up-returns}
use m.Shell.Run.{Runs, Runs-run_loop}
use m.Shell.Guest.{shown, Leads-Runs}
use m.Fibonacci.{Computes, IsComputed}
use m.Fibonacci.Start.{computing}
use m.Fibonacci.Run.{olc6502_clock-program}

-- The machine waits at the jump to itself with its result.
unfoldable pub HasResult : Machine → Type 0
unfolding byte_at
HasResult m =
    (m.cpu.pc ≡ 0x8021)
    × ((m.cpu.a ≡ 233) × (m.cpu.x ≡ 233) × (m.cpu.y ≡ 0))
    × (byte_at m.cpu.ce 0 ≡ 233)

read_frame :
    (cpu : Cpu)
    → (cpu.sp == 253) ≡ false
    → (n : ℕ) × (ce : Decoder) × (is_break cpu ≡ done (n, ce)) × (ce.mem ≡ cpu.ce.mem)
unfolding is_break
read_frame cpu other =
    let a = u16 (cpu.sp + 1) in
    (
      to_bit (not (bit_and (byte_at cpu.ce a) 0x10 == 0)),
      record cpu.ce { ce = line_of a },
      rw (other, bus_read_byte-total cpu.ce a (omega arith)),
      refl,
    )

is_break-returns :
    (cpu : Cpu) → (n : ℕ) × (ce : Decoder) × (is_break cpu ≡ done (n, ce)) × (ce.mem ≡ cpu.ce.mem)
unfolding is_break
is_break-returns cpu = elim (Bool-cases (cpu.sp == 253)) [
  | inl empty ↦ (0, cpu.ce, rw empty, refl)
  | inr other ↦ read_frame cpu other
]

-- The machine with the word of the IRQ vector read.
abbrev with_vector : Machine → Machine
with_vector m = with_ce m (record m.cpu.ce { ce = prg_rom3 })

run_command-done :
    (m t : Machine) (name : Bytes) (k : ℕ) (total : ℤ) (n : ℕ) (ce : Decoder)
    → Runs irq_address k (with_vector m) t (pos 0) total
    → t.cpu.pc ≡ irq_address
    → is_break t.cpu ≡ done (n, ce)
    → (fuel : ℕ) → k ≤ fuel
    → run_command fuel (name ∷ []) m
      ≡ succeeded (with_ce t ce) (halted_line total n ∷ print_cpu_status t.cpu ∷ [])
unfolding run_command
run_command-done m t name k total n ce runs stopped broke fuel h =
    rw (irq_word m.cpu.ce, Runs-run_loop fuel runs stopped h, broke)

run_command-HasResult :
    (m : Machine) (name : Bytes)
    → m.cpu.pc ≡ 0x8000
    → IsSound m
    → (k : ℕ) × (r : Reply) × ((more : ℕ) → run_command (k + more) (name ∷ []) m ≡ done r)
      × (r.status ≡ pos 0)
      × HasResult r.machine
unfolding Computes IsComputed HasResult peek byte_at enter m.Progmem.progmem
run_command-HasResult m name at sound =
    let v = record (shown m) { pc = 0x8000; cycles = pos 215 } in
    let (u, leads, (pc, a, x, y, result)) = computing v (omega arith) in
    let e : shown (with_vector m) ≡ with_cycles (pos 1) v =
      ap (λ k. record (shown m) { pc = k }) at in
    let sound' =
      IsSound-with_ce m (record m.cpu.ce { ce = prg_rom3 }) sound (IsSound-bytes m sound) in
    let (k, t, total, runs, seen, _) = Leads-Runs (with_vector m) (pos 0) sound' e leads in
    let (n, ce, broke, same) = is_break-returns t.cpu in
    let stopped : t.cpu.pc ≡ 0x8021 = ap (λ s. s.pc) seen ∙ pc in
    let stored =
      ap (λ k. peek (record (shown t) { mem = k }) 0) same ∙ ap (λ s. peek s 0) seen ∙ result in
    (
      k,
      _,
      (λ more. run_command-done m t name k total n ce runs stopped broke (k + more) (omega arith)),
      refl,
      (stopped, (ap (λ s. s.a) seen ∙ a, ap (λ s. s.x) seen ∙ x, ap (λ s. s.y) seen ∙ y), stored),
    )

-- From power-up, whatever bytes the memory held: after the start of `main` the command `run`, without an
-- argument, stops the program of the ROM (src/program.h) at the address of the IRQ vector after some number of
-- calls of `olc6502_clock`, at most `k`, and returns 0, with every fuel from `k` on. The processor is then at the jump to itself behind the successful
-- comparison, with the Fibonacci number 233 in A, in X and at the address 0, and 0 in Y.
pub run_command-program :
    (mem : Memory) (name : Bytes)
    → ((i : ℕ) → mem.bytes i < 256)
    → (m : Machine) × (start_up mem ≡ done m)
      × (k : ℕ) × (r : Reply) × ((more : ℕ) → run_command (k + more) (name ∷ []) m ≡ done r)
      × (r.status ≡ pos 0)
      × HasResult r.machine
run_command-program mem name bytes =
    let (m, starts, _, pc, _, _, _, _) = start_up-returns mem in
    let sound = subst (Returns IsSound) starts (start_up-IsSound mem bytes) in
    let (k, r, returns, status, result) = run_command-HasResult m name pc sound in
    (m, starts, k, r, returns, status, result)

-- From power-up, whatever bytes the memory held: after the start of `main` the command `clock`, with an
-- argument that `atoi` reads as a number above 214, returns 0 and leaves the processor at the jump to itself of
-- the ROM's program, with the Fibonacci number 233 in A, in X and at the address 0, and 0 in Y.
pub clock_command-program :
    (mem : Memory) (name argument : Bytes) (n : ℕ)
    → ((i : ℕ) → mem.bytes i < 256)
    → atoi argument ≡ pos n
    → 214 < n
    → (m : Machine) × (start_up mem ≡ done m)
      × (r : Reply) × (clock_command (name ∷ argument ∷ []) m ≡ done r)
      × (r.status ≡ pos 0)
      × HasResult r.machine
unfolding clock_command clock_machine HasResult
clock_command-program mem name argument n bytes number h =
    let (m, starts, _, pc, _, _, _, _) = start_up-returns mem in
    let sound = subst (Returns IsSound) starts (start_up-IsSound mem bytes) in
    let (cpu', oops', returned, e, at, registers, stored) =
      olc6502_clock-program m.cpu m.oops_cycle n (entered m (pos n) sound) pc h in
    let reply : Reply = record {
      machine = record { cpu = cpu'; oops_cycle = oops' };
      status = pos 0;
      lines = cycles_line (pos n) returned ∷ print_cpu_status cpu' ∷ [];
    } in
    (m, starts, reply, rw (number, e), refl, (at, registers, stored))
