-- ===== src/Clock.antt =====
-- `olc6502_clock` of src/olc6502.c: one instruction, and the loop over the cycles.
pub mod Rule
use m.Base.{
  ℕ, zero, suc, ◌-◌, ◌/◌, ◌%◌, ◌^◌, Bool, Option, none, some, ltb, if◌then◌else◌, u8, bit_and,
}
use m.Base.Int.{ℤ, pos, negsuc, pos_part, ltb_ℤ, ◌-ℤ◌}
use m.Cpu.{Cpu, State, M, ◌>>=◌, ◌>>◌, get_i_nxt, set_flag, flag_i}
use m.Cpu.Address.{fetch_operand}
use m.Switch.{switch}
use m.Blocks.Flag.{flag_block}
use m.Blocks.Shift.{shift_block}
use m.Blocks.Arithmetic.{arithmetic_block}
use m.Blocks.Compare.{compare_block}
use m.Blocks.IncDec.{inc_dec_block}
use m.Blocks.Branch.{branch_block}

-- The blocks behind the switch, in their order.
unfoldable pub blocks : ℕ → ℕ → ℕ → M (Unit {0})
blocks aaa bbb cc = do
  flag_block aaa bbb cc
  shift_block aaa bbb cc
  arithmetic_block aaa bbb cc
  compare_block aaa bbb cc
  inc_dec_block aaa bbb cc
  branch_block aaa bbb cc

-- The fields of an opcode.
abbrev pub aaa_of : ℕ → ℕ
aaa_of opcode = bit_and (opcode / 32) 0x07

abbrev pub bbb_of : ℕ → ℕ
bbb_of opcode = bit_and (opcode / 4) 0x07

abbrev pub cc_of : ℕ → ℕ
cc_of opcode = bit_and opcode 0x03

-- The body of the `while` loop.
unfoldable pub step : M (Unit {0})
unfolding blocks
step = do
  fetched_byte ← fetch_operand
  let opcode = u8 fetched_byte
  set_flag flag_i (← get_i_nxt)
  switch opcode
  blocks (aaa_of opcode) (bbb_of opcode) (cc_of opcode)

-- How a run of the loop ends: its condition fails, an array is left, or the model's fuel is used up.
pub data Outcome (A : Type 0) : Type 0 where
  done : A → Outcome A
  fault : Outcome A
  out_of_fuel : Outcome A

abbrev pub map_outcome : {A B : Type 0} → (A → B) → Outcome A → Outcome B
map_outcome f (done a) = done (f a)
map_outcome f fault = fault
map_outcome f out_of_fuel = out_of_fuel

abbrev pub after_step : Option (Unit {0} × State) → (State → Outcome State) → Outcome State
after_step none k = fault
after_step (some (_, s)) k = k s

-- `while (cycles > 0)` with rounds to go.
unfoldable pub loop : ℕ → State → Outcome State
unfolding step
loop zero s = if ltb_ℤ (pos 0) s.cycles then out_of_fuel else done s
loop (suc fuel) s =
    let rest = after_step (step s) (loop fuel) in if ltb_ℤ (pos 0) s.cycles then rest else done s

-- Conversion to `int32_t`.
abbrev pub mod32 : ℤ → ℕ
mod32 (pos n) = n % 2 ^ 32
mod32 (negsuc n) = 2 ^ 32 - 1 - n % 2 ^ 32

abbrev pub to_int32 : ℤ → ℤ
to_int32 z = if ltb (mod32 z) (2 ^ 31) then pos (mod32 z) else negsuc (2 ^ 32 - 1 - mod32 z)

-- The state in which the loop starts.
unfoldable pub enter : Cpu → Bool → ℤ → State
enter cpu oops_cycle cycles = record {
  cpu = cpu;
  oops_cycle = oops_cycle;
  cycles = cycles;
  addr = 0;
  fetched = 0;
  temp = 0;
}

-- What is read off the state after the loop.
abbrev pub result : ℤ → State → Cpu × Bool × ℤ
result cycles s = (s.cpu, s.oops_cycle, to_int32 (cycles -ℤ s.cycles))

-- `olc6502_clock`: the processor, `oops_cycle` and the value returned, `requested_cycles - cycles`.
-- The fuel is one round for each requested cycle.
unfoldable pub olc6502_clock : Cpu → Bool → ℤ → Outcome (Cpu × Bool × ℤ)
unfolding loop enter
olc6502_clock cpu oops_cycle cycles =
    map_outcome (result cycles) (loop (pos_part cycles) (enter cpu oops_cycle cycles))
