-- ===== src/Isa/Exec.antt =====
-- The reference as a machine: a round that fetches an opcode and runs its instruction, and the rounds up to
-- the first at which no cycles are left.
use m.Base.{ℕ, ◌==◌, ◌+◌, ◌%◌, ◌≡◌, true, false}
use m.Base.Int.{pos, ◌-ℤ◌, ltb_ℤ}
use m.Cpu.{put_bit, flag_i}
use m.Switch.{
  Case, load_case, store_case, transfer_case, shift_case, logic_case, bit_case, jump_case,
  stack_case,
}
use m.Instructions.{Instruction, labelled, flag, branch, sum, cmp, compare_index, count, code}
use m.Isa.{Visible, reg_a, peek}
use m.Isa.Address.{address, IsReadable, IsWritable}
use m.Isa.Reference.{load_place, run_load, logic_place, run_logic}
use m.Isa.Effects.{store_place, run_store, run_transfer, run_flag, run_stack}
use m.Isa.Operations.{
  mode_place, run_sum, run_compare, index_place, index_register, count_place, run_count, run_branch,
}
use m.Isa.Control.{IsShiftable, run_shift, bit_place, run_bit, IsJumpable, run_jump}

unfoldable pub exec_case : Case → Visible → Visible
exec_case (load_case i) v = run_load i v
exec_case (store_case i) v = run_store i v
exec_case (transfer_case i) v = run_transfer i v
exec_case (shift_case op mode) v = run_shift op mode v
exec_case (logic_case op mode) v = run_logic op mode v
exec_case (bit_case i) v = run_bit i v
exec_case (jump_case i) v = run_jump i v
exec_case (stack_case i) v = run_stack i v

-- An instruction, with `pc` behind its opcode.
unfoldable pub exec : Instruction → Visible → Visible
unfolding exec_case
exec (labelled c) v = exec_case c v
exec (flag i) v = run_flag i v
exec (branch i) v = run_branch i v
exec (sum i mode) v = run_sum i mode v
exec (cmp mode) v = run_compare reg_a (mode_place mode) v
exec (compare_index i mode) v = run_compare (index_register i) (index_place mode) v
exec (count i mode) v = run_count i mode v

-- What an instruction reads lies in the devices, and what it stores in the memory array.
unfoldable pub PermitsCase : Case → Visible → Type 0
PermitsCase (load_case i) v = IsReadable (load_place i) v
PermitsCase (store_case i) v = IsReadable (store_place i) v × IsWritable (address (store_place i) v)
PermitsCase (transfer_case i) v = Unit {0}
PermitsCase (shift_case op mode) v = IsShiftable mode v
PermitsCase (logic_case op mode) v = IsReadable (logic_place mode) v
PermitsCase (bit_case i) v = IsReadable (bit_place i) v
PermitsCase (jump_case i) v = IsJumpable i v
PermitsCase (stack_case i) v = Unit {0}

unfoldable pub Permits : Instruction → Visible → Type 0
unfolding PermitsCase
Permits (labelled c) v = PermitsCase c v
Permits (flag i) v = Unit {0}
Permits (branch i) v = Unit {0}
Permits (sum i mode) v = IsReadable (mode_place mode) v
Permits (cmp mode) v = IsReadable (mode_place mode) v
Permits (compare_index i mode) v = IsReadable (index_place mode) v
Permits (count i mode) v =
    IsReadable (count_place mode) v × IsWritable (address (count_place mode) v)

-- The fetch of the opcode, one cycle, after which the delayed interrupt flag takes effect.
abbrev pub begin : Visible → Visible
begin v = record v {
  pc = (v.pc + 1) % 65536;
  ps = put_bit flag_i v.i_nxt v.ps;
  cycles = v.cycles -ℤ pos 1;
}

-- The round at whose start the opcode of `i` is at `pc`.
abbrev pub next : Instruction → Visible → Visible
next i v = exec i (begin v)

-- `Executes v w`: from `v` documented instructions run, while cycles are left, until `w`.
pub data Executes : Visible → Visible → Type 0 where
  halt : {v : Visible} → ltb_ℤ (pos 0) v.cycles ≡ false → Executes v v
  round :
      {v w : Visible} (i : Instruction)
      → ltb_ℤ (pos 0) v.cycles ≡ true
      → peek v v.pc ≡ code i
      → Permits i (begin v)
      → Executes (next i v) w
      → Executes v w

-- `Leads a v w`: documented instructions run from `v` to `w`, none of them at the address `a`, and cycles are left before each.
pub data Leads (a : ℕ) : Visible → Visible → Type 0 where
  arrived : {v : Visible} → Leads a v v
  onward :
      {v w : Visible} (i : Instruction)
      → (v.pc == a) ≡ false
      → ltb_ℤ (pos 0) v.cycles ≡ true
      → peek v v.pc ≡ code i
      → Permits i (begin v)
      → Leads a (next i v) w
      → Leads a v w

pub Leads-Executes : {a : ℕ} {v w x : Visible} → Leads a v w → Executes w x → Executes v x
Leads-Executes arrived r = r
Leads-Executes (onward i apart more here h l) r = round i more here h (Leads-Executes l r)
