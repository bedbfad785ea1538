-- ===== src/Instructions/Meaning.antt =====
-- What an instruction is to do, by its name and addressing mode and not by the bits of its opcode. The
-- places where src/olc6502.c departs from the 6502 are here as the code has them.
use m.Base.{ℕ, ◌+◌, ◌-◌, Bool, false, not, u16, to_bool, if◌then◌else◌}
use m.Cpu.{
  M, ◌>>=◌, ◌>>◌, pure, skip, get_a, get_x, get_y, get_addr, get_fetched, get_temp, get_flag, set_a,
  set_addr, set_fetched, set_temp, set_flag, set_i_nxt, set_oops, spend, read, write, flag_c,
  flag_z, flag_d, flag_v, flag_n, update_flags_from_register,
}
use m.Cpu.Address.{
  fetch_operand, get_zp_address, get_absolute_address, get_absolute_address_x,
  get_absolute_address_y, get_indexed_indirect_x, get_indexed_indirect_y, zp_address_plus,
  spend_oops,
}
use m.Switch.{Case, shift_case, run_case}
use m.Switch.Shift.{ShiftOp, asl, lsr, rol, ror, ShiftMode, shift_operand}
use m.Blocks.Shift.{shift_by}
use m.Blocks.Arithmetic.{add_to_a}
use m.Blocks.Compare.{compare_flags}
use m.Blocks.Branch.{take_branch}
use m.Instructions.{
  FlagIns, clc, sec, cld, sed, cli, sei, clv, BranchIns, beq, bne, bcs, bcc, bmi, bpl, bvc, bvs,
  Mode, SumIns, adc, sbc, IndexIns, cpx, cpy, IndexMode, CountIns, dec, inc, CountMode, Instruction,
  labelled, flag, branch, sum, cmp, compare_index, count,
}

-- The address of the operand is stored in `addr`, and an immediate operand in `fetched`.
unfoldable pub locate : Mode → M (Unit {0})
locate Mode.im = do set_fetched (← fetch_operand)
locate Mode.zp = do set_addr (← get_zp_address); spend 1
locate Mode.zpx = do set_addr (← zp_address_plus get_x); spend 1
locate Mode.abs = do set_addr (← get_absolute_address); spend 1
locate Mode.absx = do set_addr (← get_absolute_address_x); spend_oops
locate Mode.absy = do set_addr (← get_absolute_address_y); spend_oops
locate Mode.indx = do set_addr (← get_indexed_indirect_x); spend 2
locate Mode.indy = do set_addr (← get_indexed_indirect_y); spend_oops

-- The operand that is located, read to `fetched`.
unfoldable pub obtain : Mode → M (Unit {0})
obtain Mode.im = skip
obtain _ = do set_fetched (← read (← get_addr))

-- `CPX` and `CPY` immediate run as indexed indirect.
unfoldable pub index_mode : IndexMode → Mode
index_mode IndexMode.im = Mode.indx
index_mode IndexMode.zp = Mode.zp
index_mode IndexMode.abs = Mode.abs

abbrev pub index_register : IndexIns → M ℕ
index_register cpx = get_x
index_register cpy = get_y

-- The compare of a register.
unfoldable pub compare_register : M ℕ → Mode → M (Unit {0})
unfolding locate obtain
compare_register register mode = do locate mode; set_temp (← register); obtain mode; compare_flags

-- What is added to the accumulator and the carry.
abbrev pub summand : SumIns → ℕ → ℕ
summand adc operand = u16 operand
summand sbc operand = u16 (65536 - operand)

-- CLI and SEI take effect with the next instruction; CLV sets the flag.
unfoldable pub assign_flag : FlagIns → M (Unit {0})
assign_flag clc = set_flag flag_c 0
assign_flag sec = set_flag flag_c 1
assign_flag cld = set_flag flag_d 0
assign_flag sed = set_flag flag_d 1
assign_flag cli = set_i_nxt 0
assign_flag sei = set_i_nxt 1
assign_flag clv = set_flag flag_v 1

unfoldable pub condition : BranchIns → M Bool
condition beq = do z ← get_flag flag_z; pure (to_bool z)
condition bne = do z ← get_flag flag_z; pure (not (to_bool z))
condition bcs = do c ← get_flag flag_c; pure (to_bool c)
condition bcc = do c ← get_flag flag_c; pure (not (to_bool c))
condition bmi = do n ← get_flag flag_n; pure (to_bool n)
condition bpl = do n ← get_flag flag_n; pure (not (to_bool n))
condition bvc = do v ← get_flag flag_v; pure (not (to_bool v))
condition bvs = do v ← get_flag flag_v; pure (to_bool v)

-- The address of INC and DEC.
unfoldable pub locate_count : CountMode → M (Unit {0})
locate_count CountMode.zp = do set_addr (← get_zp_address); spend 3
locate_count CountMode.zpx = do set_addr (← zp_address_plus get_x); spend 4
locate_count CountMode.abs = do set_addr (← get_absolute_address); spend 3
locate_count CountMode.absx = do set_addr (← get_absolute_address_x); spend 4; set_oops false

abbrev pub counted : CountIns → ℕ → ℕ
counted inc value = value + 1
counted dec value = value + 255

-- Where the result of a shift goes.
unfoldable pub store_shifted : ShiftMode → M (Unit {0})
store_shifted ShiftMode.accumulator = do set_a (← get_fetched); spend 1
store_shifted ShiftMode.zp = do write (← get_addr) (← get_fetched); spend 3
store_shifted ShiftMode.zpx = do write (← get_addr) (← get_fetched); spend 4
store_shifted ShiftMode.abs = do write (← get_addr) (← get_fetched); spend 3
store_shifted ShiftMode.absx = do write (← get_addr) (← get_fetched); spend 4

abbrev pub shift_number : ShiftOp → ℕ
shift_number asl = 0
shift_number rol = 1
shift_number lsr = 2
shift_number ror = 3

unfoldable pub case_meaning : Case → M (Unit {0})
unfolding store_shifted
case_meaning (shift_case op mode) = do
  shift_operand mode
  shift_by (shift_number op)
  update_flags_from_register (← get_fetched)
  store_shifted mode
case_meaning c = run_case c

unfoldable pub meaning : Instruction → M (Unit {0})
unfolding case_meaning assign_flag condition locate obtain compare_register locate_count index_mode
meaning (labelled c) = case_meaning c
meaning (flag i) = do assign_flag i; spend 1
meaning (branch i) = do
  taken ← condition i
  set_fetched (← fetch_operand)
  if taken then take_branch else skip
meaning (sum i mode) = do
  locate mode
  obtain mode
  fetched ← get_fetched
  add_to_a (summand i fetched)
meaning (cmp mode) = compare_register get_a mode
meaning (compare_index i mode) = compare_register (index_register i) (index_mode mode)
meaning (count i mode) = do
  set_temp (← get_a)
  locate_count mode
  temp ← get_temp
  set_temp (counted i temp)
  update_flags_from_register (← get_temp)
  write (← get_addr) (← get_temp)
