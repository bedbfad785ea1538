-- ===== src/Tests/Processor.antt =====
-- The program in the ROM (fibonacci.s) from the reset on.
use m.Base.{ℕ, ◌+◌, ◌≡◌, ◌≢◌, ◌≤◌, refl, arith, Bool, true, false, Option, none, some}
use m.Base.Int.{ℤ, pos, negsuc, ◌+ℤ◌, ◌≤ℤ◌}
use m.Memory.{Memory}
use m.Decoder.{Decoder, cpu_ram}
use m.Cpu.{Cpu, State}
use m.Clock.{Outcome, done, fault, out_of_fuel, olc6502_clock, enter, step}
use m.Cost.Step.{step-cycles}
use m.Cost.Loop.{olc6502_clock-terminates, olc6502_clock-returned}

abbrev pub blank : Decoder
blank = record { ce = cpu_ram; mem = record { bytes = λ _. 0 } }

-- The processor behind the reset: `pc` is what the reset vector holds.
abbrev pub boot : Cpu
boot = record { a = 0; x = 0; y = 0; sp = 0xfd; ps = 0x24; pc = 0x8000; ce = blank; i_nxt = 1 }

abbrev cpu_of : Outcome (Cpu × Bool × ℤ) → Cpu
cpu_of (done (c, _, _)) = c
cpu_of fault = boot
cpu_of out_of_fuel = boot

abbrev registers : Outcome (Cpu × Bool × ℤ) → Option (ℕ × ℕ × ℕ × ℕ × ℕ × ℤ)
registers (done (c, _, n)) = some (c.a, c.x, c.y, c.pc, c.sp, n)
registers fault = none
registers out_of_fuel = none

-- The call of `olc6502_clock` with everything that it uses computed.
unfoldable pub clocked : ℤ → Outcome (Cpu × Bool × ℤ)
unfolding m.Decoder.m74ls138_init m.Decoder.chip_select_cpu_ram m.Decoder.chip_select_ppu
    m.Decoder.chip_select_apu m.Decoder.chip_select_expansion_rom m.Decoder.chip_select_sram
    m.Decoder.chip_select_prg_rom m.Decoder.ce_line m.Decoder.select m.Decoder.decode_address
    m.Decoder.bus_write_byte m.Decoder.bus_read_byte m.Decoder.bus_write_word
    m.Decoder.bus_read_word m.Progmem.progmem m.Progmem.progmem_get m.Memory.memory_get
    m.Memory.memory_set m.Memory.clear_from m.Memory.memory_init m.Cpu.◌>>=◌ m.Cpu.pure m.Cpu.skip
    m.Cpu.gets m.Cpu.set_a m.Cpu.set_x m.Cpu.set_y m.Cpu.set_sp m.Cpu.set_ps m.Cpu.set_pc
    m.Cpu.set_i_nxt m.Cpu.set_oops m.Cpu.set_addr m.Cpu.set_fetched m.Cpu.set_temp m.Cpu.set_flag
    m.Cpu.spend m.Cpu.read m.Cpu.read_word m.Cpu.write m.Cpu.update_flags_from_register
    m.Cpu.page_boundary_crossed m.Cpu.Address.fetch_operand m.Cpu.Address.get_zp_address
    m.Cpu.Address.get_absolute_address m.Cpu.Address.get_absolute_address_x
    m.Cpu.Address.get_absolute_address_y m.Cpu.Address.get_indexed_indirect_x
    m.Cpu.Address.get_indexed_indirect_y m.Cpu.Address.zp_address_plus m.Cpu.Address.spend_oops
    m.Cpu.Reset.olc6502_init m.Cpu.Reset.olc6502_reset m.Cpu.Stack.push_byte_to_stack
    m.Cpu.Stack.push_word_to_stack m.Cpu.Stack.pull_byte_from_stack m.Cpu.Stack.pull_word_from_stack
    m.Switch.opcode_of m.Switch.cases m.Switch.find_case m.Switch.run_case m.Switch.switch
    m.Switch.Load.load_opcode m.Switch.Load.load m.Switch.Store.store_opcode m.Switch.Store.store
    m.Switch.Transfer.transfer_opcode m.Switch.Transfer.transfer m.Switch.Bitwise.logic_opcode
    m.Switch.Bitwise.apply m.Switch.Bitwise.assign_a m.Switch.Bitwise.logic
    m.Switch.Bitwise.bit_opcode m.Switch.Bitwise.bit_flags m.Switch.Bitwise.bit
    m.Switch.Jump.jump_opcode m.Switch.Jump.jump m.Switch.StackOps.stack_opcode
    m.Switch.StackOps.stack_address m.Switch.StackOps.stack_op m.Switch.Shift.shift_opcode
    m.Switch.Shift.shift_operand m.Blocks.Flag.set_selected_flag m.Blocks.Flag.flag_block
    m.Blocks.Shift.shift_by m.Blocks.Shift.shift_result m.Blocks.Shift.shift_block
    m.Blocks.Operand.operand_address m.Blocks.Operand.operand_fetch m.Blocks.Arithmetic.addend
    m.Blocks.Arithmetic.add_to_a m.Blocks.Arithmetic.arithmetic_block m.Blocks.Compare.is_compare
    m.Blocks.Compare.compare_flags m.Blocks.Compare.compare_block m.Blocks.IncDec.inc_dec_address
    m.Blocks.IncDec.inc_dec_block m.Blocks.Branch.should_branch m.Blocks.Branch.take_branch
    m.Blocks.Branch.branch_block m.Clock.blocks m.Clock.step m.Clock.loop m.Clock.enter
    m.Clock.olc6502_clock m.Base.Int.◌-ℤ◌ m.Base.Int.◌+ℤ◌
clocked cycles = olc6502_clock boot false cycles

run20 : registers (clocked (pos 20)) ≡ some (2, 1, 11, 32784, 253, pos 22)
unfolding clocked
run20 = refl

-- fibonacci.s leaves the last Fibonacci number below 256 in the accumulator.
run400 : registers (clocked (pos 400)) ≡ some (233, 233, 0, 32801, 253, pos 401)
unfolding clocked
run400 = refl

abbrev after20 : Cpu
after20 = cpu_of (clocked (pos 20))

after20-eq : olc6502_clock boot false (pos 20) ≡ done (after20, false, pos 22)
unfolding clocked
after20-eq = refl

olc6502_clock-terminates_example : olc6502_clock boot false (pos 20) ≢ out_of_fuel
olc6502_clock-terminates_example = olc6502_clock-terminates boot false (pos 20)

olc6502_clock-returned_example : (k : ℕ) × (pos 22 ≡ pos k) × (20 ≤ k) × (k ≤ 20 + 6)
olc6502_clock-returned_example =
    olc6502_clock-returned boot after20 false false 20 (pos 22) (omega arith) (omega arith)
      after20-eq

-- The first instruction.
stepped : Option (Unit {0} × State)
unfolding clocked
stepped = step (enter boot false (pos 20))

abbrev state_of : Option (Unit {0} × State) → State
state_of none = enter boot false (pos 20)
state_of (some (_, s)) = s

step-cycles_example :
    ((state_of stepped).cycles +ℤ pos 1 ≤ℤ pos 20) × (pos 20 ≤ℤ (state_of stepped).cycles +ℤ pos 7)
unfolding stepped
step-cycles_example = step-cycles (enter boot false (pos 20)) (state_of stepped) refl
