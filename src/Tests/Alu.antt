-- ===== src/Tests/Alu.antt =====
-- The arithmetic, the branches and the calls at one state.
use m.Base.{
  ℕ, ◌+◌, ◌-◌, ◌*◌, ◌/◌, ◌%◌, ◌≡◌, refl, arith, Bool, true, false, some, ◌||◌, ◌==◌, ltb, leb,
  to_bit, if◌then◌else◌, Option, none,
}
use m.Base.Int.{pos, ◌-ℤ◌}
use m.Decoder.{Decoder, cpu_ram}
use m.Decoder.Map.{byte_at}
use m.Cpu.{State, Cpu, ◌>>=◌, get_bit, flag_c, flag_z, flag_n, flag_v, flag_i, flag_d}
use m.Cpu.Stack.{push_word_to_stack, pull_word_from_stack}
use m.Blocks.Arithmetic.{add_to_a, addend}
use m.Blocks.Compare.{compare_flags}
use m.Blocks.Shift.{shift_by}
use m.Blocks.Branch.{branch_block}
use m.Switch.Jump.{jump, jsr, rts}
use m.Alu.Flags.{with_ps, compare_flags-flags}
use m.Alu.Add.{overflows, add_to_a-adc}
use m.Alu.Subtract.{sub_overflows, sbc_flag_v, add_to_a-sbc}
use m.Alu.Shift.{shift_by-value, ror_after_rol}
use m.Alu.Branch.{holds, branch_block-target}
use m.Call.Stack.{SameFrame, push_word-pull_word}
use m.Call.Return.{jsr-rts}
use m.Call.Restart.{olc6502_reset-returns}
use m.Cpu.Reset.{olc6502_reset}

-- A state with 0x12 in every byte of the memory, the carry and the zero flag set, and the stack
-- pointer at the end of its page.
abbrev sample : State
sample = record {
  cpu = record {
    a = 0x50;
    x = 1;
    y = 2;
    sp = 0;
    ps = 0x23;
    pc = 0x0200;
    ce = record { ce = cpu_ram; mem = record { bytes = λ _. 0x12 } };
    i_nxt = 0;
  };
  oops_cycle = false;
  cycles = pos 9;
  addr = 0;
  fetched = 0x91;
  temp = 0x40;
}

-- 0x50 + 0x70 + 1 is 0xC1, with signed overflow.
add_to_a-adc_example :
    (t : State) × (add_to_a (addend 3 0x70) sample ≡ some (tt, t))
    × (t.cpu.a ≡ 0xc1)
    × (get_bit flag_c t.cpu.ps ≡ 0)
    × (get_bit flag_v t.cpu.ps ≡ to_bit (overflows 0x50 0x70 1))
    × (get_bit flag_z t.cpu.ps ≡ 0)
    × (get_bit flag_n t.cpu.ps ≡ 1)
    × (t.cpu.ps / 4 % 16 ≡ 8)
add_to_a-adc_example = add_to_a-adc 0x70 sample (omega arith) (omega arith)

overflow : overflows 0x50 0x70 1 ≡ true
unfolding overflows m.Alu.Add.signed8
overflow = refl

-- 0x50 - 0x70 + 1 is negative: C is set.
add_to_a-sbc_example :
    (t : State) × (add_to_a (addend 7 0x70) sample ≡ some (tt, t))
    × (t.cpu.a ≡ 0xe1)
    × (get_bit flag_c t.cpu.ps ≡ 1)
    × (get_bit flag_v t.cpu.ps ≡ 0)
    × (get_bit flag_z t.cpu.ps ≡ 0)
    × (get_bit flag_n t.cpu.ps ≡ 1)
    × (t.cpu.ps / 4 % 16 ≡ 8)
unfolding m.Alu.Subtract.sub_overflows m.Alu.Add.signed8
add_to_a-sbc_example = add_to_a-sbc 0x70 sample (omega arith) (omega arith)

-- 0 - 0x80 is 128 as signed numbers, which overflows, and V is 0.
sbc_of_0x80 : (sub_overflows 0 0x80 0 ≡ true) × (sbc_flag_v 0 0x80 0 ≡ false)
unfolding sub_overflows m.Alu.Add.signed8
sbc_of_0x80 = (refl, refl)

compare_flags-flags_example :
    (ps : ℕ) × (compare_flags sample ≡ some (tt, with_ps sample ps))
    × (get_bit flag_c ps ≡ 0)
    × (get_bit flag_z ps ≡ 0)
    × (get_bit flag_n ps ≡ 1)
    × (ps / 4 % 32 ≡ 8)
compare_flags-flags_example = compare_flags-flags sample (omega arith) (omega arith)

shift_by-value_example :
    ((t : State) × (shift_by 0 sample ≡ some (tt, t))
      × (get_bit flag_c t.cpu.ps * 256 + t.fetched ≡ 0x122)
      × (t.cpu.ps / 2 ≡ 0x11))
    × ((t : State) × (shift_by 1 sample ≡ some (tt, t))
        × (get_bit flag_c t.cpu.ps * 256 + t.fetched ≡ 0x123)
        × (t.cpu.ps / 2 ≡ 0x11))
    × ((t : State) × (shift_by 2 sample ≡ some (tt, t))
        × (t.fetched * 2 + get_bit flag_c t.cpu.ps ≡ 0x91)
        × (t.cpu.ps / 2 ≡ 0x11))
    × ((t : State) × (shift_by 3 sample ≡ some (tt, t))
        × (t.fetched * 2 + get_bit flag_c t.cpu.ps ≡ 0x191)
        × (t.cpu.ps / 2 ≡ 0x11))
shift_by-value_example = shift_by-value sample (omega arith)

ror_after_rol_example :
    (t : State) × ((shift_by 1 >>= λ _. shift_by 3) sample ≡ some (tt, t))
    × (t.fetched ≡ 0x91)
    × (t.cpu.ps ≡ 0x23)
ror_after_rol_example = ror_after_rol sample (omega arith)

-- BCS, taken: the operand at 0x0200 is 0x12.
branch_block-target_example :
    (t : State) × (branch_block 5 4 0 sample ≡ some (tt, t))
    × ((t.cpu.pc + 128) % 65536 ≡ (
        if holds 5 sample
        then (0x201 + (byte_at sample.cpu.ce 0x0200 + 128) % 256) % 65536
        else 0x281))
branch_block-target_example = branch_block-target 5 sample (omega arith) (omega arith)

abbrev state_of : Option (Unit {0} × State) → State
state_of none = sample
state_of (some (_, s)) = s

pushed_1234 : Option (Unit {0} × State)
unfolding push_word_to_stack m.Cpu.Stack.push_byte_to_stack ◌>>=◌ m.Cpu.gets m.Cpu.write
    m.Decoder.bus_write_byte m.Decoder.decode_address m.Decoder.ce_line m.Decoder.select
    m.Decoder.chip_select_cpu_ram m.Memory.memory_set m.Cpu.set_sp m.Cpu.spend m.Base.Int.◌-ℤ◌
pushed_1234 = push_word_to_stack 0x1234 sample

push_word-pull_word_example :
    (w : State) × (pull_word_from_stack (state_of pushed_1234) ≡ some (0x1234, w)) × (w.cpu.sp ≡ 0)
unfolding pushed_1234 SameFrame
push_word-pull_word_example =
    push_word-pull_word 0x1234 sample (state_of pushed_1234) (state_of pushed_1234) (omega arith)
      (omega arith) refl refl (refl, refl)

-- The call of the subroutine at 0x1212.
called : Option (Unit {0} × State)
unfolding jump m.Cpu.pure m.Cpu.Address.get_absolute_address m.Cpu.read_word m.Decoder.bus_read_word
    m.Memory.memory_get m.Cpu.set_addr m.Cpu.set_pc push_word_to_stack
    m.Cpu.Stack.push_byte_to_stack ◌>>=◌ m.Cpu.gets m.Cpu.write m.Decoder.bus_write_byte
    m.Decoder.decode_address m.Decoder.ce_line m.Decoder.select m.Decoder.chip_select_cpu_ram
    m.Memory.memory_set m.Cpu.set_sp m.Cpu.spend m.Base.Int.◌-ℤ◌
called = jump jsr sample

jsr-rts_example :
    (w : State) × (jump rts (state_of called) ≡ some (tt, w)) × (w.cpu.pc ≡ 0x0202) × (w.cpu.sp ≡ 0)
unfolding called SameFrame
jsr-rts_example =
    jsr-rts sample (state_of called) (state_of called) (omega arith) refl refl (refl, refl)

olc6502_reset-returns_example :
    (t : State) × (olc6502_reset sample ≡ some (tt, t))
    × (t.cpu.pc ≡ 0x8000)
    × (t.cpu.sp ≡ 0xfd)
    × (get_bit flag_i t.cpu.ps ≡ 1)
    × (t.cpu.i_nxt ≡ 1)
    × (get_bit flag_d t.cpu.ps ≡ 0)
    × (t.cycles ≡ sample.cycles -ℤ pos 7)
    × ((t.cpu.a ≡ 0x50) × (t.cpu.x ≡ 1) × (t.cpu.y ≡ 2))
    × ((t.cpu.ps % 4 ≡ 3) × (t.cpu.ps / 16 ≡ 2))
    × (t.cpu.ce.mem ≡ sample.cpu.ce.mem)
olc6502_reset-returns_example = olc6502_reset-returns sample
