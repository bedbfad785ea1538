-- ===== src/Tests/Instructions.antt =====
-- Instructions of src/olc6502.c at concrete states.
use m.Base.{ℕ, ◌<◌, ◌≡◌, refl, inl, arith, true, false, Option, none, some}
use m.Base.Int.{pos, ◌-ℤ◌}
use m.Cpu.{State, get_bit, flag_c, flag_v, flag_z, flag_n, ◌>>=◌, ◌>>◌, get_i_nxt, set_flag, flag_i}
use m.Cpu.Address.{fetch_operand, get_indexed_indirect_x, get_indexed_indirect_y}
use m.Instructions.Indirect.{get_indexed_indirect_x-returns, get_indexed_indirect_y-returns}
use m.Decoder.{cpu_ram}
use m.Decoder.Map.{byte_at}
use m.Valid.{IsValid}
use m.Instructions.Operand.{IsReadable}
use m.Instructions.Sum.{Advances, step-adc, step-sbc}
use m.Clock.{enter, step}
use m.Instructions.{sbc, cpx, inc, Mode, IndexMode, sum}
use m.Instructions.Count.{step-count_zp}
use m.Instructions.Compare.{Compares, step-cmp, step-compare_index}
use m.Instructions.Meaning.{meaning}
use m.Instructions.Dispatch.{step-meaning}
use m.Tests.Processor.{boot}

-- A state with `pc`, the registers, and a memory of equal bytes.
abbrev state_at : ℕ → ℕ → ℕ → ℕ → ℕ → State
state_at pc a x y byte =
    enter
      (record boot {
        pc = pc;
        a = a;
        x = x;
        y = y;
        ce = record { ce = cpu_ram; mem = record { bytes = λ _. byte } };
      })
      false (pos 9)

state_at-IsValid :
    (pc a x y byte : ℕ)
    → pc < 65536
    → a < 256
    → x < 256
    → y < 256
    → byte < 256
    → IsValid (state_at pc a x y byte)
unfolding enter
state_at-IsValid pc a x y byte h k l m n = record {
  a_byte = k;
  x_byte = l;
  y_byte = m;
  sp_byte = omega arith;
  ps_byte = omega arith;
  pc_word = h;
  i_nxt_bit = omega arith;
  mem_bytes = λ i. n;
  addr_word = omega arith;
  fetched_byte = omega arith;
  temp_byte = omega arith;
}

-- The program of the ROM at its SBC #n.
abbrev at_sbc : State
at_sbc = state_at 0x8008 3 0 0 0

fetched : Option (ℕ × State)
unfolding m.Tests.Processor.clocked
fetched = fetch_operand at_sbc

abbrev state_of : Option (ℕ × State) → State
state_of none = at_sbc
state_of (some (_, s)) = s

fetched-eq : fetch_operand at_sbc ≡ some (0xe9, state_of fetched)
unfolding fetched
fetched-eq = refl

step-meaning_example :
    step at_sbc ≡ (do set_flag flag_i (← get_i_nxt); meaning (sum sbc Mode.im)) (state_of fetched)
step-meaning_example =
    step-meaning (sum sbc Mode.im) 0xe9 at_sbc (state_of fetched) fetched-eq
      (unfold m.Instructions.code in refl)

-- A memory that is full of the opcode of ADC ($n),Y.
abbrev at_adc : State
at_adc = state_at 0x10 0x20 0 0xf0 0x71

-- The operand is 0x71, at 0x7171 + 0xf0, on the next page.
step-adc_example :
    (t : State) × ((step at_adc ≡ some (tt, t)) × Advances Mode.indy at_adc t)
    × (t.cpu.a ≡ 0x91)
    × (get_bit flag_c t.cpu.ps ≡ 0)
    × (get_bit flag_v t.cpu.ps ≡ 1)
    × (get_bit flag_z t.cpu.ps ≡ 0)
    × (get_bit flag_n t.cpu.ps ≡ 1)
unfolding enter byte_at m.Decoder.Map.real_address m.Instructions.sum_opcode IsReadable
    m.Instructions.Operand.effective m.Alu.Add.overflows m.Alu.Add.signed8
step-adc_example =
    step-adc Mode.indy at_adc
      (state_at-IsValid 0x10 0x20 0 0xf0 0x71 (omega arith) (omega arith) (omega arith)
        (omega arith) (omega arith))
      refl (inl (omega arith, omega arith))

-- 3 - 3, without a carry.
step-sbc_example :
    (t : State) × ((step at_sbc ≡ some (tt, t)) × Advances Mode.im at_sbc t)
    × (t.cpu.a ≡ 0)
    × (get_bit flag_c t.cpu.ps ≡ 0)
    × (get_bit flag_v t.cpu.ps ≡ 0)
    × (get_bit flag_z t.cpu.ps ≡ 1)
    × (get_bit flag_n t.cpu.ps ≡ 0)
unfolding enter byte_at m.Progmem.progmem m.Instructions.sum_opcode IsReadable
    m.Instructions.Operand.effective m.Alu.Subtract.sub_overflows m.Alu.Add.signed8
step-sbc_example =
    step-sbc Mode.im at_sbc
      (state_at-IsValid 0x8008 3 0 0 0 (omega arith) (omega arith) (omega arith) (omega arith)
        (omega arith))
      refl tt

-- The program of the ROM at its CMP #n.
abbrev at_cmp : State
at_cmp = state_at 0x801c 3 0 0 0

step-cmp_example : (t : State) × Compares Mode.im 3 at_cmp t
unfolding enter byte_at m.Progmem.progmem m.Instructions.cmp_opcode IsReadable
step-cmp_example =
    step-cmp Mode.im at_cmp
      (state_at-IsValid 0x801c 3 0 0 0 (omega arith) (omega arith) (omega arith) (omega arith)
        (omega arith))
      refl tt

-- CPX of a zero-page byte.
abbrev at_cpx : State
at_cpx = state_at 0x10 0 0x20 0 0xe4

step-compare_index_example : (t : State) × Compares Mode.zp 0x20 at_cpx t
unfolding enter byte_at m.Decoder.Map.real_address m.Instructions.index_opcode IsReadable
    m.Instructions.Meaning.index_mode
step-compare_index_example =
    step-compare_index cpx IndexMode.zp at_cpx
      (state_at-IsValid 0x10 0 0x20 0 0xe4 (omega arith) (omega arith) (omega arith) (omega arith)
        (omega arith))
      refl tt

-- INC of a memory that is full of its opcode, with 7 in the accumulator.
abbrev at_inc : State
at_inc = state_at 0x10 7 0 0 0xe6

step-count_zp_example :
    (t : State) × (step at_inc ≡ some (tt, t))
    × (byte_at t.cpu.ce 0xe6 ≡ 8)
    × (get_bit flag_z t.cpu.ps ≡ 0)
    × (get_bit flag_n t.cpu.ps ≡ 0)
    × (t.cpu.a ≡ 7)
    × (t.cpu.pc ≡ 0x12)
    × (t.cycles ≡ at_inc.cycles -ℤ pos 5)
unfolding enter byte_at m.Decoder.Map.real_address m.Instructions.count_opcode
step-count_zp_example =
    step-count_zp inc at_inc
      (state_at-IsValid 0x10 7 0 0 0xe6 (omega arith) (omega arith) (omega arith) (omega arith)
        (omega arith))
      refl

-- A memory that is full of 0xff: ($FF),Y and ($FF,X).
abbrev at_ff : State
at_ff = state_at 0x10 0 1 2 0xff

get_indexed_indirect_y-returns_example :
    (t : State) × (get_indexed_indirect_y at_ff ≡ some (1, t))
    × (t.cpu.pc ≡ 0x11)
    × (t.cycles ≡ at_ff.cycles -ℤ pos 3)
    × (t.oops_cycle ≡ true)
    × (t.cpu.ce.mem ≡ at_ff.cpu.ce.mem)
unfolding enter byte_at m.Decoder.Map.real_address
get_indexed_indirect_y-returns_example =
    get_indexed_indirect_y-returns at_ff (omega arith) (λ i. omega arith)

get_indexed_indirect_x-returns_example :
    (t : State) × (get_indexed_indirect_x at_ff ≡ some (0xffff, t))
    × (t.cpu.pc ≡ 0x11)
    × (t.cycles ≡ at_ff.cycles -ℤ pos 1)
    × (t.oops_cycle ≡ false)
    × (t.cpu.ce.mem ≡ at_ff.cpu.ce.mem)
unfolding enter byte_at m.Decoder.Map.real_address
get_indexed_indirect_x-returns_example =
    get_indexed_indirect_x-returns at_ff (omega arith) (omega arith) (λ i. omega arith)
