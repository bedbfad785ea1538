-- ===== src/Isa/Operations.antt =====
-- What ADC, SBC, the compares, INC and DEC, and the branches do with what a program sees, with `pc` behind
-- the opcode. The cycles are those that src/olc6502.c counts.
use m.Base.{ℕ, ◌+◌, ◌-◌, ◌/◌, ◌%◌, Bool, ◌||◌, ◌==◌, ltb, leb, to_bit, if◌then◌else◌}
use m.Base.Int.{pos, ◌-ℤ◌}
use m.Cpu.{get_bit, put_bit, flag_c, flag_z, flag_v, flag_n}
use m.Alu.Flags.{zn}
use m.Alu.Add.{overflows}
use m.Alu.Subtract.{sub_overflows, sbc_flag_v}
use m.Instructions.{
  SumIns, adc, sbc, Mode, IndexIns, cpx, cpy, IndexMode, CountIns, inc, dec, CountMode, BranchIns,
  beq, bne, bcs, bcc, bmi, bpl, bvc, bvs,
}
use m.Isa.{Visible, Register, reg_x, reg_y, get, peek, poke, advance}
use m.Isa.Address.{Place, operand, address, size, read_cycle}

unfoldable pub mode_place : Mode → Place
mode_place Mode.im = Place.im
mode_place Mode.zp = Place.zp
mode_place Mode.zpx = Place.zpx
mode_place Mode.abs = Place.abs
mode_place Mode.absx = Place.absx
mode_place Mode.absy = Place.absy
mode_place Mode.indx = Place.indx
mode_place Mode.indy = Place.indy

-- The cycles behind that of the opcode: in the zero page with an index one less than for a load.
unfoldable pub operand_cycles : Place → Visible → ℕ
unfolding address
operand_cycles Place.im v = 1
operand_cycles Place.zp v = 2
operand_cycles Place.zpx v = 2
operand_cycles Place.zpy v = 2
operand_cycles Place.abs v = 3
operand_cycles Place.absx v = 2 + read_cycle Place.absx v
operand_cycles Place.absy v = 2 + read_cycle Place.absy v
operand_cycles Place.indx v = 3
operand_cycles Place.indy v = 3 + read_cycle Place.indy v

-- The sum of the accumulator, the operand and the carry; SBC adds the carry, too, and subtracts the
-- operand, with C set if the result does not fit a byte, and V, for the operand 0x80, the opposite of
-- signed overflow. On a 6502 the carry of SBC is the complement of a borrow, and V is signed overflow
-- for every operand.
unfoldable pub add_in : SumIns → ℕ → Visible → Visible
unfolding overflows sub_overflows
add_in adc n v =
    let c = get_bit flag_c v.ps in
    let total = v.a + n + c in
    record v {
      a = total % 256;
      ps =
          zn (total % 256)
            (put_bit flag_c (total / 256) (put_bit flag_v (to_bit (overflows v.a n c)) v.ps));
    }
add_in sbc n v =
    let c = get_bit flag_c v.ps in
    let result = (v.a + c + 256 - n) % 256 in
    record v {
      a = result;
      ps = zn result (
          put_bit flag_c (to_bit (ltb (v.a + c) n || ltb (n + 255) (v.a + c)))
            (put_bit flag_v (to_bit (sbc_flag_v v.a n c)) v.ps));
    }

unfoldable pub run_sum : SumIns → Mode → Visible → Visible
unfolding mode_place operand_cycles add_in
run_sum i mode v =
    let p = mode_place mode in
    advance (size p) (operand_cycles p v) (add_in i (peek v (address p v)) v)

-- The comparison of a register with the operand.
unfoldable pub run_compare : Register → Place → Visible → Visible
unfolding operand_cycles
run_compare r p v =
    let n = peek v (address p v) in
    advance (size p) (operand_cycles p v) (record v {
      ps = zn ((get r v + 256 - n) % 256) (put_bit flag_c (to_bit (leb n (get r v))) v.ps);
    })

abbrev pub index_register : IndexIns → Register
index_register cpx = reg_x
index_register cpy = reg_y

-- CPX and CPY immediate run as indexed indirect.
unfoldable pub index_place : IndexMode → Place
index_place IndexMode.im = Place.indx
index_place IndexMode.zp = Place.zp
index_place IndexMode.abs = Place.abs

unfoldable pub count_place : CountMode → Place
count_place CountMode.zp = Place.zp
count_place CountMode.zpx = Place.zpx
count_place CountMode.abs = Place.abs
count_place CountMode.absx = Place.absx

unfoldable pub count_cycles : CountMode → ℕ
count_cycles CountMode.zp = 4
count_cycles CountMode.zpx = 5
count_cycles CountMode.abs = 5
count_cycles CountMode.absx = 6

abbrev pub counted : CountIns → ℕ → ℕ
counted inc n = (n + 1) % 256
counted dec n = (n + 255) % 256

-- INC and DEC count from the accumulator, and store the result at the address.
unfoldable pub run_count : CountIns → CountMode → Visible → Visible
unfolding count_place count_cycles
run_count i mode v =
    let p = count_place mode in
    let n = counted i v.a in
    advance (size p) (count_cycles mode) (record (poke (address p v) n v) { ps = zn n v.ps })

unfoldable pub taken : BranchIns → Visible → Bool
taken beq v = get_bit flag_z v.ps == 1
taken bne v = get_bit flag_z v.ps == 0
taken bcs v = get_bit flag_c v.ps == 1
taken bcc v = get_bit flag_c v.ps == 0
taken bmi v = get_bit flag_n v.ps == 1
taken bpl v = get_bit flag_n v.ps == 0
taken bvc v = get_bit flag_v v.ps == 0
taken bvs v = get_bit flag_v v.ps == 1

-- The address behind the operand, plus the operand as a signed byte.
abbrev pub target : Visible → ℕ
target v =
    let n = operand v in
    if ltb n 128 then ((v.pc + 1) % 65536 + n) % 65536 else ((v.pc + 1) % 65536 + 65280 + n) % 65536

-- A branch that is taken costs one more cycle, and two if it leads to another page than that of its operand.
unfoldable pub run_branch : BranchIns → Visible → Visible
unfolding taken peek
run_branch i v =
    if taken i v
    then record v {
      pc = target v;
      cycles = v.cycles -ℤ pos (if v.pc / 256 == target v / 256 then 2 else 3);
    }
    else advance 1 1 v
