-- ===== src/Isa/Shift.antt =====
-- The shifts of src/olc6502.c against the reference.
use m.Base.{ℕ, ◌%◌, ◌<◌, ◌≡◌, arith, false, some, u8, u16}
use m.Base.Int.{pos, ◌-ℤ◌, -ℤ_twice}
use m.Cpu.{
  M, State, ◌>>=◌, ◌>>◌, gets, get_fetched, set_a, set_addr, set_fetched, set_oops, spend, write,
  update_flags_from_register, get_bit, put_bit, flag_c,
}
use m.Alu.Shift.{joined, shifted}
use m.Blocks.Shift.{shift_by}
use m.Switch.{shift_case}
use m.Switch.Shift.{ShiftOp, asl, lsr, rol, ror, ShiftMode, shift_operand}
use m.Valid.{IsValid}
use m.Instructions.Meaning.{case_meaning, shift_number, store_shifted}
use m.Instructions.Addressing.{read_lem}
use m.Isa.{Visible, visible, peek}
use m.Isa.Address.{Place, address, IsWritable}
use m.Isa.Control.{shift_result, shift_carry, shift_ps, shift_at, run_shift}
use m.Isa.Aim.{
  aim, aimed, aim_lem, address-word, at_stored, value, value-byte, value_same, flags_any, Lands,
  Lands-subst,
}
use m.Isa.Store.{written, write_lem}

abbrev carry : State → ℕ
carry s = get_bit flag_c s.cpu.ps

-- What the shift leaves in `temp`.
abbrev scratch : ShiftOp → State → ℕ
scratch asl s = s.temp
scratch lsr s = s.temp
scratch rol s = joined 0x01 (carry s)
scratch ror s = joined 0x80 (carry s)

shift_by_lem :
    (op : ShiftOp) (s : State)
    → s.fetched < 256
    → shift_by (shift_number op) s
      ≡ some (
        tt,
        shifted s (shift_result op s.fetched (carry s)) (shift_carry op s.fetched) (scratch op s),
      )
shift_by_lem asl s h = m.Alu.Shift.asl s h
shift_by_lem lsr s h = m.Alu.Shift.lsr s h
shift_by_lem rol s h = m.Alu.Shift.rol s h
shift_by_lem ror s h = m.Alu.Shift.ror s h

shift_result-byte : (op : ShiftOp) (n c : ℕ) → n < 256 → c < 2 → shift_result op n c < 256
shift_result-byte asl n c h k = omega arith
shift_result-byte lsr n c h k = omega arith
shift_result-byte rol n c h k = omega arith
shift_result-byte ror n c h k = omega arith

-- The state with the result in `fetched` and the flags set.
abbrev shift_done : ShiftOp → State → State
shift_done op s = record s {
  cpu = record s.cpu { ps = shift_ps op s.fetched s.cpu.ps };
  fetched = shift_result op s.fetched (carry s);
  temp = scratch op s;
}

shift_then :
    (op : ShiftOp) (k : M (Unit {0})) (s : State)
    → s.fetched < 256
    → (do shift_by (shift_number op); update_flags_from_register (← get_fetched); k) s
      ≡ k (shift_done op s)
unfolding ◌>>=◌ gets
shift_then op k s h =
    let n = shift_result op s.fetched (carry s) in
    let byte = shift_result-byte op s.fetched (carry s) h (omega arith) in
    let same : n % 256 ≡ n = omega arith in
    rw (
      shift_by_lem op s h,
      flags_any n (shifted s n (shift_carry op s.fetched) (scratch op s)),
      same,
    )

-- The state with the operand in `fetched`.
abbrev loaded : Place → State → State
loaded p u = record (at_stored p u) { fetched = value p u }

-- The result goes back to the address.
abbrev put_back : ℕ → M (Unit {0})
put_back c = do write (← m.Cpu.get_addr) (← get_fetched); spend c

put_back-Lands :
    (op : ShiftOp) (p : Place) (c : ℕ) (s : State) (x : Visible)
    → s.fetched < 256
    → IsWritable s.addr
    → let r = shift_result op s.fetched (carry s) in
      visible (record (written s.addr r (shift_done op s)) { cycles = s.cycles -ℤ pos c }) ≡ x
      → Lands (put_back c (shift_done op s)) x
unfolding ◌>>=◌ gets spend
put_back-Lands op p c s x h w e =
    let r = shift_result op s.fetched (carry s) in
    rw
      (write_lem s.addr r (shift_done op s) w
        (shift_result-byte op s.fetched (carry s) h (omega arith)))
      e

pub shift-Lands :
    (op : ShiftOp) (mode : ShiftMode) (u : State)
    → IsValid u
    → m.Isa.Control.IsShiftable mode (visible u)
    → Lands (case_meaning (shift_case op mode) u) (run_shift op mode (visible u))
unfolding case_meaning shift_operand store_shifted run_shift m.Isa.Control.IsShiftable ◌>>=◌ gets
    set_a set_addr set_fetched spend set_oops aim aimed
shift-Lands op ShiftMode.accumulator u v w =
    let a : u8 u.cpu.a ≡ u.cpu.a = omega (arith, v.a_byte) in
    let r = shift_result op u.cpu.a (carry u) in
    let byte = shift_result-byte op u.cpu.a (carry u) v.a_byte (omega arith) in
    let same : u8 r ≡ r = omega arith in
    rw (
      a,
      shift_then op (do set_a (← get_fetched); spend 1) (record u { fetched = u.cpu.a }) v.a_byte,
      same,
    )
shift-Lands op ShiftMode.zp u v (w, h) =
    let p = Place.zp in
    let n = address p (visible u) in
    let same : u16 n ≡ n = omega (arith, address-word p u v) in
    let byte = value-byte p u v in
    let x = run_shift op ShiftMode.zp (visible u) in
    rw
      (
        aim_lem p u v w,
        same,
        read_lem n (record (aimed p u) { addr = n }) (address-word p u v),
        value_same p u v,
      )
      (Lands-subst x (shift_then op (put_back 3) (loaded Place.zp u) byte)
        (put_back-Lands op p 3 (loaded Place.zp u) x byte h (simp (-ℤ_twice))))
shift-Lands op ShiftMode.zpx u v (w, h) =
    let p = Place.zpx in
    let n = address p (visible u) in
    let same : u16 n ≡ n = omega (arith, address-word p u v) in
    let byte = value-byte p u v in
    let x = run_shift op ShiftMode.zpx (visible u) in
    rw
      (
        aim_lem p u v w,
        same,
        read_lem n (record (aimed p u) { addr = n }) (address-word p u v),
        value_same p u v,
      )
      (Lands-subst x (shift_then op (put_back 4) (loaded Place.zpx u) byte)
        (put_back-Lands op p 4 (loaded Place.zpx u) x byte h (simp (-ℤ_twice))))
shift-Lands op ShiftMode.abs u v (w, h) =
    let p = Place.abs in
    let n = address p (visible u) in
    let same : u16 n ≡ n = omega (arith, address-word p u v) in
    let byte = value-byte p u v in
    let x = run_shift op ShiftMode.abs (visible u) in
    rw
      (
        aim_lem p u v w,
        same,
        read_lem n (record (aimed p u) { addr = n }) (address-word p u v),
        value_same p u v,
      )
      (Lands-subst x (shift_then op (put_back 3) (loaded Place.abs u) byte)
        (put_back-Lands op p 3 (loaded Place.abs u) x byte h (simp (-ℤ_twice))))
shift-Lands op ShiftMode.absx u v (w, h) =
    let p = Place.absx in
    let n = address p (visible u) in
    let same : u16 n ≡ n = omega (arith, address-word p u v) in
    let byte = value-byte p u v in
    let x = run_shift op ShiftMode.absx (visible u) in
    rw
      (
        aim_lem p u v w,
        same,
        read_lem n (record (aimed p u) { addr = n }) (address-word p u v),
        value_same p u v,
      )
      (Lands-subst x
        (shift_then op (put_back 4) (record (loaded Place.absx u) { oops_cycle = false }) byte)
        (put_back-Lands op p 4 (record (loaded Place.absx u) { oops_cycle = false }) x byte h
          (simp (-ℤ_twice))))
