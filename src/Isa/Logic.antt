-- ===== src/Isa/Logic.antt =====
-- AND, ORA and EOR of src/olc6502.c against the reference.
use m.Base.{ℕ, ◌%◌, ◌<◌, ◌≡◌, arith}
use m.Base.Bits.{bit_and-lt, bit_or-lt, bit_xor-lt}
use m.Base.Int.{ -ℤ_twice}
use m.Cpu.{State, ◌>>=◌, ◌>>◌, gets, pure, set_a, set_pc, set_addr, set_oops, spend}
use m.Cpu.Address.{spend_oops, fetch_operand}
use m.Switch.Bitwise.{Logic, and, ora, eor, LogicMode, apply, assign_a, logic, flags_a}
use m.Valid.{IsValid}
use m.Isa.{visible}
use m.Isa.Address.{Place, IsReadable}
use m.Isa.Reference.{run_logic, logic_place}
use m.Isa.Aim.{aim, aimed, value, value-byte, direct-Lands, stored-Lands, flags_any, Lands}

apply-byte : (op : Logic) (a n : ℕ) → a < 256 → n < 256 → apply op a n % 256 ≡ apply op a n
unfolding apply
apply-byte and a n h k = omega (arith, bit_and-lt 8 a n h k)
apply-byte ora a n h k = omega (arith, bit_or-lt 8 a n h k)
apply-byte eor a n h k = omega (arith, bit_xor-lt 8 a n h k)

pub logic-Lands :
    (op : Logic) (mode : LogicMode) (u : State)
    → IsValid u
    → IsReadable (logic_place mode) (visible u)
    → Lands (logic op mode u) (run_logic op mode (visible u))
unfolding logic assign_a logic_place run_logic ◌>>=◌ gets set_a set_pc set_addr set_oops spend
    spend_oops fetch_operand aimed aim pure
logic-Lands op LogicMode.im u v w =
    direct-Lands Place.im u v w (λ n. do assign_a op n; flags_a)
      (run_logic op LogicMode.im (visible u))
      (simp (
        flags_any,
        apply-byte op u.cpu.a (value Place.im u) v.a_byte (value-byte Place.im u v),
        -ℤ_twice,
      ))
logic-Lands op LogicMode.zp u v w =
    direct-Lands Place.zp u v w (λ n. do assign_a op n; spend 1; flags_a)
      (run_logic op LogicMode.zp (visible u))
      (simp (
        flags_any,
        apply-byte op u.cpu.a (value Place.zp u) v.a_byte (value-byte Place.zp u v),
        -ℤ_twice,
      ))
logic-Lands op LogicMode.zpx u v w =
    stored-Lands Place.zpx u v w (λ n. do assign_a op n; spend 2; flags_a)
      (run_logic op LogicMode.zpx (visible u))
      (simp (
        flags_any,
        apply-byte op u.cpu.a (value Place.zpx u) v.a_byte (value-byte Place.zpx u v),
        -ℤ_twice,
      ))
logic-Lands op LogicMode.abs u v w =
    direct-Lands Place.abs u v w (λ n. do assign_a op n; spend 1; flags_a)
      (run_logic op LogicMode.abs (visible u))
      (simp (
        flags_any,
        apply-byte op u.cpu.a (value Place.abs u) v.a_byte (value-byte Place.abs u v),
        -ℤ_twice,
      ))
logic-Lands op LogicMode.absx u v w =
    stored-Lands Place.absx u v w (λ n. do assign_a op n; spend_oops; flags_a)
      (run_logic op LogicMode.absx (visible u))
      (simp (
        flags_any,
        apply-byte op u.cpu.a (value Place.absx u) v.a_byte (value-byte Place.absx u v),
        -ℤ_twice,
      ))
logic-Lands op LogicMode.absy u v w =
    stored-Lands Place.absy u v w (λ n. do assign_a op n; spend_oops; flags_a)
      (run_logic op LogicMode.absy (visible u))
      (simp (
        flags_any,
        apply-byte op u.cpu.a (value Place.absy u) v.a_byte (value-byte Place.absy u v),
        -ℤ_twice,
      ))
logic-Lands op LogicMode.indx u v w =
    direct-Lands Place.indx u v w (λ n. do assign_a op n; spend 2; flags_a)
      (run_logic op LogicMode.indx (visible u))
      (simp (
        flags_any,
        apply-byte op u.cpu.a (value Place.indx u) v.a_byte (value-byte Place.indx u v),
        -ℤ_twice,
      ))
logic-Lands op LogicMode.indy u v w =
    stored-Lands Place.indy u v w (λ n. do assign_a op n; spend_oops; flags_a)
      (run_logic op LogicMode.indy (visible u))
      (simp (
        flags_any,
        apply-byte op u.cpu.a (value Place.indy u) v.a_byte (value-byte Place.indy u v),
        -ℤ_twice,
      ))
