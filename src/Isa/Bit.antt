-- ===== src/Isa/Bit.antt =====
-- BIT of src/olc6502.c against the reference.
use m.Base.{ℕ, ◌<◌, ◌≡◌, arith, to_bit, ◌==◌, u8, bit_and, bit_or}
use m.Base.Bits.{bit_and-le, bit_or-lt}
use m.Base.Int.{ -ℤ_twice}
use m.Cpu.{State, ◌>>=◌, gets, set_fetched, set_ps, set_flag, spend, put_bit, flag_z}
use m.Switch.Bitwise.{Bit, bit_zp, bit_abs, bit, bit_flags}
use m.Valid.{IsValid}
use m.Instructions.Addressing.{read_lem}
use m.Isa.{visible}
use m.Isa.Address.{Place, address, IsReadable}
use m.Isa.Control.{run_bit, bit_place}
use m.Isa.Aim.{aim, aimed, aim_lem, value, value_same, value-byte, Lands, address-word}

abbrev bit_ps : ℕ → ℕ → ℕ → ℕ
bit_ps n a ps = bit_or (put_bit flag_z (to_bit (bit_and n a == 0)) ps) (bit_and n 0xc0)

bit_ps-byte : (n a ps : ℕ) → n < 256 → ps < 256 → u8 (bit_ps n a ps) ≡ bit_ps n a ps
bit_ps-byte n a ps h k =
    let z = put_bit flag_z (to_bit (bit_and n a == 0)) ps in
    let small : z < 256 = ground arith in
    let masked : bit_and n 0xc0 < 256 = omega (arith, bit_and-le n 0xc0) in
    let joined = bit_or-lt 8 z (bit_and n 0xc0) small masked in omega arith

pub bit-Lands :
    (i : Bit) (u : State)
    → IsValid u
    → IsReadable (bit_place i) (visible u)
    → Lands (bit i u) (run_bit i (visible u))
unfolding bit bit_flags run_bit ◌>>=◌ gets set_fetched set_ps set_flag spend aim aimed
bit-Lands bit_zp u v w =
    let n = value Place.zp u in
    rw
      (
        aim_lem Place.zp u v w,
        read_lem (address Place.zp (visible u)) (aimed Place.zp u) (address-word Place.zp u v),
        value_same Place.zp u v,
        bit_ps-byte n u.cpu.a u.cpu.ps (value-byte Place.zp u v) v.ps_byte,
      )
      (simp (-ℤ_twice))
bit-Lands bit_abs u v w =
    let n = value Place.abs u in
    rw
      (
        aim_lem Place.abs u v w,
        read_lem (address Place.abs (visible u)) (aimed Place.abs u) (address-word Place.abs u v),
        value_same Place.abs u v,
        bit_ps-byte n u.cpu.a u.cpu.ps (value-byte Place.abs u v) v.ps_byte,
      )
      (simp (-ℤ_twice))
