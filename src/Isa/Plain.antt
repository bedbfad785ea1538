-- ===== src/Isa/Plain.antt =====
-- The instructions of src/olc6502.c without an operand against the reference: transfers, flags, and the stack.
use m.Base.{
  ℕ, zero, suc, ◌+◌, ◌*◌, ◌/◌, ◌%◌, ◌<◌, ◌≡◌, refl, arith, Bool-cases, inl, inr, ◌==◌, bit_and,
  bit_or, bit_xor,
}
use m.Base.Bits.{bit_and-le, bit_or-lt, bit_and_4}
use m.Decoder.Map.{byte_at}
use m.Cpu.{
  State, ◌>>=◌, gets, pure, skip, set_a, set_x, set_y, set_sp, set_ps, set_i_nxt, set_flag,
  set_temp, set_fetched, spend,
}
use m.Switch.Transfer.{TransferIns, tax, txa, tay, tya, inx, dex, iny, dey, transfer}
use m.Switch.StackOps.{StackOp, pha, pla, php, plp, txs, tsx, nop, stack_op, stack_address}
use m.Instructions.{FlagIns, clc, sec, cld, sed, cli, sei, clv, flag}
use m.Instructions.Meaning.{meaning, assign_flag}
use m.Instructions.Addressing.{byte_at-byte, read_lem}
use m.Valid.{IsValid}
use m.Isa.{visible, peek}
use m.Isa.Effects.{run_transfer, run_flag, run_stack}
use m.Isa.Aim.{Lands, flags_any}
use m.Isa.Store.{write_lem}

pub byte_same : (n : ℕ) → n < 256 → n % 256 ≡ n
byte_same n h = omega arith

byte_twice : (n : ℕ) → n % 256 % 256 ≡ n % 256
byte_twice n = omega arith

pub transfer-Lands :
    (i : TransferIns) (u : State) → IsValid u → Lands (transfer i u) (run_transfer i (visible u))
unfolding transfer run_transfer ◌>>=◌ gets set_a set_x set_y spend
transfer-Lands tax u v = simp (flags_any, byte_same u.cpu.a v.a_byte)
transfer-Lands txa u v = simp (flags_any, byte_same u.cpu.x v.x_byte)
transfer-Lands tay u v = simp (flags_any, byte_same u.cpu.a v.a_byte)
transfer-Lands tya u v = simp (flags_any, byte_same u.cpu.y v.y_byte)
transfer-Lands inx u v = simp (flags_any, byte_twice (u.cpu.x + 1))
transfer-Lands dex u v = simp (flags_any, byte_twice (u.cpu.x + 255))
transfer-Lands iny u v = simp (flags_any, byte_twice (u.cpu.y + 1))
transfer-Lands dey u v = simp (flags_any, byte_twice (u.cpu.y + 255))

pub flag-Lands : (i : FlagIns) (u : State) → Lands (meaning (flag i) u) (run_flag i (visible u))
unfolding meaning assign_flag run_flag ◌>>=◌ set_flag set_i_nxt spend
flag-Lands clc u = refl
flag-Lands sec u = refl
flag-Lands cld u = refl
flag-Lands sed u = refl
flag-Lands cli u = refl
flag-Lands sei u = refl
flag-Lands clv u = refl

weighted_bits : (a b : ℕ) → a < 2 → b < 2 → (bit_xor (a * 4) (b * 4) == 0) ≡ (a * 4 == b * 4)
weighted_bits zero zero h k = refl
weighted_bits zero (suc zero) h k = refl
weighted_bits (suc zero) zero h k = refl
weighted_bits (suc zero) (suc zero) h k = refl
weighted_bits (suc (suc a)) b h k = absurd (omega arith)
weighted_bits zero (suc (suc b)) h k = absurd (omega arith)
weighted_bits (suc zero) (suc (suc b)) h k = absurd (omega arith)

-- Bit 2 of the pulled byte, compared with the flag, and cut to the one bit of `I_nxt`.
interrupt_bits :
    (a b : ℕ)
    → (bit_xor (bit_and a 0x04) (bit_and b 0x04) == 0) ≡ (bit_and a 0x04 == bit_and b 0x04)
interrupt_bits a b =
    rw (bit_and_4 a, bit_and_4 b)
      (weighted_bits (a / 4 % 2) (b / 4 % 2) (omega arith) (omega arith))

pub even_bit : (a : ℕ) → bit_and a 0x04 % 2 ≡ 0
even_bit a = omega (arith, bit_and_4 a)

pub stack-Lands :
    (i : StackOp) (u : State) → IsValid u → Lands (stack_op i u) (run_stack i (visible u))
unfolding stack_op run_stack stack_address ◌>>=◌ gets pure set_a set_x set_sp set_ps set_i_nxt
    set_temp set_fetched skip spend peek byte_at
stack-Lands pha u v =
    rw (write_lem (0x100 + u.cpu.sp) u.cpu.a u (omega (arith, v.sp_byte)) v.a_byte)
stack-Lands pla u v =
    let sp = (u.cpu.sp + 1) % 256 in
    let byte = byte_at-byte u.cpu.ce (0x100 + sp) v.mem_bytes in
    rw (read_lem (0x100 + sp) (record u { cpu = record u.cpu { sp = sp } }) (omega arith))
      (simp (flags_any, byte_same (byte_at u.cpu.ce (0x100 + sp)) byte))
stack-Lands php u v =
    let small = bit_or-lt 8 u.cpu.ps 0x30 v.ps_byte (omega arith) in
    rw (write_lem (0x100 + u.cpu.sp) (bit_or u.cpu.ps 0x30) u (omega (arith, v.sp_byte)) small)
stack-Lands plp u v =
    let sp = (u.cpu.sp + 1) % 256 in
    let read_byte = byte_at u.cpu.ce (0x100 + sp) in
    let pulled = bit_and read_byte 0xcf in
    let small = bit_and-le read_byte 0xcf in
    let joined =
      bit_or-lt 8 u.cpu.ps (bit_and pulled 0xfb) v.ps_byte
        (omega (arith, bit_and-le pulled 0xfb)) in
    rw
      (
        byte_same u.cpu.ps v.ps_byte,
        read_lem (0x100 + sp) (record u { cpu = record u.cpu { sp = sp }; fetched = u.cpu.ps })
            (omega arith),
        byte_same pulled (omega arith),
        interrupt_bits pulled u.cpu.ps,
      )
      (elim (Bool-cases (bit_and pulled 0x04 == bit_and u.cpu.ps 0x04)) [
        | inl same ↦ rw (same, byte_same (bit_or u.cpu.ps (bit_and pulled 0xfb)) joined)
        | inr changed ↦
            rw (changed, byte_same (bit_or u.cpu.ps (bit_and pulled 0xfb)) joined, even_bit pulled)
      ])
stack-Lands txs u v =
    rw (write_lem (0x100 + u.cpu.sp) u.cpu.x u (omega (arith, v.sp_byte)) v.x_byte)
stack-Lands tsx u v =
    let byte = byte_at-byte u.cpu.ce (0x100 + u.cpu.sp) v.mem_bytes in
    rw (read_lem (0x100 + u.cpu.sp) u (omega (arith, v.sp_byte)))
      (simp (flags_any, byte_same (byte_at u.cpu.ce (0x100 + u.cpu.sp)) byte))
stack-Lands nop u v = refl
