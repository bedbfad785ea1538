-- ===== src/Isa/Effects.antt =====
-- What the stores, transfers, flag and stack instructions do with what a program sees, with `pc` behind the
-- opcode. The cycles are those that src/olc6502.c counts.
use m.Base.{ℕ, ◌+◌, ◌%◌, ◌==◌, bit_and, bit_or, if◌then◌else◌}
use m.Base.Int.{pos, ◌-ℤ◌}
use m.Cpu.{put_bit, flag_c, flag_d, flag_v}
use m.Switch.Store.{
  StoreIns, sta_zp, sta_zpx, sta_abs, sta_absx, sta_absy, sta_indx, sta_indy, stx_zp, stx_zpy,
  stx_abs, sty_zp, sty_zpx, sty_abs,
}
use m.Switch.Transfer.{TransferIns, tax, txa, tay, tya, inx, dex, iny, dey}
use m.Switch.StackOps.{StackOp, pha, pla, php, plp, txs, tsx, nop}
use m.Instructions.{FlagIns, clc, sec, cld, sed, cli, sei, clv}
use m.Isa.{Visible, Register, reg_a, reg_x, reg_y, get, peek, poke, advance, put}
use m.Isa.Address.{Place, address, size}

unfoldable pub store_register : StoreIns → Register
store_register stx_zp = reg_x
store_register stx_zpy = reg_x
store_register stx_abs = reg_x
store_register sty_zp = reg_y
store_register sty_zpx = reg_y
store_register sty_abs = reg_y
store_register _ = reg_a

unfoldable pub store_place : StoreIns → Place
store_place sta_zp = Place.zp
store_place sta_zpx = Place.zpx
store_place sta_abs = Place.abs
store_place sta_absx = Place.absx
store_place sta_absy = Place.absy
store_place sta_indx = Place.indx
store_place sta_indy = Place.indy
store_place stx_zp = Place.zp
store_place stx_zpy = Place.zpy
store_place stx_abs = Place.abs
store_place sty_zp = Place.zp
store_place sty_zpx = Place.zpx
store_place sty_abs = Place.abs

abbrev pub store_cycles : Place → ℕ
store_cycles Place.zp = 2
store_cycles Place.absx = 4
store_cycles Place.absy = 4
store_cycles Place.indy = 5
store_cycles _ = 3

-- A store at the address in the memory array.
unfoldable pub run_store : StoreIns → Visible → Visible
unfolding address store_place store_register
run_store i v =
    let p = store_place i in
    advance (size p) (store_cycles p) (poke (address p v) (get (store_register i) v) v)

-- Cycles behind that of the opcode, without an operand.
abbrev pub spent : ℕ → Visible → Visible
spent c v = record v { cycles = v.cycles -ℤ pos c }

unfoldable pub run_transfer : TransferIns → Visible → Visible
run_transfer tax v = spent 1 (put reg_x v.a v)
run_transfer txa v = spent 1 (put reg_a v.x v)
run_transfer tay v = spent 1 (put reg_y v.a v)
run_transfer tya v = spent 1 (put reg_a v.y v)
run_transfer inx v = spent 1 (put reg_x ((v.x + 1) % 256) v)
run_transfer dex v = spent 1 (put reg_x ((v.x + 255) % 256) v)
run_transfer iny v = spent 1 (put reg_y ((v.y + 1) % 256) v)
run_transfer dey v = spent 1 (put reg_y ((v.y + 255) % 256) v)

-- CLI and SEI take effect with the next opcode. CLV sets the flag.
unfoldable pub run_flag : FlagIns → Visible → Visible
run_flag clc v = spent 1 (record v { ps = put_bit flag_c 0 v.ps })
run_flag sec v = spent 1 (record v { ps = put_bit flag_c 1 v.ps })
run_flag cld v = spent 1 (record v { ps = put_bit flag_d 0 v.ps })
run_flag sed v = spent 1 (record v { ps = put_bit flag_d 1 v.ps })
run_flag cli v = spent 1 (record v { i_nxt = 0 })
run_flag sei v = spent 1 (record v { i_nxt = 1 })
run_flag clv v = spent 1 (record v { ps = put_bit flag_v 1 v.ps })

-- A byte is pushed to page 1, and the byte that is pulled from it.
abbrev pub push : ℕ → Visible → Visible
push n v = record (poke (0x100 + v.sp) n v) { sp = (v.sp + 255) % 256 }

abbrev pub top : Visible → ℕ
top v = peek v (0x100 + (v.sp + 1) % 256)

abbrev pub drop : Visible → Visible
drop v = record v { sp = (v.sp + 1) % 256 }

-- PLP joins the byte to the flags without clearing one, and if the byte differs from them in the
-- interrupt flag, the delayed flag becomes 0, whatever the byte holds. TXS and TSX move X to and from
-- the byte that the stack pointer points to.
unfoldable pub run_stack : StackOp → Visible → Visible
unfolding peek
run_stack pha v = spent 2 (push v.a v)
run_stack pla v = spent 3 (put reg_a (top v) (drop v))
run_stack php v = spent 2 (push (bit_or v.ps 0x30) v)
run_stack plp v =
    let pulled = bit_and (top v) 0xcf in
    spent 3 (record (drop v) {
      ps = bit_or v.ps (bit_and pulled 0xfb);
      i_nxt = if bit_and pulled 0x04 == bit_and v.ps 0x04 then v.i_nxt else 0;
    })
run_stack txs v = spent 1 (poke (0x100 + v.sp) v.x v)
run_stack tsx v = spent 1 (put reg_x (peek v (0x100 + v.sp)) v)
run_stack nop v = spent 1 v
