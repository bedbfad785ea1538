-- ===== src/Isa/Reference.antt =====
-- What the instructions do with what a program sees, with `pc` behind the opcode. The cycles are those that
-- src/olc6502.c counts.
use m.Base.{ℕ, ◌+◌}
use m.Switch.Load.{
  LoadIns, lda_im, lda_zp, lda_zpx, lda_abs, lda_absx, lda_absy, lda_indx, lda_indy, ldx_im, ldx_zp,
  ldx_zpy, ldx_abs, ldx_absy, ldy_im, ldy_zp, ldy_zpx, ldy_abs, ldy_absx,
}
use m.Switch.Bitwise.{Logic, LogicMode, apply}
use m.Isa.{Visible, Register, reg_a, reg_x, reg_y, peek, advance, put}
use m.Isa.Address.{Place, address, read_cycle, size}

unfoldable pub load_register : LoadIns → Register
load_register lda_im = reg_a
load_register lda_zp = reg_a
load_register lda_zpx = reg_a
load_register lda_abs = reg_a
load_register lda_absx = reg_a
load_register lda_absy = reg_a
load_register lda_indx = reg_a
load_register lda_indy = reg_a
load_register ldx_im = reg_x
load_register ldx_zp = reg_x
load_register ldx_zpy = reg_x
load_register ldx_abs = reg_x
load_register ldx_absy = reg_x
load_register _ = reg_y

unfoldable pub load_place : LoadIns → Place
load_place lda_im = Place.im
load_place lda_zp = Place.zp
load_place lda_zpx = Place.zpx
load_place lda_abs = Place.abs
load_place lda_absx = Place.absx
load_place lda_absy = Place.absy
load_place lda_indx = Place.indx
load_place lda_indy = Place.indy
load_place ldx_im = Place.im
load_place ldx_zp = Place.zp
load_place ldx_zpy = Place.zpy
load_place ldx_abs = Place.abs
load_place ldx_absy = Place.absy
load_place ldy_im = Place.im
load_place ldy_zp = Place.zp
load_place ldy_zpx = Place.zpx
load_place ldy_abs = Place.abs
load_place ldy_absx = Place.absx

-- The cycles of a read behind that of the opcode.
unfoldable pub read_cycles : Place → Visible → ℕ
unfolding address
read_cycles Place.im v = 1
read_cycles Place.zp v = 2
read_cycles Place.zpx v = 3
read_cycles Place.zpy v = 3
read_cycles Place.abs v = 3
read_cycles Place.absx v = 2 + read_cycle Place.absx v
read_cycles Place.absy v = 2 + read_cycle Place.absy v
read_cycles Place.indx v = 3
read_cycles Place.indy v = 3 + read_cycle Place.indy v

-- LDA in the zero page is charged one cycle less.
unfoldable pub load_cycles : LoadIns → Visible → ℕ
unfolding read_cycles load_place
load_cycles lda_zp v = 1
load_cycles i v = read_cycles (load_place i) v

unfoldable pub run_load : LoadIns → Visible → Visible
unfolding load_cycles load_register
run_load i v =
    advance (size (load_place i)) (load_cycles i v)
      (put (load_register i) (peek v (address (load_place i) v)) v)

unfoldable pub logic_place : LogicMode → Place
logic_place LogicMode.im = Place.im
logic_place LogicMode.zp = Place.zp
logic_place LogicMode.zpx = Place.zpx
logic_place LogicMode.abs = Place.abs
logic_place LogicMode.absx = Place.absx
logic_place LogicMode.absy = Place.absy
logic_place LogicMode.indx = Place.indx
logic_place LogicMode.indy = Place.indy

unfoldable pub run_logic : Logic → LogicMode → Visible → Visible
unfolding read_cycles logic_place apply
run_logic op mode v =
    let p = logic_place mode in
    advance (size p) (read_cycles p v) (put reg_a (apply op v.a (peek v (address p v))) v)
