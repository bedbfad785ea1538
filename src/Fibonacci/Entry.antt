-- ===== src/Fibonacci/Entry.antt =====
-- What the ROM's program has in the registers and in memory when it enters its loop.
use m.Base.{ℕ, ◌+◌, ◌-◌, ◌%◌, ◌<◌, ◌≡◌, ◌∙◌, refl, ap, arith, to_bit, ◌||◌, ltb}
use m.Base.Int.{pos, ◌-ℤ◌, -ℤ_twice}
use m.Memory.{update}
use m.Decoder.Map.{byte_at, real_address}
use m.Cpu.{get_bit, put_bit, flag_c, flag_i, flag_v}
use m.Alu.Flags.{zn}
use m.Alu.Subtract.{sbc_flag_v}
use m.Isa.{Visible, peek}
use m.Fibonacci.{Left}
use m.Fibonacci.Turn.{at_once, AtLoop, carry_once, carry_zn, spent}

-- The flags before SBC.
abbrev pub set_ps : Visible → ℕ
set_ps v = at_once v (
    zn 13 (
      at_once v
        (zn 13 (at_once v (put_bit flag_c 1 (at_once v (at_once v (zn 1 (at_once v v.ps)))))))))

-- SBC with C set adds it.
abbrev pub turns : Visible → ℕ
turns v = (13 + get_bit flag_c (set_ps v) + 256 - 3) % 256

abbrev pub subtracted_ps : Visible → ℕ
subtracted_ps v =
    let c = get_bit flag_c (set_ps v) in
    zn (turns v) (
      put_bit flag_c (to_bit (ltb (13 + c) 3 || ltb (3 + 255) (13 + c)))
        (put_bit flag_v (to_bit (sbc_flag_v 13 3 c)) (set_ps v)))

abbrev pub cleared_ps : Visible → ℕ
cleared_ps v = put_bit flag_c 0 (at_once v (zn (turns v) (at_once v (subtracted_ps v))))

-- What a program sees at the head of the loop.
abbrev pub entered : Visible → Visible
entered v = record v {
  pc = 0x8010;
  a = 2;
  x = 1;
  y = turns v;
  ps = at_once v (zn 2 (at_once v (cleared_ps v)));
  mem = record { bytes = update (update v.mem.bytes 0 1) 1 2 };
  cycles =
      v.cycles
      -ℤ pos 1
      -ℤ pos 1
      -ℤ pos 1
      -ℤ pos 2
      -ℤ pos 1
      -ℤ pos 1
      -ℤ pos 1
      -ℤ pos 1
      -ℤ pos 1
      -ℤ pos 1
      -ℤ pos 1
      -ℤ pos 1
      -ℤ pos 1
      -ℤ pos 1
      -ℤ pos 1
      -ℤ pos 1
      -ℤ pos 1
      -ℤ pos 1
      -ℤ pos 1
      -ℤ pos 2;
}

carry_of : (c ps : ℕ) → get_bit flag_c (put_bit flag_c c ps) ≡ c % 2
carry_of c ps = omega arith

carry_load :
    (i n ps : ℕ) → n < 256 → get_bit flag_c (put_bit flag_i i (zn n ps)) ≡ get_bit flag_c ps
carry_load i n ps h = carry_once i (zn n ps) ∙ carry_zn n ps h

carry_set : (v : Visible) → get_bit flag_c (set_ps v) ≡ 1
carry_set v =
    carry_load v.i_nxt 13 _ (omega arith)
    ∙ carry_load v.i_nxt 13 _ (omega arith)
    ∙ carry_once v.i_nxt _
    ∙ carry_of 1 _

pub entered-AtLoop : (v : Visible) → AtLoop 10 1 2 (entered v)
unfolding peek byte_at real_address
entered-AtLoop v = record {
  turns = ap (λ c. (13 + c + 256 - 3) % 256) (carry_set v);
  few = omega arith;
  sum = refl;
  low = refl;
  high = refl;
  clear =
      carry_load v.i_nxt 2 _ (omega arith)
      ∙ carry_once v.i_nxt (cleared_ps v)
      ∙ carry_of 0 (at_once v (zn (turns v) (at_once v (subtracted_ps v))));
  low_byte = omega arith;
  high_byte = omega arith;
}

pub left_entered : (v : Visible) → Left 214 v.cycles → Left 192 (entered v).cycles
left_entered v h = simp (-ℤ_twice) (spent 192 22 v.cycles h)
