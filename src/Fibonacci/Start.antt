-- ===== src/Fibonacci/Start.antt =====
-- The start of the ROM's program: the registers and the two numbers that the loop starts with.
use m.Base.{refl, arith}
use m.Base.Int.{pos, ◌-ℤ◌}
use m.Decoder.Map.{byte_at, real_address}
use m.Progmem.{progmem}
use m.Instructions.{labelled, flag, sum, sec, clc, sbc, Mode, code}
use m.Switch.{opcode_of, load_case, store_case, transfer_case}
use m.Switch.Load.{lda_im, ldx_im, ldy_im}
use m.Switch.Store.{sta_zp, stx_zp}
use m.Switch.Transfer.{tya, tay}
use m.Isa.{Visible, peek}
use m.Isa.Address.{IsReadable, IsWritable, address}
use m.Isa.Reference.{run_load}
use m.Isa.Effects.{run_store, run_transfer, run_flag}
use m.Isa.Operations.{run_sum, add_in, mode_place, operand_cycles}
use m.Isa.Exec.{Permits, PermitsCase, exec, exec_case}
use m.Fibonacci.{Computes, Left, left, instruction}
use m.Fibonacci.Entry.{entered, entered-AtLoop, left_entered}
use m.Fibonacci.Loop.{looping, fibonacci, Fits}

low_address-IsWritable : IsWritable 0
low_address-IsWritable = omega arith

next_address-IsWritable : IsWritable 1
next_address-IsWritable = omega arith

starting :
    (v : Visible)
    → Left 214 v.cycles
    → Computes (record (entered v) { pc = 0x8010 })
    → Computes (record v { pc = 0x8000 })
unfolding peek byte_at real_address progmem Permits PermitsCase IsReadable code opcode_of exec
    exec_case run_load run_sum add_in run_store run_transfer run_flag mode_place address
    operand_cycles
starting v h rest =
    let l1 = left 212 1 (v.cycles) h in
    let l2 = left 209 2 (v.cycles -ℤ pos 1 -ℤ pos 1) l1 in
    let l3 = left 207 1 (v.cycles -ℤ pos 1 -ℤ pos 1 -ℤ pos 1 -ℤ pos 2) l2 in
    let l4 = left 205 1 (v.cycles -ℤ pos 1 -ℤ pos 1 -ℤ pos 1 -ℤ pos 2 -ℤ pos 1 -ℤ pos 1) l3 in
    let l5 =
      left 203 1 (v.cycles -ℤ pos 1 -ℤ pos 1 -ℤ pos 1 -ℤ pos 2 -ℤ pos 1 -ℤ pos 1 -ℤ pos 1 -ℤ pos 1)
        l4 in
    let l6 =
      left 201 1
        (v.cycles
          -ℤ pos 1
          -ℤ pos 1
          -ℤ pos 1
          -ℤ pos 2
          -ℤ pos 1
          -ℤ pos 1
          -ℤ pos 1
          -ℤ pos 1
          -ℤ pos 1
          -ℤ pos 1)
        l5 in
    let l7 =
      left 199 1
        (v.cycles
          -ℤ pos 1
          -ℤ pos 1
          -ℤ pos 1
          -ℤ pos 2
          -ℤ pos 1
          -ℤ pos 1
          -ℤ pos 1
          -ℤ pos 1
          -ℤ pos 1
          -ℤ pos 1
          -ℤ pos 1
          -ℤ pos 1)
        l6 in
    let l8 =
      left 197 1
        (v.cycles
          -ℤ pos 1
          -ℤ pos 1
          -ℤ pos 1
          -ℤ pos 2
          -ℤ pos 1
          -ℤ pos 1
          -ℤ pos 1
          -ℤ pos 1
          -ℤ pos 1
          -ℤ pos 1
          -ℤ pos 1
          -ℤ pos 1
          -ℤ pos 1
          -ℤ pos 1)
        l7 in
    let l9 =
      left 195 1
        (v.cycles
          -ℤ pos 1
          -ℤ pos 1
          -ℤ pos 1
          -ℤ pos 2
          -ℤ pos 1
          -ℤ pos 1
          -ℤ pos 1
          -ℤ pos 1
          -ℤ pos 1
          -ℤ pos 1
          -ℤ pos 1
          -ℤ pos 1
          -ℤ pos 1
          -ℤ pos 1
          -ℤ pos 1
          -ℤ pos 1)
        l8 in
    (instruction (labelled (load_case ldx_im)) _ 214 h refl refl tt (
      instruction (labelled (store_case stx_zp)) _ 212 l1 refl refl (tt, low_address-IsWritable)
        (instruction (flag sec) _ 209 l2 refl refl tt (
          instruction (labelled (load_case ldy_im)) _ 207 l3 refl refl tt (
            instruction (labelled (transfer_case tya)) _ 205 l4 refl refl tt (
              instruction (sum sbc Mode.im) _ 203 l5 refl refl tt (
                instruction (labelled (transfer_case tay)) _ 201 l6 refl refl tt (
                  instruction (flag clc) _ 199 l7 refl refl tt (
                    instruction (labelled (load_case lda_im)) _ 197 l8 refl refl tt (
                      instruction (labelled (store_case sta_zp)) _ 195 l9 refl refl
                        (tt, next_address-IsWritable) rest))))))))))

fits : Fits 10 1 2
unfolding Fits
fits = (
  omega arith,
  (
    omega arith,
    (
      omega arith,
      (
        omega arith,
        (
          omega arith,
          (omega arith, (omega arith, (omega arith, (omega arith, (omega arith, tt))))),
        ),
      ),
    ),
  ),
)

-- The program from its start.
pub computing : (v : Visible) → Left 214 v.cycles → Computes (record v { pc = 0x8000 })
unfolding fibonacci
computing v h =
    starting v h (looping 10 1 2 (entered v) (entered-AtLoop v) fits refl (left_entered v h))
