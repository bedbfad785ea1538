-- ===== src/Fibonacci/End.antt =====
-- The end of the ROM's program: the comparison, and the jump to itself.
use m.Base.{ℕ, zero, suc, ◌≤◌, ◌≡◌, refl, sym, subst, arith, true, false, Bool-cases, inl, inr}
use m.Base.Int.{ℤ, pos, pos_part, ltb_ℤ, ◌-ℤ◌, -ℤ_twice}
use m.Cpu.{put_bit, flag_i, flag_c}
use m.Alu.Flags.{zn}
use m.Clock.Rule.{more→pos}
use m.Instructions.{labelled, branch, cmp, beq, Mode, code}
use m.Switch.{opcode_of, jump_case, transfer_case}
use m.Switch.Jump.{jmp_abs}
use m.Switch.Transfer.{txa}
use m.Isa.{Visible, peek}
use m.Isa.Address.{IsReadable, address}
use m.Isa.Control.{IsJumpable, run_jump}
use m.Isa.Effects.{run_transfer}
use m.Isa.Operations.{run_compare, mode_place, operand_cycles, taken}
use m.Decoder.Map.{byte_at}
use m.Progmem.{progmem}
use m.Isa.Exec.{Executes, halt, round, arrived, Permits, PermitsCase, exec, exec_case, begin}
use m.Fibonacci.{IsComputed, Computes, Left, left, instruction, branch-taken}
use native.Mathlib.Nat.{le_refl}

fewer : (fuel : ℕ) (c : ℤ) → pos_part c ≤ suc fuel → pos_part (c -ℤ pos 1 -ℤ pos 2) ≤ fuel
unfolding ◌-ℤ◌
fewer fuel c h = rw (-ℤ_twice c 1 2) (ground arith)

-- What a program sees at the jump.
abbrev waits : Visible → Visible
waits v = record v { pc = 0x8021; a = 233; x = 233; y = 0 }

abbrev spin : Visible → Visible
spin v = record v { ps = put_bit flag_i v.i_nxt v.ps; cycles = v.cycles -ℤ pos 1 -ℤ pos 2 }

-- The run from `v` ends with the same values.
unfoldable pub Waits : Visible → Type 0
unfolding IsComputed
Waits v = (w : Visible) × Executes v w × IsComputed w

over_now : (v : Visible) → ltb_ℤ (pos 0) v.cycles ≡ false → peek v 0 ≡ 233 → Waits (waits v)
unfolding Waits IsComputed peek
over_now v over result = (waits v, halt over, (refl, refl, refl, refl, result))

spinning : (v : Visible) → ltb_ℤ (pos 0) v.cycles ≡ true → Waits (waits (spin v)) → Waits (waits v)
unfolding Waits peek byte_at progmem Permits PermitsCase IsJumpable IsReadable code opcode_of exec
    exec_case run_jump
spinning v more (w, run, ends) = (
  w,
  round (labelled (jump_case jmp_abs)) more refl (inr (inr (inr (omega arith, omega arith)))) run,
  ends,
)

-- The jump to itself until no cycles are left.
waiting : (fuel : ℕ) (v : Visible) → pos_part v.cycles ≤ fuel → peek v 0 ≡ 233 → Waits (waits v)
unfolding peek
waiting zero v h result = elim (Bool-cases (ltb_ℤ (pos 0) v.cycles)) [
  | inr over ↦ over_now v over result
  | inl more ↦ absurd (omega (arith, more→pos v.cycles more))
]
waiting (suc fuel) v h result = elim (Bool-cases (ltb_ℤ (pos 0) v.cycles)) [
  | inr over ↦ over_now v over result
  | inl more ↦ spinning v more (waiting fuel (spin v) (fewer fuel v.cycles h) result)
]

pub computed-Waits : (v : Visible) → IsComputed v → Waits v
unfolding IsComputed peek
computed-Waits v (pc, a, x, y, result) =
    subst (λ k. Waits (record v { pc = k })) (sym pc)
      (subst (λ k. Waits (record v { pc = 0x8021; a = k })) (sym a)
        (subst (λ k. Waits (record v { pc = 0x8021; a = 233; x = k })) (sym x)
          (subst (λ k. Waits (record v { pc = 0x8021; a = 233; x = 233; y = k })) (sym y)
            (waiting (pos_part v.cycles) v (le_refl _) result))))

computed_now : (v : Visible) → peek v 0 ≡ 233 → Computes (waits v)
unfolding Computes IsComputed peek
computed_now v result = (waits v, arrived, (refl, refl, refl, refl, result))

-- What a program sees at the comparison.
abbrev pub compares : Visible → Visible
compares v = record v { pc = 0x801b; x = 233; y = 0 }

-- What it sees behind it.
abbrev compared : Visible → Visible
compared v = record v {
  ps = zn 0 (put_bit flag_c 1 (put_bit flag_i v.i_nxt (zn 233 (put_bit flag_i v.i_nxt v.ps))));
  cycles = v.cycles -ℤ pos 1 -ℤ pos 1 -ℤ pos 1 -ℤ pos 1;
}

equal_taken : (v : Visible) → taken beq (begin (record (waits (compared v)) { pc = 0x801e })) ≡ true
unfolding taken
equal_taken v = ground arith

abbrev final : Visible → Visible
final v = record (compared v) {
  ps = put_bit flag_i v.i_nxt (compared v).ps;
  cycles = (compared v).cycles -ℤ pos 1 -ℤ pos 2;
}

comparing : (v : Visible) → Left 6 v.cycles → peek v 0 ≡ 233 → Computes (compares v)
unfolding peek byte_at progmem Permits PermitsCase IsReadable code opcode_of exec exec_case
    run_transfer run_compare mode_place address operand_cycles
comparing v h result = instruction (labelled (transfer_case txa)) (compares v) 6 h refl refl tt (
    instruction (cmp Mode.im) _ 4 (left 4 1 v.cycles h) refl refl tt (
      instruction (branch beq) (record (waits (compared v)) { pc = 0x801e }) 2
        (left 2 1 _ (left 4 1 v.cycles h)) refl refl tt
        (subst Computes
          (sym (
            branch-taken beq (begin (record (waits (compared v)) { pc = 0x801e })) (equal_taken v)))
          (computed_now (final v) result))))

pub comparing_at :
    (v : Visible)
    → v.x ≡ 233
    → v.y ≡ 0
    → Left 6 v.cycles
    → peek v 0 ≡ 233
    → Computes (record v { pc = 0x801b })
comparing_at v x y h result =
    subst (λ k. Computes (record v { pc = 0x801b; x = k })) (sym x)
      (subst (λ k. Computes (record v { pc = 0x801b; x = 233; y = k })) (sym y)
        (comparing v h result))
