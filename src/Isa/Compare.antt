-- ===== src/Isa/Compare.antt =====
-- CMP, CPX and CPY of src/olc6502.c against the reference.
use m.Base.{ℕ, ◌<◌, ◌≡◌, ◌∙◌, ◌+◌, ◌-◌, ◌%◌, subst, leb, to_bit, refl, ap, arith, u8}
use m.Cpu.{State, put_bit, flag_c, gets}
use m.Valid.{IsValid}
use m.Alu.Flags.{zn, compared, compare_flags_lem}
use m.Blocks.Compare.{compare_flags}
use m.Instructions.{Mode, cmp, compare_index, IndexIns, IndexMode, cpx, cpy}
use m.Instructions.Meaning.{meaning, index_mode, compare_register}
use m.Instructions.Operand.{obtained}
use m.Instructions.Placed.{placed, with_temp, compare_register_lem, kept_a, kept_x, kept_y}
use m.Isa.{Visible, visible, Register, reg_a, reg_x, reg_y, get}
use m.Isa.Address
use m.Isa.Operations.{run_compare, mode_place, index_place, index_register}
use m.Isa.Aim.{Lands, Lands-subst}
use m.Isa.Sum.{IsReadable-mode, visible-obtained, operand_at, operand_value, operand_value-byte}

module _ (r : Register) (g : State → ℕ) (kept : (mode : Mode) (s : State) → g (placed mode s) ≡ g s)
    (mode : Mode) (u : State) (same : g u ≡ get r (visible u)) (byte : g u < 256) where
  compare_register-Lands :
      IsValid u
      → Address.IsReadable (mode_place mode) (visible u)
      → Lands (compare_register (gets g) mode u) (run_compare r (mode_place mode) (visible u))
  unfolding run_compare compared obtained
  compare_register-Lands v w =
      let s = obtained mode u in
      let n = operand_value mode u in
      let final : Visible → Visible = λ x. record x {
        ps =
            zn ((get r (visible u) + 256 - n) % 256)
              (put_bit flag_c (to_bit (leb n (get r (visible u)))) x.ps);
      } in
      let whole : u8 (g u) ≡ g u = omega arith in
      Lands-subst (run_compare r (mode_place mode) (visible u))
        (compare_register_lem g kept mode u v (IsReadable-mode mode u w)
          ∙ ap (λ k. compare_flags (record (with_temp s (u8 (g u))) { fetched = k }))
              (operand_at mode u)
          ∙ ap (λ k. compare_flags (record (with_temp s k) { fetched = n })) (whole ∙ same)
          ∙ compare_flags_lem (record (with_temp s (get r (visible u))) { fetched = n })
              (subst (λ k. k < 256) same byte) (operand_value-byte mode u v))
        (ap final (visible-obtained mode u))

pub cmp-Lands :
    (mode : Mode) (u : State)
    → IsValid u
    → Address.IsReadable (mode_place mode) (visible u)
    → Lands (meaning (cmp mode) u) (run_compare reg_a (mode_place mode) (visible u))
unfolding meaning
cmp-Lands mode u v w = compare_register-Lands reg_a (λ s. s.cpu.a) kept_a mode u refl v.a_byte v w

pub compare_index-Lands :
    (i : IndexIns) (mode : IndexMode) (u : State)
    → IsValid u
    → Address.IsReadable (index_place mode) (visible u)
    → Lands
        (meaning (compare_index i mode) u)
        (run_compare (index_register i) (index_place mode) (visible u))
unfolding meaning index_place index_mode mode_place
compare_index-Lands cpx IndexMode.im u v w =
    compare_register-Lands reg_x (λ s. s.cpu.x) kept_x Mode.indx u refl v.x_byte v w
compare_index-Lands cpx IndexMode.zp u v w =
    compare_register-Lands reg_x (λ s. s.cpu.x) kept_x Mode.zp u refl v.x_byte v w
compare_index-Lands cpx IndexMode.abs u v w =
    compare_register-Lands reg_x (λ s. s.cpu.x) kept_x Mode.abs u refl v.x_byte v w
compare_index-Lands cpy IndexMode.im u v w =
    compare_register-Lands reg_y (λ s. s.cpu.y) kept_y Mode.indx u refl v.y_byte v w
compare_index-Lands cpy IndexMode.zp u v w =
    compare_register-Lands reg_y (λ s. s.cpu.y) kept_y Mode.zp u refl v.y_byte v w
compare_index-Lands cpy IndexMode.abs u v w =
    compare_register-Lands reg_y (λ s. s.cpu.y) kept_y Mode.abs u refl v.y_byte v w
