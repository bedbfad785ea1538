-- ===== src/Instructions/Sum.antt =====
-- ADC and SBC of src/olc6502.c as instructions: what a round of the loop does when their opcode is at `pc`.
use m.Base.{
  ℕ, ◌+◌, ◌-◌, ◌/◌, ◌%◌, ◌≡◌, ◌∙◌, sym, refl, ap, subst, arith, Option, some, ◌==◌, to_bit, u16,
  ltb, ◌||◌,
}
use m.Base.Int.{pos, ◌-ℤ◌, -ℤ_twice}
use m.Decoder.Map.{byte_at}
use m.Cpu.{State, get_bit, put_bit, flag_c, flag_v, flag_z, flag_n, flag_i}
use m.Blocks.Arithmetic.{add_to_a, addend}
use m.Clock.{step}
use m.Valid.{IsValid}
use m.Alu.Add.{added, add_to_a_lem, add_to_a-adc, overflows}
use m.Alu.Subtract.{sbc_flag_v, add_to_a-sbc}
use m.Instructions.{SumIns, adc, sbc, Mode, sum_opcode}
use m.Instructions.Meaning.{summand}
use m.Instructions.Operand.{effective, cost, length_of, IsReadable, obtained}
use m.Instructions.Addressing.{byte_at-byte}
use m.Instructions.Round.{begun, operand_of, step-sum}

-- What a round does besides the accumulator and the flags.
abbrev pub Advances : Mode → State → State → Type 0
Advances mode s t =
    (t.cpu.pc ≡ (s.cpu.pc + 1 + length_of mode) % 65536)
    × (t.cycles ≡ s.cycles -ℤ pos (1 + cost mode (begun s)))
    × (t.cpu.ce.mem ≡ s.cpu.ce.mem)
    × ((t.cpu.x ≡ s.cpu.x) × (t.cpu.y ≡ s.cpu.y) × (t.cpu.sp ≡ s.cpu.sp))

added-Advances :
    (mode : Mode) (s : State) (value : ℕ) → Advances mode s (added (obtained mode (begun s)) value)
unfolding obtained
added-Advances mode s value =
    (omega arith, -ℤ_twice s.cycles 1 (cost mode (begun s)), refl, (refl, refl, refl))

some_state :
    (t u : State) → ◌≡◌ {A = Option (Unit {0} × State)} (some (tt, t)) (some (tt, u)) → t ≡ u
some_state t u e = cc

-- A round that adds the value in the state `t` that `add_to_a` leaves.
sum_in :
    (i : SumIns) (mode : Mode) (s t : State) (value : ℕ)
    → IsValid s
    → byte_at s.cpu.ce s.cpu.pc ≡ sum_opcode i mode
    → IsReadable mode (begun s)
    → summand i (operand_of mode s) ≡ value
    → add_to_a value (obtained mode (begun s)) ≡ some (tt, t)
    → (step s ≡ some (tt, t)) × Advances mode s t
sum_in i mode s t value v here w same e =
    let whole : ◌≡◌ {A = Option (Unit {0} × State)}
        (some (tt, added (obtained mode (begun s)) value)) (some (tt, t)) =
      sym (add_to_a_lem value (obtained mode (begun s))) ∙ e in
    let same_state = some_state (added (obtained mode (begun s)) value) t whole in
    (
      step-sum i mode s v here w
          ∙ ap (λ x. some (tt, added (obtained mode (begun s)) x)) same
          ∙ whole,
      subst (Advances mode s) same_state (added-Advances mode s value),
    )

-- The carry is not changed by the copy of the interrupt flag.
begun_carry : (b ps : ℕ) → get_bit flag_c (put_bit flag_i b ps) ≡ get_bit flag_c ps
begun_carry b ps = ground arith

-- ADC in each of its eight modes, with its opcode at `pc`, in a state whose variables are in range and
-- where the words that the mode reads do not span two devices. The effective address is that of the code:
-- in both indirect modes the two bytes of the word are those at an address and at the next one,
-- so that ($FF),Y takes the high byte at 0x0100 and (n,X) leaves the zero page where n + X is 0xff or
-- above; on a 6502, and by the comments on `get_indexed_indirectX` and `get_indexed_indirectY`, both
-- stay in the zero page. The round returns; the accumulator becomes the sum of itself, the operand at the effective address and the carry,
-- modulo 256; C is the carry of that sum, V its signed overflow, Z and N are those of the result;
-- `pc` moves behind the instruction, and the cycles are 1 for the opcode and those of the mode,
-- with one more where the index moves the address to another page. Memory, X, Y and the stack
-- pointer stay.
pub step-adc :
    (mode : Mode) (s : State)
    → IsValid s
    → byte_at s.cpu.ce s.cpu.pc ≡ sum_opcode adc mode
    → IsReadable mode (begun s)
    → let total = s.cpu.a + operand_of mode s + get_bit flag_c s.cpu.ps in
      (t : State) × ((step s ≡ some (tt, t)) × Advances mode s t)
      × (t.cpu.a ≡ total % 256)
      × (get_bit flag_c t.cpu.ps ≡ total / 256)
      × (get_bit flag_v t.cpu.ps
          ≡ to_bit (overflows s.cpu.a (operand_of mode s) (get_bit flag_c s.cpu.ps)))
      × (get_bit flag_z t.cpu.ps ≡ to_bit (total % 256 == 0))
      × (get_bit flag_n t.cpu.ps ≡ total % 256 / 128)
unfolding obtained addend
step-adc mode s v here w =
    let byte = byte_at-byte s.cpu.ce (effective mode (begun s)) v.mem_bytes in
    let (t, e, acc, c, o, z, n, _) =
      add_to_a-adc (operand_of mode s) (obtained mode (begun s)) v.a_byte byte in
    let carry = begun_carry s.cpu.i_nxt s.cpu.ps in
    let with_c = λ (f : ℕ → ℕ). ap (λ k. f (s.cpu.a + operand_of mode s + k)) carry in
    (
      t,
      sum_in adc mode s t (u16 (operand_of mode s)) v here w refl e,
      acc ∙ with_c (λ x. x % 256),
      c ∙ with_c (λ x. x / 256),
      o ∙ ap (λ k. to_bit (overflows s.cpu.a (operand_of mode s) k)) carry,
      z ∙ with_c (λ x. to_bit (x % 256 == 0)),
      n ∙ with_c (λ x. x % 256 / 128),
    )

-- SBC in each of its eight modes, with its opcode at `pc`, in a state whose variables are in range and
-- where the words that the mode reads do not span two devices; the effective address is that of the
-- code, which takes the high byte at 0x0100 for ($FF),Y and does not wrap n + X to the zero page for
-- (n,X). The round returns; the accumulator becomes itself plus the carry minus the operand,
-- modulo 256; C is set exactly if that difference is not in 0..255, where the 6502 would subtract the
-- complement of the carry and set C if there is no borrow; V is set exactly if the difference of the signed
-- bytes, with the carry added, does not fit a signed byte, but for the operand 0x80 exactly if it does
-- fit; Z and N are those of the result; `pc` moves behind the instruction, and the cycles are 1 for
-- the opcode and those of the mode, with one more where the index moves the address to another
-- page. Memory, X, Y and the stack pointer stay.
pub step-sbc :
    (mode : Mode) (s : State)
    → IsValid s
    → byte_at s.cpu.ce s.cpu.pc ≡ sum_opcode sbc mode
    → IsReadable mode (begun s)
    → let plus_c = s.cpu.a + get_bit flag_c s.cpu.ps in
      let result = (plus_c + 256 - operand_of mode s) % 256 in
      (t : State) × ((step s ≡ some (tt, t)) × Advances mode s t)
      × (t.cpu.a ≡ result)
      × (get_bit flag_c t.cpu.ps
          ≡ to_bit (ltb plus_c (operand_of mode s) || ltb (operand_of mode s + 255) plus_c))
      × (get_bit flag_v t.cpu.ps
          ≡ to_bit (sbc_flag_v s.cpu.a (operand_of mode s) (get_bit flag_c s.cpu.ps)))
      × (get_bit flag_z t.cpu.ps ≡ to_bit (result == 0))
      × (get_bit flag_n t.cpu.ps ≡ result / 128)
unfolding obtained addend
step-sbc mode s v here w =
    let byte = byte_at-byte s.cpu.ce (effective mode (begun s)) v.mem_bytes in
    let (t, e, acc, c, o, z, n, _) =
      add_to_a-sbc (operand_of mode s) (obtained mode (begun s)) v.a_byte byte in
    let carry = begun_carry s.cpu.i_nxt s.cpu.ps in
    let with_c = λ (f : ℕ → ℕ). ap (λ k. f (s.cpu.a + k)) carry in
    (
      t,
      sum_in sbc mode s t (u16 (65536 - operand_of mode s)) v here w refl e,
      acc ∙ with_c (λ x. (x + 256 - operand_of mode s) % 256),
      c ∙ with_c (λ x. to_bit (ltb x (operand_of mode s) || ltb (operand_of mode s + 255) x)),
      o ∙ ap (λ k. to_bit (sbc_flag_v s.cpu.a (operand_of mode s) k)) carry,
      z ∙ with_c (λ x. to_bit ((x + 256 - operand_of mode s) % 256 == 0)),
      n ∙ with_c (λ x. (x + 256 - operand_of mode s) % 256 / 128),
    )
