-- ===== src/Isa/Sum.antt =====
-- ADC and SBC of src/olc6502.c against the reference, and the operand that they share with the compares.
use m.Base.{
  ℕ, ◌+◌, ◌%◌, ◌<◌, ◌≡◌, ◌∙◌, refl, sym, ap, arith, Bool, true, false, to_bit, u16, if◌then◌else◌,
}
use m.Cpu.{State, get_bit, flag_c, get_fetched, ◌>>=◌, gets}
use m.Decoder.Map.{byte_at}
use m.Blocks.Arithmetic.{add_to_a}
use m.Valid.{IsValid}
use m.Alu.Add.{add_to_a_lem, sum_ps, overflow_bit, overflow_bit-overflows, over_255, overflows}
use m.Alu.Subtract
use m.Alu.Subtract.{difference}
use m.Instructions.{SumIns, adc, sbc, Mode, sum}
use m.Instructions.Meaning.{meaning, summand}
use m.Instructions.Operand.{obtained, length_of, effective, cost, IsReadable}
use m.Instructions.Addressing.{byte_at-byte}
use m.Instructions.Round.{operand_then}
use m.Isa.{Visible, visible, advance, peek}
use m.Isa.Address.{Place, address, size}
use m.Isa.Operations.{run_sum, mode_place, operand_cycles, add_in}
use m.Isa.Aim.{Lands, Lands-subst}

-- The state with the operand read, in the words of the reference.
effective-address :
    (mode : Mode) (u : State) → effective mode u ≡ address (mode_place mode) (visible u)
unfolding effective address mode_place peek byte_at
effective-address Mode.im u = refl
effective-address Mode.zp u = refl
effective-address Mode.zpx u = refl
effective-address Mode.abs u = refl
effective-address Mode.absx u = refl
effective-address Mode.absy u = refl
effective-address Mode.indx u = refl
effective-address Mode.indy u = refl

pub IsReadable-mode :
    (mode : Mode) (u : State)
    → m.Isa.Address.IsReadable (mode_place mode) (visible u)
    → IsReadable mode u
unfolding IsReadable m.Isa.Address.IsReadable mode_place peek byte_at
IsReadable-mode Mode.im u h = h
IsReadable-mode Mode.zp u h = h
IsReadable-mode Mode.zpx u h = h
IsReadable-mode Mode.abs u h = h
IsReadable-mode Mode.absx u h = h
IsReadable-mode Mode.absy u h = h
IsReadable-mode Mode.indx u h = h
IsReadable-mode Mode.indy u h = h

one_or_two : (n : ℕ) (b : Bool) → n + 1 + (if b then 1 else 0) ≡ n + (if b then 2 else 1)
one_or_two n true = omega arith
one_or_two n false = omega arith

cost-operand_cycles :
    (mode : Mode) (u : State) → cost mode u ≡ operand_cycles (mode_place mode) (visible u)
unfolding cost effective operand_cycles mode_place peek byte_at
cost-operand_cycles Mode.im u = refl
cost-operand_cycles Mode.zp u = refl
cost-operand_cycles Mode.zpx u = refl
cost-operand_cycles Mode.abs u = refl
cost-operand_cycles Mode.absx u = one_or_two 2 _
cost-operand_cycles Mode.absy u = one_or_two 2 _
cost-operand_cycles Mode.indx u = refl
cost-operand_cycles Mode.indy u = one_or_two 3 _

length_of-size : (mode : Mode) → length_of mode ≡ size (mode_place mode)
unfolding length_of mode_place
length_of-size Mode.im = refl
length_of-size Mode.zp = refl
length_of-size Mode.zpx = refl
length_of-size Mode.abs = refl
length_of-size Mode.absx = refl
length_of-size Mode.absy = refl
length_of-size Mode.indx = refl
length_of-size Mode.indy = refl

abbrev pub advanced : Mode → Visible → Visible
advanced mode v = advance (size (mode_place mode)) (operand_cycles (mode_place mode) v) v

pub visible-obtained :
    (mode : Mode) (u : State) → visible (obtained mode u) ≡ advanced mode (visible u)
unfolding obtained
visible-obtained mode u = rw (cost-operand_cycles mode u, length_of-size mode)

-- The sum of the code, on what a program sees.
abbrev adding : ℕ → Visible → Visible
adding w v =
    let sum = u16 (v.a + w + get_bit flag_c v.ps) in
    record v { a = sum % 256; ps = sum_ps sum v.a w v.ps }

abbrev carry : Visible → ℕ
carry v = get_bit flag_c v.ps

adding-add_in :
    (i : SumIns) (n : ℕ) (v : Visible) → v.a < 256 → n < 256 → adding (summand i n) v ≡ add_in i n v
unfolding add_in
adding-add_in adc n v h k =
    let c = carry v in
    let small : c < 2 = omega arith in
    let same : u16 n ≡ n = omega arith in
    let whole : u16 (v.a + n + c) ≡ v.a + n + c = omega arith in
    let over = over_255 (v.a + n + c) (v.a + n + c) (omega arith) refl in
    let signed : overflow_bit (v.a + n + c) v.a n ≡ to_bit (overflows v.a n c) =
      ap (λ s. overflow_bit s v.a n) (sym whole) ∙ overflow_bit-overflows v.a n c h k small in
    rw (same, whole, over, signed)
adding-add_in sbc n v h k =
    let c = carry v in
    let small : c < 2 = omega arith in
    rw (
      difference v.a n c h k small,
      Subtract.over_255 v.a n c h k small,
      Subtract.sbc_overflow v.a n c h k small,
    )

pub operand_at :
    (mode : Mode) (u : State)
    → (obtained mode u).fetched ≡ peek (visible u) (address (mode_place mode) (visible u))
unfolding obtained peek byte_at
operand_at mode u = ap (byte_at u.cpu.ce) (effective-address mode u)

abbrev pub operand_value : Mode → State → ℕ
operand_value mode u = peek (visible u) (address (mode_place mode) (visible u))

pub operand_value-byte : (mode : Mode) (u : State) → IsValid u → operand_value mode u < 256
unfolding peek
operand_value-byte mode u v = byte_at-byte u.cpu.ce _ v.mem_bytes

pub sum-Lands :
    (i : SumIns) (mode : Mode) (u : State)
    → IsValid u
    → m.Isa.Address.IsReadable (mode_place mode) (visible u)
    → Lands (meaning (sum i mode) u) (run_sum i mode (visible u))
unfolding meaning run_sum ◌>>=◌ gets
sum-Lands i mode u v w =
    let n = operand_value mode u in
    let s = obtained mode u in
    Lands-subst (run_sum i mode (visible u))
      (operand_then mode u (do fetched ← get_fetched; add_to_a (summand i fetched)) v
          (IsReadable-mode mode u w)
        ∙ ap (λ k. add_to_a (summand i k) s) (operand_at mode u)
        ∙ add_to_a_lem (summand i n) s)
      (ap (adding (summand i n)) (visible-obtained mode u)
        ∙ ap
            (λ x. advance (size (mode_place mode)) (operand_cycles (mode_place mode) (visible u)) x)
            (adding-add_in i n (visible u) v.a_byte (operand_value-byte mode u v)))
