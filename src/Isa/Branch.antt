-- ===== src/Isa/Branch.antt =====
-- The conditional branches of src/olc6502.c against the reference.
use m.Base.{
  ℕ, ◌+◌, ◌/◌, ◌%◌, ◌<◌, ◌≡◌, refl, ap, arith, Bool, true, false, not, Bool-cases, inl, inr, ◌==◌,
  some, u8, u16, to_bool, if◌then◌else◌, bit_and, ltb,
}
use m.Base.Int.{pos, ◌-ℤ◌, -ℤ_twice}
use m.Base.Bits.{bit_and_ff00}
use m.Decoder.Map.{byte_at}
use m.Cpu.{State, ◌>>=◌, gets, pure, skip, set_fetched}
use m.Blocks.Branch.{plus_signed}
use m.Valid.{IsValid}
use m.Alu.Branch.{fetched_at, jumped, fetch_lem, take_branch_lem}
use m.Instructions.{BranchIns, beq, bne, bcs, bcc, bmi, bpl, bvc, bvs, branch}
use m.Instructions.Meaning.{meaning, condition}
use m.Instructions.Addressing.{byte_at-byte}
use m.Isa.{visible, peek}
use m.Isa.Operations.{run_branch, taken, target}
use m.Isa.Aim.{Lands, Lands-subst}

bit_true : (n : ℕ) → n < 2 → to_bool n ≡ (n == 1)
bit_true n h = ground arith

bit_false : (n : ℕ) → n < 2 → not (to_bool n) ≡ (n == 0)
bit_false n h = ground arith

condition-taken : (i : BranchIns) (u : State) → condition i u ≡ some (taken i (visible u), u)
unfolding condition taken ◌>>=◌ gets pure
condition-taken beq u = ap (λ b. some (b, u)) (bit_true _ (omega arith))
condition-taken bne u = ap (λ b. some (b, u)) (bit_false _ (omega arith))
condition-taken bcs u = ap (λ b. some (b, u)) (bit_true _ (omega arith))
condition-taken bcc u = ap (λ b. some (b, u)) (bit_false _ (omega arith))
condition-taken bmi u = ap (λ b. some (b, u)) (bit_true _ (omega arith))
condition-taken bpl u = ap (λ b. some (b, u)) (bit_false _ (omega arith))
condition-taken bvc u = ap (λ b. some (b, u)) (bit_false _ (omega arith))
condition-taken bvs u = ap (λ b. some (b, u)) (bit_true _ (omega arith))

signed_target :
    (pc n : ℕ)
    → pc < 65536
    → n < 256
    → u16 (plus_signed (u16 (pc + 1)) (u8 n)) ≡ (
        if ltb n 128
        then ((pc + 1) % 65536 + n) % 65536
        else ((pc + 1) % 65536 + 65280 + n) % 65536)
signed_target pc n h k = ground arith

same_page :
    (a b : ℕ)
    → a < 65536
    → b < 65536
    → (bit_and a 0xff00 == bit_and b 0xff00) ≡ (a / 256 == b / 256)
same_page a b h k = rw (bit_and_ff00 a, bit_and_ff00 b) (ground arith)

extra : (b : Bool) → 1 + (if not b then 2 else 1) ≡ (if b then 2 else 3)
extra true = refl
extra false = refl

-- The branch that is taken, on what a program sees.
jump_seen :
    (u : State)
    → IsValid u
    → visible (jumped (fetched_at u)) ≡ record (visible u) {
      pc = target (visible u);
      cycles = u.cycles -ℤ pos (if u.cpu.pc / 256 == target (visible u) / 256 then 2 else 3);
    }
unfolding peek byte_at
jump_seen u v =
    let n = byte_at u.cpu.ce u.cpu.pc in
    let small = byte_at-byte u.cpu.ce u.cpu.pc v.mem_bytes in
    let back : u16 (u16 (u.cpu.pc + 1) + 65535) ≡ u.cpu.pc = omega (arith, v.pc_word) in
    let word : target (visible u) < 65536 = ground arith in
    rw (
      signed_target u.cpu.pc n v.pc_word small,
      back,
      same_page u.cpu.pc (target (visible u)) v.pc_word word,
      -ℤ_twice u.cycles 1 (if not (u.cpu.pc / 256 == target (visible u) / 256) then 2 else 1),
      extra (u.cpu.pc / 256 == target (visible u) / 256),
    )

pub branch-Lands :
    (i : BranchIns) (u : State)
    → IsValid u
    → Lands (meaning (branch i) u) (run_branch i (visible u))
unfolding meaning run_branch ◌>>=◌ set_fetched skip
branch-Lands i u v = elim (Bool-cases (taken i (visible u))) [
  | inl jumps ↦
      rw (condition-taken i u, fetch_lem u v.pc_word, jumps)
        (Lands-subst _ (take_branch_lem (fetched_at u)) (jump_seen u v))
  | inr stays ↦ rw (condition-taken i u, fetch_lem u v.pc_word, stays)
]
