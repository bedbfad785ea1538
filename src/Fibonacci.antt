-- ===== src/Fibonacci.antt =====
-- The program that the ROM of src/program.h holds, which is assembled from fibonacci.s: it computes a number of
-- Fibonacci, compares it with the value expected, and ends in a jump to itself if they are equal.
pub mod Turn
pub mod Loop
pub mod Entry
pub mod Start
pub mod End
pub mod Run
pub mod Command
use m.Base.{ℕ, zero, suc, ◌+◌, ◌/◌, ◌<◌, ◌≡◌, arith, true, false, ltb, ◌==◌, if◌then◌else◌}
use m.Base.Int.{ℤ, pos, negsuc, pos_part, ltb_ℤ, ◌-ℤ◌, -ℤ_parts}
use m.Instructions.{Instruction, BranchIns, code}
use m.Isa.{Visible, peek, advance}
use m.Isa.Operations.{run_branch, taken, target}
use m.Isa.Exec.{Permits, begin, next, Leads, onward}

-- The program waits at the jump to itself, with 233 in A, in X and at the address 0.
unfoldable pub IsComputed : Visible → Type 0
unfolding peek
IsComputed v = (v.pc ≡ 0x8021) × (v.a ≡ 233) × (v.x ≡ 233) × (v.y ≡ 0) × (peek v 0 ≡ 233)

-- The run from `v` leads there.
unfoldable pub Computes : Visible → Type 0
unfolding IsComputed
Computes v = (w : Visible) × Leads 0x8021 v w × IsComputed w

-- More than `k` cycles are left.
abbrev pub Left : ℕ → ℤ → Type 0
Left k c = k < pos_part c

more_left : (k : ℕ) (c : ℤ) → Left k c → ltb_ℤ (pos 0) c ≡ true
more_left k c h = ground arith

-- A round of an instruction that takes `n` cycles behind that of its opcode.
pub left : (k n : ℕ) (c : ℤ) → Left (k + 1 + n) c → Left k (c -ℤ pos 1 -ℤ pos n)
left k n (pos c) h = omega (arith, -ℤ_parts (pos c) (pos 1), -ℤ_parts (pos c -ℤ pos 1) (pos n))
left k n (negsuc c) h = absurd (omega arith)

pub instruction :
    (i : Instruction) (v : Visible) (k : ℕ)
    → Left k v.cycles
    → (v.pc == 0x8021) ≡ false
    → peek v v.pc ≡ code i
    → Permits i (begin v)
    → Computes (next i v)
    → Computes v
unfolding Computes
instruction i v k h apart here w (x, run, ends) =
    (x, onward i apart (more_left k v.cycles h) here w run, ends)

pub branch-taken :
    (i : BranchIns) (v : Visible)
    → taken i v ≡ true
    → run_branch i v ≡ record v {
      pc = target v;
      cycles = v.cycles -ℤ pos (if v.pc / 256 == target v / 256 then 2 else 3);
    }
unfolding run_branch
branch-taken i v h = rw h

pub branch-stays :
    (i : BranchIns) (v : Visible) → taken i v ≡ false → run_branch i v ≡ advance 1 1 v
unfolding run_branch
branch-stays i v h = rw h
