-- ===== src/Instructions/Round.antt =====
-- Whole rounds of the loop of `olc6502_clock` in src/olc6502.c that run ADC or SBC: the fetch of the opcode,
-- its decoding, the addressing mode, and the arithmetic.
use m.Base.{ℕ, ◌+◌, ◌%◌, ◌<◌, ◌≡◌, ◌∙◌, refl, ap, arith, Option, none, some, u8}
use m.Base.Int.{pos, ◌-ℤ◌}
use m.Decoder.Map.{byte_at, line_of}
use m.Cpu.{
  M, State, after, ◌>>=◌, ◌>>◌, gets, get_fetched, set_flag, set_pc, spend, put_bit, flag_i,
}
use m.Cpu.Address.{fetch_operand}
use m.Blocks.Arithmetic.{add_to_a}
use m.Clock.{step}
use m.Valid.{IsValid}
use m.Alu.Add.{added, add_to_a_lem}
use m.Instructions.{SumIns, Mode, Instruction, sum, code, sum_opcode}
use m.Instructions.Meaning.{meaning, summand, locate, obtain}
use m.Instructions.Dispatch.{step-meaning}
use m.Instructions.Operand.{effective, IsReadable, obtained}
use m.Instructions.Addressing.{read_lem, byte_at-byte}
use m.Instructions.Obtain.{mode-Obtained}

-- The state behind the fetch of the opcode, and with the delayed interrupt flag copied.
abbrev pub fetched_opcode : State → State
fetched_opcode s = record s {
  cpu = record s.cpu {
    pc = (s.cpu.pc + 1) % 65536;
    ce = record s.cpu.ce { ce = line_of s.cpu.pc };
  };
  cycles = s.cycles -ℤ pos 1;
}

abbrev pub begun : State → State
begun s = record (fetched_opcode s) {
  cpu = record (fetched_opcode s).cpu { ps = put_bit flag_i s.cpu.i_nxt s.cpu.ps };
}

pub fetch_lem :
    (s : State)
    → s.cpu.pc < 65536
    → fetch_operand s ≡ some (byte_at s.cpu.ce s.cpu.pc, fetched_opcode s)
unfolding fetch_operand ◌>>=◌ gets spend set_pc
fetch_lem s h = rw (
    read_lem s.cpu.pc
      (record s { cpu = record s.cpu { pc = (s.cpu.pc + 1) % 65536 }; cycles = s.cycles -ℤ pos 1 })
      h)

pub begun-IsValid : (s : State) → IsValid s → IsValid (begun s)
begun-IsValid s v = ground (arith, v.mem_bytes)

-- The operand of the instruction at `pc`.
abbrev pub operand_of : Mode → State → ℕ
operand_of mode s = byte_at s.cpu.ce (effective mode (begun s))

-- The state behind the round.
abbrev sum_round : SumIns → Mode → State → State
sum_round i mode s = added (obtained mode (begun s)) (summand i (operand_of mode s))

after-after :
    (r : Option (Unit {0} × State)) (f k : M (Unit {0}))
    → after r (λ _ t. after (f t) (λ _. k)) ≡ after (after r (λ _. f)) (λ _. k)
after-after none f k = refl
after-after (some (tt, s)) f k = refl

-- What stands behind the operand runs where it is read.
pub operand_then :
    (mode : Mode) (u : State) (k : M (Unit {0}))
    → IsValid u
    → IsReadable mode u
    → (do locate mode; obtain mode; k) u ≡ k (obtained mode u)
unfolding ◌>>=◌
operand_then mode u k v w =
    after-after (locate mode u) (obtain mode) k
    ∙ ap (λ r. after r (λ _. k)) (mode-Obtained mode u v w)

-- The round of an instruction whose opcode is at `pc`.
pub step_at :
    (i : Instruction) (s : State)
    → IsValid s
    → byte_at s.cpu.ce s.cpu.pc ≡ code i
    → step s ≡ meaning i (begun s)
unfolding ◌>>=◌ gets set_flag
step_at i s v here =
    let byte = byte_at-byte s.cpu.ce s.cpu.pc v.mem_bytes in
    let opcode : u8 (byte_at s.cpu.ce s.cpu.pc) ≡ code i = omega (arith, here) in
    step-meaning i (byte_at s.cpu.ce s.cpu.pc) s (fetched_opcode s) (fetch_lem s v.pc_word) opcode

pub step-sum :
    (i : SumIns) (mode : Mode) (s : State)
    → IsValid s
    → byte_at s.cpu.ce s.cpu.pc ≡ sum_opcode i mode
    → IsReadable mode (begun s)
    → step s ≡ some (tt, sum_round i mode s)
unfolding code meaning ◌>>=◌ gets obtained byte_at
step-sum i mode s v here w =
    step_at (sum i mode) s v here
    ∙ operand_then mode (begun s) (do fetched ← get_fetched; add_to_a (summand i fetched))
        (begun-IsValid s v) w
    ∙ add_to_a_lem (summand i (operand_of mode s)) (obtained mode (begun s))
