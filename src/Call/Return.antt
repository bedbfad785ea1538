-- ===== src/Call/Return.antt =====
-- JSR and RTS of src/olc6502.c: a call and its return.
use m.Base.{ℕ, ◌+◌, ◌%◌, ◌<◌, ◌≡◌, arith, some, none, u16, sym, subst, Option-cases, inl, inr}
use m.Base.Int.{pos, ◌-ℤ◌}
use m.Decoder.{Decoder, bus_read_word}
use m.Cpu.{State, ◌>>=◌, gets, pure, set_pc, set_addr, spend, read_word}
use m.Cpu.Address.{get_absolute_address}
use m.Cpu.Stack.{pull_word_from_stack}
use m.Switch.Jump.{jump, jsr, rts}
use m.Call.Stack.{pushed_word, push_word_lem, pull_pushed, SameFrame}

-- The state of JSR after its operand `v` is read.
abbrev operand_read : State → ℕ → Decoder → State
operand_read s v dev = record s {
  cpu = record s.cpu { ce = dev; pc = u16 (s.cpu.pc + 2) };
  cycles = s.cycles -ℤ pos 2;
  addr = u16 v;
}

abbrev return_address : State → ℕ
return_address s = u16 (u16 (s.cpu.pc + 2) + 65535)

-- The state after JSR.
abbrev called : State → ℕ → Decoder → State
called s v dev =
    let below = pushed_word (return_address s) (operand_read s v dev) in
    record below { cpu = record below.cpu { pc = u16 (u16 v) }; cycles = below.cycles -ℤ pos 1 }

jsr_lem :
    (s : State) (v : ℕ) (dev : Decoder)
    → s.cpu.sp < 256
    → bus_read_word s.cpu.ce (u16 s.cpu.pc) ≡ some (v, dev)
    → jump jsr s ≡ some (tt, called s v dev)
unfolding jump ◌>>=◌ get_absolute_address read_word gets set_pc set_addr spend pure
jsr_lem s v dev h p = rw (p) (rw (push_word_lem (return_address s) (operand_read s v dev) h))

jsr_missing : (s : State) → bus_read_word s.cpu.ce (u16 s.cpu.pc) ≡ none → jump jsr s ≡ none
unfolding jump ◌>>=◌ get_absolute_address read_word gets
jsr_missing s p = rw (p)

rts_lem :
    (u w : State) (v : ℕ)
    → pull_word_from_stack u ≡ some (v, w)
    → jump rts u
      ≡ some (tt, record w { cpu = record w.cpu { pc = u16 (v + 1) }; cycles = w.cycles -ℤ pos 3 })
unfolding jump ◌>>=◌ set_pc spend
rts_lem u w v p = rw (p)

-- JSR and RTS: if the call returns at all, the subroutine may change everything but the stack pointer
-- and the two bytes of its return address, and RTS then leads behind the operand of the JSR, with
-- the stack pointer of before the call. `s` is the state at the operand of the JSR.
pub jsr-rts :
    (s t u : State)
    → s.cpu.sp < 256
    → jump jsr s ≡ some (tt, t)
    → u.cpu.sp ≡ t.cpu.sp
    → SameFrame s t u
    → (w : State) × (jump rts u ≡ some (tt, w))
      × (w.cpu.pc ≡ (s.cpu.pc + 2) % 65536)
      × (w.cpu.sp ≡ s.cpu.sp)
unfolding ◌-ℤ◌ SameFrame
jsr-rts s t u h p same frame = elim (Option-cases (bus_read_word s.cpu.ce (u16 s.cpu.pc))) [
  | inl missing ↦ cc (jsr_missing s missing)
  | inr ((v, dev), found) ↦
      let e : called s v dev ≡ t = cc (jsr_lem s v dev h found) in
      let same' : u.cpu.sp ≡ (called s v dev).cpu.sp =
        subst (λ x. u.cpu.sp ≡ x.cpu.sp) (sym e) same in
      (
        _,
        rts_lem u _ (return_address s) (
            pull_pushed (return_address s) (operand_read s v dev) h (omega arith) u same'
              (subst (λ x. SameFrame s x u) (sym e) frame)),
        omega arith,
        omega arith,
      )
]
