-- ===== src/Call/Stack.antt =====
-- The stack of src/olc6502.c: what is pushed is pulled again.
use m.Base.{
  ℕ, ◌+◌, ◌*◌, ◌/◌, ◌%◌, ◌<◌, ◌≡◌, ◌∙◌, ap, sym, subst, arith, some, ◌==◌, u8, u16, bit_or, bit_and,
  if◌then◌else◌,
}
use m.Base.Bits.{bit_or_low, bit_and_ff}
use m.Base.Int.{pos, ◌-ℤ◌}
use m.Memory.{update}
use m.Decoder.Map.{real_address, line_of, byte_at, bus_read_byte-total, real_address-in_range}
use m.Decoder.Access.{bus_write_byte_lem}
use m.Cpu.{State, after, ◌>>=◌, gets, pure, set_sp, spend, read, write}
use m.Cpu.Stack.{
  stack_base, push_byte_to_stack, push_word_to_stack, pull_byte_from_stack, pull_word_from_stack,
}

-- The state after a push.
abbrev pub pushed : ℕ → State → State
pushed v s =
    let address = stack_base + s.cpu.sp in
    record s {
      cpu = record s.cpu {
        sp = u8 (s.cpu.sp + 255);
        ce = record {
          ce = line_of address;
          mem = record { bytes = update s.cpu.ce.mem.bytes (real_address address) (u8 v) };
        };
      };
      cycles = s.cycles -ℤ pos 1;
    }

pub push_byte_lem :
    (v : ℕ) (s : State) → s.cpu.sp < 256 → push_byte_to_stack v s ≡ some (tt, pushed v s)
unfolding push_byte_to_stack ◌>>=◌ gets write set_sp spend
push_byte_lem v s h =
    let here : u16 (stack_base + s.cpu.sp) ≡ stack_base + s.cpu.sp = omega arith in
    rw (
      here,
      bus_write_byte_lem s.cpu.ce (stack_base + s.cpu.sp) (u8 v) (omega arith)
          (real_address-in_range (stack_base + s.cpu.sp) (omega arith)),
    )

-- The state after a pull.
abbrev pub pulled : State → State
pulled s =
    let sp = u8 (s.cpu.sp + 1) in
    record s {
      cpu = record s.cpu { sp = sp; ce = record s.cpu.ce { ce = line_of (stack_base + sp) } };
      cycles = s.cycles -ℤ pos 1;
    }

pub pull_byte_lem :
    (s : State)
    → pull_byte_from_stack s ≡ some (byte_at s.cpu.ce (stack_base + u8 (s.cpu.sp + 1)), pulled s)
unfolding pull_byte_from_stack ◌>>=◌ gets read set_sp spend pure
pull_byte_lem s =
    let sp = u8 (s.cpu.sp + 1) in
    let here : u16 (stack_base + sp) ≡ stack_base + sp = omega arith in
    rw (here, bus_read_byte-total s.cpu.ce (stack_base + sp) (omega arith))

-- A byte of page 1 after a push.
byte_at-pushed :
    (v : ℕ) (s : State) (k : ℕ)
    → s.cpu.sp < 256
    → k < 256
    → byte_at (pushed v s).cpu.ce (stack_base + k)
      ≡ (if s.cpu.sp == k then u8 v else byte_at s.cpu.ce (stack_base + k))
unfolding byte_at real_address
byte_at-pushed v s k h l = ground arith

-- The state after a word is pushed.
abbrev pub pushed_word : ℕ → State → State
pushed_word v s = pushed (bit_and v 0xff) (pushed (v / 256) s)

pub push_word_lem :
    (v : ℕ) (s : State) → s.cpu.sp < 256 → push_word_to_stack v s ≡ some (tt, pushed_word v s)
unfolding push_word_to_stack ◌>>=◌
push_word_lem v s h =
    ap (λ r. after r (λ _. push_byte_to_stack (bit_and v 0xff))) (push_byte_lem (v / 256) s h)
    ∙ push_byte_lem (bit_and v 0xff) (pushed (v / 256) s) (omega arith)

pub pull_word_lem :
    (s : State)
    → pull_word_from_stack s
      ≡ some (
        bit_or
            (byte_at s.cpu.ce (stack_base + u8 (u8 (s.cpu.sp + 1) + 1)) * 256)
            (byte_at s.cpu.ce (stack_base + u8 (s.cpu.sp + 1))),
        pulled (pulled s),
      )
unfolding pull_word_from_stack ◌>>=◌ pure byte_at
pull_word_lem s = rw (pull_byte_lem s) (rw (pull_byte_lem (pulled s)))

-- The two bytes of page 1 where a word pushed at `s` lies hold the same in `t` and `u`.
unfoldable pub SameFrame : State → State → State → Type 0
SameFrame s t u =
    (byte_at u.cpu.ce (stack_base + s.cpu.sp) ≡ byte_at t.cpu.ce (stack_base + s.cpu.sp))
    × (byte_at u.cpu.ce (stack_base + u8 (s.cpu.sp + 255))
        ≡ byte_at t.cpu.ce (stack_base + u8 (s.cpu.sp + 255)))

module _ (v : ℕ) (s : State) (h : s.cpu.sp < 256) (k : v < 65536) where
  high_byte : byte_at (pushed_word v s).cpu.ce (stack_base + s.cpu.sp) ≡ v / 256
  high_byte = ground (
    arith,
    byte_at-pushed (bit_and v 0xff) (pushed (v / 256) s) s.cpu.sp (omega arith) h,
    byte_at-pushed (v / 256) s s.cpu.sp h h,
  )

  low_byte : byte_at (pushed_word v s).cpu.ce (stack_base + u8 (s.cpu.sp + 255)) ≡ v % 256
  low_byte = ground (
    arith,
    byte_at-pushed (bit_and v 0xff) (pushed (v / 256) s) (u8 (s.cpu.sp + 255)) (omega arith)
        (omega arith),
    bit_and_ff v,
  )

  joined : bit_or (v / 256 * 256) (v % 256) ≡ v
  joined = bit_or_low 8 (v / 256) (v % 256) (omega arith) ∙ omega arith

  pub pull_pushed :
      (u : State)
      → u.cpu.sp ≡ (pushed_word v s).cpu.sp
      → SameFrame s (pushed_word v s) u
      → pull_word_from_stack u ≡ some (v, pulled (pulled u))
  unfolding SameFrame
  pull_pushed u same (high, low) =
      let one : u8 (u.cpu.sp + 1) ≡ u8 (s.cpu.sp + 255) = omega arith in
      let two : u8 (u8 (u.cpu.sp + 1) + 1) ≡ s.cpu.sp = omega arith in
      let value : bit_or (byte_at u.cpu.ce (stack_base + u8 (u8 (u.cpu.sp + 1) + 1)) * 256)
            (byte_at u.cpu.ce (stack_base + u8 (u.cpu.sp + 1)))
          ≡ v =
        rw (two, one, high, low, high_byte, low_byte, joined) in
      pull_word_lem u ∙ ap (λ x. some (x, pulled (pulled u))) value

-- A word pushed to the stack is pulled again, at every stack pointer, in whatever state the code
-- between the two leaves if the stack pointer and the two bytes are those of the push: the pull
-- returns the word and gives back the stack pointer.
pub push_word-pull_word :
    (v : ℕ) (s t u : State)
    → s.cpu.sp < 256
    → v < 65536
    → push_word_to_stack v s ≡ some (tt, t)
    → u.cpu.sp ≡ t.cpu.sp
    → SameFrame s t u
    → (w : State) × (pull_word_from_stack u ≡ some (v, w)) × (w.cpu.sp ≡ s.cpu.sp)
push_word-pull_word v s t u h k p same frame =
    let e : pushed_word v s ≡ t = cc (push_word_lem v s h) in
    let same' : u.cpu.sp ≡ (pushed_word v s).cpu.sp =
      subst (λ x. u.cpu.sp ≡ x.cpu.sp) (sym e) same in
    (
      pulled (pulled u),
      pull_pushed v s h k u same' (subst (λ x. SameFrame s x u) (sym e) frame),
      omega arith,
    )
