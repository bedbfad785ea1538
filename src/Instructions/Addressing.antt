-- ===== src/Instructions/Addressing.antt =====
-- The addressing functions of src/olc6502.c against the addresses of Instructions/Operand.
use m.Base.{ℕ, ◌+◌, ◌-◌, ◌/◌, ◌<◌, ◌≡◌, arith, true, not, some, ◌==◌, u16}
use m.Base.Bits.{bit_and_ff00}
use m.Base.Int.{pos, ◌-ℤ◌}
use m.Progmem.{progmem-lt}
use m.Decoder.{Decoder}
use m.Decoder.Map.{byte_at, line_of, bus_read_byte-total, real_address}
use m.Decoder.Word.{IsBytes, IsWhole, bus_read_word-IsWhole}
use m.Cpu.{
  State, ◌>>=◌, pure, gets, set_pc, set_oops, spend, read, read_word, page_boundary_crossed,
}
use m.Cpu.Address.{
  get_zp_address, get_absolute_address, get_absolute_address_x, get_absolute_address_y,
  get_indexed_indirect_x, get_indexed_indirect_y,
}
use m.Instructions.{Mode}
use m.Instructions.Operand.{word_at, argument, effective, crosses}

pub byte_at-byte : (ce : Decoder) (a : ℕ) → IsBytes ce.mem → byte_at ce a < 256
unfolding byte_at
byte_at-byte ce a h = ground (arith, h (real_address a), progmem-lt (a - 0x8000))

pub word_at-word : (ce : Decoder) (a : ℕ) → IsBytes ce.mem → word_at ce a < 65536
unfolding word_at
word_at-word ce a h = omega (arith, byte_at-byte ce a h, byte_at-byte ce (a + 1) h)

-- The state after a read of the bus at `a`.
abbrev pub on_bus : State → ℕ → State
on_bus s a = record s { cpu = record s.cpu { ce = record s.cpu.ce { ce = line_of a } } }

pub read_lem : (a : ℕ) (s : State) → a < 65536 → read a s ≡ some (byte_at s.cpu.ce a, on_bus s a)
unfolding read
read_lem a s h = let same : u16 a ≡ a = omega arith in rw (same, bus_read_byte-total s.cpu.ce a h)

pub read_word_lem :
    (a : ℕ) (s : State)
    → IsBytes s.cpu.ce.mem
    → IsWhole a
    → read_word a s ≡ some (word_at s.cpu.ce a, on_bus s a)
unfolding read_word word_at
read_word_lem a s bytes h =
    let same : u16 a ≡ a = ground (arith, h) in rw (same, bus_read_word-IsWhole s.cpu.ce a bytes h)

crossed_lem :
    (a b : ℕ) (s : State)
    → a < 65536
    → b < 65536
    → page_boundary_crossed a b s ≡ some (not (a / 256 == b / 256), record s { oops_cycle = true })
unfolding page_boundary_crossed ◌>>=◌ set_oops pure
crossed_lem a b s h k = rw (bit_and_ff00 a, bit_and_ff00 b) (ground arith)

-- The state behind the fetch of an address in the zero page.
abbrev pub zp_fetched : State → State
zp_fetched s = record s {
  cpu = record s.cpu { pc = u16 (s.cpu.pc + 1); ce = record s.cpu.ce { ce = line_of s.cpu.pc } };
  cycles = s.cycles -ℤ pos 1;
}

pub zp_lem : (s : State) → s.cpu.pc < 65536 → get_zp_address s ≡ some (argument s, zp_fetched s)
unfolding get_zp_address ◌>>=◌ gets set_pc spend pure
zp_lem s h = rw (read_lem s.cpu.pc (record s { cpu = record s.cpu { pc = u16 (s.cpu.pc + 1) } }) h)

pub absolute_lem :
    (s : State)
    → IsBytes s.cpu.ce.mem
    → IsWhole s.cpu.pc
    → get_absolute_address s
      ≡ some (
        word_at s.cpu.ce s.cpu.pc,
        record s {
          cpu = record s.cpu {
            pc = u16 (s.cpu.pc + 2);
            ce = record s.cpu.ce { ce = line_of s.cpu.pc };
          };
          cycles = s.cycles -ℤ pos 2;
        },
      )
unfolding get_absolute_address ◌>>=◌ gets set_pc spend pure
absolute_lem s bytes h = rw (read_word_lem s.cpu.pc s bytes h)

pub absolute_x_lem :
    (s : State)
    → IsBytes s.cpu.ce.mem
    → IsWhole s.cpu.pc
    → get_absolute_address_x s
      ≡ some (
        effective Mode.absx s,
        record s {
          cpu = record s.cpu {
            pc = u16 (s.cpu.pc + 2);
            ce = record s.cpu.ce { ce = line_of s.cpu.pc };
          };
          cycles = s.cycles -ℤ pos 2;
          oops_cycle = crosses Mode.absx s;
        },
      )
unfolding get_absolute_address_x effective ◌>>=◌ gets set_pc spend pure set_oops
absolute_x_lem s bytes h =
    let small = word_at-word s.cpu.ce s.cpu.pc bytes in
    rw (
      read_word_lem s.cpu.pc s bytes h,
      crossed_lem (word_at s.cpu.ce s.cpu.pc) (u16 (word_at s.cpu.ce s.cpu.pc + s.cpu.x)) _ small
          (omega arith),
    )

pub absolute_y_lem :
    (s : State)
    → IsBytes s.cpu.ce.mem
    → IsWhole s.cpu.pc
    → get_absolute_address_y s
      ≡ some (
        effective Mode.absy s,
        record s {
          cpu = record s.cpu {
            pc = u16 (s.cpu.pc + 2);
            ce = record s.cpu.ce { ce = line_of s.cpu.pc };
          };
          cycles = s.cycles -ℤ pos 2;
          oops_cycle = crosses Mode.absy s;
        },
      )
unfolding get_absolute_address_y effective ◌>>=◌ gets set_pc spend pure set_oops
absolute_y_lem s bytes h =
    let small = word_at-word s.cpu.ce s.cpu.pc bytes in
    rw (
      read_word_lem s.cpu.pc s bytes h,
      crossed_lem (word_at s.cpu.ce s.cpu.pc) (u16 (word_at s.cpu.ce s.cpu.pc + s.cpu.y)) _ small
          (omega arith),
    )

pub indirect_x_lem :
    (s : State)
    → s.cpu.pc < 65536
    → IsBytes s.cpu.ce.mem
    → IsWhole (argument s + s.cpu.x)
    → get_indexed_indirect_x s
      ≡ some (
        effective Mode.indx s,
        record s {
          cpu = record s.cpu {
            pc = u16 (s.cpu.pc + 1);
            ce = record s.cpu.ce { ce = line_of (argument s + s.cpu.x) };
          };
          cycles = s.cycles -ℤ pos 1;
        },
      )
unfolding get_indexed_indirect_x effective ◌>>=◌ gets byte_at
indirect_x_lem s k bytes h =
    rw (zp_lem s k, read_word_lem (argument s + s.cpu.x) (zp_fetched s) bytes h)

pub indirect_y_lem :
    (s : State)
    → s.cpu.pc < 65536
    → IsBytes s.cpu.ce.mem
    → IsWhole (argument s)
    → get_indexed_indirect_y s
      ≡ some (
        effective Mode.indy s,
        record s {
          cpu = record s.cpu {
            pc = u16 (s.cpu.pc + 1);
            ce = record s.cpu.ce { ce = line_of (argument s) };
          };
          cycles = s.cycles -ℤ pos 1 -ℤ pos 2;
          oops_cycle = crosses Mode.indy s;
        },
      )
unfolding get_indexed_indirect_y effective ◌>>=◌ gets spend pure set_oops byte_at
indirect_y_lem s k bytes h =
    let small = word_at-word s.cpu.ce (argument s) bytes in
    rw (
      zp_lem s k,
      read_word_lem (argument s) (zp_fetched s) bytes h,
      crossed_lem (word_at s.cpu.ce (argument s)) (u16 (word_at s.cpu.ce (argument s) + s.cpu.y)) _
          small (omega arith),
    )
