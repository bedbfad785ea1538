-- ===== src/Instructions/Operand.antt =====
-- The operands of the 6502 by addressing mode: where they are, and what it costs to read them. The
-- state is that of olc6502_clock in src/olc6502.c, with `pc` behind the opcode.
use m.Base.{ℕ, ◌+◌, ◌*◌, ◌/◌, ◌%◌, Bool, false, not, ◌==◌, if◌then◌else◌}
use m.Base.Int.{pos, ◌-ℤ◌}
use m.Decoder.{Decoder}
use m.Decoder.Map.{byte_at, line_of}
use m.Decoder.Word.{IsWhole}
use m.Cpu.{State}
use m.Instructions.{Mode}

-- The little-endian word at an address.
unfoldable pub word_at : Decoder → ℕ → ℕ
word_at ce a = byte_at ce (a + 1) * 256 + byte_at ce a

-- The byte behind the opcode.
abbrev pub argument : State → ℕ
argument s = byte_at s.cpu.ce s.cpu.pc

-- The address that is taken before an index is added.
unfoldable pub base : Mode → State → ℕ
unfolding word_at
base Mode.im s = s.cpu.pc
base Mode.zp s = argument s
base Mode.zpx s = argument s
base Mode.abs s = word_at s.cpu.ce s.cpu.pc
base Mode.absx s = word_at s.cpu.ce s.cpu.pc
base Mode.absy s = word_at s.cpu.ce s.cpu.pc
base Mode.indx s = word_at s.cpu.ce (argument s + s.cpu.x)
base Mode.indy s = word_at s.cpu.ce (argument s)

-- The address of the operand, with `pc` behind the opcode. As in the code, the words of the two indirect
-- modes do not wrap in the zero page: (n,X) leaves it where n + X is 0xff or above, and for ($FF),Y
-- the high byte is that at 0x0100. The 6502, and the comments of the code, wrap.
unfoldable pub effective : Mode → State → ℕ
unfolding base
effective Mode.zpx s = (base Mode.zpx s + s.cpu.x) % 256
effective Mode.absx s = (base Mode.absx s + s.cpu.x) % 65536
effective Mode.absy s = (base Mode.absy s + s.cpu.y) % 65536
effective Mode.indy s = (base Mode.indy s + s.cpu.y) % 65536
effective mode s = base mode s

-- The bytes behind the opcode.
unfoldable pub length_of : Mode → ℕ
length_of Mode.abs = 2
length_of Mode.absx = 2
length_of Mode.absy = 2
length_of _ = 1

-- The index moves the address to another page.
abbrev pub crosses : Mode → State → Bool
crosses mode s = not (base mode s / 256 == effective mode s / 256)

abbrev pub extra : Mode → State → ℕ
extra mode s = if crosses mode s then 1 else 0

-- The cycles behind that of the opcode.
unfoldable pub cost : Mode → State → ℕ
unfolding effective
cost Mode.im s = 1
cost Mode.zp s = 2
cost Mode.zpx s = 2
cost Mode.abs s = 3
cost Mode.absx s = 3 + extra Mode.absx s
cost Mode.absy s = 3 + extra Mode.absy s
cost Mode.indx s = 3
cost Mode.indy s = 4 + extra Mode.indy s

unfoldable pub oops_after : Mode → State → Bool
oops_after Mode.absx s = false
oops_after Mode.absy s = false
oops_after Mode.indy s = false
oops_after _ s = s.oops_cycle

unfoldable pub addr_after : Mode → State → ℕ
unfolding effective
addr_after Mode.im s = s.addr
addr_after mode s = effective mode s

-- The words that the mode reads are in one device.
unfoldable pub IsReadable : Mode → State → Type 0
IsReadable Mode.abs s = IsWhole s.cpu.pc
IsReadable Mode.absx s = IsWhole s.cpu.pc
IsReadable Mode.absy s = IsWhole s.cpu.pc
IsReadable Mode.indx s = IsWhole (argument s + s.cpu.x)
IsReadable Mode.indy s = IsWhole (argument s)
IsReadable _ s = Unit {0}

-- The state with the operand read.
unfoldable pub obtained : Mode → State → State
unfolding effective cost length_of oops_after addr_after
obtained mode s = record s {
  cpu = record s.cpu {
    pc = (s.cpu.pc + length_of mode) % 65536;
    ce = record s.cpu.ce { ce = line_of (effective mode s) };
  };
  oops_cycle = oops_after mode s;
  cycles = s.cycles -ℤ pos (cost mode s);
  addr = addr_after mode s;
  fetched = byte_at s.cpu.ce (effective mode s);
}
