-- ===== src/Isa/Address.antt =====
-- The addressing modes of the 6502 on what a program sees, with `pc` behind the opcode.
use m.Base.{ℕ, ◌<◌, ◌+◌, ◌/◌, ◌%◌, Bool, not, ◌==◌, if◌then◌else◌}
use m.Decoder.Word.{IsWhole}
use m.Isa.{Visible, peek, peek_word}

pub data Place : Type 0 where
  im zp zpx zpy abs absx absy indx indy : Place

-- The byte behind the opcode.
abbrev pub operand : Visible → ℕ
operand v = peek v v.pc

-- The address before an index is added to it.
unfoldable pub origin : Place → Visible → ℕ
unfolding peek
origin im v = v.pc
origin zp v = operand v
origin zpx v = operand v
origin zpy v = operand v
origin abs v = peek_word v v.pc
origin absx v = peek_word v v.pc
origin absy v = peek_word v v.pc
origin indx v = peek_word v (operand v + v.x)
origin indy v = peek_word v (operand v)

-- Both indirect modes depart from the 6502 as the code does: the word is read at an address and the next
-- one without a return to the zero page. The indexed indirect mode leaves it where the sum is
-- 0xff or above, and the indirect indexed mode with the operand 0xff takes the high byte at 0x0100, where
-- the comments of the code have it modulo 256.
unfoldable pub address : Place → Visible → ℕ
unfolding origin
address zpx v = (origin zpx v + v.x) % 256
address zpy v = (origin zpy v + v.y) % 256
address absx v = (origin absx v + v.x) % 65536
address absy v = (origin absy v + v.y) % 65536
address indy v = (origin indy v + v.y) % 65536
address p v = origin p v

-- The bytes behind the opcode.
abbrev pub size : Place → ℕ
size abs = 2
size absx = 2
size absy = 2
size _ = 1

-- The index moves the address to another page.
abbrev pub crosses : Place → Visible → Bool
crosses p v = not (origin p v / 256 == address p v / 256)

-- The cycle of a read, and one more if the index crossed to another page.
abbrev pub read_cycle : Place → Visible → ℕ
read_cycle p v = if crosses p v then 2 else 1

-- The words that are read do not end where a device ends.
unfoldable pub IsReadable : Place → Visible → Type 0
unfolding peek
IsReadable abs v = IsWhole v.pc
IsReadable absx v = IsWhole v.pc
IsReadable absy v = IsWhole v.pc
IsReadable indx v = IsWhole (operand v + v.x)
IsReadable indy v = IsWhole (operand v)
IsReadable _ v = Unit {0}

-- An address whose byte can be stored: not past the end of the memory array.
abbrev pub IsWritable : ℕ → Type 0
IsWritable a = a < 0xa808
