-- ===== src/Instructions.antt =====
-- The documented instructions, by name: those with a case in the `switch (opcode)` of src/olc6502.c, and
-- those that only the blocks behind it run, with their opcodes from
-- src/include/olc6502_constants.h.
pub mod Meaning
pub mod Decode
pub mod Cases
pub mod Dispatch
pub mod Operand
pub mod Addressing
pub mod Indirect
pub mod Obtain
pub mod Round
pub mod Sum
pub mod Placed
pub mod Compare
pub mod Count
use m.Base.{ℕ}
use m.Switch.{Case, opcode_of}

pub data FlagIns : Type 0 where
  clc sec cld sed cli sei clv : FlagIns

pub data BranchIns : Type 0 where
  beq bne bcs bcc bmi bpl bvc bvs : BranchIns

pub data Mode : Type 0 where
  im zp zpx abs absx absy indx indy : Mode

pub data SumIns : Type 0 where
  adc sbc : SumIns

pub data IndexIns : Type 0 where
  cpx cpy : IndexIns

pub data IndexMode : Type 0 where
  im zp abs : IndexMode

pub data CountIns : Type 0 where
  dec inc : CountIns

pub data CountMode : Type 0 where
  zp zpx abs absx : CountMode

pub data Instruction : Type 0 where
  labelled : Case → Instruction
  flag : FlagIns → Instruction
  branch : BranchIns → Instruction
  sum : SumIns → Mode → Instruction
  cmp : Mode → Instruction
  compare_index : IndexIns → IndexMode → Instruction
  count : CountIns → CountMode → Instruction

unfoldable pub count_opcode : CountIns → CountMode → ℕ
count_opcode dec CountMode.zp = 0xC6
count_opcode dec CountMode.zpx = 0xD6
count_opcode dec CountMode.abs = 0xCE
count_opcode dec CountMode.absx = 0xDE
count_opcode inc CountMode.zp = 0xE6
count_opcode inc CountMode.zpx = 0xF6
count_opcode inc CountMode.abs = 0xEE
count_opcode inc CountMode.absx = 0xFE

unfoldable pub branch_opcode : BranchIns → ℕ
branch_opcode beq = 0xF0
branch_opcode bne = 0xD0
branch_opcode bcs = 0xB0
branch_opcode bcc = 0x90
branch_opcode bmi = 0x30
branch_opcode bpl = 0x10
branch_opcode bvc = 0x50
branch_opcode bvs = 0x70

unfoldable pub flag_opcode : FlagIns → ℕ
flag_opcode clc = 0x18
flag_opcode sec = 0x38
flag_opcode cld = 0xD8
flag_opcode sed = 0xF8
flag_opcode cli = 0x58
flag_opcode sei = 0x78
flag_opcode clv = 0xB8

unfoldable pub sum_opcode : SumIns → Mode → ℕ
sum_opcode adc Mode.im = 0x69
sum_opcode adc Mode.zp = 0x65
sum_opcode adc Mode.zpx = 0x75
sum_opcode adc Mode.abs = 0x6D
sum_opcode adc Mode.absx = 0x7D
sum_opcode adc Mode.absy = 0x79
sum_opcode adc Mode.indx = 0x61
sum_opcode adc Mode.indy = 0x71
sum_opcode sbc Mode.im = 0xE9
sum_opcode sbc Mode.abs = 0xED
sum_opcode sbc Mode.zp = 0xE5
sum_opcode sbc Mode.zpx = 0xF5
sum_opcode sbc Mode.absx = 0xFD
sum_opcode sbc Mode.absy = 0xF9
sum_opcode sbc Mode.indx = 0xE1
sum_opcode sbc Mode.indy = 0xF1

unfoldable pub cmp_opcode : Mode → ℕ
cmp_opcode Mode.im = 0xC9
cmp_opcode Mode.zp = 0xC5
cmp_opcode Mode.zpx = 0xD5
cmp_opcode Mode.abs = 0xCD
cmp_opcode Mode.absx = 0xDD
cmp_opcode Mode.absy = 0xD9
cmp_opcode Mode.indx = 0xC1
cmp_opcode Mode.indy = 0xD1

unfoldable pub index_opcode : IndexIns → IndexMode → ℕ
index_opcode cpx IndexMode.im = 0xE0
index_opcode cpy IndexMode.im = 0xC0
index_opcode cpx IndexMode.zp = 0xE4
index_opcode cpy IndexMode.zp = 0xC4
index_opcode cpx IndexMode.abs = 0xEC
index_opcode cpy IndexMode.abs = 0xCC

unfoldable pub code : Instruction → ℕ
unfolding count_opcode branch_opcode flag_opcode sum_opcode cmp_opcode index_opcode opcode_of
code (labelled c) = opcode_of c
code (flag i) = flag_opcode i
code (branch i) = branch_opcode i
code (sum i mode) = sum_opcode i mode
code (cmp mode) = cmp_opcode mode
code (compare_index i mode) = index_opcode i mode
code (count i mode) = count_opcode i mode
