-- ===== src/Blocks.antt =====
-- The blocks that follow the `switch` in src/olc6502.c. Each tests the fields `aaa`, `bbb` and `cc`
-- of the opcode and does nothing if it is not meant.
pub mod Flag
pub mod Shift
pub mod Operand
pub mod Arithmetic
pub mod Compare
pub mod IncDec
pub mod Branch
