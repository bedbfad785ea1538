-- ===== src/Alu.antt =====
-- What the arithmetic of src/olc6502.c computes, stated on numbers.
pub mod Flags
pub mod Add
pub mod Subtract
pub mod Shift
pub mod Branch
