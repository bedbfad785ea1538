-- ===== src/Call.antt =====
-- Calls and returns through the stack, and the reset, of src/olc6502.c.
pub mod Stack
pub mod Return
pub mod Restart
