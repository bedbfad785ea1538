-- ===== src/Tests.antt =====
-- Runs at concrete inputs, and each theorem with hypotheses applied at one where they hold.
mod Processor
mod Alu
mod Bus
mod Loader
mod Shell
mod Instructions
mod Isa
