-- ===== src/Lib.antt =====
-- The m6502 emulator: a 6502 processor, the bus decoder of the NES main board and its memory.
--
-- The program is the C code below src/: memory.c keeps the array of bytes, program.h the table of
-- the ROM, ti74ls138.c maps an address of the processor to the array or to the ROM, and olc6502.c
-- fetches and runs instructions through the bus until the requested cycles are used up. main.c
-- drives it from a command line. The model has a module for each part, and the definitions keep the
-- names of the C code in lower case.
--
-- - Base: numbers, tests, the integers of the cycle counter, and the laws of the bit operations.
-- - Memory: src/memory.c and src/memory.h.
-- - Progmem: the table of src/program.h, which is 0 but for its first 36 and its last 6 bytes.
-- - Decoder: src/ti74ls138.c and src/ti74ls138.h; Decoder/Map, Decoder/Access and Decoder/Word are
--   about the address map, single bytes and words.
-- - Cpu: the registers of src/olc6502.h, the flag bits, and the helpers of src/olc6502.c: Cpu/Address
--   the fetches and addressing modes, Cpu/Stack the stack, Cpu/Reset power-up and reset.
-- - Switch: the `switch (opcode)` of `olc6502_clock`. Its cases stand in Switch/Load, Store,
--   Transfer, Shift, Bitwise, Jump and StackOps, Switch/Labels is about their labels. The labels
--   are those of src/include/olc6502_constants.h.
-- - Blocks: the six `if` blocks behind the switch, which take the fields of the opcode.
-- - Clock: the body of the `while` loop (`step`), the loop, and `olc6502_clock`.
-- - Valid, Cost, Alu, Call: what is shown of the processor. Valid is about the ranges of its
--   variables, Cost about its cycles, Alu about arithmetic, shifts and branches, Call about the stack,
--   calls and the reset.
-- - Instructions: the 151 documented instructions by name. Instructions/Meaning says what each does by
--   its addressing mode, Instructions/Decode, Cases and Dispatch are about the way from an opcode to
--   it, Instructions/Operand, Addressing, Indirect, Obtain and Placed about the addressing modes, and
--   Instructions/Round, Sum, Compare and Count about whole rounds of the loop that run ADC, SBC, the
--   compares, and INC and DEC.
-- - Isa: a reference for those instructions on what a program sees: the registers, the memory and the cycles left.
--   Isa/Address has the addressing modes, Isa/Reference, Effects, Operations and Control the
--   instructions, and Isa/Exec the rounds one after another; they are written from what the instructions are
--   to do, with the code's departures from the 6502 taken over (they are listed below). Isa/Encoding has the
--   layout of the opcodes. Isa/Load, Store, Logic, Plain, Sum,
--   Compare, Count, Branch, Shift, Bit and Jump compare the code with it by families, with Isa/Aim for what they
--   share, and Isa/Refines compares a round and a call of `olc6502_clock`. Isa/Blind is about the cycles
--   left.
-- - Fibonacci: the ROM's program on the reference, its start (Entry, Start), loop (Turn, Loop) and end (End);
--   Fibonacci/Run has it on `olc6502_clock`, and Fibonacci/Command on the commands of the shell.
-- - Text: the functions of the C library that src/main.c and src/prg_loader.c call on text: `fgets`, `strtok`,
--   `strtol`, `strtoul`, `atoi`, and `printf` of hexadecimal numbers. Text/Hex is about the latter.
-- - Loader: src/prg_loader.c, the text file of segments; Loader/RoundTrip and Loader/Fuel are about it.
-- - Shell: src/main.c, the commands of the shell: Shell/Session has most of them and the start of
--   `main`, Shell/Wozmon the serial port. Shell/Valid is about the ranges of
--   the machine behind the prompt and Shell/Invariant about them at its start, Shell/Run about the command
--   `run`, Shell/Commands about `inspect` and `wozmon write`, Shell/Start about the start of `main`, and
--   Shell/Guest about calls that request one cycle.
-- - SelfTest: the assertions of src/test-ti74ls138.c.
-- - Tests: runs at concrete inputs; the ROM's program is run for 400 cycles.
--
-- How the code is read:
-- - An action on the processor is a function from a state to a result and a state, or `none`. The
--   state is the processor, the global `oops_cycle`, and the variables of `olc6502_clock` that
--   outlive an instruction. The pointer `CE` is held by value: nothing else uses the decoder while
--   the processor runs.
-- - An access outside an array is undefined in C. In the model it is `none`, and the clock then ends
--   in `fault`.
-- - Every assignment converts to the width of its variable. The fields of `union Flags` are taken
--   lowest bit first, as common compilers lay them out.
-- - `cycles` is an integer without bound; the value returned is converted to 32 bits.
-- - `NES_USE_EXPANSION_ROM` and `DEBUG` are not defined.
-- - The loop has fuel: one instruction for each requested cycle, which is enough as each instruction
--   takes a cycle or more. `out_of_fuel` is the third way to end, besides `done` and `fault`.
-- - A text is the list of its bytes and a file is a text, or none if it cannot be opened. `long` and
--   `int` have 32 bits, and a pointer 4 bytes, as on the board that src/Makefile names. What the shell
--   commands print is a list of lines, with the numbers in them; the total that `run` prints is an
--   integer without bound.
-- - The loops over the lines and tokens of a file have the length of the text as fuel, which is
--   enough as each round takes a byte or more. The loops of `run` and `wozmon read` may go on for
--   ever: their fuel is an argument, and what is shown of them holds for every value of it.
--
-- Where the code departs from the 6502, the model and the reference follow the code:
-- - The words of the indirect modes are read without a return to the zero page: for ($FF),Y the high byte is
--   that at 0x0100, and (n,X) reads at n + X. The comments in the functions have both modulo 256, and
--   src/olc6502.h has Y added before the word is read.
-- - SBC adds the carry and leaves C set exactly on a result out of 0..255; its V is the opposite of signed
--   overflow for the operand 0x80.
-- - CPX and CPY immediate run in the indexed indirect mode; CLV sets V; INC and DEC count from the
--   accumulator; TXS and TSX move X to and from the byte that SP points to.
-- - PLP, RTI and BIT join flags to those that are set; the interrupt flag that PLP and RTI pass on to the
--   next instruction is 0.
-- - Some cycles differ: those of the indexed indirect mode, of LDA zero page, of zero page,X in the sums and
--   compares, and of a branch whose operand is the last byte of a page.
-- - Words on the bus take their second byte at the next place of the array, also where a mirror ends.
-- - Writes from $8000 on go to the memory array and not to the ROM.
--
-- Not modelled: the shell of RIOT, which reads the command lines; the `main` of src/prg_loader.c that is
-- compiled with `DEBUGLOAD` only; debug prints, messages on errors of the file system, build files and
-- the assembly programs, but for the one that the ROM holds.
pub mod Base
pub mod Memory
pub mod Progmem
pub mod Decoder
pub mod Cpu
pub mod Switch
pub mod Blocks
pub mod Clock
pub mod Valid
pub mod Cost
pub mod Alu
pub mod Call
pub mod Text
pub mod Loader
pub mod Shell
pub mod SelfTest
pub mod Instructions
pub mod Isa
pub mod Fibonacci
mod Tests
