-- ===== src/Instructions/Obtain.antt =====
-- The operand of ADC, SBC and CMP, as the two `switch (bbb)` of src/olc6502.c find and read it.
use m.Base.{
  ℕ, ◌+◌, ◌%◌, ◌<◌, ◌≡◌, ◌∙◌, ap, arith, Bool, true, false, some, u8, u16, bit_and, if◌then◌else◌,
}
use m.Base.Bits.{bit_and_ff}
use m.Base.Int.{ℤ, pos, ◌-ℤ◌, -ℤ_twice}
use m.Decoder.{CeLine}
use m.Decoder.Map.{byte_at, line_of}
use m.Decoder.Word.{IsBytes, IsWhole}
use m.Cpu.{
  State, after, ◌>>=◌, ◌>>◌, pure, skip, gets, set_pc, set_addr, set_fetched, set_oops, spend, read,
}
use m.Cpu.Address.{fetch_operand, zp_address_plus, spend_oops}
use m.Valid.{IsValid}
use m.Instructions.{Mode}
use m.Instructions.Meaning.{locate, obtain}
use m.Instructions.Operand.{
  word_at, argument, effective, crosses, cost, length_of, oops_after, addr_after, IsReadable,
  obtained,
}
use m.Instructions.Addressing.{
  byte_at-byte, word_at-word, on_bus, read_lem, zp_lem, absolute_lem, absolute_x_lem,
  absolute_y_lem, indirect_x_lem, indirect_y_lem,
}

-- The state with the byte at `addr` read.
abbrev pub read_addr : State → State
read_addr s = record (on_bus s s.addr) { fetched = byte_at s.cpu.ce s.addr }

pub read_addr_lem :
    (s : State)
    → s.addr < 65536
    → IsBytes s.cpu.ce.mem
    → (do set_fetched (← read (← gets (λ u. u.addr)))) s ≡ some (tt, read_addr s)
unfolding ◌>>=◌ gets set_fetched
read_addr_lem s h bytes =
    let byte = byte_at-byte s.cpu.ce s.addr bytes in
    let same : u8 (byte_at s.cpu.ce s.addr) ≡ byte_at s.cpu.ce s.addr = omega arith in
    rw (read_lem s.addr s h, same)

-- The line of the decoder's last access.
unfoldable pub line_before : Mode → State → CeLine
line_before Mode.indx s = line_of (argument s + s.cpu.x)
line_before Mode.indy s = line_of (argument s)
line_before _ s = line_of s.cpu.pc

-- The state with the operand located but not read.
unfoldable pub located : Mode → State → State
unfolding effective cost length_of oops_after addr_after line_before
located mode s = record s {
  cpu = record s.cpu {
    pc = (s.cpu.pc + length_of mode) % 65536;
    ce = record s.cpu.ce { ce = line_before mode s };
  };
  oops_cycle = oops_after mode s;
  cycles = s.cycles -ℤ pos (cost mode s);
  addr = addr_after mode s;
}

abbrev pub Located : Mode → State → Type 0
Located mode s = locate mode s ≡ some (tt, located mode s)

pub zp-Located : (s : State) → IsValid s → Located Mode.zp s
unfolding locate located ◌>>=◌ set_addr spend
zp-Located s v =
    let byte = byte_at-byte s.cpu.ce s.cpu.pc v.mem_bytes in
    let same : u16 (argument s) ≡ argument s = omega arith in
    rw (zp_lem s v.pc_word, same, -ℤ_twice s.cycles 1 1)

pub zpx-Located : (s : State) → IsValid s → Located Mode.zpx s
unfolding locate located zp_address_plus ◌>>=◌ gets pure set_addr spend
zpx-Located s v =
    let low : bit_and (argument s + s.cpu.x) 0xff ≡ (argument s + s.cpu.x) % 256 = bit_and_ff _ in
    let same : u16 ((argument s + s.cpu.x) % 256) ≡ (argument s + s.cpu.x) % 256 = omega arith in
    rw (zp_lem s v.pc_word, low, same, -ℤ_twice s.cycles 1 1)

pub abs-Located : (s : State) → IsValid s → IsWhole s.cpu.pc → Located Mode.abs s
unfolding locate located ◌>>=◌ set_addr spend
abs-Located s v w =
    let small = word_at-word s.cpu.ce s.cpu.pc v.mem_bytes in
    let same : u16 (word_at s.cpu.ce s.cpu.pc) ≡ word_at s.cpu.ce s.cpu.pc = omega arith in
    rw (absolute_lem s v.mem_bytes w, same, -ℤ_twice s.cycles 2 1)

-- `cycles -= oops_cycle ? 2 : 1`
oops_cycles :
    (z : ℤ) (n : ℕ) (b : Bool)
    → z -ℤ pos n -ℤ pos (if b then 2 else 1) ≡ z -ℤ pos (n + 1 + (if b then 1 else 0))
oops_cycles z n true = -ℤ_twice z n 2 ∙ ap (λ k. z -ℤ pos k) (omega arith)
oops_cycles z n false = -ℤ_twice z n 1 ∙ ap (λ k. z -ℤ pos k) (omega arith)

pub absx-Located : (s : State) → IsValid s → IsWhole s.cpu.pc → Located Mode.absx s
unfolding locate located spend_oops ◌>>=◌ gets set_oops set_addr spend
absx-Located s v w =
    let same : u16 (effective Mode.absx s) ≡ effective Mode.absx s = omega arith in
    rw (absolute_x_lem s v.mem_bytes w, same, oops_cycles s.cycles 2 (crosses Mode.absx s))

pub absy-Located : (s : State) → IsValid s → IsWhole s.cpu.pc → Located Mode.absy s
unfolding locate located spend_oops ◌>>=◌ gets set_oops set_addr spend
absy-Located s v w =
    let same : u16 (effective Mode.absy s) ≡ effective Mode.absy s = omega arith in
    rw (absolute_y_lem s v.mem_bytes w, same, oops_cycles s.cycles 2 (crosses Mode.absy s))

pub indx-Located : (s : State) → IsValid s → IsWhole (argument s + s.cpu.x) → Located Mode.indx s
unfolding locate located ◌>>=◌ set_addr spend
indx-Located s v w =
    let small = word_at-word s.cpu.ce (argument s + s.cpu.x) v.mem_bytes in
    let same : u16 (effective Mode.indx s) ≡ effective Mode.indx s = omega arith in
    rw (indirect_x_lem s v.pc_word v.mem_bytes w, same, -ℤ_twice s.cycles 1 2)

pub indy-Located : (s : State) → IsValid s → IsWhole (argument s) → Located Mode.indy s
unfolding locate located spend_oops ◌>>=◌ gets set_oops set_addr spend
indy-Located s v w =
    let same : u16 (effective Mode.indy s) ≡ effective Mode.indy s = omega arith in
    rw (
      indirect_y_lem s v.pc_word v.mem_bytes w,
      same,
      -ℤ_twice s.cycles 1 2,
      oops_cycles s.cycles 3 (crosses Mode.indy s),
    )

-- A mode whose operand is read from memory.
read_mode :
    (mode : Mode) (s : State)
    → addr_after mode s < 65536
    → IsValid s
    → (do set_fetched (← read (← gets (λ u. u.addr)))) (located mode s)
      ≡ some (tt, read_addr (located mode s))
unfolding located
read_mode mode s h v = read_addr_lem (located mode s) h v.mem_bytes

located_then :
    (mode : Mode) (s : State)
    → Located mode s
    → obtain mode (located mode s) ≡ some (tt, obtained mode s)
    → (do locate mode; obtain mode) s ≡ some (tt, obtained mode s)
unfolding ◌>>=◌
located_then mode s h k = ap (λ r. after r (λ _. obtain mode)) h ∙ k

pub im-Obtained :
    (s : State) → IsValid s → (do locate Mode.im; obtain Mode.im) s ≡ some (tt, obtained Mode.im s)
unfolding locate obtain obtained fetch_operand ◌>>=◌ gets set_fetched set_pc spend skip byte_at
im-Obtained s v =
    let byte = byte_at-byte s.cpu.ce s.cpu.pc v.mem_bytes in
    let same : u8 (argument s) ≡ argument s = omega arith in
    let started = record s {
      cpu = record s.cpu { pc = u16 (s.cpu.pc + 1) };
      cycles = s.cycles -ℤ pos 1;
    } in
    rw (read_lem s.cpu.pc started v.pc_word, same)

-- Each mode, with its operand read.
pub mode-Obtained :
    (mode : Mode) (s : State)
    → IsValid s
    → IsReadable mode s
    → (do locate mode; obtain mode) s ≡ some (tt, obtained mode s)
unfolding obtain obtained located IsReadable byte_at
mode-Obtained Mode.im s v w = im-Obtained s v
mode-Obtained Mode.zp s v w =
    let byte = byte_at-byte s.cpu.ce s.cpu.pc v.mem_bytes in
    located_then Mode.zp s (zp-Located s v) (read_mode Mode.zp s (omega arith) v)
mode-Obtained Mode.zpx s v w =
    located_then Mode.zpx s (zpx-Located s v) (read_mode Mode.zpx s (omega arith) v)
mode-Obtained Mode.abs s v w =
    located_then Mode.abs s (abs-Located s v w)
      (read_mode Mode.abs s (word_at-word s.cpu.ce s.cpu.pc v.mem_bytes) v)
mode-Obtained Mode.absx s v w =
    located_then Mode.absx s (absx-Located s v w) (read_mode Mode.absx s (omega arith) v)
mode-Obtained Mode.absy s v w =
    located_then Mode.absy s (absy-Located s v w) (read_mode Mode.absy s (omega arith) v)
mode-Obtained Mode.indx s v w =
    located_then Mode.indx s (indx-Located s v w)
      (read_mode Mode.indx s (word_at-word s.cpu.ce (argument s + s.cpu.x) v.mem_bytes) v)
mode-Obtained Mode.indy s v w =
    located_then Mode.indy s (indy-Located s v w) (read_mode Mode.indy s (omega arith) v)
