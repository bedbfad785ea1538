-- ===== src/Instructions/Placed.antt =====
-- The compares of src/olc6502.c set `temp` between the two halves of an addressing mode: its address, and
-- the read of the operand.
use m.Base.{ℕ, ◌+◌, ◌≡◌, ◌∙◌, refl, sym, arith, some, u8}
use m.Decoder.Map.{byte_at}
use m.Cpu.{State, ◌>>=◌, skip, gets, set_temp}
use m.Blocks.Compare.{compare_flags}
use m.Valid.{IsValid}
use m.Instructions.{Mode}
use m.Instructions.Meaning.{locate, obtain, compare_register}
use m.Instructions.Decode.{after-skip}
use m.Instructions.Operand.{argument, IsReadable, obtained}
use m.Instructions.Addressing.{byte_at-byte, word_at-word}
use m.Instructions.Obtain.{
  located, read_addr_lem, im-Obtained, zp-Located, zpx-Located, abs-Located, absx-Located,
  absy-Located, indx-Located, indy-Located,
}

-- The state behind `locate`.
unfoldable pub placed : Mode → State → State
unfolding located obtained
placed Mode.im s = obtained Mode.im s
placed mode s = located mode s

abbrev pub with_temp : State → ℕ → State
with_temp s n = record s { temp = n }

im-placed : (s : State) → IsValid s → locate Mode.im s ≡ some (tt, placed Mode.im s)
unfolding placed obtain ◌>>=◌ skip
im-placed s v = sym (after-skip (locate Mode.im s)) ∙ im-Obtained s v

locate-placed :
    (mode : Mode) (s : State)
    → IsValid s
    → IsReadable mode s
    → locate mode s ≡ some (tt, placed mode s)
unfolding placed IsReadable
locate-placed Mode.im s v w = im-placed s v
locate-placed Mode.zp s v w = zp-Located s v
locate-placed Mode.zpx s v w = zpx-Located s v
locate-placed Mode.abs s v w = abs-Located s v w
locate-placed Mode.absx s v w = absx-Located s v w
locate-placed Mode.absy s v w = absy-Located s v w
locate-placed Mode.indx s v w = indx-Located s v w
locate-placed Mode.indy s v w = indy-Located s v w

-- The read of the operand, with `temp` set before it.
obtain-placed :
    (mode : Mode) (s : State) (n : ℕ)
    → IsValid s
    → obtain mode (with_temp (placed mode s) n) ≡ some (tt, with_temp (obtained mode s) n)
unfolding placed obtain obtained located byte_at skip
obtain-placed Mode.im s n v = refl
obtain-placed Mode.zp s n v =
    let byte = byte_at-byte s.cpu.ce s.cpu.pc v.mem_bytes in
    read_addr_lem (with_temp (located Mode.zp s) n) (omega arith) v.mem_bytes
obtain-placed Mode.zpx s n v =
    read_addr_lem (with_temp (located Mode.zpx s) n) (omega arith) v.mem_bytes
obtain-placed Mode.abs s n v =
    read_addr_lem (with_temp (located Mode.abs s) n) (word_at-word s.cpu.ce s.cpu.pc v.mem_bytes)
      v.mem_bytes
obtain-placed Mode.absx s n v =
    read_addr_lem (with_temp (located Mode.absx s) n) (omega arith) v.mem_bytes
obtain-placed Mode.absy s n v =
    read_addr_lem (with_temp (located Mode.absy s) n) (omega arith) v.mem_bytes
obtain-placed Mode.indx s n v =
    read_addr_lem (with_temp (located Mode.indx s) n)
      (word_at-word s.cpu.ce (argument s + s.cpu.x) v.mem_bytes) v.mem_bytes
obtain-placed Mode.indy s n v =
    read_addr_lem (with_temp (located Mode.indy s) n) (omega arith) v.mem_bytes

-- A register that the addressing modes leave alone.
module _ (g : State → ℕ) (kept : (mode : Mode) (s : State) → g (placed mode s) ≡ g s) where
  pub compare_register_lem :
      (mode : Mode) (s : State)
      → IsValid s
      → IsReadable mode s
      → compare_register (gets g) mode s ≡ compare_flags (with_temp (obtained mode s) (u8 (g s)))
  unfolding compare_register ◌>>=◌ gets set_temp
  compare_register_lem mode s v w =
      rw (locate-placed mode s v w, kept mode s, obtain-placed mode s (u8 (g s)) v)

pub kept_a : (mode : Mode) (s : State) → (placed mode s).cpu.a ≡ s.cpu.a
unfolding placed located obtained
kept_a Mode.im s = refl
kept_a _ s = refl

pub kept_x : (mode : Mode) (s : State) → (placed mode s).cpu.x ≡ s.cpu.x
unfolding placed located obtained
kept_x Mode.im s = refl
kept_x _ s = refl

pub kept_y : (mode : Mode) (s : State) → (placed mode s).cpu.y ≡ s.cpu.y
unfolding placed located obtained
kept_y Mode.im s = refl
kept_y _ s = refl
