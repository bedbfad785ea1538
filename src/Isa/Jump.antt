-- ===== src/Isa/Jump.antt =====
-- The jumps, calls and returns of src/olc6502.c against the reference.
use m.Base.{ℕ, ◌+◌, ◌*◌, ◌/◌, ◌%◌, ◌<◌, ◌≡◌, refl, arith, some, bit_and, bit_or}
use m.Base.Bits.{bit_and_ff, bit_and_ff00, bit_and-le, bit_or_low, bit_or-lt}
use m.Base.Int.{pos, ◌-ℤ◌, -ℤ_twice}
use m.Progmem.{progmem}
use m.Decoder.{Decoder, bus_read_word, prg_rom3}
use m.Decoder.Map.{byte_at, line_of}
use m.Decoder.Word.{word_in_rom}
use m.Cpu.{
  State, ◌>>=◌, gets, set_pc, set_ps, set_i_nxt, set_addr, set_fetched, set_temp, set_flag, spend,
  put_bit, flag_i, read_word, pure,
}
use m.Cpu.Address.{get_absolute_address}
use m.Cpu.Reset.{irq_vector}
use m.Isa.Plain.{byte_same, even_bit}
use m.Switch.Jump.{JumpIns, jmp_abs, jmp_ind, jsr, rts, brk, rti, jump}
use m.Call.Stack.{
  pushed, pushed_word, push_word_lem, push_byte_lem, pulled, pull_byte_lem, pull_word_lem,
}
use m.Valid.{IsValid}
use m.Instructions.Addressing.{byte_at-byte, read_lem, on_bus}
use m.Instructions.Round.{fetch_lem, fetched_opcode}
use m.Isa.{visible, peek}
use m.Isa.Address.{Place, address}
use m.Isa.Control.{run_jump, IsJumpable}
use m.Isa.Aim.{aim, aimed, aim_lem, address-word, Lands}

-- The address of the high byte of an indirect target.
within_page :
    (a : ℕ)
    → a < 65536
    → bit_or (bit_and a 0xff00) (bit_and (a + 1) 0xff) ≡ a / 256 * 256 + (a + 1) % 256
within_page a h =
    let high : a / 256 % 256 ≡ a / 256 = omega arith in
    rw (bit_and_ff00 a, bit_and_ff (a + 1), high)
      (bit_or_low 8 (a / 256) ((a + 1) % 256) (omega arith))

abbrev absolute : State → ℕ
absolute u = address Place.abs (visible u)

absolute_same : (u : State) → IsValid u → absolute u % 65536 ≡ absolute u
absolute_same u v = omega (arith, address-word Place.abs u v)

join_bytes : (h l : ℕ) → h < 256 → l < 256 → bit_or (h * 256) l ≡ h * 256 + l
join_bytes h l k m = bit_or_low 8 h l m

word_same : (h l : ℕ) → h < 256 → l < 256 → (h * 256 + l) % 65536 ≡ h * 256 + l
word_same h l k m = omega arith

-- The two bytes of a word that is pushed.
high_same : (w : ℕ) → w < 65536 → w / 256 % 256 ≡ w / 256
high_same w h = omega arith

low_same : (w : ℕ) → bit_and w 0xff % 256 ≡ w % 256
low_same w = omega (arith, bit_and_ff w)

operand_end : (pc : ℕ) → pc < 65536 → ((pc + 2) % 65536 + 65535) % 65536 ≡ (pc + 1) % 65536
operand_end pc h = omega arith

-- The address of the byte that is pulled with the stack pointer `sp`.
abbrev frame : ℕ → ℕ
frame sp = 0x100 + (sp + 1) % 256

-- The address of the interrupt routine, from the end of the ROM.
abbrev pub irq_address : ℕ
irq_address = progmem 32767 * 256 + progmem 32766

pub irq_word :
    (dev : Decoder)
    → bus_read_word dev irq_vector ≡ some (irq_address, record dev { ce = prg_rom3 })
unfolding byte_at line_of
irq_word dev = word_in_rom dev irq_vector (omega arith) (omega arith)

irq_lem :
    (s : State)
    → s.cpu.pc ≡ irq_vector
    → get_absolute_address s
      ≡ some (
        irq_address,
        record s {
          cpu = record s.cpu { pc = 0; ce = record s.cpu.ce { ce = prg_rom3 } };
          cycles = s.cycles -ℤ pos 2;
        },
      )
unfolding get_absolute_address ◌>>=◌ gets set_pc spend read_word pure
irq_lem s h = rw (h, irq_word s.cpu.ce)

module _ (u : State) (v : IsValid u) where
  abs_jump : IsJumpable jmp_abs (visible u) → Lands (jump jmp_abs u) (run_jump jmp_abs (visible u))
  unfolding jump run_jump IsJumpable ◌>>=◌ set_pc aim aimed address
  abs_jump w = rw (aim_lem Place.abs u v w, absolute_same u v)

  indirect_jump :
      IsJumpable jmp_ind (visible u) → Lands (jump jmp_ind u) (run_jump jmp_ind (visible u))
  unfolding jump run_jump IsJumpable ◌>>=◌ gets set_pc set_addr spend aim aimed address peek byte_at
  indirect_jump w =
      let s = aimed Place.abs u in
      let a = absolute u in
      let high = a / 256 * 256 + (a + 1) % 256 in
      let word = address-word Place.abs u v in
      let to = record s { addr = a } in
      let h = byte_at-byte u.cpu.ce high v.mem_bytes in
      let l = byte_at-byte u.cpu.ce a v.mem_bytes in
      rw
        (
          aim_lem Place.abs u v w,
          absolute_same u v,
          within_page a word,
          read_lem high to (omega arith),
          read_lem a (on_bus to high) word,
          join_bytes (byte_at u.cpu.ce high) (byte_at u.cpu.ce a) h l,
        )
        (simp (word_same (byte_at u.cpu.ce high) (byte_at u.cpu.ce a) h l, -ℤ_twice))

  call : IsJumpable jsr (visible u) → Lands (jump jsr u) (run_jump jsr (visible u))
  unfolding jump run_jump IsJumpable ◌>>=◌ gets set_pc set_addr spend aim aimed address
  call w =
      let s = aimed Place.abs u in
      let a = absolute u in
      let end = (u.cpu.pc + 1) % 65536 in
      rw (aim_lem Place.abs u v w, absolute_same u v, operand_end u.cpu.pc v.pc_word)
        (rw
          (
            push_word_lem end (record s { addr = a }) v.sp_byte,
            absolute_same u v,
            high_same end (omega arith),
            low_same end,
          )
          (simp (-ℤ_twice)))

  return : Lands (jump rts u) (run_jump rts (visible u))
  unfolding jump run_jump ◌>>=◌ set_pc spend peek byte_at
  return =
      let low = byte_at u.cpu.ce (frame u.cpu.sp) in
      let high = byte_at u.cpu.ce (frame ((u.cpu.sp + 1) % 256)) in
      let l = byte_at-byte u.cpu.ce (frame u.cpu.sp) v.mem_bytes in
      let h = byte_at-byte u.cpu.ce (frame ((u.cpu.sp + 1) % 256)) v.mem_bytes in
      rw (pull_word_lem u, join_bytes high low h l) (simp (-ℤ_twice))

  interrupt : Lands (jump brk u) (run_jump brk (visible u))
  unfolding jump run_jump ◌>>=◌ gets set_pc set_i_nxt set_temp set_flag spend progmem
  interrupt =
      let end = (u.cpu.pc + 1) % 65536 in
      let flags = bit_or u.cpu.ps 0x30 in
      let small = bit_or-lt 8 u.cpu.ps 0x30 v.ps_byte (omega arith) in
      let same = byte_same flags small in
      let below = record (pushed_word end (fetched_opcode u)) { temp = flags } in
      let last = pushed flags below in
      rw (fetch_lem u v.pc_word) (
        rw (push_word_lem end (fetched_opcode u) v.sp_byte, same)
          (rw (push_byte_lem flags below (omega arith)) (
            rw
              (
                irq_lem
                    (record last {
                      cpu = record last.cpu {
                        ps = put_bit flag_i 1 last.cpu.ps;
                        i_nxt = 1;
                        pc = irq_vector;
                      };
                    })
                    refl,
                same,
                high_same end (omega arith),
                low_same end,
              )
              (simp (-ℤ_twice)))))

  interrupt_return : Lands (jump rti u) (run_jump rti (visible u))
  unfolding jump run_jump ◌>>=◌ gets set_pc set_ps set_i_nxt set_addr set_fetched spend peek byte_at
  interrupt_return =
      let sp = (u.cpu.sp + 1) % 256 in
      let n = byte_at u.cpu.ce (frame u.cpu.sp) in
      let byte = byte_at-byte u.cpu.ce (frame u.cpu.sp) v.mem_bytes in
      let joined =
        bit_or-lt 8 u.cpu.ps (bit_and n 0xcf) v.ps_byte (omega (arith, bit_and-le n 0xcf)) in
      let back = record (pulled u) {
        cpu = record (pulled u).cpu { ps = bit_or u.cpu.ps (bit_and n 0xcf); i_nxt = 0 };
        cycles = (pulled u).cycles -ℤ pos 2;
        fetched = n;
      } in
      let low = byte_at u.cpu.ce (frame sp) in
      let high = byte_at u.cpu.ce (frame ((sp + 1) % 256)) in
      let l = byte_at-byte u.cpu.ce (frame sp) v.mem_bytes in
      let h = byte_at-byte u.cpu.ce (frame ((sp + 1) % 256)) v.mem_bytes in
      rw
        (
          pull_byte_lem u,
          byte_same n byte,
          byte_same (bit_or u.cpu.ps (bit_and n 0xcf)) joined,
          even_bit n,
        )
        (rw (pull_word_lem back, join_bytes high low h l) (simp (word_same high low h l, -ℤ_twice)))

pub jump-Lands :
    (i : JumpIns) (u : State)
    → IsValid u
    → IsJumpable i (visible u)
    → Lands (jump i u) (run_jump i (visible u))
jump-Lands jmp_abs u v w = abs_jump u v w
jump-Lands jmp_ind u v w = indirect_jump u v w
jump-Lands jsr u v w = call u v w
jump-Lands rts u v w = return u v
jump-Lands brk u v w = interrupt u v
jump-Lands rti u v w = interrupt_return u v
