-- ===== src/Isa/Aim.antt =====
-- The addressing functions of src/olc6502.c against the addresses of the reference, and what is common to the
-- instructions that read an operand.
use m.Base.{ℕ, ◌+◌, ◌%◌, ◌<◌, ◌≡◌, refl, sym, subst, arith, Bool, Option, none, some}
use m.Base.Bits.{bit_and_ff}
use m.Base.Int.{pos, ◌-ℤ◌, -ℤ_twice}
use m.Decoder.{CeLine}
use m.Decoder.Map.{byte_at, line_of}
use m.Cpu.{
  M, State, ◌>>=◌, ◌>>◌, gets, pure, get_pc, get_x, get_y, get_addr, set_pc, set_addr, set_flag,
  spend, read, update_flags_from_register,
}
use m.Cpu.Address.{
  get_zp_address, get_absolute_address, get_absolute_address_x, get_absolute_address_y,
  get_indexed_indirect_x, get_indexed_indirect_y, zp_address_plus,
}
use m.Alu.Flags.{zn, with_ps, sign_bit}
use m.Valid.{IsValid}
use m.Instructions.Addressing.{
  byte_at-byte, word_at-word, on_bus, read_lem, zp_lem, absolute_lem, absolute_x_lem,
  absolute_y_lem, indirect_x_lem, indirect_y_lem,
}
use m.Instructions.Operand.{word_at}
use m.Isa.{Visible, visible, peek}
use m.Isa.Address.{Place, operand, address, size, crosses, IsReadable}

-- How the code computes an address.
unfoldable pub aim : Place → M ℕ
aim Place.im = do spend 1; pc ← get_pc; set_pc (pc + 1); pure pc
aim Place.zp = get_zp_address
aim Place.zpx = zp_address_plus get_x
aim Place.zpy = zp_address_plus get_y
aim Place.abs = get_absolute_address
aim Place.absx = get_absolute_address_x
aim Place.absy = get_absolute_address_y
aim Place.indx = get_indexed_indirect_x
aim Place.indy = get_indexed_indirect_y

unfoldable pub aim_cycles : Place → ℕ
aim_cycles Place.abs = 2
aim_cycles Place.absx = 2
aim_cycles Place.absy = 2
aim_cycles Place.indy = 3
aim_cycles _ = 1

unfoldable pub aim_oops : Place → State → Bool
aim_oops Place.absx u = crosses Place.absx (visible u)
aim_oops Place.absy u = crosses Place.absy (visible u)
aim_oops Place.indy u = crosses Place.indy (visible u)
aim_oops _ u = u.oops_cycle

unfoldable pub aim_line : Place → State → CeLine
aim_line Place.im u = u.cpu.ce.ce
aim_line Place.indx u = line_of (operand (visible u) + u.cpu.x)
aim_line Place.indy u = line_of (operand (visible u))
aim_line _ u = line_of u.cpu.pc

-- The state with the address computed.
unfoldable pub aimed : Place → State → State
unfolding aim_cycles aim_oops aim_line
aimed p u = record u {
  cpu = record u.cpu {
    pc = (u.cpu.pc + size p) % 65536;
    ce = record u.cpu.ce { ce = aim_line p u };
  };
  oops_cycle = aim_oops p u;
  cycles = u.cycles -ℤ pos (aim_cycles p);
}

zp_plus_lem :
    (index : State → ℕ) (u : State)
    → u.cpu.pc < 65536
    → index (aimed Place.zp u) ≡ index u
    → zp_address_plus (gets index) u
      ≡ some ((operand (visible u) + index u) % 256, aimed Place.zp u)
unfolding zp_address_plus ◌>>=◌ gets pure aimed peek byte_at
zp_plus_lem index u h same = rw (zp_lem u h, same, bit_and_ff (operand (visible u) + index u))

pub aim_lem :
    (p : Place) (u : State)
    → IsValid u
    → IsReadable p (visible u)
    → aim p u ≡ some (address p (visible u), aimed p u)
unfolding aim aimed address IsReadable ◌>>=◌ gets pure spend set_pc peek byte_at
    m.Instructions.Operand.effective
aim_lem Place.im u v w = refl
aim_lem Place.zp u v w = zp_lem u v.pc_word
aim_lem Place.zpx u v w = zp_plus_lem (λ s. s.cpu.x) u v.pc_word refl
aim_lem Place.zpy u v w = zp_plus_lem (λ s. s.cpu.y) u v.pc_word refl
aim_lem Place.abs u v w = absolute_lem u v.mem_bytes w
aim_lem Place.absx u v w = absolute_x_lem u v.mem_bytes w
aim_lem Place.absy u v w = absolute_y_lem u v.mem_bytes w
aim_lem Place.indx u v w = indirect_x_lem u v.pc_word v.mem_bytes w
aim_lem Place.indy u v w = rw (indirect_y_lem u v.pc_word v.mem_bytes w, -ℤ_twice u.cycles 1 2)

pub address-word : (p : Place) (u : State) → IsValid u → address p (visible u) < 65536
unfolding address peek byte_at word_at
address-word Place.im u v = v.pc_word
address-word Place.zp u v = omega (arith, byte_at-byte u.cpu.ce u.cpu.pc v.mem_bytes)
address-word Place.zpx u v = omega arith
address-word Place.zpy u v = omega arith
address-word Place.abs u v = word_at-word u.cpu.ce u.cpu.pc v.mem_bytes
address-word Place.absx u v = omega arith
address-word Place.absy u v = omega arith
address-word Place.indx u v = word_at-word u.cpu.ce (operand (visible u) + u.cpu.x) v.mem_bytes
address-word Place.indy u v = omega arith

-- The operand.
abbrev pub value : Place → State → ℕ
value p u = peek (visible u) (address p (visible u))

pub value-byte : (p : Place) (u : State) → IsValid u → value p u < 256
unfolding peek
value-byte p u v = byte_at-byte u.cpu.ce (address p (visible u)) v.mem_bytes

pub value_same : (p : Place) (u : State) → IsValid u → value p u % 256 ≡ value p u
unfolding peek
value_same p u v = omega (arith, byte_at-byte u.cpu.ce (address p (visible u)) v.mem_bytes)

-- The state with the operand read, and with its address stored or not.
abbrev pub at_operand : Place → State → State
at_operand p u = on_bus (aimed p u) (address p (visible u))

abbrev pub at_stored : Place → State → State
at_stored p u = record (at_operand p u) { addr = address p (visible u) }

module _ (p : Place) (u : State) (v : IsValid u) (w : IsReadable p (visible u)) where
  direct : (f : ℕ → M (Unit {0})) → (aim p >>= λ a. read a >>= f) u ≡ f (value p u) (at_operand p u)
  unfolding ◌>>=◌ peek byte_at aimed
  direct f = rw (aim_lem p u v w, read_lem (address p (visible u)) (aimed p u) (address-word p u v))

  pub stored :
      (f : ℕ → M (Unit {0}))
      → (aim p >>= λ a. set_addr a >> (get_addr >>= λ b. read b >>= f)) u
        ≡ f (value p u) (at_stored p u)
  unfolding ◌>>=◌ gets set_addr peek byte_at aimed
  stored f =
      let word = address-word p u v in
      let same : address p (visible u) % 65536 ≡ address p (visible u) = omega arith in
      rw (
        aim_lem p u v w,
        same,
        read_lem (address p (visible u)) (record (aimed p u) { addr = address p (visible u) }) word,
      )

pub flags_any :
    (n : ℕ) (s : State)
    → update_flags_from_register n s ≡ some (tt, with_ps s (zn (n % 256) s.cpu.ps))
unfolding update_flags_from_register ◌>>=◌ set_flag
flags_any n s = rw (sign_bit (n % 256) (omega arith))

-- The run returns, in a state in which a program sees `x`.
abbrev pub Lands : Option (Unit {0} × State) → Visible → Type 0
Lands none x = ⊥
Lands (some (_, t)) x = visible t ≡ x

pub Lands-subst : {r k : Option (Unit {0} × State)} (x : Visible) → r ≡ k → Lands k x → Lands r x
Lands-subst x e h = subst (λ o. Lands o x) (sym e) h

module _ (p : Place) (u : State) (v : IsValid u) (w : IsReadable p (visible u))
    (f : ℕ → M (Unit {0})) (x : Visible) where
  pub direct-Lands :
      Lands (f (value p u) (at_operand p u)) x → Lands ((aim p >>= λ a. read a >>= f) u) x
  direct-Lands h = Lands-subst x (direct p u v w f) h

  pub stored-Lands :
      Lands (f (value p u) (at_stored p u)) x
      → Lands ((aim p >>= λ a. set_addr a >> (get_addr >>= λ b. read b >>= f)) u) x
  stored-Lands h = Lands-subst x (stored p u v w f) h
