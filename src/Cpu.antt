-- ===== src/Cpu.antt =====
-- src/olc6502.h and the helpers of src/olc6502.c: the registers and flags of the processor, the
-- variables that `olc6502_clock` works on, and actions on them.
pub mod Address
pub mod Stack
pub mod Reset
use m.Base.{
  ℕ, zero, suc, ◌+◌, ◌-◌, ◌*◌, ◌/◌, ◌%◌, ◌^◌, Bool, true, false, not, Option, none, some, ◌==◌,
  if◌then◌else◌, to_bit, u8, u16, bit_and,
}
use m.Base.Int.{ℤ, pos, ◌-ℤ◌}
use m.Decoder.{Decoder, bus_read_byte, bus_write_byte, bus_read_word}

-- `olc6502_t`. `ps` is the byte of `union Flags`; `ce` is what the pointer `CE` points to.
pub record Cpu : Type 0 where
  pub a : ℕ
  pub x : ℕ
  pub y : ℕ
  pub sp : ℕ
  pub ps : ℕ
  pub pc : ℕ
  pub ce : Decoder
  pub i_nxt : ℕ

-- The processor, the global `oops_cycle`, the cycles left, and the variables `addr`, `fetched` and
-- `temp` of `olc6502_clock`, which live on from one instruction to the next.
pub record State : Type 0 where
  pub cpu : Cpu
  pub oops_cycle : Bool
  pub cycles : ℤ
  pub addr : ℕ
  pub fetched : ℕ
  pub temp : ℕ

-- The bits of `union Flags`, the first field lowest.
abbrev pub flag_c : ℕ
flag_c = 0

abbrev pub flag_z : ℕ
flag_z = 1

abbrev pub flag_i : ℕ
flag_i = 2

abbrev pub flag_d : ℕ
flag_d = 3

abbrev pub flag_v : ℕ
flag_v = 6

abbrev pub flag_n : ℕ
flag_n = 7

-- A bit-field of one bit at position `k`: its value, and an assignment to it.
abbrev pub get_bit : ℕ → ℕ → ℕ
get_bit k value = value / 2 ^ k % 2

abbrev pub put_bit : ℕ → ℕ → ℕ → ℕ
put_bit k b value = value / 2 ^ suc k * 2 ^ suc k + b % 2 * 2 ^ k + value % 2 ^ k

-- An action; `none` is an access outside an array.
abbrev pub M : Type 0 → Type 0
M A = State → Option (A × State)

abbrev pub after : {A B : Type 0} → Option (A × State) → (A → M B) → Option (B × State)
after none f = none
after (some (a, s)) f = f a s

infixl 5 ◌>>=◌ ◌>>◌
unfoldable pub ◌>>=◌ : {A B : Type 0} → M A → (A → M B) → M B
◌>>=◌ m f s = after (m s) f

abbrev pub ◌>>◌ : {B : Type 0} → M (Unit {0}) → M B → M B
m >> k = m >>= λ _. k

unfoldable pub pure : {A : Type 0} → A → M A
pure a s = some (a, s)

unfoldable pub skip : M (Unit {0})
skip s = some (tt, s)

-- Reading a variable.
unfoldable pub gets : {A : Type 0} → (State → A) → M A
gets f s = some (f s, s)

abbrev pub get_a : M ℕ
get_a = gets (λ s. s.cpu.a)

abbrev pub get_x : M ℕ
get_x = gets (λ s. s.cpu.x)

abbrev pub get_y : M ℕ
get_y = gets (λ s. s.cpu.y)

abbrev pub get_sp : M ℕ
get_sp = gets (λ s. s.cpu.sp)

abbrev pub get_ps : M ℕ
get_ps = gets (λ s. s.cpu.ps)

abbrev pub get_pc : M ℕ
get_pc = gets (λ s. s.cpu.pc)

abbrev pub get_i_nxt : M ℕ
get_i_nxt = gets (λ s. s.cpu.i_nxt)

abbrev pub get_oops : M Bool
get_oops = gets (λ s. s.oops_cycle)

abbrev pub get_addr : M ℕ
get_addr = gets (λ s. s.addr)

abbrev pub get_fetched : M ℕ
get_fetched = gets (λ s. s.fetched)

abbrev pub get_temp : M ℕ
get_temp = gets (λ s. s.temp)

abbrev pub get_flag : ℕ → M ℕ
get_flag k = gets (λ s. get_bit k s.cpu.ps)

-- Assignments convert to the type of the variable.
unfoldable pub set_a : ℕ → M (Unit {0})
set_a v s = some (tt, record s { cpu = record s.cpu { a = u8 v } })

unfoldable pub set_x : ℕ → M (Unit {0})
set_x v s = some (tt, record s { cpu = record s.cpu { x = u8 v } })

unfoldable pub set_y : ℕ → M (Unit {0})
set_y v s = some (tt, record s { cpu = record s.cpu { y = u8 v } })

unfoldable pub set_sp : ℕ → M (Unit {0})
set_sp v s = some (tt, record s { cpu = record s.cpu { sp = u8 v } })

unfoldable pub set_ps : ℕ → M (Unit {0})
set_ps v s = some (tt, record s { cpu = record s.cpu { ps = u8 v } })

unfoldable pub set_pc : ℕ → M (Unit {0})
set_pc v s = some (tt, record s { cpu = record s.cpu { pc = u16 v } })

unfoldable pub set_i_nxt : ℕ → M (Unit {0})
set_i_nxt v s = some (tt, record s { cpu = record s.cpu { i_nxt = v % 2 } })

unfoldable pub set_oops : Bool → M (Unit {0})
set_oops v s = some (tt, record s { oops_cycle = v })

unfoldable pub set_addr : ℕ → M (Unit {0})
set_addr v s = some (tt, record s { addr = u16 v })

unfoldable pub set_fetched : ℕ → M (Unit {0})
set_fetched v s = some (tt, record s { fetched = u8 v })

unfoldable pub set_temp : ℕ → M (Unit {0})
set_temp v s = some (tt, record s { temp = u8 v })

unfoldable pub set_flag : ℕ → ℕ → M (Unit {0})
set_flag k b s = some (tt, record s { cpu = record s.cpu { ps = put_bit k b s.cpu.ps } })

-- `cycles -= n`
unfoldable pub spend : ℕ → M (Unit {0})
spend n s = some (tt, record s { cycles = s.cycles -ℤ pos n })

-- The calls of the bus, on `cpu->CE`.
abbrev pub with_bus : State → Option (ℕ × Decoder) → Option (ℕ × State)
with_bus s none = none
with_bus s (some (v, dev)) = some (v, record s { cpu = record s.cpu { ce = dev } })

abbrev pub with_bus_set : State → Option Decoder → Option (Unit {0} × State)
with_bus_set s none = none
with_bus_set s (some dev) = some (tt, record s { cpu = record s.cpu { ce = dev } })

unfoldable pub read : ℕ → M ℕ
read address s = with_bus s (bus_read_byte s.cpu.ce (u16 address))

unfoldable pub read_word : ℕ → M ℕ
read_word address s = with_bus s (bus_read_word s.cpu.ce (u16 address))

unfoldable pub write : ℕ → ℕ → M (Unit {0})
write address value s = with_bus_set s (bus_write_byte s.cpu.ce (u16 address) (u8 value))

unfoldable pub update_flags_from_register : ℕ → M (Unit {0})
update_flags_from_register reg = do
  set_flag flag_z (to_bit (u8 reg == 0))
  set_flag flag_n (to_bit (not (bit_and (u8 reg) 0x80 == 0)))

unfoldable pub page_boundary_crossed : ℕ → ℕ → M Bool
page_boundary_crossed addr1 addr2 = do
  set_oops true
  pure (not (bit_and addr1 0xff00 == bit_and addr2 0xff00))
