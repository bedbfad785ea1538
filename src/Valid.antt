-- ===== src/Valid.antt =====
-- The ranges of the variables of src/olc6502.h and src/olc6502.c, and that every action keeps them.
pub mod Helpers
pub mod Cases
pub mod Step
use m.Base.{
  ℕ, ◌+◌, ◌*◌, ◌/◌, ◌%◌, ◌^◌, ◌<◌, ◌≡◌, refl, arith, Bool, true, false, Option, none, some,
  if◌then◌else◌, ◌==◌,
}
use m.Base.Int.{ℤ}
use m.Decoder.{Decoder, bus_read_byte, bus_read_word, bus_write_byte, decode_address}
use m.Cpu.{
  Cpu, State, M, after, ◌>>=◌, pure, skip, gets, set_a, set_x, set_y, set_sp, set_ps, set_pc,
  set_i_nxt, set_oops, set_addr, set_fetched, set_temp, set_flag, spend, read, read_word, write,
  with_bus_set, flag_c, flag_z, flag_i, flag_d, flag_v, flag_n,
}

-- Every variable is in the range of its type, and the memory holds bytes.
pub record IsValid (s : State) : Type 0 where
  pub a_byte : s.cpu.a < 256
  pub x_byte : s.cpu.x < 256
  pub y_byte : s.cpu.y < 256
  pub sp_byte : s.cpu.sp < 256
  pub ps_byte : s.cpu.ps < 256
  pub pc_word : s.cpu.pc < 65536
  pub i_nxt_bit : s.cpu.i_nxt < 2
  pub mem_bytes : (i : ℕ) → s.cpu.ce.mem.bytes i < 256
  pub addr_word : s.addr < 65536
  pub fetched_byte : s.fetched < 256
  pub temp_byte : s.temp < 256

-- The state that an action leaves, if it does not leave an array.
abbrev pub Ensures : {A : Type 0} → (State → Type 0) → Option (A × State) → Type 0
Ensures P none = Unit
Ensures P (some (a, s)) = P s

pub record Keeps {A : Type 0} (m : M A) : Type 0 where
  pub at : (s : State) → IsValid s → Ensures IsValid (m s)

module _ {A B : Type 0} where
  after-Ensures :
      (r : Option (A × State)) (f : A → M B)
      → Ensures IsValid r
      → ((a : A) → Keeps (f a))
      → Ensures IsValid (after r f)
  after-Ensures none f h k = tt
  after-Ensures (some (a, s)) f h k = (k a).at s h

  pub Keeps-bind : (m : M A) (f : A → M B) → Keeps m → ((a : A) → Keeps (f a)) → Keeps (m >>= f)
  unfolding ◌>>=◌
  Keeps-bind m f km kf = record { at = λ s v. after-Ensures (m s) f (km.at s v) kf }

module _ {A : Type 0} where
  pub Keeps-pure : (a : A) → Keeps (pure a)
  unfolding pure
  Keeps-pure a = record { at = λ s v. v }

  pub Keeps-gets : (f : State → A) → Keeps (gets f)
  unfolding gets
  Keeps-gets f = record { at = λ s v. v }

  pub Keeps-if : (b : Bool) (m n : M A) → Keeps m → Keeps n → Keeps (if b then m else n)
  Keeps-if true m n km kn = km
  Keeps-if false m n km kn = kn

pub Keeps-skip : Keeps skip
unfolding skip
Keeps-skip = record { at = λ s v. v }

module _ (n : ℕ) where
  pub Keeps-set_a : Keeps (set_a n)
  unfolding set_a
  Keeps-set_a = record { at = λ s v. ground (arith, v.mem_bytes) }

  pub Keeps-set_x : Keeps (set_x n)
  unfolding set_x
  Keeps-set_x = record { at = λ s v. ground (arith, v.mem_bytes) }

  pub Keeps-set_y : Keeps (set_y n)
  unfolding set_y
  Keeps-set_y = record { at = λ s v. ground (arith, v.mem_bytes) }

  pub Keeps-set_sp : Keeps (set_sp n)
  unfolding set_sp
  Keeps-set_sp = record { at = λ s v. ground (arith, v.mem_bytes) }

  pub Keeps-set_ps : Keeps (set_ps n)
  unfolding set_ps
  Keeps-set_ps = record { at = λ s v. ground (arith, v.mem_bytes) }

  pub Keeps-set_pc : Keeps (set_pc n)
  unfolding set_pc
  Keeps-set_pc = record { at = λ s v. ground (arith, v.mem_bytes) }

  pub Keeps-set_i_nxt : Keeps (set_i_nxt n)
  unfolding set_i_nxt
  Keeps-set_i_nxt = record { at = λ s v. ground (arith, v.mem_bytes) }

  pub Keeps-set_addr : Keeps (set_addr n)
  unfolding set_addr
  Keeps-set_addr = record { at = λ s v. ground (arith, v.mem_bytes) }

  pub Keeps-set_fetched : Keeps (set_fetched n)
  unfolding set_fetched
  Keeps-set_fetched = record { at = λ s v. ground (arith, v.mem_bytes) }

  pub Keeps-set_temp : Keeps (set_temp n)
  unfolding set_temp
  Keeps-set_temp = record { at = λ s v. ground (arith, v.mem_bytes) }

  pub Keeps-spend : Keeps (spend n)
  unfolding spend
  Keeps-spend = record { at = λ s v. ground (arith, v.mem_bytes) }

  pub Keeps-set_flag_c : Keeps (set_flag flag_c n)
  unfolding set_flag
  Keeps-set_flag_c = record { at = λ s v. ground (arith, v.mem_bytes) }

  pub Keeps-set_flag_z : Keeps (set_flag flag_z n)
  unfolding set_flag
  Keeps-set_flag_z = record { at = λ s v. ground (arith, v.mem_bytes) }

  pub Keeps-set_flag_i : Keeps (set_flag flag_i n)
  unfolding set_flag
  Keeps-set_flag_i = record { at = λ s v. ground (arith, v.mem_bytes) }

  pub Keeps-set_flag_d : Keeps (set_flag flag_d n)
  unfolding set_flag
  Keeps-set_flag_d = record { at = λ s v. ground (arith, v.mem_bytes) }

  pub Keeps-set_flag_v : Keeps (set_flag flag_v n)
  unfolding set_flag
  Keeps-set_flag_v = record { at = λ s v. ground (arith, v.mem_bytes) }

  pub Keeps-set_flag_n : Keeps (set_flag flag_n n)
  unfolding set_flag
  Keeps-set_flag_n = record { at = λ s v. ground (arith, v.mem_bytes) }

pub Keeps-set_oops : (b : Bool) → Keeps (set_oops b)
unfolding set_oops
Keeps-set_oops b = record { at = λ s v. ground (arith, v.mem_bytes) }

pub Keeps-read : (n : ℕ) → Keeps (read n)
unfolding read bus_read_byte decode_address
Keeps-read n = record { at = λ s v. ground (arith, v.mem_bytes) }

pub Keeps-read_word : (n : ℕ) → Keeps (read_word n)
unfolding read_word bus_read_word decode_address
Keeps-read_word n = record { at = λ s v. ground (arith, v.mem_bytes) }

pub bus_write_byte-bytes :
    (dev : Decoder) (a v : ℕ) (dev' : Decoder)
    → ((i : ℕ) → dev.mem.bytes i < 256)
    → bus_write_byte dev a v ≡ some dev'
    → (i : ℕ) → dev'.mem.bytes i < 256
unfolding bus_write_byte decode_address
bus_write_byte-bytes dev a v dev' h p i = ground (arith, h i)

IsValid-after_write :
    (s : State) (r : Option Decoder)
    → IsValid s
    → ((dev : Decoder) → r ≡ some dev → (i : ℕ) → dev.mem.bytes i < 256)
    → Ensures IsValid (with_bus_set s r)
IsValid-after_write s none v h = tt
IsValid-after_write s (some dev) v h = ground (arith, h dev refl)

pub Keeps-write : (n v : ℕ) → Keeps (write n v)
unfolding write
Keeps-write n v = record {
  at = λ s ok. IsValid-after_write s _ ok (λ dev p. bus_write_byte-bytes _ _ _ dev ok.mem_bytes p);
}

pub ruleset keeps_rules = (
  Keeps-bind, Keeps-pure, Keeps-gets, Keeps-if, Keeps-skip, Keeps-set_a, Keeps-set_x, Keeps-set_y,
  Keeps-set_sp, Keeps-set_ps, Keeps-set_pc, Keeps-set_i_nxt, Keeps-set_addr, Keeps-set_fetched,
  Keeps-set_temp, Keeps-spend, Keeps-set_flag_c, Keeps-set_flag_z, Keeps-set_flag_i,
  Keeps-set_flag_d, Keeps-set_flag_v, Keeps-set_flag_n, Keeps-set_oops, Keeps-read, Keeps-read_word,
  Keeps-write,
)
