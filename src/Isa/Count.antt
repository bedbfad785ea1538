-- ===== src/Isa/Count.antt =====
-- INC and DEC of src/olc6502.c against the reference.
use m.Base.{ℕ, ◌%◌, ◌≡◌, refl, ap, arith, some, u8, u16, false}
use m.Base.Int.{pos, ◌-ℤ◌, -ℤ_twice}
use m.Cpu.{
  M, State, ◌>>=◌, ◌>>◌, gets, get_temp, get_addr, set_temp, set_addr, set_oops, spend, write,
  update_flags_from_register,
}
use m.Alu.Flags.{zn, with_ps}
use m.Valid.{IsValid}
use m.Instructions.{CountIns, inc, dec, CountMode, count}
use m.Instructions.Meaning.{meaning, locate_count}
use m.Isa.{visible}
use m.Isa.Address.{Place, address, IsReadable, IsWritable}
use m.Isa.Operations.{run_count, count_place, count_cycles, counted}
use m.Isa.Aim.{aim, aimed, aim_lem, address-word, flags_any, Lands, Lands-subst}
use m.Isa.Store.{written, write_lem}

-- What follows the address.
abbrev store_counted : CountIns → M (Unit {0})
store_counted i = do
  temp ← get_temp
  set_temp (m.Instructions.Meaning.counted i temp)
  update_flags_from_register (← get_temp)
  write (← get_addr) (← get_temp)

counted_byte : (i : CountIns) (n : ℕ) → m.Instructions.Meaning.counted i n % 256 ≡ counted i n
counted_byte inc n = refl
counted_byte dec n = refl

-- The state behind it.
abbrev stored : ℕ → State → State
stored n t = written t.addr n (with_ps (record t { temp = n }) (zn n t.cpu.ps))

store_counted_lem :
    (i : CountIns) (t : State)
    → IsWritable t.addr
    → store_counted i t ≡ some (tt, stored (counted i t.temp) t)
unfolding ◌>>=◌ gets set_temp
store_counted_lem i t h =
    let n = m.Instructions.Meaning.counted i t.temp % 256 in
    let once : n % 256 ≡ n = omega arith in
    rw
      (
        flags_any n (record t { temp = n }),
        once,
        write_lem t.addr n (with_ps (record t { temp = n }) (zn n t.cpu.ps)) h (omega arith),
      )
      (ap (λ k. some (tt, stored k t)) (counted_byte i t.temp))

-- The state with the accumulator in `temp`.
abbrev held : State → State
held u = record u { temp = u.cpu.a }

held-IsValid : (u : State) → IsValid u → IsValid (held u)
held-IsValid u v = ground (arith, v.mem_bytes)

-- The state with the address stored and `c` cycles used.
abbrev placed : Place → ℕ → State → State
placed p c u = record (aimed p (held u)) {
  addr = address p (visible u);
  cycles = (aimed p (held u)).cycles -ℤ pos c;
}

pub count-Lands :
    (i : CountIns) (mode : CountMode) (u : State)
    → IsValid u
    → IsReadable (count_place mode) (visible u)
    → IsWritable (address (count_place mode) (visible u))
    → Lands (meaning (count i mode) u) (run_count i mode (visible u))
unfolding meaning locate_count run_count count_place count_cycles ◌>>=◌ gets set_temp set_addr spend
    set_oops aim aimed
count-Lands i CountMode.zp u v w h =
    let a : u8 u.cpu.a ≡ u.cpu.a = omega (arith, v.a_byte) in
    let same : u16 (address Place.zp (visible u)) ≡ address Place.zp (visible u) =
      omega (arith, address-word Place.zp u v) in
    rw (a, aim_lem Place.zp (held u) (held-IsValid u v) w, same)
      (Lands-subst (run_count i CountMode.zp (visible u))
        (store_counted_lem i (placed Place.zp 3 u) h) (simp (-ℤ_twice)))
count-Lands i CountMode.zpx u v w h =
    let a : u8 u.cpu.a ≡ u.cpu.a = omega (arith, v.a_byte) in
    let same : u16 (address Place.zpx (visible u)) ≡ address Place.zpx (visible u) =
      omega (arith, address-word Place.zpx u v) in
    rw (a, aim_lem Place.zpx (held u) (held-IsValid u v) w, same)
      (Lands-subst (run_count i CountMode.zpx (visible u))
        (store_counted_lem i (placed Place.zpx 4 u) h) (simp (-ℤ_twice)))
count-Lands i CountMode.abs u v w h =
    let a : u8 u.cpu.a ≡ u.cpu.a = omega (arith, v.a_byte) in
    let same : u16 (address Place.abs (visible u)) ≡ address Place.abs (visible u) =
      omega (arith, address-word Place.abs u v) in
    rw (a, aim_lem Place.abs (held u) (held-IsValid u v) w, same)
      (Lands-subst (run_count i CountMode.abs (visible u))
        (store_counted_lem i (placed Place.abs 3 u) h) (simp (-ℤ_twice)))
count-Lands i CountMode.absx u v w h =
    let a : u8 u.cpu.a ≡ u.cpu.a = omega (arith, v.a_byte) in
    let same : u16 (address Place.absx (visible u)) ≡ address Place.absx (visible u) =
      omega (arith, address-word Place.absx u v) in
    rw (a, aim_lem Place.absx (held u) (held-IsValid u v) w, same)
      (Lands-subst (run_count i CountMode.absx (visible u))
        (store_counted_lem i (record (placed Place.absx 4 u) { oops_cycle = false }) h)
        (simp (-ℤ_twice)))
