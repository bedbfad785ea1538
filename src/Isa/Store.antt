-- ===== src/Isa/Store.antt =====
-- The stores of src/olc6502.c against the reference.
use m.Base.{ℕ, ◌<◌, ◌≡◌, false, arith, some, u8, u16}
use m.Base.Int.{ -ℤ_twice}
use m.Memory.{update, total_memory_size}
use m.Decoder.Access.{bus_write_byte_lem}
use m.Decoder.Map.{line_of, real_address}
use m.Cpu.{M, State, ◌>>=◌, ◌>>◌, gets, pure, set_pc, set_addr, set_oops, spend, write}
use m.Switch.Store.{
  StoreIns, sta_zp, sta_zpx, sta_abs, sta_absx, sta_absy, sta_indx, sta_indy, stx_zp, stx_zpy,
  stx_abs, sty_zp, sty_zpx, sty_abs, store, write_to_addr,
}
use m.Valid.{IsValid}
use m.Isa.{Visible, visible}
use m.Isa.Address.{Place, address, IsReadable, IsWritable}
use m.Isa.Effects.{run_store, store_place, store_register}
use m.Isa.Aim.{aim, aimed, aim_lem, address-word, Lands, Lands-subst}

real_address-inside : (a : ℕ) → IsWritable a → real_address a < total_memory_size
unfolding real_address
real_address-inside a h = ground arith

-- The state with a byte stored.
abbrev pub written : ℕ → ℕ → State → State
written a n s = record s {
  cpu = record s.cpu {
    ce = record {
      ce = line_of a;
      mem = record { bytes = update s.cpu.ce.mem.bytes (real_address a) n };
    };
  };
}

pub write_lem :
    (a n : ℕ) (s : State) → IsWritable a → n < 256 → write a n s ≡ some (tt, written a n s)
unfolding write
write_lem a n s h k =
    let same : u16 a ≡ a = omega arith in
    let byte : u8 n ≡ n = omega arith in
    rw (same, byte, bus_write_byte_lem s.cpu.ce a n (omega arith) (real_address-inside a h))

-- The state with an address computed and stored in `addr`.
abbrev pub aimed_addr : Place → State → State
aimed_addr p u = record (aimed p u) { addr = address p (visible u) }

module _ (p : Place) (u : State) (v : IsValid u) (w : IsReadable p (visible u))
    (h : IsWritable (address p (visible u))) (g : State → ℕ) (k : M (Unit {0})) (x : Visible) where
  direct_write-Lands :
      g (aimed p u) < 256
      → Lands (k (written (address p (visible u)) (g (aimed p u)) (aimed p u))) x
      → Lands ((aim p >>= λ a. gets g >>= λ r. write a r >> k) u) x
  unfolding ◌>>=◌ gets
  direct_write-Lands small l =
      Lands-subst x
        (rw
          (aim_lem p u v w, write_lem (address p (visible u)) (g (aimed p u)) (aimed p u) h small))
        l

  stored_write-Lands :
      g (aimed_addr p u) < 256
      → Lands (k (written (address p (visible u)) (g (aimed_addr p u)) (aimed_addr p u))) x
      → Lands ((aim p >>= λ a. set_addr a >> (write_to_addr (gets g) >> k)) u) x
  unfolding ◌>>=◌ gets set_addr
  stored_write-Lands small l =
      let word = address-word p u v in
      let same : u16 (address p (visible u)) ≡ address p (visible u) = omega arith in
      Lands-subst x
        (rw (
          aim_lem p u v w,
          same,
          write_lem (address p (visible u)) (g (aimed_addr p u)) (aimed_addr p u) h small,
        ))
        l

pub store-Lands :
    (i : StoreIns) (u : State)
    → IsValid u
    → IsReadable (store_place i) (visible u)
    → IsWritable (address (store_place i) (visible u))
    → Lands (store i u) (run_store i (visible u))
unfolding store store_place store_register run_store ◌>>=◌ gets pure set_pc set_oops spend aim aimed
store-Lands sta_zp u v w h =
    direct_write-Lands Place.zp u v w h (λ s. s.cpu.a) (spend 1) (run_store sta_zp (visible u))
      v.a_byte (simp (-ℤ_twice))
store-Lands sta_zpx u v w h =
    stored_write-Lands Place.zpx u v w h (λ s. s.cpu.a) (spend 2) (run_store sta_zpx (visible u))
      v.a_byte (simp (-ℤ_twice))
store-Lands sta_abs u v w h =
    stored_write-Lands Place.abs u v w h (λ s. s.cpu.a) (spend 1) (run_store sta_abs (visible u))
      v.a_byte (simp (-ℤ_twice))
store-Lands sta_absx u v w h =
    stored_write-Lands Place.absx u v w h (λ s. s.cpu.a) (do spend 2; set_oops false)
      (run_store sta_absx (visible u)) v.a_byte (simp (-ℤ_twice))
store-Lands sta_absy u v w h =
    stored_write-Lands Place.absy u v w h (λ s. s.cpu.a) (do spend 2; set_oops false)
      (run_store sta_absy (visible u)) v.a_byte (simp (-ℤ_twice))
store-Lands sta_indx u v w h =
    stored_write-Lands Place.indx u v w h (λ s. s.cpu.a) (spend 2) (run_store sta_indx (visible u))
      v.a_byte (simp (-ℤ_twice))
store-Lands sta_indy u v w h =
    stored_write-Lands Place.indy u v w h (λ s. s.cpu.a) (do spend 2; set_oops false)
      (run_store sta_indy (visible u)) v.a_byte (simp (-ℤ_twice))
store-Lands stx_zp u v w h =
    direct_write-Lands Place.zp u v w h (λ s. s.cpu.x) (spend 1) (run_store stx_zp (visible u))
      v.x_byte (simp (-ℤ_twice))
store-Lands stx_zpy u v w h =
    stored_write-Lands Place.zpy u v w h (λ s. s.cpu.x) (spend 2) (run_store stx_zpy (visible u))
      v.x_byte (simp (-ℤ_twice))
store-Lands stx_abs u v w h =
    stored_write-Lands Place.abs u v w h (λ s. s.cpu.x) (spend 1) (run_store stx_abs (visible u))
      v.x_byte (simp (-ℤ_twice))
store-Lands sty_zp u v w h =
    direct_write-Lands Place.zp u v w h (λ s. s.cpu.y) (spend 1) (run_store sty_zp (visible u))
      v.y_byte (simp (-ℤ_twice))
store-Lands sty_zpx u v w h =
    stored_write-Lands Place.zpx u v w h (λ s. s.cpu.y) (spend 2) (run_store sty_zpx (visible u))
      v.y_byte (simp (-ℤ_twice))
store-Lands sty_abs u v w h =
    stored_write-Lands Place.abs u v w h (λ s. s.cpu.y) (spend 1) (run_store sty_abs (visible u))
      v.y_byte (simp (-ℤ_twice))
