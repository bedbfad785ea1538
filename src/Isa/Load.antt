-- ===== src/Isa/Load.antt =====
-- The loads of src/olc6502.c against the reference.
use m.Base.Int.{ -ℤ_twice}
use m.Cpu.{State, ◌>>=◌, ◌>>◌, gets, pure, set_a, set_x, set_y, set_pc, set_addr, set_oops, spend}
use m.Cpu.Address.{spend_oops, fetch_operand}
use m.Switch.Load.{
  LoadIns, lda_im, lda_zp, lda_zpx, lda_abs, lda_absx, lda_absy, lda_indx, lda_indy, ldx_im, ldx_zp,
  ldx_zpy, ldx_abs, ldx_absy, ldy_im, ldy_zp, ldy_zpx, ldy_abs, ldy_absx, load, flags_a, flags_x,
  flags_y,
}
use m.Valid.{IsValid}
use m.Isa.{visible}
use m.Isa.Address.{Place, IsReadable}
use m.Isa.Reference.{run_load, load_place}
use m.Isa.Aim.{aim, value_same, direct-Lands, stored-Lands, flags_any, Lands, aimed}

pub load-Lands :
    (i : LoadIns) (u : State)
    → IsValid u
    → IsReadable (load_place i) (visible u)
    → Lands (load i u) (run_load i (visible u))
unfolding load load_place run_load ◌>>=◌ gets set_a set_x set_y set_pc set_addr set_oops spend
    spend_oops fetch_operand aimed aim pure
load-Lands lda_im u v w =
    direct-Lands Place.im u v w (λ n. do set_a n; flags_a) (run_load lda_im (visible u))
      (simp (flags_any, value_same Place.im u v, -ℤ_twice))
load-Lands lda_zp u v w =
    direct-Lands Place.zp u v w (λ n. do set_a n; flags_a) (run_load lda_zp (visible u))
      (simp (flags_any, value_same Place.zp u v, -ℤ_twice))
load-Lands lda_zpx u v w =
    stored-Lands Place.zpx u v w (λ n. do set_a n; spend 2; flags_a) (run_load lda_zpx (visible u))
      (simp (flags_any, value_same Place.zpx u v, -ℤ_twice))
load-Lands lda_abs u v w =
    direct-Lands Place.abs u v w (λ n. do set_a n; spend 1; flags_a) (run_load lda_abs (visible u))
      (simp (flags_any, value_same Place.abs u v, -ℤ_twice))
load-Lands lda_absx u v w =
    stored-Lands Place.absx u v w (λ n. do set_a n; spend_oops; flags_a)
      (run_load lda_absx (visible u)) (simp (flags_any, value_same Place.absx u v, -ℤ_twice))
load-Lands lda_absy u v w =
    stored-Lands Place.absy u v w (λ n. do set_a n; spend_oops; flags_a)
      (run_load lda_absy (visible u)) (simp (flags_any, value_same Place.absy u v, -ℤ_twice))
load-Lands lda_indx u v w =
    direct-Lands Place.indx u v w (λ n. do set_a n; spend 2; flags_a)
      (run_load lda_indx (visible u)) (simp (flags_any, value_same Place.indx u v, -ℤ_twice))
load-Lands lda_indy u v w =
    direct-Lands Place.indy u v w (λ n. do set_a n; spend_oops; flags_a)
      (run_load lda_indy (visible u)) (simp (flags_any, value_same Place.indy u v, -ℤ_twice))
load-Lands ldx_im u v w =
    direct-Lands Place.im u v w (λ n. do set_x n; flags_x) (run_load ldx_im (visible u))
      (simp (flags_any, value_same Place.im u v, -ℤ_twice))
load-Lands ldx_zp u v w =
    direct-Lands Place.zp u v w (λ n. do set_x n; spend 1; flags_x) (run_load ldx_zp (visible u))
      (simp (flags_any, value_same Place.zp u v, -ℤ_twice))
load-Lands ldx_zpy u v w =
    stored-Lands Place.zpy u v w (λ n. do set_x n; spend 2; flags_x) (run_load ldx_zpy (visible u))
      (simp (flags_any, value_same Place.zpy u v, -ℤ_twice))
load-Lands ldx_abs u v w =
    direct-Lands Place.abs u v w (λ n. do set_x n; spend 1; flags_x) (run_load ldx_abs (visible u))
      (simp (flags_any, value_same Place.abs u v, -ℤ_twice))
load-Lands ldx_absy u v w =
    stored-Lands Place.absy u v w (λ n. do set_x n; spend_oops; flags_x)
      (run_load ldx_absy (visible u)) (simp (flags_any, value_same Place.absy u v, -ℤ_twice))
load-Lands ldy_im u v w =
    direct-Lands Place.im u v w (λ n. do set_y n; flags_y) (run_load ldy_im (visible u))
      (simp (flags_any, value_same Place.im u v, -ℤ_twice))
load-Lands ldy_zp u v w =
    direct-Lands Place.zp u v w (λ n. do set_y n; spend 1; flags_y) (run_load ldy_zp (visible u))
      (simp (flags_any, value_same Place.zp u v, -ℤ_twice))
load-Lands ldy_zpx u v w =
    stored-Lands Place.zpx u v w (λ n. do set_y n; spend 2; flags_y) (run_load ldy_zpx (visible u))
      (simp (flags_any, value_same Place.zpx u v, -ℤ_twice))
load-Lands ldy_abs u v w =
    direct-Lands Place.abs u v w (λ n. do set_y n; spend 1; flags_y) (run_load ldy_abs (visible u))
      (simp (flags_any, value_same Place.abs u v, -ℤ_twice))
load-Lands ldy_absx u v w =
    stored-Lands Place.absx u v w (λ n. do set_y n; spend_oops; flags_y)
      (run_load ldy_absx (visible u)) (simp (flags_any, value_same Place.absx u v, -ℤ_twice))
