-- ===== src/Fibonacci/Turn.antt =====
-- One turn of the loop of the ROM's program.
use m.Base.{ℕ, suc, ◌+◌, ◌/◌, ◌%◌, ◌<◌, ◌≡◌, ◌∙◌, refl, ap, arith, true, to_bit, ◌==◌}
use m.Base.Int.{ℤ, pos, ◌-ℤ◌, -ℤ_twice}
use m.Memory.{update}
use m.Decoder.Map.{byte_at, real_address}
use m.Progmem.{progmem}
use m.Cpu.{get_bit, put_bit, flag_c, flag_z, flag_i, flag_v}
use m.Alu.Flags.{zn}
use m.Alu.Add.{overflows}
use m.Instructions.{labelled, sum, adc, Mode, code}
use m.Switch.{opcode_of, load_case, store_case, transfer_case}
use m.Switch.Load.{ldx_zp}
use m.Switch.Store.{sta_zp, stx_zp}
use m.Switch.Transfer.{dey}
use m.Isa.{Visible, peek}
use m.Isa.Address.{IsReadable, address}
use m.Isa.Reference.{run_load}
use m.Isa.Effects.{run_store, run_transfer}
use m.Isa.Operations.{run_sum, add_in, mode_place, operand_cycles}
use m.Isa.Exec.{Permits, PermitsCase, exec, exec_case}
use m.Fibonacci.{Computes, Left, left, instruction}

abbrev pub at_once : Visible → ℕ → ℕ
at_once v ps = put_bit flag_i v.i_nxt ps

abbrev pub loaded_ps : Visible → ℕ
loaded_ps v = at_once v (zn (peek v 1) (at_once v v.ps))

abbrev pub total : Visible → ℕ
total v = v.a + peek v 0 + get_bit flag_c (loaded_ps v)

abbrev pub summed_ps : Visible → ℕ
summed_ps v = zn (total v % 256) (
    put_bit flag_c (total v / 256) (
      put_bit flag_v (to_bit (overflows v.a (peek v 0) (get_bit flag_c (loaded_ps v))))
        (loaded_ps v)))

-- What a program sees at the branch.
abbrev pub turned : Visible → Visible
turned v = record v {
  pc = 0x8019;
  a = total v % 256;
  x = peek v 1;
  y = (v.y + 255) % 256;
  ps = zn ((v.y + 255) % 256) (at_once v (at_once v (at_once v (summed_ps v))));
  mem = record { bytes = update (update v.mem.bytes 1 (total v % 256)) 0 (peek v 1) };
  cycles =
      v.cycles
      -ℤ pos 1
      -ℤ pos 2
      -ℤ pos 1
      -ℤ pos 2
      -ℤ pos 1
      -ℤ pos 2
      -ℤ pos 1
      -ℤ pos 2
      -ℤ pos 1
      -ℤ pos 1;
}

pub turning :
    (k : ℕ) (v : Visible)
    → Left (k + 14) v.cycles
    → Computes (record (turned v) { pc = 0x8019 })
    → Computes (record v { pc = 0x8010 })
unfolding peek byte_at real_address progmem Permits PermitsCase IsReadable code opcode_of exec
    exec_case run_load run_sum add_in run_store run_transfer mode_place address operand_cycles
turning k v h rest =
    let l1 = left (k + 11) 2 v.cycles (omega (arith, h)) in
    let l2 = left (k + 8) 2 (v.cycles -ℤ pos 1 -ℤ pos 2) (omega (arith, l1)) in
    let l3 = left (k + 5) 2 (v.cycles -ℤ pos 1 -ℤ pos 2 -ℤ pos 1 -ℤ pos 2) (omega (arith, l2)) in
    let l4 =
      left (k + 2) 2 (v.cycles -ℤ pos 1 -ℤ pos 2 -ℤ pos 1 -ℤ pos 2 -ℤ pos 1 -ℤ pos 2)
        (omega (arith, l3)) in
    instruction (labelled (load_case ldx_zp)) _ (k + 14) h refl refl tt (
      instruction (sum adc Mode.zp) _ (k + 11) l1 refl refl tt (
        instruction (labelled (store_case sta_zp)) _ (k + 8) l2 refl refl (tt, omega arith)
          (instruction (labelled (store_case stx_zp)) _ (k + 5) l3 refl refl (tt, omega arith)
            (instruction (labelled (transfer_case dey)) _ (k + 2) l4 refl refl tt rest))))

pub carry_once : (i ps : ℕ) → get_bit flag_c (put_bit flag_i i ps) ≡ get_bit flag_c ps
carry_once i ps = omega arith

pub carry_zn : (n ps : ℕ) → n < 256 → get_bit flag_c (zn n ps) ≡ get_bit flag_c ps
carry_zn n ps h = ground arith

carry_put : (c o ps : ℕ) → get_bit flag_c (put_bit flag_c c (put_bit flag_v o ps)) ≡ c % 2
carry_put c o ps = omega arith

zero_once : (i n ps : ℕ) → n < 256 → get_bit flag_z (put_bit flag_i i (zn n ps)) ≡ to_bit (n == 0)
zero_once i n ps h = ground arith

-- What stands in the registers and in memory at the head of the loop.
pub record AtLoop (n lo hi : ℕ) (v : Visible) : Type 0 where
  pub turns : v.y ≡ n + 1
  pub few : n < 255
  pub sum : v.a ≡ hi
  pub low : peek v 0 ≡ lo
  pub high : peek v 1 ≡ hi
  pub clear : get_bit flag_c v.ps ≡ 0
  pub low_byte : lo < 256
  pub high_byte : hi < 256

module _ (n lo hi : ℕ) (v : Visible) (h : AtLoop n lo hi v) where
  carry_loaded : get_bit flag_c (loaded_ps v) ≡ 0
  carry_loaded =
      carry_once v.i_nxt (zn (peek v 1) (at_once v v.ps))
      ∙ carry_zn (peek v 1) (at_once v v.ps) (omega (arith, h.high, h.high_byte))
      ∙ carry_once v.i_nxt v.ps
      ∙ h.clear

  total_lem : total v ≡ lo + hi
  unfolding peek
  total_lem = rw (carry_loaded, h.sum, h.low) (omega arith)

  carry_turned : get_bit flag_c (at_once v (turned v).ps) ≡ (lo + hi) / 256 % 2
  carry_turned =
      carry_once v.i_nxt (turned v).ps
      ∙ carry_zn ((v.y + 255) % 256) _ (omega arith)
      ∙ carry_once v.i_nxt (at_once v (at_once v (summed_ps v)))
      ∙ carry_once v.i_nxt (at_once v (summed_ps v))
      ∙ carry_once v.i_nxt (summed_ps v)
      ∙ carry_zn (total v % 256) _ (omega arith)
      ∙ carry_put (total v / 256) _ (loaded_ps v)
      ∙ ap (λ t. t / 256 % 2) total_lem

  pub zero_turned : get_bit flag_z (at_once v (turned v).ps) ≡ to_bit (n == 0)
  zero_turned =
      let y : (v.y + 255) % 256 ≡ n = omega (arith, h.turns, h.few) in
      zero_once v.i_nxt ((v.y + 255) % 256) _ (omega arith) ∙ ap (λ y. to_bit (y == 0)) y

  pub low_turned : peek (turned v) 0 ≡ hi
  unfolding peek byte_at real_address
  low_turned =
      let small : hi % 256 ≡ hi = omega (arith, h.high_byte) in ap (λ k. k % 256) h.high ∙ small

  high_turned : lo + hi < 256 → peek (turned v) 1 ≡ lo + hi
  unfolding peek byte_at real_address
  high_turned s =
      let small : (lo + hi) % 256 % 256 ≡ lo + hi = omega arith in
      ap (λ t. t % 256 % 256) total_lem ∙ small

pub spent : (k n : ℕ) (c : ℤ) → Left (k + n) c → Left k (c -ℤ pos n)
unfolding ◌-ℤ◌
spent k n c h = ground arith

pub left_turned : (k : ℕ) (v : Visible) → Left (k + 14) v.cycles → Left k (turned v).cycles
left_turned k v h = simp (-ℤ_twice) (spent k 14 v.cycles h)

pub not_last : (n : ℕ) → (to_bit (suc n == 0) == 0) ≡ true
not_last n = ground arith

-- The state at the head of the next turn.
abbrev pub next_turn : Visible → Visible
next_turn v = record (turned v) {
  ps = at_once v (turned v).ps;
  cycles = (turned v).cycles -ℤ pos 1 -ℤ pos 2;
}

pub next_turn-AtLoop :
    (n lo hi : ℕ) (v : Visible)
    → AtLoop (suc n) lo hi v
    → lo + hi < 256
    → AtLoop n hi (lo + hi) (next_turn v)
unfolding peek
next_turn-AtLoop n lo hi v h s = record {
  turns = omega (arith, h.turns, h.few);
  few = omega (arith, h.few);
  sum = ap (λ t. t % 256) (total_lem (suc n) lo hi v h) ∙ omega arith;
  low = low_turned (suc n) lo hi v h;
  high = high_turned (suc n) lo hi v h s;
  clear = carry_turned (suc n) lo hi v h ∙ omega arith;
  low_byte = h.high_byte;
  high_byte = s;
}
