-- ===== src/Blocks/Branch.antt =====
-- The conditional branches of src/olc6502.c.
use m.Base.{ℕ, zero, suc, ◌+◌, ◌-◌, ◌&&◌, Bool, not, ◌==◌, ltb, if◌then◌else◌, to_bool, u16, false}
use m.Cpu.{
  M, ◌>>=◌, ◌>>◌, pure, skip, get_flag, get_fetched, get_pc, set_fetched, set_pc, flag_c, flag_z,
  flag_v, flag_n, spend, page_boundary_crossed,
}
use m.Cpu.Address.{fetch_operand}

-- `switch (aaa)`: the condition, from the flags.
unfoldable pub should_branch : ℕ → M Bool
should_branch zero = do n ← get_flag flag_n; pure (not (to_bool n))
should_branch (suc zero) = do n ← get_flag flag_n; pure (to_bool n)
should_branch (suc (suc zero)) = do v ← get_flag flag_v; pure (not (to_bool v))
should_branch (suc (suc (suc zero))) = do v ← get_flag flag_v; pure (to_bool v)
should_branch (suc (suc (suc (suc zero)))) = do c ← get_flag flag_c; pure (not (to_bool c))
should_branch (suc (suc (suc (suc (suc zero))))) = do c ← get_flag flag_c; pure (to_bool c)
should_branch (suc (suc (suc (suc (suc (suc zero)))))) = do
  z ← get_flag flag_z
  pure (not (to_bool z))
should_branch (suc (suc (suc (suc (suc (suc (suc zero))))))) = do
  z ← get_flag flag_z
  pure (to_bool z)
should_branch (suc (suc (suc (suc (suc (suc (suc (suc _)))))))) = pure false

-- `base + (int8_t)offset`, converted to `uint16_t`.
abbrev pub plus_signed : ℕ → ℕ → ℕ
plus_signed base offset =
    if ltb offset 128 then u16 (base + offset) else u16 (base + 65536 + offset - 256)

-- The jump and its cycles.
unfoldable pub take_branch : M (Unit {0})
take_branch = do
  old_pc ← get_pc
  fetched ← get_fetched
  set_pc (plus_signed old_pc fetched)
  crossed ← page_boundary_crossed (u16 (old_pc + 65535)) (← get_pc)
  spend (if crossed then 2 else 1)

unfoldable pub branch_block : ℕ → ℕ → ℕ → M (Unit {0})
unfolding should_branch take_branch
branch_block aaa bbb cc =
    if (cc == 0) && (bbb == 4)
    then (do
      should ← should_branch aaa
      set_fetched (← fetch_operand)
      if should then take_branch else skip)
    else skip
