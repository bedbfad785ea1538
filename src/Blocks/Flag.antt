-- ===== src/Blocks/Flag.antt =====
-- The set and clear instructions of the flags, of src/olc6502.c.
use m.Base.{ℕ, zero, suc, ◌/◌, ◌&&◌, not, ◌==◌, if◌then◌else◌, bit_and}
use m.Cpu.{M, ◌>>◌, skip, set_flag, set_i_nxt, flag_c, flag_v, flag_d, spend}

-- `switch (flag_selector)`
unfoldable pub set_selected_flag : ℕ → ℕ → M (Unit {0})
set_selected_flag zero flag_value = set_flag flag_c flag_value
set_selected_flag (suc zero) flag_value = set_i_nxt flag_value
set_selected_flag (suc (suc zero)) flag_value = set_flag flag_v flag_value
set_selected_flag (suc (suc (suc zero))) flag_value = set_flag flag_d flag_value
set_selected_flag (suc (suc (suc (suc _)))) flag_value = skip

unfoldable pub flag_block : ℕ → ℕ → ℕ → M (Unit {0})
unfolding set_selected_flag
flag_block aaa bbb cc =
    if not (aaa == 4) && (bbb == 6) && (cc == 0)
    then (do set_selected_flag (aaa / 2) (bit_and aaa 0x01); spend 1)
    else skip
