-- ===== src/Valid/Helpers.antt =====
-- The helpers of src/olc6502.c keep the ranges.
use m.Base.{ℕ}
use m.Cpu.{M, update_flags_from_register, page_boundary_crossed}
use m.Cpu.Address.{
  fetch_operand, get_zp_address, get_absolute_address, get_absolute_address_x,
  get_absolute_address_y, get_indexed_indirect_x, get_indexed_indirect_y, zp_address_plus,
  spend_oops,
}
use m.Cpu.Stack.{push_byte_to_stack, push_word_to_stack, pull_byte_from_stack, pull_word_from_stack}
use m.Cpu.Reset.{olc6502_reset}
use m.Valid.{Keeps, keeps_rules}

pub Keeps-fetch_operand : Keeps fetch_operand
unfolding fetch_operand
Keeps-fetch_operand = search keeps_rules depth 20

pub Keeps-update_flags : (n : ℕ) → Keeps (update_flags_from_register n)
unfolding update_flags_from_register
Keeps-update_flags n = search keeps_rules depth 20

pub Keeps-page_boundary_crossed : (n k : ℕ) → Keeps (page_boundary_crossed n k)
unfolding page_boundary_crossed
Keeps-page_boundary_crossed n k = search keeps_rules depth 20

pub Keeps-get_zp_address : Keeps get_zp_address
unfolding get_zp_address
Keeps-get_zp_address = search keeps_rules depth 20

pub Keeps-get_absolute_address : Keeps get_absolute_address
unfolding get_absolute_address
Keeps-get_absolute_address = search keeps_rules depth 20

pub ruleset rules = (
  keeps_rules, Keeps-fetch_operand, Keeps-update_flags, Keeps-page_boundary_crossed,
  Keeps-get_zp_address, Keeps-get_absolute_address,
)

pub Keeps-get_absolute_address_x : Keeps get_absolute_address_x
unfolding get_absolute_address_x
Keeps-get_absolute_address_x = search rules depth 20

pub Keeps-get_absolute_address_y : Keeps get_absolute_address_y
unfolding get_absolute_address_y
Keeps-get_absolute_address_y = search rules depth 20

pub Keeps-get_indexed_indirect_x : Keeps get_indexed_indirect_x
unfolding get_indexed_indirect_x
Keeps-get_indexed_indirect_x = search rules depth 20

pub Keeps-get_indexed_indirect_y : Keeps get_indexed_indirect_y
unfolding get_indexed_indirect_y
Keeps-get_indexed_indirect_y = search rules depth 20

pub Keeps-zp_address_plus : (index : M ℕ) → Keeps index → Keeps (zp_address_plus index)
unfolding zp_address_plus
Keeps-zp_address_plus index k = search rules depth 20

pub Keeps-spend_oops : Keeps spend_oops
unfolding spend_oops
Keeps-spend_oops = search rules depth 20

pub Keeps-push_byte_to_stack : (v : ℕ) → Keeps (push_byte_to_stack v)
unfolding push_byte_to_stack
Keeps-push_byte_to_stack v = search rules depth 20

pub Keeps-push_word_to_stack : (v : ℕ) → Keeps (push_word_to_stack v)
unfolding push_word_to_stack
Keeps-push_word_to_stack v = search (rules, Keeps-push_byte_to_stack) depth 20

pub Keeps-pull_byte_from_stack : Keeps pull_byte_from_stack
unfolding pull_byte_from_stack
Keeps-pull_byte_from_stack = search rules depth 20

pub Keeps-pull_word_from_stack : Keeps pull_word_from_stack
unfolding pull_word_from_stack
Keeps-pull_word_from_stack = search (rules, Keeps-pull_byte_from_stack) depth 20

pub Keeps-olc6502_reset : Keeps olc6502_reset
unfolding olc6502_reset
Keeps-olc6502_reset = search rules depth 20

pub ruleset helper_rules = (
  rules, Keeps-get_absolute_address_x, Keeps-get_absolute_address_y, Keeps-get_indexed_indirect_x,
  Keeps-get_indexed_indirect_y, Keeps-zp_address_plus, Keeps-spend_oops, Keeps-push_byte_to_stack,
  Keeps-push_word_to_stack, Keeps-pull_byte_from_stack, Keeps-pull_word_from_stack,
)
