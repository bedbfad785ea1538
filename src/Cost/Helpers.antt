-- ===== src/Cost/Helpers.antt =====
-- Cycles of the helpers of src/olc6502.c.
use m.Base.{ℕ, arith, Bool, true, false, if◌then◌else◌}
use m.Cpu.{M, spend, update_flags_from_register, page_boundary_crossed}
use m.Cpu.Address.{
  fetch_operand, get_zp_address, get_absolute_address, get_absolute_address_x,
  get_absolute_address_y, get_indexed_indirect_x, get_indexed_indirect_y, zp_address_plus,
  spend_oops,
}
use m.Cpu.Stack.{push_byte_to_stack, push_word_to_stack, pull_byte_from_stack, pull_word_from_stack}
use m.Cost.{Takes, takes, Takes-Costs, Costs-weaken}
use m.Cost.Actions.{Takes-spend, cost_rules}

pub Takes-fetch_operand : Takes 1 fetch_operand
unfolding fetch_operand
Takes-fetch_operand = takes (search cost_rules depth 20)

pub Takes-update_flags_from_register : (n : ℕ) → Takes 0 (update_flags_from_register n)
unfolding update_flags_from_register
Takes-update_flags_from_register n = takes (search cost_rules depth 20)

pub Takes-page_boundary_crossed : (n k : ℕ) → Takes 0 (page_boundary_crossed n k)
unfolding page_boundary_crossed
Takes-page_boundary_crossed n k = takes (search cost_rules depth 20)

pub Takes-get_zp_address : Takes 1 get_zp_address
unfolding get_zp_address
Takes-get_zp_address = takes (search cost_rules depth 20)

pub Takes-get_absolute_address : Takes 2 get_absolute_address
unfolding get_absolute_address
Takes-get_absolute_address = takes (search cost_rules depth 20)

pub ruleset rules = (
  cost_rules, Takes-fetch_operand, Takes-update_flags_from_register, Takes-page_boundary_crossed,
  Takes-get_zp_address, Takes-get_absolute_address,
)

pub Takes-get_absolute_address_x : Takes 2 get_absolute_address_x
unfolding get_absolute_address_x
Takes-get_absolute_address_x = takes (search rules depth 20)

pub Takes-get_absolute_address_y : Takes 2 get_absolute_address_y
unfolding get_absolute_address_y
Takes-get_absolute_address_y = takes (search rules depth 20)

pub Takes-get_indexed_indirect_x : Takes 1 get_indexed_indirect_x
unfolding get_indexed_indirect_x
Takes-get_indexed_indirect_x = takes (search rules depth 20)

pub Takes-get_indexed_indirect_y : Takes 3 get_indexed_indirect_y
unfolding get_indexed_indirect_y
Takes-get_indexed_indirect_y = takes (search rules depth 20)

pub Takes-zp_address_plus : (index : M ℕ) → Takes 0 index → Takes 1 (zp_address_plus index)
unfolding zp_address_plus
Takes-zp_address_plus index k = takes (search rules depth 20)

pub two_or_one : (b : Bool) → Takes 2 (spend (if b then 2 else 1))
two_or_one true = Takes-spend 2
two_or_one false = takes (Costs-weaken (spend 1) (Takes-Costs (Takes-spend 1)) (omega arith))

pub Takes-spend_oops : Takes 2 spend_oops
unfolding spend_oops
Takes-spend_oops = takes (search (rules, two_or_one) depth 20)

pub Takes-push_byte_to_stack : (v : ℕ) → Takes 1 (push_byte_to_stack v)
unfolding push_byte_to_stack
Takes-push_byte_to_stack v = takes (search rules depth 20)

pub Takes-push_word_to_stack : (v : ℕ) → Takes 2 (push_word_to_stack v)
unfolding push_word_to_stack
Takes-push_word_to_stack v = takes (search (rules, Takes-push_byte_to_stack) depth 20)

pub Takes-pull_byte_from_stack : Takes 1 pull_byte_from_stack
unfolding pull_byte_from_stack
Takes-pull_byte_from_stack = takes (search rules depth 20)

pub Takes-pull_word_from_stack : Takes 2 pull_word_from_stack
unfolding pull_word_from_stack
Takes-pull_word_from_stack = takes (search (rules, Takes-pull_byte_from_stack) depth 20)

pub ruleset helper_costs = (
  rules, Takes-get_absolute_address_x, Takes-get_absolute_address_y, Takes-get_indexed_indirect_x,
  Takes-get_indexed_indirect_y, Takes-zp_address_plus, Takes-spend_oops, Takes-push_byte_to_stack,
  Takes-push_word_to_stack, Takes-pull_byte_from_stack, Takes-pull_word_from_stack,
)
