-- ===== src/Cost/Actions.antt =====
-- The cycles of the single actions on the state of src/olc6502.c.
use m.Base.{ℕ, arith, Bool, Option, none, some}
use m.Base.Int.{pos, -ℤ_parts}
use m.Decoder.{Decoder}
use m.Cpu.{
  State, skip, set_a, set_x, set_y, set_sp, set_ps, set_pc, set_i_nxt, set_oops, set_addr,
  set_fetched, set_temp, set_flag, spend, read, read_word, write, with_bus, with_bus_set,
}
use m.Cost.{
  Ends, Takes, takes, costs, Costs-bind_0, Costs-bind_1, Costs-bind_2, Costs-bind_3, Costs-bind_4,
  Costs-last_0, Costs-last_1, Costs-last_2, Costs-last_3, Costs-last_4, Costs-if, Takes-if,
  Costs-assoc, Takes-gets, Takes-pure,
}

pub Takes-skip : Takes 0 skip
unfolding skip
Takes-skip = takes (costs (λ s. omega arith))

pub Takes-set_oops : (b : Bool) → Takes 0 (set_oops b)
unfolding set_oops
Takes-set_oops b = takes (costs (λ s. omega arith))

pub Takes-set_flag : (k b : ℕ) → Takes 0 (set_flag k b)
unfolding set_flag
Takes-set_flag k b = takes (costs (λ s. omega arith))

with_bus-Ends : (s : State) (r : Option (ℕ × Decoder)) → Ends 0 s (with_bus s r)
with_bus-Ends s none = tt
with_bus-Ends s (some (v, dev)) = omega arith

with_bus_set-Ends : (s : State) (r : Option Decoder) → Ends 0 s (with_bus_set s r)
with_bus_set-Ends s none = tt
with_bus_set-Ends s (some dev) = omega arith

pub Takes-write : (n v : ℕ) → Takes 0 (write n v)
unfolding write
Takes-write n v = takes (costs (λ s. with_bus_set-Ends s _))

module _ (n : ℕ) where
  pub Takes-spend : Takes n (spend n)
  unfolding spend
  Takes-spend = takes (costs (λ s. omega (arith, -ℤ_parts s.cycles (pos n))))

  pub Takes-read : Takes 0 (read n)
  unfolding read
  Takes-read = takes (costs (λ s. with_bus-Ends s _))

  pub Takes-read_word : Takes 0 (read_word n)
  unfolding read_word
  Takes-read_word = takes (costs (λ s. with_bus-Ends s _))

  pub Takes-set_a : Takes 0 (set_a n)
  unfolding set_a
  Takes-set_a = takes (costs (λ s. omega arith))

  pub Takes-set_x : Takes 0 (set_x n)
  unfolding set_x
  Takes-set_x = takes (costs (λ s. omega arith))

  pub Takes-set_y : Takes 0 (set_y n)
  unfolding set_y
  Takes-set_y = takes (costs (λ s. omega arith))

  pub Takes-set_sp : Takes 0 (set_sp n)
  unfolding set_sp
  Takes-set_sp = takes (costs (λ s. omega arith))

  pub Takes-set_ps : Takes 0 (set_ps n)
  unfolding set_ps
  Takes-set_ps = takes (costs (λ s. omega arith))

  pub Takes-set_pc : Takes 0 (set_pc n)
  unfolding set_pc
  Takes-set_pc = takes (costs (λ s. omega arith))

  pub Takes-set_i_nxt : Takes 0 (set_i_nxt n)
  unfolding set_i_nxt
  Takes-set_i_nxt = takes (costs (λ s. omega arith))

  pub Takes-set_addr : Takes 0 (set_addr n)
  unfolding set_addr
  Takes-set_addr = takes (costs (λ s. omega arith))

  pub Takes-set_fetched : Takes 0 (set_fetched n)
  unfolding set_fetched
  Takes-set_fetched = takes (costs (λ s. omega arith))

  pub Takes-set_temp : Takes 0 (set_temp n)
  unfolding set_temp
  Takes-set_temp = takes (costs (λ s. omega arith))

pub ruleset cost_rules = (
  Costs-bind_0, Costs-bind_1, Costs-bind_2, Costs-bind_3, Costs-bind_4, Costs-last_0, Costs-last_1,
  Costs-last_2, Costs-last_3, Costs-last_4, Costs-if, Takes-if, Costs-assoc, Takes-gets, Takes-pure,
  Takes-skip, Takes-set_oops, Takes-set_flag, Takes-write, Takes-spend, Takes-read, Takes-read_word,
  Takes-set_a, Takes-set_x, Takes-set_y, Takes-set_sp, Takes-set_ps, Takes-set_pc, Takes-set_i_nxt,
  Takes-set_addr, Takes-set_fetched, Takes-set_temp,
)
