-- ===== src/Cost.antt =====
-- Cycles that the actions of src/olc6502.c consume: at most so many.
pub mod Actions
pub mod Helpers
pub mod Cases
pub mod Step
pub mod Loop
use m.Base.{
  ℕ, suc, ◌+◌, ◌≤◌, ◌≡◌, refl, sym, subst, arith, Bool, true, false, Option, none, some,
  if◌then◌else◌,
}
use m.Base.Int.{ℤ, pos, pos_part, neg_part, ◌-ℤ◌, -ℤ_parts}
use m.Decoder.{Decoder, bus_read_byte, bus_read_word, bus_write_byte}
use m.Cpu.{
  State, M, after, ◌>>=◌, ◌>>◌, pure, skip, gets, set_a, set_x, set_y, set_sp, set_ps, set_pc,
  set_i_nxt, set_oops, set_addr, set_fetched, set_temp, set_flag, spend, read, read_word, write,
  with_bus, with_bus_set, update_flags_from_register, page_boundary_crossed,
}

-- From `s` to `t` between 0 and `hi` cycles are taken off.
pub record Spent (hi : ℕ) (s t : State) : Type 0 where
  pub least : pos_part t.cycles + neg_part s.cycles ≤ pos_part s.cycles + neg_part t.cycles
  pub most : pos_part s.cycles + neg_part t.cycles ≤ pos_part t.cycles + neg_part s.cycles + hi

abbrev pub Ends : {A : Type 0} → ℕ → State → Option (A × State) → Type 0
Ends hi s none = Unit
Ends hi s (some (a, t)) = Spent hi s t

-- `m` consumes between 0 and `hi` cycles wherever it starts, unless it leaves an array.
pub data Costs {A : Type 0} (hi : ℕ) (m : M A) : Type 0 where
  costs : ((s : State) → Ends hi s (m s)) → Costs hi m

pub Costs-at : {A : Type 0} {hi : ℕ} {m : M A} → Costs hi m → (s : State) → Ends hi s (m s)
Costs-at (costs h) = h

-- The same of an action that is used whole: the rules for a sequence look these up.
pub data Takes {A : Type 0} (hi : ℕ) (m : M A) : Type 0 where
  takes : Costs hi m → Takes hi m

pub Takes-Costs : {A : Type 0} {hi : ℕ} {m : M A} → Takes hi m → Costs hi m
Takes-Costs (takes h) = h

Ends-trans :
    {B : Type 0} (n hi : ℕ) (s t : State) (r : Option (B × State))
    → Spent n s t
    → Ends hi t r
    → Ends (n + hi) s r
Ends-trans n hi s t none h k = tt
Ends-trans n hi s t (some (_, u)) h k = omega arith

Ends-after :
    {A B : Type 0} (n hi : ℕ) (s : State) (r : Option (A × State)) (f : A → M B)
    → Ends n s r
    → ((x : A) → Costs hi (f x))
    → Ends (n + hi) s (after r f)
Ends-after n hi s none f h k = tt
Ends-after n hi s (some (x, t)) f h k = Ends-trans n hi s t (f x t) h (Costs-at (k x) t)

Ends-weaken :
    {A : Type 0} (n hi : ℕ) (s : State) (r : Option (A × State)) → n ≤ hi → Ends n s r → Ends hi s r
Ends-weaken n hi s none p h = tt
Ends-weaken n hi s (some (_, t)) p h = omega arith

module _ {A B : Type 0} where
  -- The cycles of a sequence add up.
  pub Costs-bind :
      {n hi : ℕ} (m : M A) (f : A → M B)
      → Takes n m
      → ((x : A) → Costs hi (f x))
      → Costs (n + hi) (m >>= f)
  unfolding ◌>>=◌
  Costs-bind {n} {hi} m f t k =
      costs (λ s. Ends-after n hi s (m s) f (Costs-at (Takes-Costs t) s) k)

  pub Costs-bind_0 :
      {hi : ℕ} (m : M A) (f : A → M B) → Takes 0 m → ((x : A) → Costs hi (f x)) → Costs hi (m >>= f)
  Costs-bind_0 {hi} m f t k = subst (λ n. Costs n (m >>= f)) (omega arith) (Costs-bind m f t k)

  pub Costs-bind_1 :
      {hi : ℕ} (m : M A) (f : A → M B)
      → Takes 1 m
      → ((x : A) → Costs hi (f x))
      → Costs (suc hi) (m >>= f)
  Costs-bind_1 {hi} m f t k = subst (λ n. Costs n (m >>= f)) (omega arith) (Costs-bind m f t k)

  pub Costs-bind_2 :
      {hi : ℕ} (m : M A) (f : A → M B)
      → Takes 2 m
      → ((x : A) → Costs hi (f x))
      → Costs (suc (suc hi)) (m >>= f)
  Costs-bind_2 {hi} m f t k = subst (λ n. Costs n (m >>= f)) (omega arith) (Costs-bind m f t k)

  pub Costs-bind_3 :
      {hi : ℕ} (m : M A) (f : A → M B)
      → Takes 3 m
      → ((x : A) → Costs hi (f x))
      → Costs (suc (suc (suc hi))) (m >>= f)
  Costs-bind_3 {hi} m f t k = subst (λ n. Costs n (m >>= f)) (omega arith) (Costs-bind m f t k)

  pub Costs-bind_4 :
      {hi : ℕ} (m : M A) (f : A → M B)
      → Takes 4 m
      → ((x : A) → Costs hi (f x))
      → Costs (suc (suc (suc (suc hi)))) (m >>= f)
  Costs-bind_4 {hi} m f t k = subst (λ n. Costs n (m >>= f)) (omega arith) (Costs-bind m f t k)

  pub Costs-bind_6 :
      {hi : ℕ} (m : M A) (f : A → M B)
      → Takes 6 m
      → ((x : A) → Costs hi (f x))
      → Costs (suc (suc (suc (suc (suc (suc hi)))))) (m >>= f)
  Costs-bind_6 {hi} m f t k = subst (λ n. Costs n (m >>= f)) (omega arith) (Costs-bind m f t k)

  pub Costs-bind_5 :
      {hi : ℕ} (m : M A) (f : A → M B)
      → Takes 5 m
      → ((x : A) → Costs hi (f x))
      → Costs (suc (suc (suc (suc (suc hi))))) (m >>= f)
  Costs-bind_5 {hi} m f t k = subst (λ n. Costs n (m >>= f)) (omega arith) (Costs-bind m f t k)

module _ {A : Type 0} where
  pub Costs-weaken : {n hi : ℕ} (m : M A) → Costs n m → n ≤ hi → Costs hi m
  Costs-weaken {n} {hi} m c p = costs (λ s. Ends-weaken n hi s (m s) p (Costs-at c s))

  pub Costs-last_0 : {hi : ℕ} (m : M A) → Takes 0 m → Costs hi m
  Costs-last_0 m t = Costs-weaken m (Takes-Costs t) (omega arith)

  pub Costs-last_1 : {hi : ℕ} (m : M A) → Takes 1 m → Costs (suc hi) m
  Costs-last_1 m t = Costs-weaken m (Takes-Costs t) (omega arith)

  pub Costs-last_2 : {hi : ℕ} (m : M A) → Takes 2 m → Costs (suc (suc hi)) m
  Costs-last_2 m t = Costs-weaken m (Takes-Costs t) (omega arith)

  pub Costs-last_3 : {hi : ℕ} (m : M A) → Takes 3 m → Costs (suc (suc (suc hi))) m
  Costs-last_3 m t = Costs-weaken m (Takes-Costs t) (omega arith)

  pub Costs-last_4 : {hi : ℕ} (m : M A) → Takes 4 m → Costs (suc (suc (suc (suc hi)))) m
  Costs-last_4 m t = Costs-weaken m (Takes-Costs t) (omega arith)

  pub Costs-if :
      {hi : ℕ} (c : Bool) (m n : M A) → Costs hi m → Costs hi n → Costs hi (if c then m else n)
  Costs-if true m n h k = h
  Costs-if false m n h k = k

  pub Takes-if :
      {hi : ℕ} (c : Bool) (m n : M A) → Takes hi m → Takes hi n → Takes hi (if c then m else n)
  Takes-if true m n h k = h
  Takes-if false m n h k = k

  pub Takes-gets : (f : State → A) → Takes 0 (gets f)
  unfolding gets
  Takes-gets f = takes (costs (λ s. omega arith))

  pub Takes-pure : (a : A) → Takes 0 (pure a)
  unfolding pure
  Takes-pure a = takes (costs (λ s. omega arith))

module _ {A B C : Type 0} where
  after-after :
      (r : Option (A × State)) (f : A → M B) (g : B → M C)
      → after (after r f) g ≡ after r (λ x s. after (f x s) g)
  after-after none f g = refl
  after-after (some (a, s)) f g = refl

  pub Costs-assoc :
      {hi : ℕ} (m : M A) (f : A → M B) (g : B → M C)
      → Costs hi (m >>= λ x. f x >>= g)
      → Costs hi (m >>= f >>= g)
  unfolding ◌>>=◌
  Costs-assoc {hi} m f g h =
      costs (λ s. subst (Ends hi s) (sym (after-after (m s) f g)) (Costs-at h s))
