-- ===== src/Shell/Commands.antt =====
-- Commands of src/main.c and their arguments: the range of `inspect` and the text of `wozmon write`.
use m.Base.{
  ℕ, zero, suc, ◌+◌, ◌-◌, ◌≤◌, ◌≡◌, refl, ap, arith, Bool, true, false, List, [], ◌∷◌, ◌==◌, ltb,
  u16, if◌then◌else◌,
}
use m.Base.Int.{pos}
use m.Text.{Bytes, strtoul}
use m.Decoder.{Decoder, bus_read_word}
use m.Decoder.Map.{byte_at, line_of, bus_read_byte-total}
use m.Cpu.Reset.{irq_vector}
use m.Clock.{Outcome, done, fault, out_of_fuel}
use m.Shell.{Machine, memory_line, with_ce, succeeded, then_do, from_option}
use m.Shell.Wozmon.{send_input, send_byte, wozmon_command, write_text, equal, pointer_size}
use m.Shell.Session.{inspect_loop, inspect_range, inspect_memory_command}

-- The values of a function on `count` numbers from `a` on.
unfoldable pub values_from : (ℕ → ℕ) → ℕ → ℕ → Bytes
values_from f zero a = []
values_from f (suc count) a = f a ∷ values_from f count (a + 1)

inspect_loop_lem :
    (left a : ℕ) (ce : Decoder)
    → a + left ≤ 65536
    → (ce' : Decoder) × (inspect_loop left a ce ≡ done (values_from (byte_at ce) left a, ce'))
      × (ce'.mem ≡ ce.mem)
unfolding inspect_loop values_from byte_at
inspect_loop_lem zero a ce h = (ce, refl, refl)
inspect_loop_lem (suc left) a ce h =
    let (ce', e, same) =
      inspect_loop_lem left (a + 1) (record ce { ce = line_of a }) (omega arith) in
    let here : u16 a ≡ a = omega arith in
    (ce', rw (here, bus_read_byte-total ce a (omega arith), e), same)

-- `inspect` with two addresses in order, both converted to 16 bits, returns 0 and prints what the CPU sees at
-- each address from the first to the last, in order; it never leaves an array, and of the
-- machine it changes nothing but the chip-enable line.
pub inspect-memory :
    (name start end : Bytes) (m : Machine)
    → let first = u16 (strtoul 0 start) in
      let last = u16 (strtoul 0 end) in
      first ≤ last
      → (ce : Decoder) × (inspect_memory_command (name ∷ start ∷ end ∷ []) m
          ≡ done (record {
            machine = with_ce m ce;
            status = pos 0;
            lines =
                memory_line first (values_from (byte_at m.cpu.ce) (last + 1 - first) first) ∷ [];
          }))
        × (ce.mem ≡ m.cpu.ce.mem)
unfolding inspect_memory_command inspect_range
inspect-memory name start end m h =
    let first = u16 (strtoul 0 start) in
    let last = u16 (strtoul 0 end) in
    let (ce, e, same) = inspect_loop_lem (last + 1 - first) first m.cpu.ce (omega arith) in
    let ordered : ltb last first ≡ false = ground arith in (ce, rw (ordered, e), same)

-- The first characters of a text.
unfoldable pub take : {A : Type 0} → ℕ → List A → List A
take zero xs = []
take (suc n) [] = []
take (suc n) (x ∷ xs) = x ∷ take n xs

then_do-agree :
    {A B : Type 0} (r : Outcome A) (f g : A → Outcome B)
    → ((a : A) → f a ≡ g a)
    → then_do r f ≡ then_do r g
then_do-agree (done a) f g h = h a
then_do-agree fault f g h = refl
then_do-agree out_of_fuel f g h = refl

if-agree : {A : Type 0} (b : Bool) (x y z : A) → y ≡ z → (if b then x else y) ≡ (if b then x else z)
if-agree true x y z h = refl
if-agree false x y z h = h

send_input-take :
    (left : ℕ) (input : Bytes) (m : Machine)
    → send_input left input m ≡ send_input left (take left input) m
unfolding send_input take
send_input-take zero input m = refl
send_input-take (suc left) [] m = refl
send_input-take (suc left) (c ∷ input) m =
    if-agree (c == 0) (done m) _ _
      (then_do-agree (send_byte c m) _ _ λ t. send_input-take left input t)

-- `wozmon write` does the same with an argument as with its first four characters: the bound
-- `sizeof(input)` is the size of a pointer. Further arguments are not looked at.
pub wozmon_command-take :
    (fuel : ℕ) (name input : Bytes) (rest : List Bytes) (m : Machine)
    → wozmon_command fuel (name ∷ write_text ∷ input ∷ rest) m
      ≡ wozmon_command fuel (name ∷ write_text ∷ take 4 input ∷ []) m
unfolding wozmon_command equal
wozmon_command-take fuel name input rest m =
    then_do-agree (from_option (bus_read_word m.cpu.ce irq_vector)) _ _ λ w.
      ap (λ r. then_do r (λ t. succeeded t [])) (send_input-take pointer_size input (with_ce m w.1))
