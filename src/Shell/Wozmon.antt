-- ===== src/Shell/Wozmon.antt =====
-- `wozmon_command` of src/main.c: the serial port at ACIA_DATA, read or written between single cycles.
use m.Base.{
  ℕ, zero, suc, Bool, true, false, ◌&&◌, List, [], ◌∷◌, ◌++◌, ◌==◌, ltb, if◌then◌else◌, length, u8,
}
use m.Base.Int.{pos}
use m.Text.{Bytes, until_nul}
use m.Decoder.{bus_read_byte, bus_write_byte, bus_read_word}
use m.Cpu.Reset.{irq_vector}
use m.Clock.{Outcome, done, fault, out_of_fuel}
use m.Shell.{
  Machine, wozmon, Line, wozmon_line, Reply, then_do, from_option, with_ce, refused, succeeded,
  clock_machine, acia_data, acia_status,
}

abbrev pub buffer_size : ℕ
buffer_size = 0x0100

-- `sizeof(input)` of a pointer, on a board of 32 bits.
abbrev pub pointer_size : ℕ
pointer_size = 4

abbrev pub clock_then : {A : Type 0} → Machine → (Machine → Outcome A) → Outcome A
clock_then m next = then_do (clock_machine m (pos 1)) λ r. next r.0

-- `%s` of the buffer, which is 0 behind the bytes received; without a NUL it is read past its end.
abbrev pub print_buffer : Bytes → Outcome Line
print_buffer buf =
    if length (until_nul buf) == buffer_size then fault else done (wozmon_line (until_nul buf))

-- The loop of `wozmon read`; `buf` holds the bytes received, and `rx_done` ends it behind the carriage
-- return.
unfoldable pub read_loop : ℕ → ℕ → ℕ → Bytes → Machine → Outcome (Machine × List Line)
unfolding clock_machine
read_loop zero irq_address mon_data buf m =
    if m.cpu.pc == irq_address then done (m, []) else out_of_fuel
read_loop (suc fuel) irq_address mon_data buf m =
    let next = then_do (from_option (bus_read_byte m.cpu.ce acia_data)) λ r.
      if r.0 == mon_data
      then clock_then (with_ce m r.1) (read_loop fuel irq_address mon_data buf)
      else if ltb (length buf) buffer_size
      then (if r.0 == 0x0d
          then (then_do (print_buffer (buf ++ (r.0 ∷ [])))
              λ line. clock_then (with_ce m r.1) λ after. done (after, line ∷ []))
          else clock_then (with_ce m r.1) (read_loop fuel irq_address r.0 (buf ++ (r.0 ∷ []))))
      else fault in
    if m.cpu.pc == irq_address then done (m, []) else next

abbrev pub then_write : Machine → ℕ → ℕ → Outcome Machine
then_write m address value =
    then_do (from_option (bus_write_byte m.cpu.ce address (u8 value))) λ ce. done (with_ce m ce)

-- One round of `wozmon write`: the byte, its signal, and one cycle.
unfoldable pub send_byte : ℕ → Machine → Outcome Machine
unfolding clock_machine
send_byte c m =
    then_do (then_write m acia_data c)
      λ m1. then_do (then_write m1 acia_status 0x10) λ m2. clock_then m2 done

-- The loop of `wozmon write`, with `left` rounds to go.
unfoldable pub send_input : ℕ → Bytes → Machine → Outcome Machine
unfolding send_byte
send_input zero input m = done m
send_input (suc left) [] m = done m
send_input (suc left) (c ∷ input) m =
    if c == 0 then done m else then_do (send_byte c m) (send_input left input)

-- `strcmp(a, b) == 0`
unfoldable pub equal : Bytes → Bytes → Bool
equal [] [] = true
equal [] (_ ∷ _) = false
equal (_ ∷ _) [] = false
equal (a ∷ xs) (b ∷ ys) = a == b && equal xs ys

abbrev pub read_text : Bytes
read_text = b'r' ∷ b'e' ∷ b'a' ∷ b'd' ∷ []

abbrev pub write_text : Bytes
write_text = b'w' ∷ b'r' ∷ b'i' ∷ b't' ∷ b'e' ∷ []

abbrev pub input_of : List Bytes → Bytes
input_of [] = []
input_of (input ∷ _) = input

abbrev pub wozmon_read : ℕ → ℕ → Machine → Outcome Reply
wozmon_read fuel irq_address m =
    then_do (from_option (bus_read_byte m.cpu.ce acia_data))
      λ r. then_do (read_loop fuel irq_address r.0 [] (with_ce m r.1)) λ x. succeeded x.0 x.1

abbrev pub wozmon_write : List Bytes → Machine → Outcome Reply
wozmon_write rest m = then_do (send_input pointer_size (input_of rest) m) λ m'. succeeded m' []

unfoldable pub wozmon_command : ℕ → List Bytes → Machine → Outcome Reply
unfolding read_loop send_input equal
wozmon_command fuel (_ ∷ mode ∷ rest) m =
    then_do (from_option (bus_read_word m.cpu.ce irq_vector)) λ w.
      let start = with_ce m w.1 in
      if equal mode read_text
      then wozmon_read fuel w.0 start
      else if equal mode write_text
      then wozmon_write rest start
      else succeeded start []
wozmon_command fuel _ m = refused wozmon m
