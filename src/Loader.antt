-- ===== src/Loader.antt =====
-- src/prg_loader.c: segments of bytes, written to a text file and loaded from it through the bus.
-- The file is the list of its bytes; what the program prints on the console is left out.
pub mod Lines
pub mod RoundTrip
pub mod Fuel
use m.Base.{
  ℕ, zero, suc, ◌+◌, ◌<◌, ◌≤◌, ◌≡◌, ◌-◌, Bool, Option, none, some, List, [], ◌∷◌, ◌++◌, u16,
  if◌then◌else◌, length,
}
use m.Base.Int.{ℤ, pos, negsuc}
use m.Text.{
  Bytes, format_02x, format_04x, until_nul, fgets, strtok, strtol, long_to_u8, long_to_u16,
}
use m.Decoder.{Decoder, bus_write_byte}
use m.Clock.{Outcome, done, fault, out_of_fuel, map_outcome}

abbrev pub buf_size : ℕ
buf_size = 64

-- `prg_segment_t`; `bytes` is what `data` points to.
pub record Segment : Type 0 where
  pub load_address : ℕ
  pub size : ℕ
  pub bytes : Bytes

abbrev pub append_to : Bytes → Option Bytes → Option Bytes
append_to text none = none
append_to text (some rest) = some (text ++ rest)

-- The loop over the bytes of a segment; `none` is a read past them.
unfoldable pub print_bytes : ℕ → Bytes → Option Bytes
unfolding format_02x
print_bytes zero bytes = some []
print_bytes (suc left) [] = none
print_bytes (suc left) (b ∷ bytes) =
    append_to (format_02x b ++ (b' ' ∷ [])) (print_bytes left bytes)

-- `"0x%04X: "`
abbrev pub print_address : ℕ → Bytes
print_address a = b'0' ∷ b'x' ∷ format_04x a ++ (b':' ∷ b' ' ∷ [])

abbrev pub print_line : Segment → Option Bytes → Option Bytes
print_line segment none = none
print_line segment (some text) = some (print_address segment.load_address ++ text ++ (b'\n' ∷ []))

abbrev pub print_both : Option Bytes → Option Bytes → Option Bytes
print_both none rest = none
print_both (some line) rest = append_to line rest

-- The loop over the segments.
unfoldable pub print_segments : List Segment → Option Bytes
unfolding print_bytes
print_segments [] = some []
print_segments (segment ∷ segments) =
    print_both (print_line segment (print_bytes segment.size segment.bytes))
      (print_segments segments)

abbrev pub written : Option Bytes → Option (ℤ × Option Bytes)
written none = none
written (some text) = some (pos 0, some text)

-- The value returned, and the file if it could be created.
unfoldable pub write_prg_file : Bool → List Segment → Option (ℤ × Option Bytes)
unfolding print_segments
write_prg_file created segments =
    if created then written (print_segments segments) else some (negsuc 0, none)

abbrev pub if_written : Option Decoder → (Decoder → Outcome Decoder) → Outcome Decoder
if_written none next = fault
if_written (some ce) next = next ce

-- `while (token != NULL)`; the address of a byte is `loadAddr + offset`.
unfoldable pub store_tokens : ℕ → ℕ → ℕ → Option (Bytes × Bytes) → Decoder → Outcome Decoder
store_tokens fuel load_addr offset none ce = done ce
store_tokens zero load_addr offset (some _) ce = out_of_fuel
store_tokens (suc fuel) load_addr offset (some (token, rest)) ce =
    if_written (bus_write_byte ce (u16 (load_addr + offset)) (long_to_u8 (strtol 16 token)))
      (store_tokens fuel load_addr (u16 (offset + 1)) (strtok b' ' rest))

-- The body of the loop over the lines. `strtok` finds nothing in a line of colons, and `strtol` then
-- reads from NULL.
abbrev pub load_tokens : Option (Bytes × Bytes) → Decoder → Outcome Decoder
load_tokens none ce = fault
load_tokens (some (token, rest)) ce =
    store_tokens (length rest) (long_to_u16 (strtol 16 token)) 0 (strtok b' ' rest) ce

unfoldable pub load_line : Bytes → Decoder → Outcome Decoder
unfolding store_tokens
load_line line ce = load_tokens (strtok b':' (until_nul line)) ce

abbrev pub and_then : Outcome Decoder → (Decoder → Outcome Decoder) → Outcome Decoder
and_then (done ce) next = next ce
and_then fault next = fault
and_then out_of_fuel next = out_of_fuel

-- `while (fgets(...))`
unfoldable pub load_lines : ℕ → Option (Bytes × Bytes) → Decoder → Outcome Decoder
unfolding load_line
load_lines fuel none ce = done ce
load_lines zero (some _) ce = out_of_fuel
load_lines (suc fuel) (some (line, rest)) ce =
    and_then (load_line line ce) (load_lines fuel (fgets (buf_size - 1) rest))

-- `none` is a file that cannot be opened. The fuel is the length of the text.
unfoldable pub load_prg_file : Option Bytes → Decoder → Outcome (ℤ × Decoder)
unfolding load_lines
load_prg_file none ce = done (negsuc 0, ce)
load_prg_file (some text) ce =
    map_outcome (λ dev. (pos 0, dev)) (load_lines (length text) (fgets (buf_size - 1) text) ce)
