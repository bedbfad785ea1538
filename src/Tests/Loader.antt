-- ===== src/Tests/Loader.antt =====
-- Files of src/prg_loader.c.
use m.Base.{ℕ, ◌≡◌, ◌≢◌, refl, arith, true, Option, none, some, List, [], ◌∷◌}
use m.Base.Int.{ℤ, pos}
use m.Text.{Bytes}
use m.Decoder.{Decoder}
use m.Clock.{Outcome, done, fault, out_of_fuel, map_outcome}
use m.Loader.{Segment, load_prg_file, write_prg_file}
use m.Loader.Fuel.{load_prg_file-terminates}
use m.Loader.RoundTrip.{load_prg_file-write_prg_file, AllFit, store_segments, outcome_of}
use m.Tests.Processor.{blank}

abbrev low : Segment
low = record { load_address = 0x10; size = 2; bytes = 0xde ∷ 0x0a ∷ [] }

abbrev high : Segment
high = record { load_address = 0x6000; size = 1; bytes = 0x4d ∷ [] }

abbrev segments : List Segment
segments = low ∷ high ∷ []

abbrev two_lines : Bytes
two_lines =
    b'0' ∷ b'x' ∷ b'0' ∷ b'0' ∷ b'1' ∷ b'0' ∷ b':' ∷ b' ' ∷ b'D' ∷ b'E' ∷ b' ' ∷ b'0' ∷ b'A' ∷ b' '
    ∷ b'\n' ∷ b'0' ∷ b'x' ∷ b'6' ∷ b'0' ∷ b'0' ∷ b'0' ∷ b':' ∷ b' ' ∷ b'4' ∷ b'D' ∷ b' ' ∷ b'\n'
    ∷ []

-- The second line has no token, so that `strtol` reads from NULL.
abbrev colons : Bytes
colons = b'0' ∷ b'x' ∷ b'1' ∷ b'0' ∷ b':' ∷ b' ' ∷ b'D' ∷ b'E' ∷ b'\n' ∷ b':' ∷ b':' ∷ []

written_text : Option (ℤ × Option Bytes)
unfolding write_prg_file m.Text.format_02x m.Text.format_04x m.Text.hex_char
written_text = write_prg_file true segments

written_text-eq : written_text ≡ some (pos 0, some two_lines)
unfolding written_text
written_text-eq = refl

segments-Fit : AllFit segments
segments-Fit = (
  record {
    address_word = omega arith;
    whole = refl;
    short = omega arith;
    bytes = (omega arith, (omega arith, tt));
  },
  (
    record {
      address_word = omega arith;
      whole = refl;
      short = omega arith;
      bytes = (omega arith, tt);
    },
    tt,
  ),
)

load_prg_file-write_prg_file_example :
    (text : Bytes) × (write_prg_file true segments ≡ some (pos 0, some text))
    × (load_prg_file (some text) blank
        ≡ map_outcome (λ dev. (pos 0, dev)) (outcome_of (store_segments segments blank)))
load_prg_file-write_prg_file_example = load_prg_file-write_prg_file segments blank segments-Fit

load_prg_file-terminates_example : load_prg_file (some colons) blank ≢ out_of_fuel
load_prg_file-terminates_example = load_prg_file-terminates (some colons) blank

-- What `load_prg_file` stores, byte for byte: the newline as a 0.
loaded : Bytes → Decoder → Outcome (ℤ × Decoder)
unfolding m.Tests.Processor.clocked load_prg_file m.Text.strtok m.Text.strtol m.Text.fgets
    m.Text.until_nul
loaded text ce = load_prg_file (some text) ce

abbrev byte_behind : ℕ → Outcome (ℤ × Decoder) → Option ℕ
byte_behind i (done (_, ce)) = some (ce.mem.bytes i)
byte_behind i fault = none
byte_behind i out_of_fuel = none

abbrev full : Decoder
full = record blank { mem = record { bytes = λ _. 0xff } }

last_byte : byte_behind 0x11 (loaded two_lines full) ≡ some 0x0a
unfolding loaded
last_byte = refl

newline_byte : byte_behind 0x12 (loaded two_lines full) ≡ some 0
unfolding loaded
newline_byte = refl

behind : byte_behind 0x13 (loaded two_lines full) ≡ some 0xff
unfolding loaded
behind = refl

no_address : loaded colons full ≡ fault
unfolding loaded
no_address = refl
