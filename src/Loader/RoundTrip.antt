-- ===== src/Loader/RoundTrip.antt =====
-- What `load_prg_file` of src/prg_loader.c does with a file of `write_prg_file`.
use mathlib.Core.List.{append_assoc}
use m.Base.{
  ℕ, zero, suc, ◌+◌, ◌/◌, ◌%◌, ◌<◌, ◌≤◌, ◌≡◌, ◌∙◌, ap, refl, arith, Option, none, some, List, [],
  ◌∷◌, ◌++◌, length, length-append, u16, true,
}
use m.Base.Int.{pos}
use m.Text.{
  Bytes, hex_char, format_02x, fgets, until_nul, take_token, skip_delimiters, strtok, strtol,
}
use m.Text.Hex.{hex_char_range, strtol-format_02x, strtol-format_04x}
use m.Decoder.{Decoder, bus_write_byte}
use m.Clock.{Outcome, done, fault, map_outcome}
use m.Loader.{
  Segment, store_tokens, load_line, load_lines, load_prg_file, print_segments, write_prg_file,
  if_written, and_then,
}
use m.Loader.Lines.{
  AreBytes, body, address, content, print_bytes-body, length-body, take_line_whole, until_nul_whole,
  take_token_whole, content_no_newline, line_no_nul, length-content, address_no_colon,
}

abbrev pub store_rest : Option Decoder → (Decoder → Option Decoder) → Option Decoder
store_rest none next = none
store_rest (some ce) next = next ce

-- Bytes written one after another, from an address on; `none` if a write leaves the array.
unfoldable pub store_at : ℕ → Bytes → Decoder → Option Decoder
store_at a [] ce = some ce
store_at a (b ∷ bs) ce = store_rest (bus_write_byte ce (u16 a) b) (store_at (a + 1) bs)

-- The segments as they are loaded: the newline at the end of a line is one more byte, 0.
unfoldable pub store_segments : List Segment → Decoder → Option Decoder
unfolding store_at
store_segments [] ce = some ce
store_segments (s ∷ segments) ce =
    store_rest (store_at s.load_address (s.bytes ++ (0 ∷ [])) ce) (store_segments segments)

abbrev pub outcome_of : Option Decoder → Outcome Decoder
outcome_of none = fault
outcome_of (some ce) = done ce

newline_token : strtol 16 (b'\n' ∷ []) ≡ pos 0
unfolding strtol
newline_token = refl

-- The tokens behind the address.
next_token :
    (b : ℕ) (text : Bytes)
    → strtok b' ' (hex_char (b / 16 % 16) ∷ hex_char (b % 16) ∷ b' ' ∷ text)
      ≡ some (format_02x b, text)
unfolding strtok skip_delimiters take_token format_02x
next_token b text =
    let high = hex_char_range (b / 16 % 16) (omega arith) in
    let low = hex_char_range (b % 16) (omega arith) in ground (arith, high.2, low.2)

last_token : strtok b' ' (b'\n' ∷ []) ≡ some (b'\n' ∷ [], [])
unfolding strtok skip_delimiters take_token
last_token = refl

no_token : strtok b' ' [] ≡ none
unfolding strtok
no_token = refl

if_written-store_rest :
    (r : Option Decoder) (next : Decoder → Outcome Decoder) (then_store : Decoder → Option Decoder)
    → ((ce : Decoder) → next ce ≡ outcome_of (then_store ce))
    → if_written r next ≡ outcome_of (store_rest r then_store)
if_written-store_rest none next then_store h = refl
if_written-store_rest (some ce) next then_store h = h ce

and_then-store_rest :
    (r : Option Decoder) (next : Decoder → Outcome Decoder) (then_store : Decoder → Option Decoder)
    → ((ce : Decoder) → next ce ≡ outcome_of (then_store ce))
    → and_then (outcome_of r) next ≡ outcome_of (store_rest r then_store)
and_then-store_rest none next then_store h = refl
and_then-store_rest (some ce) next then_store h = h ce

store_tokens-none :
    (fuel load offset : ℕ) (ce : Decoder) → store_tokens fuel load offset none ce ≡ done ce
unfolding store_tokens
store_tokens-none zero load offset ce = refl
store_tokens-none (suc fuel) load offset ce = refl

store_tokens-body :
    (bs : Bytes) (fuel load offset : ℕ) (ce : Decoder)
    → AreBytes bs
    → length bs < fuel
    → offset + length bs < 65536
    → store_tokens fuel load offset (strtok b' ' (body bs ++ (b'\n' ∷ []))) ce
      ≡ outcome_of (store_at (load + offset) (bs ++ (0 ∷ [])) ce)
unfolding store_tokens store_at
store_tokens-body bs zero load offset ce h k l = absurd (omega arith)
store_tokens-body [] (suc fuel) load offset ce h k l =
    rw (last_token, newline_token, no_token)
      (if_written-store_rest (bus_write_byte ce (u16 (load + offset)) 0) _ _
        (store_tokens-none fuel load (u16 (offset + 1))))
store_tokens-body (b ∷ bs) (suc fuel) load offset ce (p, h) k l =
    let byte : b % 256 ≡ b = omega arith in
    let next : u16 (offset + 1) ≡ offset + 1 = omega arith in
    let moved : load + offset + 1 ≡ load + (offset + 1) = omega arith in
    rw (next_token b (body bs ++ (b'\n' ∷ [])), strtol-format_02x b p, byte, next, moved)
      (if_written-store_rest (bus_write_byte ce (u16 (load + offset)) b) _ _
        λ ce'. store_tokens-body bs fuel load (offset + 1) ce' h (omega arith) (omega arith))

-- The first call of `strtok` for the bytes starts at the blank behind the colon.
first_blank : (text : Bytes) → strtok b' ' (b' ' ∷ text) ≡ strtok b' ' text
unfolding strtok skip_delimiters
first_blank text = refl

address_token :
    (a : ℕ) (text : Bytes) → strtok b':' (address a ++ (b':' ∷ text)) ≡ some (address a, text)
unfolding strtok skip_delimiters
address_token a text = ap some (take_token_whole b':' (address a) text (address_no_colon a))

load_line-content :
    (a : ℕ) (bs : Bytes) (ce : Decoder)
    → a < 65536
    → AreBytes bs
    → length bs < 65536
    → load_line (content a bs ++ (b'\n' ∷ [])) ce ≡ outcome_of (store_at a (bs ++ (0 ∷ [])) ce)
unfolding load_line
load_line-content a bs ce h k l =
    let same : a % 65536 ≡ a = omega arith in
    let zero_offset : a + 0 ≡ a = omega arith in
    let text : until_nul (content a bs ++ (b'\n' ∷ [])) ≡ content a bs ++ (b'\n' ∷ []) =
      until_nul_whole _ (line_no_nul a bs) in
    let parts : content a bs ++ (b'\n' ∷ [])
        ≡ address a ++ (b':' ∷ b' ' ∷ body bs ++ (b'\n' ∷ [])) =
      append_assoc (address a) (b':' ∷ b' ' ∷ body bs) (b'\n' ∷ []) in
    let token : strtok b':' (until_nul (content a bs ++ (b'\n' ∷ [])))
        ≡ some (address a, b' ' ∷ body bs ++ (b'\n' ∷ [])) =
      ap (strtok b':') (text ∙ parts) ∙ address_token a (b' ' ∷ body bs ++ (b'\n' ∷ [])) in
    rw (token, strtol-format_04x a h, first_blank (body bs ++ (b'\n' ∷ [])), same)
      (store_tokens-body bs (suc (length (body bs ++ (b'\n' ∷ [])))) a 0 ce k
          (omega (arith, length-append (body bs) (b'\n' ∷ []), length-body bs)) (omega arith)
        ∙ ap (λ x. outcome_of (store_at x (bs ++ (0 ∷ [])) ce)) zero_offset)

-- A segment that `load_prg_file` reads back: its address and bytes are in range, its size is that of
-- its bytes, and its line fits the buffer.
pub record Fits (s : Segment) : Type 0 where
  pub address_word : s.load_address < 65536
  pub whole : s.size ≡ length s.bytes
  pub short : length s.bytes ≤ 18
  pub bytes : AreBytes s.bytes

abbrev pub AllFit : List Segment → Type 0
AllFit [] = Unit
AllFit (s ∷ segments) = Fits s × AllFit segments

abbrev pub file : List Segment → Bytes
file [] = []
file (s ∷ segments) = content s.load_address s.bytes ++ (b'\n' ∷ file segments)

print_segments-file :
    (segments : List Segment) → AllFit segments → print_segments segments ≡ some (file segments)
unfolding print_segments
print_segments-file [] h = refl
print_segments-file (s ∷ segments) (f, h) =
    rw (f.whole, print_bytes-body s.bytes, print_segments-file segments h) (simp append_assoc)

fgets_line :
    (a : ℕ) (bs rest : Bytes)
    → length bs ≤ 18
    → fgets 63 (content a bs ++ (b'\n' ∷ rest)) ≡ some (content a bs ++ (b'\n' ∷ []), rest)
unfolding fgets
fgets_line a bs rest h = ap some (
    take_line_whole (content a bs) rest 63 (content_no_newline a bs)
      (omega (arith, length-content a bs)))

load_lines-file :
    (segments : List Segment) (fuel : ℕ) (ce : Decoder)
    → AllFit segments
    → length segments ≤ fuel
    → load_lines fuel (fgets 63 (file segments)) ce ≡ outcome_of (store_segments segments ce)
unfolding load_lines store_segments
load_lines-file [] zero ce h k = unfold fgets in refl
load_lines-file [] (suc fuel) ce h k = unfold fgets in refl
load_lines-file (s ∷ segments) zero ce h k = absurd (omega arith)
load_lines-file (s ∷ segments) (suc fuel) ce (f, h) k =
    rw
      (
        fgets_line s.load_address s.bytes (file segments) f.short,
        load_line-content s.load_address s.bytes ce f.address_word f.bytes (omega (arith, f.short)),
      )
      (and_then-store_rest (store_at s.load_address (s.bytes ++ (0 ∷ [])) ce) _ _
        λ ce'. load_lines-file segments fuel ce' h (omega arith))

length-file : (segments : List Segment) → length segments ≤ length (file segments)
length-file [] = omega arith
length-file (s ∷ segments) = omega (
  arith,
  length-append (content s.load_address s.bytes) (b'\n' ∷ file segments),
  length-file segments,
)

-- Segments of at most 18 bytes, with addresses and bytes in range and sizes that are those of the
-- data, can be written, and loading the file stores each segment through the bus from its address
-- on, in the order of the file, with one byte 0 behind it: the newline is read as a token. The load
-- returns 0, or leaves an array exactly where one of these stores does.
pub load_prg_file-write_prg_file :
    (segments : List Segment) (ce : Decoder)
    → AllFit segments
    → (text : Bytes) × (write_prg_file true segments ≡ some (pos 0, some text))
      × (load_prg_file (some text) ce
          ≡ map_outcome (λ dev. (pos 0, dev)) (outcome_of (store_segments segments ce)))
unfolding write_prg_file load_prg_file
load_prg_file-write_prg_file segments ce h = (
  file segments,
  rw (print_segments-file segments h),
  ap (map_outcome (λ dev. (pos 0, dev)))
      (load_lines-file segments (length (file segments)) ce h (length-file segments)),
)
