-- ===== src/Loader/Fuel.antt =====
-- The loops of `load_prg_file` in src/prg_loader.c end.
use m.Base.{ℕ, zero, suc, ◌+◌, ◌<◌, ◌≤◌, ◌≢◌, refl, arith, Option, none, some, [], ◌∷◌, u16, length}
use m.Text.{Bytes, skip_delimiters, take_token, take_line, nonempty_token, strtok, fgets, until_nul}
use m.Decoder.{Decoder}
use m.Clock.{Outcome, done, fault, out_of_fuel, map_outcome}
use m.Loader.{store_tokens, load_tokens, load_line, load_lines, load_prg_file, and_then, if_written}

-- What is left behind a token or a line is shorter than the fuel.
abbrev Short : ℕ → Option (Bytes × Bytes) → Type 0
Short fuel none = Unit
Short fuel (some (_, rest)) = length rest < fuel

skip_delimiters-length : (d : ℕ) (text : Bytes) → length (skip_delimiters d text) ≤ length text
unfolding skip_delimiters
skip_delimiters-length d [] = omega arith
skip_delimiters-length d (c ∷ text) = ground (arith, skip_delimiters-length d text)

take_token-length : (d : ℕ) (text : Bytes) → length (take_token d text).1 ≤ length text
unfolding take_token
take_token-length d [] = omega arith
take_token-length d (c ∷ text) = ground (arith, take_token-length d text)

nonempty_token-Short :
    (d : ℕ) (text : Bytes) (n : ℕ) → length text ≤ n → Short n (nonempty_token d text)
unfolding take_token
nonempty_token-Short d [] n h = tt
nonempty_token-Short d (c ∷ text) n h = ground (arith, take_token-length d text)

strtok-Short : (d : ℕ) (text : Bytes) → Short (length text) (strtok d text)
unfolding strtok
strtok-Short d text =
    nonempty_token-Short d (skip_delimiters d text) (length text) (skip_delimiters-length d text)

take_line-length : (room : ℕ) (text : Bytes) → length (take_line room text).1 ≤ length text
unfolding take_line
take_line-length zero text = omega arith
take_line-length (suc room) [] = omega arith
take_line-length (suc room) (c ∷ text) = ground (arith, take_line-length room text)

fgets-Short : (room : ℕ) (text : Bytes) → Short (length text) (fgets (suc room) text)
unfolding fgets take_line
fgets-Short room [] = tt
fgets-Short room (c ∷ text) = ground (arith, take_line-length room text)

map_outcome-ends :
    {A B : Type 0} (f : A → B) (r : Outcome A) → r ≢ out_of_fuel → map_outcome f r ≢ out_of_fuel
map_outcome-ends f (done a) h = λ e. cc
map_outcome-ends f fault h = λ e. cc
map_outcome-ends f out_of_fuel h = absurd (h refl)

Short-mono : (n k : ℕ) (r : Option (Bytes × Bytes)) → n ≤ k → Short n r → Short k r
Short-mono n k none h p = tt
Short-mono n k (some (_, rest)) h p = omega arith

if_written-ends :
    (r : Option Decoder) (next : Decoder → Outcome Decoder)
    → ((ce : Decoder) → next ce ≢ out_of_fuel)
    → if_written r next ≢ out_of_fuel
if_written-ends none next h = λ e. cc
if_written-ends (some ce) next h = h ce

and_then-ends :
    (r : Outcome Decoder) (next : Decoder → Outcome Decoder)
    → r ≢ out_of_fuel
    → ((ce : Decoder) → next ce ≢ out_of_fuel)
    → and_then r next ≢ out_of_fuel
and_then-ends (done ce) next p h = h ce
and_then-ends fault next p h = λ e. cc
and_then-ends out_of_fuel next p h = absurd (p refl)

store_tokens-ends :
    (fuel load offset : ℕ) (r : Option (Bytes × Bytes)) (ce : Decoder)
    → Short fuel r
    → store_tokens fuel load offset r ce ≢ out_of_fuel
unfolding store_tokens
store_tokens-ends fuel load offset none ce h = λ e. cc
store_tokens-ends zero load offset (some (token, rest)) ce h = absurd (omega arith)
store_tokens-ends (suc fuel) load offset (some (token, rest)) ce h = if_written-ends _ _ λ ce'.
    store_tokens-ends fuel load (u16 (offset + 1)) (strtok b' ' rest) ce'
      (Short-mono (length rest) fuel _ (omega arith) (strtok-Short b' ' rest))

load_tokens-ends : (r : Option (Bytes × Bytes)) (ce : Decoder) → load_tokens r ce ≢ out_of_fuel
load_tokens-ends none ce = λ e. cc
load_tokens-ends (some (token, rest)) ce =
    store_tokens-ends (length rest) _ 0 (strtok b' ' rest) ce (strtok-Short b' ' rest)

load_lines-ends :
    (fuel : ℕ) (r : Option (Bytes × Bytes)) (ce : Decoder)
    → Short fuel r
    → load_lines fuel r ce ≢ out_of_fuel
unfolding load_lines load_line
load_lines-ends fuel none ce h = λ e. cc
load_lines-ends zero (some (line, rest)) ce h = absurd (omega arith)
load_lines-ends (suc fuel) (some (line, rest)) ce h =
    and_then-ends _ _ (load_tokens-ends (strtok b':' (until_nul line)) ce) λ ce'.
      load_lines-ends fuel (fgets 63 rest) ce'
        (Short-mono (length rest) fuel _ (omega arith) (fgets-Short 62 rest))

-- `load_prg_file` terminates on every file, or without one: the fuel of the model is never used up.
pub load_prg_file-terminates :
    (text : Option Bytes) (ce : Decoder) → load_prg_file text ce ≢ out_of_fuel
unfolding load_prg_file
load_prg_file-terminates none ce = λ e. cc
load_prg_file-terminates (some text) ce =
    map_outcome-ends _ _ (load_lines-ends (length text) (fgets 63 text) ce (fgets-Short 62 text))
