-- ===== src/ConfigReader/Examples.antt =====
-- Runs of the configuration reader and its theorems at concrete files.
use Prim.Native.String.{String}
use speakerman.Prelude.{
  ℕ, ◌≤◌, ◌≡◌, refl, List, [], ◌∷◌, some, arith, length, All, All-append, map, replicate, true,
  zero, suc, codes,
}
use speakerman.ConfigReader.{
  ReadResult, success, invalid_start_of_line, read_loop, dispatch, at_end, is_comment_start,
  is_line_delimiter, is_key_start_char, is_key_char, is_white_space, is_assignment, is_escape,
  is_quote, start, Reader, read,
}
use speakerman.ConfigReader.Invariant.{IsKey, IsKeyChar, read_inv}
use speakerman.ConfigReader.Files.{IsEntry, IsPlain, Entry, recorder, render, stored, read-render}
use speakerman.ConfigReader.Quotes.{IsQuoted}

abbrev fresh : Reader (List Entry)
fresh = record {
  key = [];
  value = [];
  state = start;
  pop_state = start;
  quote_char = 0;
  user_data = [];
}

run : String → ReadResult × List Entry
unfolding read read_loop dispatch at_end is_comment_start is_line_delimiter is_key_start_char
    is_key_char is_white_space is_assignment is_escape is_quote
run s = let (result, r) = read (codes s) (some recorder) fresh in (result, r.user_data)

-- Blanks in an unquoted value are dropped.
blanks_are_dropped : run "name = my own group" ≡ (success, (codes "name", codes "myowngroup") ∷ [])
unfolding run
blanks_are_dropped = refl

bad_start : run "=1" ≡ (invalid_start_of_line, [])
unfolding run
bad_start = refl

-- Key and value `ab` and `1`, and `c` and `2`.
abbrev entries : List Entry
entries = (97 ∷ 98 ∷ [], 49 ∷ []) ∷ (99 ∷ [], 50 ∷ []) ∷ []

entries-IsEntry : All IsEntry entries
unfolding is_key_start_char is_key_char is_line_delimiter is_escape is_quote
entries-IsEntry = ground arith

entries-IsPlain : All IsPlain entries
unfolding is_white_space
entries-IsPlain = ground arith

double_quote : is_quote 34 ≡ true
unfolding is_quote
double_quote = refl

first-IsKey : IsKey (97 ∷ 98 ∷ [])
first-IsKey = entries-IsEntry.0.key_ok

inside : All (IsQuoted 34) (120 ∷ 121 ∷ [])
unfolding is_line_delimiter is_escape
inside = ground arith

start_a : is_key_start_char 97 ≡ true
unfolding is_key_start_char
start_a = refl

key_a : is_key_char 97 ≡ true
unfolding is_key_char
key_a = refl

All-a : (n : ℕ) → All IsKeyChar (replicate n 97)
All-a zero = tt
All-a (suc n) = (key_a, All-a n)

abbrev KeyLengthsFit : List Entry → Type 0
KeyLengthsFit = All λ e. length e.0 ≤ 127

read_inv_example :
    let r = (read (codes "a=1") (some recorder) fresh).1 in
    (length r.key ≤ 127) × (length r.value ≤ 1023) × KeyLengthsFit r.user_data
read_inv_example =
    read_inv recorder KeyLengthsFit
      (λ k v d _ n _ p. All-append (λ (e : Entry). length e.0 ≤ 127) d ((k, v) ∷ []) p (n, tt))
      (codes "a=1") fresh tt

read-render_example :
    let (result, r) = read (render entries) (some recorder) fresh in
    (result ≡ success) × (r.user_data ≡ map stored entries)
read-render_example = read-render entries fresh entries-IsEntry

leak_runs :
    run "ab=\"xy\"\nc=2\n" ≡ (success, (codes "ab", codes "xy") ∷ (codes "c", codes "\"2") ∷ [])
unfolding run
leak_runs = refl
