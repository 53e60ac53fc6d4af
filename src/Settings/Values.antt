-- ===== src/Settings/Values.antt =====
-- The values of variables: `ValueParser_` and `read_value_array` of src/SpeakermanConfig.cpp. The
-- conversion of the standard library `strtold` is an argument: it gives the number, rounded and
-- limited to the range of a `double`, and where it ends.
use speakerman.Prelude.{
  ℕ, zero, suc, ◌+◌, ◌-◌, ◌*◌, ◌%◌, ◌^◌, min, Bool, true, false, ◌&&◌, ◌||◌, List, [], ◌∷◌, ◌++◌,
  Option, none, some, Option, if◌then◌else◌, ltb, leb, ◌==◌, codes, length, drop,
}
use speakerman.ConfigReader.{is_white_space, is_comment_start, is_quote, is_num, is_alpha_num}
use speakerman.Settings.{Memory, char_at, char_from}

-- `isspace` of the C library.
unfoldable pub is_space : ℕ → Bool
is_space c = c == 32 || (leb 9 c && leb c 13)

unfoldable pub skip_space : Memory → Memory
skip_space [] = []
skip_space (c ∷ cs) = if is_space c then skip_space cs else c ∷ cs

-- The number that the digits make, after `n`, and where they end.
unfoldable pub read_digits : ℕ → Memory → ℕ × Memory
read_digits n [] = (n, [])
read_digits n (c ∷ cs) = if is_num c then read_digits (10 * n + (c - 48)) cs else (n, c ∷ cs)

-- The 64 bits of a `long long` from a sign and a magnitude, limited to its range.
unfoldable pub to_long_long : Bool → ℕ → ℕ
to_long_long negative n =
    if negative then (2 ^ 64 - min n (2 ^ 63)) % 2 ^ 64 else min n (2 ^ 63 - 1)

-- `strtoll` for base 10: the bits of the result, and the end.
unfoldable pub strtoll : Memory → ℕ × Memory
strtoll value =
    let start = skip_space value in
    let negative = char_at start == b'-' in
    let digits = if negative || char_at start == b'+' then drop 1 start else start in
    let (n, end) = read_digits 0 digits in
    if is_num (char_at digits) then (to_long_long negative n, end) else (0, value)

-- Whether a value can end here.
unfoldable pub ends_value : Memory → Bool
ends_value end = char_at end == 0 || is_white_space (char_at end) || is_comment_start (char_at end)

-- `ValueParser_<size_t, 1>::parse`: the value if there is one, and the end. The bits of the number
-- are limited to the range of a `size_t` only after they were made one.
unfoldable pub parse_count : Memory → Option ℕ × Memory
parse_count value =
    let (parsed, end) = strtoll value in
    if ends_value end then (some (min parsed (2 ^ 64 - 1)), end) else (none, end)

unfoldable pub lower : ℕ → ℕ
lower c = if leb 65 c && leb c 90 then c + 32 else c

-- `strncasecmp(key, p, length of key) == 0`, for a key without zeros.
unfoldable pub starts_with : (key : List ℕ) → Memory → Bool
unfolding lower
starts_with [] p = true
starts_with (k ∷ key) [] = false
starts_with (k ∷ key) (c ∷ p) = lower k == lower c && starts_with key p

-- `ValueParser_<int, 2>::matches`; `scan_length` is `end - value`.
unfoldable pub matches : (keyword : List ℕ) → (value : Memory) → (scan_length : ℕ) → Bool
matches keyword value scan_length =
    if ltb scan_length (length keyword)
    then false
    else starts_with keyword value
      && (char_from value (length keyword) == 0
          || is_white_space (char_from value (length keyword)))

-- How many letters and digits a value starts with.
unfoldable pub alpha_nums : Memory → ℕ
alpha_nums [] = 0
alpha_nums (c ∷ cs) = let n = alpha_nums cs in if is_alpha_num c then n + 1 else 0

-- `ValueParser_<int, 2>::parse`
unfoldable pub parse_boolean : Memory → Option ℕ × Memory
parse_boolean value =
    let n = alpha_nums value in
    (
      (if matches (codes "true") value n
            || matches (codes "1") value n
            || matches (codes "yes") value n
          then some 1
          else if matches (codes "false") value n
              || matches (codes "0") value n
              || matches (codes "no") value n
          then some 0
          else none),
      drop n value,
    )

-- The other characters of names; the list that `strchr` looks into ends with a zero, which it finds too.
abbrev name_signs : List ℕ
name_signs = codes ".!|,;:/[]{}*#@~%^()-_+=" ++ 92 ∷ 0 ∷ []

abbrev contains : ℕ → List ℕ → Bool
contains c [] = false
contains c (x ∷ xs) = x == c || contains c xs

unfoldable pub is_name_char : ℕ → Bool
is_name_char c = is_alpha_num c || is_quote c || contains c name_signs

-- The loop of `ValueParser_<char[], 4>::parse` with `room` bytes to go, after some were stored or
-- not: the bytes that it stores. It reads on behind a zero, and nothing if the memory ends before.
unfoldable pub name_bytes : (room : ℕ) → (stored : Bool) → Memory → Option (List ℕ)
unfolding is_name_char
name_bytes zero stored src = some []
name_bytes (suc room) stored [] = none
name_bytes (suc room) stored (c ∷ src) =
    let white = c == 9 || c == 32 in
    let keep = if white then stored else is_name_char c in
    elim (name_bytes (if keep then room else suc room) (stored || keep) src) [
      | none ↦ none
      | some rest ↦ some (if keep then (if white then 32 else c) ∷ rest else rest)
    ]

-- The bytes before the first zero.
unfoldable pub c_string : Memory → List ℕ
c_string [] = []
c_string (c ∷ cs) = let rest = c_string cs in if c == 0 then [] else c ∷ rest

-- `ValueParser_<char[], 4>::parse`: the name that the field holds then.
unfoldable pub parse_name : Memory → Option (List ℕ)
unfolding name_bytes c_string
parse_name value = elim (name_bytes 63 false value) [
  | none ↦ none
  | some bytes ↦ some (c_string bytes)
]

-- The inner loop of `read_value_array`: where it ends, or nothing at a second delimiter.
unfoldable pub skip_delimiters : (had_delimiter : Bool) → Memory → Option Memory
skip_delimiters had [] = some []
skip_delimiters had (c ∷ cs) =
    let delimiter = c == b';' || c == b',' in
    if is_white_space c || delimiter
    then if delimiter && had then none else skip_delimiters (had || delimiter) cs
    else some (c ∷ cs)

-- What `read_value_array` returns: -1, the values that it read, or a number of values that is one more
-- than the array holds.
pub data Values {ℓ} (A : Type ℓ) : Type ℓ where
  no_values : Values A
  values : List A → Values A
  too_many_values : Values A

abbrev pub add_value {ℓ} : {A : Type ℓ} → A → Values A → Values A
add_value v no_values = no_values
add_value v (values vs) = values (v ∷ vs)
add_value v too_many_values = too_many_values

-- `read_value_array` with room for `left` more values.
unfoldable pub read_value_array {ℓ} :
    {A : Type ℓ}
    → (parse : Memory → Option A × Memory) → (left : ℕ) → (read_from : Memory) → Values A
read_value_array parse zero read_from = too_many_values
read_value_array parse (suc left) read_from =
    let (parsed, end) = parse read_from in
    elim parsed [
      | none ↦ no_values
      | some v ↦ elim (skip_delimiters false end) [
        | none ↦ no_values
        | some end' ↦
            if char_at end' == 0 || is_comment_start (char_at end')
            then values (v ∷ [])
            else add_value v (read_value_array parse left end')
      ]
    ]
