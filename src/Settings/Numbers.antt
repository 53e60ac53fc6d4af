-- ===== src/Settings/Numbers.antt =====
-- `strtoll` and the parser of counts of src/SpeakermanConfig.cpp give back what was printed.
use speakerman.Prelude.{
  ℕ, zero, suc, ◌+◌, ◌-◌, ◌*◌, ◌/◌, ◌%◌, ◌^◌, ◌<◌, ◌≤◌, ◌≡◌, refl, ap, ◌∙◌, true, false, ◌==◌, List,
  [], ◌∷◌, ◌++◌, append_assoc, some, if◌then◌else◌, ltb, min, arith, decimal, lt→ltb, All,
  All-append, length, length-append,
}
use speakerman.Prelude.Text.{last_digits}
use native.Mathlib.Decide.{dec_lt}
use speakerman.ConfigReader.{is_num, is_line_delimiter, is_white_space, is_comment_start}
use speakerman.Settings.{Memory, char_at}
use speakerman.Settings.Values.{
  is_space, skip_space, read_digits, to_long_long, strtoll, ends_value, parse_count,
}

digit-is_num : (d : ℕ) → d < 10 → is_num (48 + d) ≡ true
unfolding is_num
digit-is_num d h = ground arith

read_digit :
    (m d : ℕ) (t : Memory) → d < 10 → read_digits m ((48 + d) ∷ t) ≡ read_digits (10 * m + d) t
unfolding read_digits
read_digit m d t h = rw (digit-is_num d h) (ap (λ k. read_digits (10 * m + k) t) (omega arith))

last_digits-zero : (n : ℕ) → last_digits 0 n ≡ []
unfolding last_digits
last_digits-zero n = refl

last_digits-step :
    (k n : ℕ)
    → last_digits (suc k) n
      ≡ (if ltb n 10 then (48 + n) ∷ [] else last_digits k (n / 10) ++ (48 + n % 10) ∷ [])
unfolding last_digits
last_digits-step k n = refl

ltb-of_ge : (n : ℕ) → ¬ (n < 10) → ltb n 10 ≡ false
ltb-of_ge n h = ground arith

quotient_fits : (k n : ℕ) → n < 10 ^ suc k → n / 10 < 10 ^ k
quotient_fits k n h = omega arith

-- The digits of a number are read as this number.
read_digits-last_digits :
    (k n : ℕ) (t : Memory) → n < 10 ^ k → read_digits 0 (last_digits k n ++ t) ≡ read_digits n t
read_digits-last_digits zero n t h =
    rw (last_digits-zero n) (ap (λ m. read_digits m t) (omega arith))
read_digits-last_digits (suc k) n t h = elim (dec_lt n 10) [
  | yes small ↦
      rw (last_digits-step k n, lt→ltb n 10 small)
        (read_digit 0 n t small ∙ ap (λ m. read_digits m t) (omega arith))
  | no big ↦
      let more = last_digits k (n / 10) in
      rw (last_digits-step k n, ltb-of_ge n big, append_assoc more ((48 + n % 10) ∷ []) t)
        (read_digits-last_digits k (n / 10) ((48 + n % 10) ∷ t) (quotient_fits k n h)
          ∙ read_digit (n / 10) (n % 10) t (omega arith)
          ∙ ap (λ m. read_digits m t) (omega arith))
]

-- A text that starts with a digit.
abbrev pub IsNumber : List ℕ → Type 0
IsNumber [] = ⊥
IsNumber (c ∷ cs) = is_num c ≡ true

append-IsNumber : (xs ys : List ℕ) → IsNumber xs → IsNumber (xs ++ ys)
append-IsNumber [] ys h = elim h [ ]
append-IsNumber (c ∷ cs) ys h = h

last_digits-IsNumber : (k n : ℕ) → IsNumber (last_digits (suc k) n)
unfolding last_digits
last_digits-IsNumber zero n = ground (arith, digit-is_num n, digit-is_num (n % 10))
last_digits-IsNumber (suc k) n =
    let more =
      append-IsNumber (last_digits (suc k) (n / 10)) ((48 + n % 10) ∷ [])
        (last_digits-IsNumber k (n / 10)) in
    ground (arith, digit-is_num n, digit-is_num (n % 10))

pub decimal-IsNumber : (n : ℕ) → IsNumber (decimal n)
unfolding decimal
decimal-IsNumber n = last_digits-IsNumber 19 n

-- No digit is a space or a sign.
number_starts :
    (cs : Memory)
    → IsNumber cs
    → (skip_space cs ≡ cs)
      × ((char_at cs == b'-') ≡ false)
      × ((char_at cs == b'+') ≡ false)
      × (is_num (char_at cs) ≡ true)
unfolding skip_space is_space is_num char_at
number_starts [] h = elim h [ ]
number_starts (c ∷ cs) h = ground arith

digit-delimiter : (d : ℕ) → is_line_delimiter (48 + d) ≡ false
unfolding is_line_delimiter
digit-delimiter d = ground arith

-- The digits of a number are on one line, and at most 20.
last_digits_lem :
    (k n : ℕ)
    → All (λ c. is_line_delimiter c ≡ false) (last_digits k n) × (length (last_digits k n) ≤ k)
last_digits_lem zero n = rw (last_digits-zero n) (tt, omega arith)
last_digits_lem (suc k) n = rw (last_digits-step k n) (elim (dec_lt n 10) [
  | yes small ↦ rw (lt→ltb n 10 small) ((digit-delimiter n, tt), omega arith)
  | no big ↦
      let (one_line, few) = last_digits_lem k (n / 10) in
      let more = last_digits k (n / 10) in
      let digit = (48 + n % 10) ∷ [] in
      rw (ltb-of_ge n big) (
        All-append (λ c. is_line_delimiter c ≡ false) more digit one_line
            (digit-delimiter (n % 10), tt),
        omega (arith, length-append more digit),
      )
])

pub decimal_lem :
    (n : ℕ) → All (λ c. is_line_delimiter c ≡ false) (decimal n) × (length (decimal n) ≤ 20)
unfolding decimal
decimal_lem n = last_digits_lem 20 n

digits_stop : (n : ℕ) (t : Memory) → is_num (char_at t) ≡ false → read_digits n t ≡ (n, t)
unfolding read_digits char_at
digits_stop n [] e = refl
digits_stop n (c ∷ cs) e = rw e refl

read_decimal :
    (n : ℕ) (t : Memory)
    → n < 2 ^ 63
    → is_num (char_at t) ≡ false
    → read_digits 0 (decimal n ++ t) ≡ (n, t)
unfolding decimal
read_decimal n t h e = read_digits-last_digits 20 n t (omega arith) ∙ digits_stop n t e

end-is_num : (t : Memory) → ends_value t ≡ true → is_num (char_at t) ≡ false
unfolding ends_value is_num is_white_space is_comment_start
end-is_num t e = ground arith

in_range : (n : ℕ) → n < 2 ^ 63 → to_long_long false n ≡ n
unfolding to_long_long
in_range n h = omega arith

strtoll-number :
    (value : Memory) (n : ℕ) (t : Memory)
    → IsNumber value
    → read_digits 0 value ≡ (n, t)
    → n < 2 ^ 63
    → strtoll value ≡ (n, t)
unfolding strtoll
strtoll-number value n t h e k =
    let (start, minus, plus, digit) = number_starts value h in
    rw (start, minus, plus, e, digit, in_range n k) refl

-- A count below 2^63 that was printed is parsed as it was.
pub parse_count-decimal :
    (n : ℕ) (t : Memory)
    → n < 2 ^ 63
    → ends_value t ≡ true
    → parse_count (decimal n ++ t) ≡ (some n, t)
unfolding parse_count
parse_count-decimal n t h e =
    let number = append-IsNumber (decimal n) t (decimal-IsNumber n) in
    let read = strtoll-number (decimal n ++ t) n t number (read_decimal n t h (end-is_num t e)) h in
    let m : min n (2 ^ 64 - 1) ≡ n = omega arith in rw (read, e, m) refl
