-- ===== src/Settings/Select.antt =====
-- Which variable a line of src/SpeakermanConfig.cpp sets: `read_key`, `skip_assignment` and the loop of
-- `read_line` over the readers, for keys that differ.
use speakerman.Prelude.{
  ℕ, zero, suc, ◌≡◌, refl, ap, subst, ◌∙◌, Bool, true, false, not, ◌&&◌, ◌||◌, ◌==◌, List, [], ◌∷◌,
  ◌++◌, All, Option, none, some, if◌then◌else◌, arith, codes, get_elem?, Bool-cases, inl, inr,
}
use speakerman.ConfigReader.{is_white_space, is_line_delimiter, is_alpha, is_num, is_comment_start}
use speakerman.Settings.{Memory, char_at}
use speakerman.Settings.Values.{lower, starts_with}
use speakerman.Settings.Keys.{
  success, skip, skip_from, skip_to_key_start, read_key, skip_white, skip_assignment,
}
use speakerman.Settings.Variables.{KeyVariableReader}
use speakerman.Settings.Lines.{select}

-- Neither white space, nor an assignment, nor the end of a line.
unfoldable pub is_plain_char : ℕ → Bool
is_plain_char c = not (is_white_space c || c == b'=' || is_line_delimiter c)

-- The keys are the same but for their case.
unfoldable pub same_key : List ℕ → List ℕ → Bool
unfolding lower
same_key [] [] = true
same_key [] (c ∷ cs) = false
same_key (k ∷ ks) [] = false
same_key (k ∷ ks) (c ∷ cs) = lower k == lower c && same_key ks cs

abbrev pub IsPlain : List ℕ → Type 0
IsPlain key = All (λ c. is_plain_char c ≡ true) key

read_key-empty : (c : ℕ) (cs : Memory) → is_plain_char c ≡ true → read_key [] (c ∷ cs) ≡ skip
unfolding read_key starts_with char_at is_plain_char
read_key-empty c cs h = ground arith

read_key-cons :
    (k : ℕ) (ks : List ℕ) (c : ℕ) (cs : Memory)
    → read_key (k ∷ ks) (c ∷ cs) ≡ (if lower k == lower c then read_key ks cs else skip)
unfolding read_key starts_with char_at
read_key-cons k ks c cs = ground arith

lower-plain : (k : ℕ) → is_plain_char k ≡ true → (lower k == lower 32) ≡ false
unfolding is_plain_char is_white_space lower
lower-plain k h = ground arith

if-and {ℓ} :
    {A : Type ℓ} (a b : Bool) (x y : A)
    → (if a then if b then x else y else y) ≡ (if a && b then x else y)
if-and true b x y = refl
if-and false b x y = refl

-- A key is read where the same key stands before a space, and nowhere else.
read_key-eq :
    (k key : List ℕ) (rest : Memory)
    → IsPlain k
    → IsPlain key
    → read_key k (key ++ 32 ∷ rest) ≡ (if same_key k key then success (32 ∷ rest) else skip)
unfolding same_key read_key starts_with char_at is_white_space
read_key-eq [] [] rest h hk = refl
read_key-eq [] (c ∷ cs) rest h (p, ps) = read_key-empty c (cs ++ 32 ∷ rest) p
read_key-eq (k ∷ ks) [] rest (p, ps) hk = read_key-cons k ks 32 rest ∙ rw (lower-plain k p) refl
read_key-eq (k ∷ ks) (c ∷ cs) rest (p, ps) (q, qs) =
    read_key-cons k ks c (cs ++ 32 ∷ rest)
    ∙ ap (λ s. if lower k == lower c then s else skip) (read_key-eq ks cs rest ps qs)
    ∙ if-and (lower k == lower c) (same_key ks cs) (success (32 ∷ rest)) skip

eq_refl : (n : ℕ) → (n == n) ≡ true
eq_refl n = ground arith

same_key_refl : (key : List ℕ) → same_key key key ≡ true
unfolding same_key
same_key_refl [] = refl
same_key_refl (k ∷ ks) = rw (eq_refl (lower k)) (same_key_refl ks)

abbrev all_plain : List ℕ → Bool
all_plain [] = true
all_plain (c ∷ cs) = is_plain_char c && all_plain cs

-- A key starts with a letter, and has neither white space, nor an assignment, nor an end of a line.
unfoldable pub is_valid_key : List ℕ → Bool
unfolding is_plain_char
is_valid_key key = is_alpha (char_at key) && all_plain key

unfoldable pub has_key : List KeyVariableReader → List ℕ → Bool
unfolding same_key
has_key [] key = false
has_key (r ∷ rs) key = same_key r.key key || has_key rs key

-- All keys are valid, and differ from all later ones.
unfoldable pub distinct_keys : List KeyVariableReader → Bool
unfolding has_key is_valid_key
distinct_keys [] = true
distinct_keys (r ∷ rs) = is_valid_key r.key && not (has_key rs r.key) && distinct_keys rs

and-split : (a b : Bool) → (a && b) ≡ true → (a ≡ true) × (b ≡ true)
and-split true b h = (refl, h)
and-split false b h = absurd (ground arith)

or-split : (a b : Bool) → (a || b) ≡ false → (a ≡ false) × (b ≡ false)
or-split true b h = absurd (ground arith)
or-split false b h = (refl, h)

all_plain-IsPlain : (key : List ℕ) → all_plain key ≡ true → IsPlain key
all_plain-IsPlain [] h = tt
all_plain-IsPlain (c ∷ cs) h =
    let (p, ps) = and-split (is_plain_char c) (all_plain cs) h in (p, all_plain-IsPlain cs ps)

select-hit :
    (r : KeyVariableReader) (rs : List KeyVariableReader) (start after : Memory)
    (found : Option (KeyVariableReader × Memory))
    → read_key r.key start ≡ success after
    → select (r ∷ rs) start found ≡ select rs start (some (r, after))
unfolding select
select-hit r rs start after found h = rw (h, select) refl

select-miss :
    (r : KeyVariableReader) (rs : List KeyVariableReader) (start : Memory)
    (found : Option (KeyVariableReader × Memory))
    → read_key r.key start ≡ skip
    → select (r ∷ rs) start found ≡ select rs start found
unfolding select
select-miss r rs start found h = rw (h, select) refl

valid-IsPlain : (key : List ℕ) → is_valid_key key ≡ true → IsPlain key
unfolding is_valid_key
valid-IsPlain key h = all_plain-IsPlain key (and-split (is_alpha (char_at key)) (all_plain key) h).1

-- What `distinct_keys` tells of the first reader, and of the others.
distinct-split :
    (r : KeyVariableReader) (rs : List KeyVariableReader)
    → distinct_keys (r ∷ rs) ≡ true
    → (is_valid_key r.key ≡ true) × (has_key rs r.key ≡ false) × (distinct_keys rs ≡ true)
unfolding distinct_keys
distinct-split r rs h = parts (is_valid_key r.key) (has_key rs r.key) (distinct_keys rs) h
  where
    parts : (a b c : Bool) → (a && not b && c) ≡ true → (a ≡ true) × (b ≡ false) × (c ≡ true)
    parts a b c h = ground arith

-- A key that no reader has selects none.
select-no_key :
    (rs : List KeyVariableReader) (key : List ℕ) (rest : Memory)
    (found : Option (KeyVariableReader × Memory))
    → distinct_keys rs ≡ true
    → IsPlain key
    → has_key rs key ≡ false
    → select rs (key ++ 32 ∷ rest) found ≡ success found
unfolding has_key select
select-no_key [] key rest found d p h = refl
select-no_key (r ∷ rs) key rest found d p h =
    let (valid, other, more) = distinct-split r rs d in
    let (differs, none_later) = or-split (same_key r.key key) (has_key rs key) h in
    select-miss r rs (key ++ 32 ∷ rest) found
      (read_key-eq r.key key rest (valid-IsPlain r.key valid) p ∙ rw differs refl)
    ∙ select-no_key rs key rest found more p none_later

-- The key of a reader selects it.
pub select-key :
    (rs : List KeyVariableReader) (i : ℕ) (r : KeyVariableReader) (rest : Memory)
    (found : Option (KeyVariableReader × Memory))
    → distinct_keys rs ≡ true
    → get_elem? rs i ≡ some r
    → (select rs (r.key ++ 32 ∷ rest) found ≡ success (some (r, 32 ∷ rest)))
      × (is_valid_key r.key ≡ true)
select-key [] i r rest found d e = absurd (ground arith)
select-key (q ∷ rs) zero r rest found d e =
    let same : q ≡ r = ap (λ o. elim o as (λ _. KeyVariableReader) [ none ↦ q | some x ↦ x ]) e in
    subst
      (λ x.
        (select (q ∷ rs) (x.key ++ 32 ∷ rest) found ≡ success (some (x, 32 ∷ rest)))
        × (is_valid_key x.key ≡ true))
      same
      (let (valid, none_later, more) = distinct-split q rs d in
        let plain = valid-IsPlain q.key valid in
        (
          select-hit q rs (q.key ++ 32 ∷ rest) (32 ∷ rest) found
                (read_key-eq q.key q.key rest plain plain ∙ rw (same_key_refl q.key) refl)
              ∙ select-no_key rs q.key rest (some (q, 32 ∷ rest)) more plain none_later,
          valid,
        ))
select-key (q ∷ rs) (suc i) r rest found d e =
    let (valid, none_later, more) = distinct-split q rs d in
    let (later, v) = select-key rs i r rest found more e in
    let (hit, _) = select-key rs i r rest (some (q, 32 ∷ rest)) more e in
    let plain = valid-IsPlain q.key valid in
    let eq = read_key-eq q.key r.key rest plain (valid-IsPlain r.key v) in
    elim (Bool-cases (same_key q.key r.key)) [
      | inl same ↦
          (select-hit q rs (r.key ++ 32 ∷ rest) (32 ∷ rest) found (eq ∙ rw same refl) ∙ hit, v)
      | inr differs ↦
          (select-miss q rs (r.key ++ 32 ∷ rest) found (eq ∙ rw differs refl) ∙ later, v)
    ]

plain-NoDelimiters : (key : List ℕ) → IsPlain key → All (λ c. is_line_delimiter c ≡ false) key
unfolding is_plain_char
plain-NoDelimiters [] h = tt
plain-NoDelimiters (c ∷ cs) (p, ps) = (one c p, plain-NoDelimiters cs ps)
  where
    one : (c : ℕ) → is_plain_char c ≡ true → is_line_delimiter c ≡ false
    one c p = ground arith

pub valid-NoDelimiters :
    (key : List ℕ) → is_valid_key key ≡ true → All (λ c. is_line_delimiter c ≡ false) key
valid-NoDelimiters key h = plain-NoDelimiters key (valid-IsPlain key h)

-- A line that starts with a letter starts with its key.
skip_from-letter :
    (c : ℕ) (cs : Memory) → is_alpha c ≡ true → skip_to_key_start (c ∷ cs) ≡ success (c ∷ cs)
unfolding skip_to_key_start skip_from char_at is_comment_start is_alpha
skip_from-letter c cs h = ground arith

pub key_start-letter :
    (key : List ℕ) (rest : Memory)
    → is_valid_key key ≡ true
    → skip_to_key_start (key ++ rest) ≡ success (key ++ rest)
unfolding is_valid_key char_at is_alpha
key_start-letter [] rest h = absurd (ground arith)
key_start-letter (c ∷ cs) rest h =
    skip_from-letter c (cs ++ rest) (and-split (is_alpha c) (all_plain (c ∷ cs)) h).0

-- An assignment as it is written, before a value that starts with a digit.
pub skip_assignment-written :
    (value : Memory)
    → is_num (char_at value) ≡ true
    → skip_assignment (codes " = " ++ value) ≡ success value
unfolding skip_assignment skip_white char_at is_white_space is_num
skip_assignment-written [] h = absurd (ground arith)
skip_assignment-written (c ∷ cs) h = ground arith
