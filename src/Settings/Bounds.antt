-- ===== src/Settings/Bounds.antt =====
-- What the parsers of src/SpeakermanConfig.cpp give: how large their values are.
use speakerman.Prelude.{
  ◌==◌, ℕ, zero, suc, ◌+◌, ◌≤◌, ◌<◌, Bool, true, false, ◌||◌, List, [], ◌∷◌, if◌then◌else◌, All,
  All-append, Option, none, some, length, arith,
}
use speakerman.Config.{Effect, returns, throws, undefined, ◌>>=◌}
use speakerman.Settings.{Memory, char_at}
use speakerman.Settings.Values.{
  parse_boolean, parse_name, is_name_char, name_bytes, c_string, skip_delimiters, Values, no_values,
  values, too_many_values, add_value, read_value_array,
}
use speakerman.Settings.Variables.{KeyVariableReader}
use speakerman.Settings.Table.{add_loop}
use speakerman.ConfigReader.{is_comment_start}

-- What holds of the result, if the effect returns, and the effect does not throw.
abbrev pub Ensures {ℓ} : {A : Type ℓ} → (A → Type 0) → Effect A → Type 0
Ensures P (returns a) = P a
Ensures P throws = ⊥
Ensures P undefined = Unit

pub Ensures-bind {ℓ κ} :
    {A : Type ℓ} {B : Type κ} (P : A → Type 0) (Q : B → Type 0) (e : Effect A) (f : A → Effect B)
    → Ensures P e
    → ((a : A) → P a → Ensures Q (f a))
    → Ensures Q (e >>= f)
Ensures-bind P Q (returns a) f h k = k a h
Ensures-bind P Q throws f h k = h
Ensures-bind P Q undefined f h k = tt

-- A loop that adds readers with a property.
pub All-loop :
    (P : KeyVariableReader → Type 0) (left i : ℕ) (round : ℕ → List KeyVariableReader)
    → ((j : ℕ) → j < i + left → All P (round j))
    → All P (add_loop left i round)
unfolding add_loop
All-loop P zero i round h = tt
All-loop P (suc left) i round h =
    All-append P (round i) (add_loop left (i + 1) round) (h i (omega arith))
      (All-loop P left (i + 1) round (λ j k. h j (omega arith)))

-- What holds of a value that is there.
abbrev pub Holds {ℓ} : {A : Type ℓ} → (A → Type 0) → Option A → Type 0
Holds P none = Unit
Holds P (some a) = P a

-- The values that the parsers give.
pub boolean_lem : (value : Memory) → Holds (λ v. v ≤ 1) (parse_boolean value).0
unfolding parse_boolean
boolean_lem value = one_of _ _
  where
    one_of : (a b : Bool) → Holds (λ v. v ≤ 1) (if a then some 1 else if b then some 0 else none)
    one_of true b = omega arith
    one_of false true = omega arith
    one_of false false = tt

name_step :
    (keep : Bool) (c room : ℕ) (rest : Option (List ℕ))
    → Holds (λ bytes. length bytes ≤ (if keep then room else suc room)) rest
    → Holds
        (λ bytes. length bytes ≤ suc room)
        (elim rest as (λ _. Option (List ℕ)) [
          | none ↦ none
          | some bytes ↦ some (if keep then c ∷ bytes else bytes)
        ])
name_step keep c room none h = tt
name_step true c room (some bytes) h = omega arith
name_step false c room (some bytes) h = h

name_bytes_lem :
    (room : ℕ) (stored : Bool) (src : Memory)
    → Holds (λ bytes. length bytes ≤ room) (name_bytes room stored src)
unfolding name_bytes
name_bytes_lem zero stored src = omega arith
name_bytes_lem (suc room) stored [] = tt
name_bytes_lem (suc room) stored (c ∷ src) =
    let white = c == 9 || c == 32 in
    let keep = if white then stored else is_name_char c in
    name_step keep (if white then 32 else c) room
      (name_bytes (if keep then room else suc room) (stored || keep) src)
      (name_bytes_lem (if keep then room else suc room) (stored || keep) src)

c_string_lem : (bytes : Memory) → length (c_string bytes) ≤ length bytes
unfolding c_string
c_string_lem [] = omega arith
c_string_lem (c ∷ cs) = let rest = c_string_lem cs in ground arith

pub name_lem : (value : Memory) → Holds (λ v. length v ≤ 63) (parse_name value)
unfolding parse_name
name_lem value = shorter (name_bytes 63 false value) (name_bytes_lem 63 false value)
  where
    shorter :
        (o : Option (List ℕ))
        → Holds (λ bytes. length bytes ≤ 63) o
        → Holds
            (λ v. length v ≤ 63)
            (elim o as (λ _. Option (List ℕ)) [ none ↦ none | some bytes ↦ some (c_string bytes) ])
    shorter none h = tt
    shorter (some bytes) h = let short = c_string_lem bytes in omega arith

abbrev pub FitsIn {ℓ} : {A : Type ℓ} → ℕ → Values A → Type 0
FitsIn n no_values = Unit
FitsIn n (values vs) = length vs ≤ n
FitsIn n too_many_values = Unit

add_value_lem {ℓ} :
    {A : Type ℓ} (n : ℕ) (v : A) (vs : Values A) → FitsIn n vs → FitsIn (suc n) (add_value v vs)
add_value_lem n v no_values h = tt
add_value_lem n v (values vs) h = omega arith
add_value_lem n v too_many_values h = tt

pub array_lem :
    {A : Type 0} (parse : Memory → Option A × Memory) (n : ℕ) (from : Memory)
    → FitsIn n (read_value_array parse n from)
unfolding read_value_array
array_lem parse zero from = tt
array_lem {A = A} parse (suc n) from = one (parse from).0 (parse from).1 (λ e. array_lem parse n e)
  where
    last :
        (v : A) (end' : Memory) (ends : Bool)
        → FitsIn n (read_value_array parse n end')
        → FitsIn
            (suc n)
            (if ends then values (v ∷ []) else add_value v (read_value_array parse n end'))
    last v end' true h = omega arith
    last v end' false h = add_value_lem n v (read_value_array parse n end') h

    delimited :
        (v : A) (o : Option Memory)
        → ((e : Memory) → FitsIn n (read_value_array parse n e))
        → FitsIn (suc n) (elim o as (λ _. Values A) [
          | none ↦ no_values
          | some end' ↦
              if char_at end' == 0 || is_comment_start (char_at end')
              then values (v ∷ [])
              else add_value v (read_value_array parse n end')
        ])
    delimited v none h = tt
    delimited v (some e) h = last v e (char_at e == 0 || is_comment_start (char_at e)) (h e)

    one :
        (o : Option A) (end : Memory)
        → ((e : Memory) → FitsIn n (read_value_array parse n e))
        → FitsIn (suc n) (elim o as (λ _. Values A) [
          | none ↦ no_values
          | some v ↦ elim (skip_delimiters false end) as (λ _. Values A) [
            | none ↦ no_values
            | some end' ↦
                if char_at end' == 0 || is_comment_start (char_at end')
                then values (v ∷ [])
                else add_value v (read_value_array parse n end')
          ]
        ])
    one none end h = tt
    one (some v) end h = delimited v (skip_delimiters false end) h
