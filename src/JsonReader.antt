-- ===== src/JsonReader.antt =====
-- The path of a JSON value: src/JsonCanonicalReader.cc and src/include/speakerman/JsonCanonicalReader.h. The
-- JSON parser is a library that calls these functions, and `add` of its `JsonStringBuilder` is an
-- argument. A text is the bytes before the pointer `at`; the byte at the pointer is always zero. The stack
-- is the list of its entries in use, the last first.
pub mod Paths
mod Examples
use speakerman.Prelude.{
  ℕ, zero, suc, ◌+◌, ◌-◌, ◌/◌, ◌%◌, ◌<◌, Bool, true, false, ◌&&◌, List, [], ◌∷◌, ◌++◌,
  if◌then◌else◌, ltb, leb, ◌==◌, length, take, drop, map,
}
use speakerman.Prelude.Effects.{Effect, returns, throws, ◌>>=◌}

-- `PartitionBasedJsonStringBuilder`; `local` is an offset.
pub record Builder : Type 0 where
  pub max_length : ℕ
  pub text : List ℕ
  pub local : ℕ

-- Its `validLength` and constructor.
unfoldable pub make_builder : (max_length : ℕ) → Effect Builder
make_builder max_length =
    if ltb 1 max_length && ltb max_length 1048576
    then returns (record { max_length = max_length; text = []; local = 0 })
    else throws

-- `addChar`: if there was room, and the builder.
unfoldable pub add_char : ℕ → Builder → Bool × Builder
add_char c b =
    if ltb (length b.text) b.max_length
    then (true, record b { text = b.text ++ c ∷ [] })
    else (false, b)

-- `getLength`, `getAt` and `resetValue`
unfoldable pub get_length : Builder → ℕ
get_length b = length b.text - b.local

abbrev pub get_at : Builder → ℕ
get_at b = length b.text

unfoldable pub reset_value : Builder → Builder
reset_value b = record b { text = take b.local b.text }

-- `setLocal`, with an offset up to one after the text
unfoldable pub set_local : ℕ → Builder → Effect Builder
set_local new_value b =
    if ltb (new_value + 1) b.max_length
    then returns (record b { text = take new_value (b.text ++ 0 ∷ []); local = new_value })
    else throws

-- The copy of a text in `getTotalString`, and the separators at its end removed.
unfoldable pub with_separators : (separator : ℕ) → List ℕ → List ℕ
with_separators separator [] = []
with_separators separator (c ∷ cs) =
    (if c == 0 then separator else c) ∷ with_separators separator cs

-- A byte before a text of which the end was removed.
unfoldable pub keep_byte : (separator c : ℕ) → List ℕ → List ℕ
keep_byte separator c [] = if c == separator then [] else c ∷ []
keep_byte separator c (d ∷ ds) = c ∷ d ∷ ds

unfoldable pub trim_end : (separator : ℕ) → List ℕ → List ℕ
unfolding keep_byte
trim_end separator [] = []
trim_end separator (c ∷ cs) = keep_byte separator c (trim_end separator cs)

-- The first byte is not removed.
unfoldable pub trim_after_first : (separator : ℕ) → List ℕ → List ℕ
unfolding trim_end
trim_after_first separator [] = []
trim_after_first separator (c ∷ cs) = c ∷ trim_end separator cs

-- `getTotalString`
unfoldable pub get_total_string : (separator : ℕ) → Builder → List ℕ
unfolding with_separators trim_after_first
get_total_string separator b = trim_after_first separator (with_separators separator b.text)

-- `JsonCanonicalReader`, less the value
pub record JsonCanonicalReader : Type 0 where
  pub depth : ℕ
  pub stack : List ℕ
  pub path : Builder

-- `validDepth` and the constructor
unfoldable pub make_reader : (path_length depth : ℕ) → Effect JsonCanonicalReader
unfolding make_builder
make_reader path_length depth =
    if ltb 1 depth && ltb depth 1024
    then (make_builder path_length >>= λ path.
        returns (record { depth = depth; stack = 0 ∷ []; path = path }))
    else throws

-- `checkPush` and `checkPop`
abbrev pub check_push {ℓ} : {A : Type ℓ} → JsonCanonicalReader → Effect A → Effect A
check_push r rest = if leb r.depth (length r.stack) then throws else rest

-- One entry of the stack less, if it has one to give, with the start of the one below.
unfoldable pub pop : JsonCanonicalReader → Effect JsonCanonicalReader
unfolding set_local
pop r = elim r.stack as (λ _. Effect JsonCanonicalReader) [
  | [] ↦ throws
  | top ∷ below ↦ elim below as (λ _. Effect JsonCanonicalReader) [
    | [] ↦ throws
    | start ∷ others ↦ set_local start r.path >>= λ path.
        returns (record r { stack = start ∷ others; path = path })
  ]
]

-- The end of `pushIndex` and `pushName`.
unfoldable pub push_start : JsonCanonicalReader → Effect JsonCanonicalReader
unfolding set_local
push_start r = set_local (get_at r.path + 1) r.path >>= λ path.
    returns (record r { stack = get_at path ∷ r.stack; path = path })

-- The first bytes of a text are these.
unfoldable pub starts_with : (prefix text : List ℕ) → Bool
starts_with [] text = true
starts_with (p ∷ ps) [] = false
starts_with (p ∷ ps) (c ∷ cs) = (p == c) && starts_with ps cs

-- `pushName`
unfoldable pub push_name : (name : List ℕ) → JsonCanonicalReader → Effect JsonCanonicalReader
unfolding push_start starts_with
push_name name r =
    if starts_with (drop r.path.local r.path.text) name then check_push r (push_start r) else throws

-- `pushIndex`; what it makes of a wrong index, or of a text at hand, is an exception that it does not
-- throw. `add` is that of `JsonStringBuilder`.
module _ (add : ℕ → Builder → Effect Builder) where
  abbrev pub add_if : Bool → ℕ → Builder → Effect Builder
  add_if true c b = add c b
  add_if false c b = returns b

  unfoldable pub push_index : (index : ℕ) → JsonCanonicalReader → Effect JsonCanonicalReader
  unfolding push_start
  push_index index r = check_push r (
      add_if (leb 100 index) ((48 + index / 100) % 256) r.path >>= λ b1.
      add_if (leb 10 index) (48 + index % 100 / 10) b1 >>= λ b2.
      add (48 + index % 10) b2 >>= λ b3. push_start (record r { path = b3 }))
