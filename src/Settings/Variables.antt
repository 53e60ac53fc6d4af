-- ===== src/Settings/Variables.antt =====
-- The variables of the configuration: `VariableReader` and its subclasses, and `KeyVariableReader`
-- without its key functions, of src/SpeakermanConfig.cpp. The offset of a variable is the pair of
-- functions that get and set it.
use speakerman.Prelude.{
  ℕ, ◌-◌, ◌^◌, Bool, true, false, not, ◌||◌, List, [], ◌∷◌, ◌++◌, if◌then◌else◌, Option, none, some,
  ltb, codes, decimal, length, replicate,
}
use speakerman.Double.{Double, quiet_nan}
use speakerman.Unset.{unset_size, size_unset, int_unset, double_unset, UnsetValue}
use speakerman.Named.{Name, is_unset_name}
use speakerman.Config.{SpeakermanConfig, Effect, returns, undefined}
use speakerman.Settings.{Memory}
use speakerman.Settings.Values.{
  parse_count, parse_boolean, parse_name, Values, no_values, values, too_many_values,
  read_value_array,
}

-- What the standard library does with floating point: `strtold`, where the result is rounded and
-- limited to the range of a `double`, and the printing of a `double`.
pub record Numerals : Type 0 where
  pub strtold : Memory → Double × Memory
  pub print : Double → List ℕ

-- A field of a type.
pub record Field (T : Type 0) : Type 0 where
  pub get : SpeakermanConfig → T
  pub put : T → SpeakermanConfig → SpeakermanConfig

-- The types of variables: `size_t`, `int`, `double` and names, and arrays of eight.
pub data Variable : Type 0 where
  count integer : Field ℕ → Variable
  real : Field Double → Variable
  name : Field Name → Variable
  counts : Field (List ℕ) → Variable
  reals : Field (List Double) → Variable

-- `KeyVariableReader` with its `VariableReader`
pub record KeyVariableReader : Type 0 where
  pub key : List ℕ
  pub variable : Variable
  pub runtime_changeable : Bool
  pub is_deprecated : Bool

-- `TypedVariableReader::read`, for numbers: a value that cannot be parsed changes nothing.
unfoldable pub read_typed :
    {T : Type 0} → Field T → Option T → SpeakermanConfig → Effect SpeakermanConfig
read_typed field none config = returns config
read_typed field (some v) config = returns (field.put v config)

-- `TypedVariableReader::read`, for names.
unfoldable pub read_name : Field Name → Option Name → SpeakermanConfig → Effect SpeakermanConfig
read_name field none config = undefined
read_name field (some v) config = returns (field.put v config)

-- `TypedArrayVariableReader::read`, of eight values.
unfoldable pub read_array :
    {T : Type 0}
    → (unset : T) → Field (List T)
    → Values T
    → SpeakermanConfig
    → Effect SpeakermanConfig
read_array unset field no_values config = returns config
read_array unset field (values vs) config =
    returns (field.put (vs ++ replicate (8 - length vs) unset) config)
read_array unset field too_many_values config = undefined

-- `print` of an `int` of 32 bits
unfoldable pub print_integer : ℕ → List ℕ
unfolding decimal
print_integer v = if ltb v (2 ^ 31) then decimal v else 45 ∷ decimal (2 ^ 32 - v)

-- `stream << key << " = " << variable << endl` for a variable that is set.
unfoldable pub write_line : (unset : Bool) → (key value : List ℕ) → List ℕ
write_line unset key value = if unset then [] else key ++ codes " = " ++ value ++ 10 ∷ []

-- The second loop of `TypedArrayVariableReader::write`.
unfoldable pub write_values : {T : Type 0} → UnsetValue T → (T → List ℕ) → List T → List ℕ
write_values u print [] = []
write_values u print (v ∷ vs) =
    let rest = write_values u print vs in if u.is v then [] else 32 ∷ print v ++ rest

-- `TypedArrayVariableReader::write`
unfoldable pub write_array :
    {T : Type 0} → UnsetValue T → (T → List ℕ) → (key : List ℕ) → List T → List ℕ
unfolding write_values
write_array u print key [] = []
write_array u print key (v ∷ vs) =
    if u.is v then [] else key ++ codes " =" ++ write_values u print (v ∷ vs) ++ 10 ∷ []

module _ (numerals : Numerals) where
  -- `ValueParser_<double, 3>::parse`
  unfoldable pub parse_real : Memory → Option Double × Memory
  unfolding speakerman.Settings.Values.ends_value
  parse_real value =
      let (parsed, end) = numerals.strtold value in
      if speakerman.Settings.Values.ends_value end then (some parsed, end) else (none, end)

  unfoldable pub read_variable : Variable → Memory → SpeakermanConfig → Effect SpeakermanConfig
  unfolding read_typed read_name read_array
  read_variable (count field) value config = read_typed field (parse_count value).0 config
  read_variable (integer field) value config = read_typed field (parse_boolean value).0 config
  read_variable (real field) value config = read_typed field (parse_real value).0 config
  read_variable (name field) value config = read_name field (parse_name value) config
  read_variable (counts field) value config =
      read_array unset_size field (read_value_array parse_count 8 value) config
  read_variable (reals field) value config =
      read_array quiet_nan field (read_value_array parse_real 8 value) config

  unfoldable pub write_variable : Variable → (key : List ℕ) → SpeakermanConfig → List ℕ
  unfolding decimal write_line write_array print_integer
  write_variable (count field) key config =
      write_line (size_unset.is (field.get config)) key (decimal (field.get config))
  write_variable (integer field) key config =
      write_line (int_unset.is (field.get config)) key (print_integer (field.get config))
  write_variable (real field) key config =
      write_line (double_unset.is (field.get config)) key (numerals.print (field.get config))
  write_variable (name field) key config =
      write_line (is_unset_name (field.get config)) key (field.get config)
  write_variable (counts field) key config = write_array size_unset decimal key (field.get config)
  write_variable (reals field) key config =
      write_array double_unset numerals.print key (field.get config)

  -- `VariableReader::read`: the result, and the configuration.
  unfoldable pub read_value :
      KeyVariableReader
      → Memory
      → (is_runtime : Bool) → SpeakermanConfig
      → Effect (Bool × SpeakermanConfig)
  unfolding read_variable
  read_value reader value is_runtime config =
      if not is_runtime || reader.runtime_changeable
      then elim (read_variable reader.variable value config) [
        | returns config' ↦ returns (true, config')
        | Effect.throws ↦ Effect.throws
        | undefined ↦ undefined
      ]
      else returns (false, config)
