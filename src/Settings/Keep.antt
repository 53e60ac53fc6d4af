-- ===== src/Settings/Keep.antt =====
-- What the writing of each variable keeps, the reading of lines, JSON values and files of
-- src/SpeakermanConfig.cpp keeps too.
use speakerman.Prelude.{
  ℕ, ◌-◌, ◌≤◌, ◌≡◌, ◌∙◌, Bool, true, false, not, ◌||◌, List, ◌++◌, if◌then◌else◌, Option, none,
  some, replicate, length, length-append, length-replicate, arith,
}
use speakerman.Double.{Double, quiet_nan}
use speakerman.Unset.{unset_size}
use speakerman.Config.{SpeakermanConfig, Effect, returns, throws, undefined}
use speakerman.Settings.{Memory}
use speakerman.Settings.Values.{
  parse_count, parse_boolean, parse_name, Values, no_values, values, too_many_values,
  read_value_array,
}
use speakerman.Settings.Variables.{
  Numerals, Field, Variable, count, integer, real, name, counts, reals, KeyVariableReader,
  read_typed, read_name, read_array, parse_real, read_variable, read_value,
}
use speakerman.Settings.Bounds.{Ensures, Holds, FitsIn, boolean_lem, name_lem, array_lem}

module _ (Q : SpeakermanConfig → Type 0) where
  -- Writing a value that can be read keeps `Q`.
  abbrev pub Keeps : Variable → Type 0
  Keeps (count f) = (v : ℕ) (c : SpeakermanConfig) → Q c → Q (f.put v c)
  Keeps (integer f) = (v : ℕ) (c : SpeakermanConfig) → v ≤ 1 → Q c → Q (f.put v c)
  Keeps (real f) = (v : Double) (c : SpeakermanConfig) → Q c → Q (f.put v c)
  Keeps (name f) = (v : List ℕ) (c : SpeakermanConfig) → length v ≤ 63 → Q c → Q (f.put v c)
  Keeps (counts f) = (v : List ℕ) (c : SpeakermanConfig) → Q c → Q (f.put v c)
  Keeps (reals f) = (v : List Double) (c : SpeakermanConfig) → length v ≡ 8 → Q c → Q (f.put v c)

  -- A reader that can change its variable keeps `Q`.
  abbrev pub IsSafe : Bool → KeyVariableReader → Type 0
  IsSafe runtime r = elim (not runtime || r.runtime_changeable) as (λ _. Type 0) [
    | true ↦ Keeps r.variable
    | false ↦ Unit
  ]

  typed-keeps :
      {T : Type 0} (P : T → Type 0) (f : Field T) (o : Option T) (c : SpeakermanConfig)
      → ((v : T) → P v → Q c → Q (f.put v c))
      → Holds P o
      → Q c
      → Ensures Q (read_typed f o c)
  unfolding read_typed
  typed-keeps P f none c k h q = q
  typed-keeps P f (some v) c k h q = k v h q

  name-keeps :
      (f : Field (List ℕ)) (o : Option (List ℕ)) (c : SpeakermanConfig)
      → ((v : List ℕ) → length v ≤ 63 → Q c → Q (f.put v c))
      → Holds (λ v. length v ≤ 63) o
      → Q c
      → Ensures Q (read_name f o c)
  unfolding read_name
  name-keeps f none c k h q = tt
  name-keeps f (some v) c k h q = k v h q

  array-keeps :
      {T : Type 0} (unset : T) (f : Field (List T)) (vs : Values T) (c : SpeakermanConfig)
      → ((v : List T) → length v ≡ 8 → Q c → Q (f.put v c))
      → FitsIn 8 vs
      → Q c
      → Ensures Q (read_array unset f vs c)
  unfolding read_array
  array-keeps unset f no_values c k h q = q
  array-keeps unset f (values vs) c k h q =
      k (vs ++ replicate (8 - length vs) unset)
        (length-append vs (replicate (8 - length vs) unset)
          ∙ omega (arith, length-replicate (8 - length vs) unset))
        q
  array-keeps unset f too_many_values c k h q = tt

  any : {T : Type 0} (o : Option T) → Holds (λ v. Unit) o
  any none = tt
  any (some v) = tt

  guarded :
      (can_change : Bool) (e : Effect SpeakermanConfig) (c : SpeakermanConfig) (P : Type 0)
      → (P → Ensures Q e)
      → (elim can_change as (λ _. Type 0) [ true ↦ P | false ↦ Unit ])
      → Q c
      → Ensures
          (λ p. Q p.1)
          (if can_change
            then elim e as (λ _. Effect (Bool × SpeakermanConfig)) [
              | returns config' ↦ returns (true, config')
              | throws ↦ throws
              | undefined ↦ undefined
            ]
            else returns (false, c))
  guarded false e c P k h q = q
  guarded true (returns c') c P k h q = k h
  guarded true throws c P k h q = k h
  guarded true undefined c P k h q = tt

  module _ (numerals : Numerals) where
    variable-keeps :
        (var : Variable) (value : Memory) (c : SpeakermanConfig)
        → Q c
        → Keeps var
        → Ensures Q (read_variable numerals var value c)
    unfolding read_variable
    variable-keeps (count f) value c q h =
        typed-keeps (λ v. Unit) f (parse_count value).0 c (λ v _ k. h v c k)
          (any (parse_count value).0) q
    variable-keeps (integer f) value c q h =
        typed-keeps (λ v. v ≤ 1) f (parse_boolean value).0 c (λ v l k. h v c l k)
          (boolean_lem value) q
    variable-keeps (real f) value c q h =
        typed-keeps (λ v. Unit) f (parse_real numerals value).0 c (λ v _ k. h v c k)
          (any (parse_real numerals value).0) q
    variable-keeps (name f) value c q h =
        name-keeps f (parse_name value) c (λ v l k. h v c l k) (name_lem value) q
    variable-keeps (counts f) value c q h =
        array-keeps unset_size f (read_value_array parse_count 8 value) c (λ v l k. h v c k)
          (array_lem parse_count 8 value) q
    variable-keeps (reals f) value c q h =
        array-keeps quiet_nan f (read_value_array (parse_real numerals) 8 value) c
          (λ v l k. h v c l k) (array_lem (parse_real numerals) 8 value) q

    module _ (runtime : Bool) where
      pub value-keeps :
          (reader : KeyVariableReader) (value : Memory) (c : SpeakermanConfig)
          → IsSafe runtime reader
          → Q c
          → Ensures (λ p. Q p.1) (read_value numerals reader value runtime c)
      unfolding read_value
      value-keeps reader value c h q =
          guarded (not runtime || reader.runtime_changeable)
            (read_variable numerals reader.variable value c) c (Keeps reader.variable)
            (variable-keeps reader.variable value c q) h q
