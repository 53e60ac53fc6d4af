-- ===== src/Settings/Lines.antt =====
-- The lines of a configuration and the values of JSON: `ConfigManager` of src/SpeakermanConfig.cpp,
-- lines 770 to 897. The messages on the standard output are left out.
use speakerman.Prelude.{
  ℕ, Bool, true, false, ◌&&◌, ◌==◌, List, [], ◌∷◌, ◌++◌, if◌then◌else◌, Option, none, some, codes,
}
use speakerman.Config.{SpeakermanConfig, Effect, returns, ◌>>=◌}
use speakerman.Settings.{Memory}
use speakerman.Settings.Values.{c_string}
use speakerman.Settings.Keys.{
  ReaderStatus, success, skip, fault, skip_to_key_start, is, read_key, skip_assignment,
}
use speakerman.Settings.Variables.{Numerals, KeyVariableReader, read_value, write_variable}

-- The loop of `find`.
unfoldable pub find : List KeyVariableReader → Memory → Option KeyVariableReader
unfolding is
find [] key_name = none
find (reader ∷ readers) key_name = elim (is reader.key key_name) [
  | true ↦ some reader
  | false ↦ find readers key_name
]

-- The loop of `read_line` over the readers: the last one that has the key, and where the key ends.
unfoldable pub select :
    List KeyVariableReader
    → (key_start : Memory) → Option (KeyVariableReader × Memory)
    → ReaderStatus (Option (KeyVariableReader × Memory))
unfolding read_key
select [] key_start found = success found
select (reader ∷ readers) key_start found = elim (read_key reader.key key_start) [
  | success after_key ↦ select readers key_start (some (reader, after_key))
  | skip ↦ select readers key_start found
  | fault ↦ fault
]

abbrev same_text : List ℕ → List ℕ → Bool
same_text [] [] = true
same_text [] (y ∷ ys) = false
same_text (x ∷ xs) [] = false
same_text (x ∷ xs) (y ∷ ys) = x == y && same_text xs ys

-- The loop of `dump`.
abbrev pub write_readers : Numerals → SpeakermanConfig → List KeyVariableReader → List ℕ
write_readers numerals config [] = []
write_readers numerals config (reader ∷ rest) =
    write_variable numerals reader.variable reader.key config ++ write_readers numerals config rest

module _ (numerals : Numerals) (readers : List KeyVariableReader) where
  unfoldable pub read_selected :
      ReaderStatus (Option (KeyVariableReader × Memory))
      → (runtime : Bool) → SpeakermanConfig
      → Effect (Bool × SpeakermanConfig)
  unfolding skip_assignment
  read_selected (success none) runtime config = returns (true, config)
  read_selected (success (some (reader, after_key))) runtime config =
      elim (skip_assignment after_key) [
        | success value_start ↦ read_value numerals reader value_start runtime config
        | skip ↦ returns (false, config)
        | fault ↦ returns (false, config)
      ]
  read_selected skip runtime config = returns (false, config)
  read_selected fault runtime config = returns (false, config)

  -- `read_line`: the result, and the configuration.
  unfoldable pub read_line :
      Memory → (runtime : Bool) → SpeakermanConfig → Effect (Bool × SpeakermanConfig)
  unfolding read_selected select skip_to_key_start
  read_line line runtime config = elim (skip_to_key_start line) [
    | success key_start ↦ read_selected (select readers key_start none) runtime config
    | skip ↦ returns (true, config)
    | fault ↦ returns (false, config)
  ]

  -- `setString` and `setNumber`, with a configuration to set.
  unfoldable pub set_text : (path text : Memory) → SpeakermanConfig → Effect SpeakermanConfig
  unfolding find read_value
  set_text path text config = elim (find readers path) [
    | none ↦ returns config
    | some reader ↦ read_value numerals reader text true config >>= λ result. returns result.1
  ]

  -- `strncmp(path, "reload", 30) == 0`
  unfoldable pub is_reload : Memory → Bool
  unfolding c_string
  is_reload path = same_text (codes "reload") (c_string path)

  -- `setBoolean`; the text of the value ends the memory.
  unfoldable pub set_boolean :
      (path : Memory) → (value : Bool) → SpeakermanConfig → Effect SpeakermanConfig
  unfolding is_reload set_text
  set_boolean path value config =
      if value && is_reload path
      then returns (record config { time_stamp = 0 })
      else set_text path ((if value then b'1' else b'0') ∷ 0 ∷ []) config

  unfoldable pub set_null : (path : Memory) → SpeakermanConfig → Effect SpeakermanConfig
  unfolding set_text
  set_null path config = set_text path (0 ∷ []) config

  -- `dump`
  unfoldable pub dump : SpeakermanConfig → List ℕ
  dump config = write_readers numerals config readers
