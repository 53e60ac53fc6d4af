-- ===== src/Settings/Examples.antt =====
-- The theorems on the variables of src/SpeakermanConfig.cpp at concrete files, and tests.
use speakerman.Prelude.{
  ℕ, ◌≡◌, ◌<◌, refl, true, false, List, [], ◌∷◌, ◌++◌, codes, Option, some, none, arith, replicate,
  length, All,
}
use speakerman.Config
use speakerman.Config.{SpeakermanConfig, Effect, returns, undefined}
use speakerman.ConfigReader.{is_alpha, is_white_space, is_line_delimiter}
use speakerman.Settings.{Memory, char_at}
use speakerman.Settings.Variables.{Numerals, Field, KeyVariableReader, count}
use speakerman.Settings.Values.{starts_with}
use speakerman.Settings.Table.{readers, add_reader, eqs_reader, input_readers, add_loop}
use speakerman.Settings.Keys.{is}
use speakerman.Settings.Select.{distinct_keys, is_valid_key, has_key, same_key}
use speakerman.Settings.Safe.{KeepsFixed}
use speakerman.Settings.Runtime.{read_runtime_line, actual_read_config-KeepsFixed, json-KeepsFixed}
use speakerman.Settings.Files.{actual_read_config}
use speakerman.Settings.Split.{NoDelimiters, read_lines}
use speakerman.Settings.Cut.{file_text}
use speakerman.Settings.Reading.{actual_read_config-lines}
use speakerman.Settings.Written.{
  IsWritten, copied, read_file_line, actual_read_config-write_readers,
}
use speakerman.Settings.Lines.{find, set_text, set_boolean, set_null, write_readers}

-- A library that reads and prints zeros.
abbrev numerals : Numerals
numerals = record { strtold = λ p. (0, p); print = λ v. codes "0" }

abbrev buffer : Memory
buffer = replicate 1025 0

abbrev empty : SpeakermanConfig
empty = Config.unset_config

keys_differ : distinct_keys readers ≡ true
unfolding distinct_keys readers is_valid_key has_key same_key is_alpha char_at is_white_space
    is_line_delimiter
keys_differ = refl

-- The key of a reader without an index.
key_of : Option KeyVariableReader → List ℕ
key_of none = []
key_of (some r) = r.key

-- The path of the weights finds the number of groups.
weights_found : key_of (find readers (codes "groups/in/0/logical-channel-weights")) ≡ codes "groups"
unfolding find readers key_of is starts_with
weights_found = refl

abbrev file : List (List ℕ)
file = codes "# A comment" ∷ [] ∷ codes "groups = 2" ∷ codes "equalizers = 1" ∷ []

file-NoDelimiters : All NoDelimiters file
unfolding is_line_delimiter
file-NoDelimiters = ground arith

actual_read_config-KeepsFixed_example :
    KeepsFixed empty
      (actual_read_config (read_runtime_line numerals) (file_text file []) buffer empty)
actual_read_config-KeepsFixed_example =
    actual_read_config-KeepsFixed numerals (file_text file []) buffer

json-KeepsFixed_example :
    KeepsFixed empty (set_text numerals readers (codes "groups") (codes "2") empty)
    × KeepsFixed empty (set_boolean numerals readers (codes "groups") true empty)
    × KeepsFixed empty (set_null numerals readers (codes "groups") empty)
json-KeepsFixed_example = json-KeepsFixed numerals (codes "groups") (codes "2") true empty

last-NoDelimiters : NoDelimiters (codes "crossovers = 2")
unfolding is_line_delimiter
last-NoDelimiters = ground arith

buffer-has_room : 1024 < length buffer
buffer-has_room = omega arith

actual_read_config-lines_example :
    actual_read_config
      (read_runtime_line numerals)
      (file_text file (codes "crossovers = 2"))
      buffer
      empty
    ≡ read_lines (read_runtime_line numerals) (file ++ codes "crossovers = 2" ∷ []) buffer empty
actual_read_config-lines_example =
    actual_read_config-lines (read_runtime_line numerals) file (codes "crossovers = 2") buffer empty
      file-NoDelimiters last-NoDelimiters buffer-has_room

-- Two counts of a configuration.
abbrev set_counts : SpeakermanConfig
set_counts = record empty { crossovers = 3; eqs = 1 }

abbrev crossovers : Field ℕ
crossovers = record { get = λ c. c.crossovers; put = λ v c. record c { crossovers = v } }

abbrev eqs : Field ℕ
eqs = record { get = λ c. c.eqs; put = λ v c. record c { eqs = v } }

abbrev crossovers_reader : KeyVariableReader
crossovers_reader = add_reader (codes "crossovers") false (count crossovers)

crossovers-IsWritten : IsWritten numerals readers keys_differ false set_counts crossovers_reader
unfolding readers
crossovers-IsWritten = record {
  index = 2;
  is_at = refl;
  field = crossovers;
  is_count = refl;
  can_change = refl;
  in_range = omega arith;
  fits = omega arith;
}

eqs-IsWritten : IsWritten numerals readers keys_differ false set_counts eqs_reader
unfolding readers input_readers add_loop
eqs-IsWritten = record {
  index = 36;
  is_at = refl;
  field = eqs;
  is_count = refl;
  can_change = refl;
  in_range = omega arith;
  fits = omega arith;
}

actual_read_config-write_readers_example :
    actual_read_config
      (read_file_line numerals readers keys_differ false)
      (write_readers numerals set_counts (crossovers_reader ∷ eqs_reader ∷ []))
      buffer
      empty
    ≡ returns (
        copied numerals readers keys_differ false set_counts
          (crossovers_reader ∷ eqs_reader ∷ [])
          (crossovers-IsWritten, (eqs-IsWritten, tt))
          empty)
actual_read_config-write_readers_example =
    actual_read_config-write_readers numerals readers keys_differ false set_counts
      (crossovers_reader ∷ eqs_reader ∷ []) (crossovers-IsWritten, (eqs-IsWritten, tt)) buffer empty
      buffer-has_room
