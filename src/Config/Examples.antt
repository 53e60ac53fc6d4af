-- ===== src/Config/Examples.antt =====
-- The theorems on the whole configuration of src/SpeakermanConfig.cpp at concrete configurations.
use speakerman.Prelude.{codes, true, ◌≡◌, ◌≤◌, refl, [], ◌∷◌, arith, replicate}
use speakerman.Unset.{unset_size}
use speakerman.LogicalGroup.{
  Direction, LogicalGroupConfig, unset_config, is_valid_port_number, compact_ports, compact_from,
  get_port_count, replace_with_defaults_if_unset, sanitize, default_ports,
}
use speakerman.LogicalGroups.{
  Groups, get_group_count, sanitize_groups, move_groups, compact_groups, contains, validate_port,
  validate_ports, validate_loop, validate_groups, default_groups, unset_groups,
}
use speakerman.LogicalGroups
use speakerman.LogicalGroups.PortMap.{count_channels, get_total_channels}
use speakerman.Config
use speakerman.Config.{
  SpeakermanConfig, returns, throws, undefined, set_initial, update_runtime_values,
}
use speakerman.Config.Equalizers.{IsSized, IsValid}
use speakerman.Config.Initial.{set_initial-IsValid, set_initial-throws}
use speakerman.Settings.Variables.{Numerals}
use speakerman.Settings.Bounds.{Ensures}
use speakerman.Settings.Load.{bytes, read_speakerman_config, read_speakerman_config-IsValid}
use speakerman.Config.Runtime.{IsSameLayout, HasNewWeights, update_runtime_values-IsValid}

-- A file without settings.
abbrev empty_file : SpeakermanConfig
empty_file = Config.unset_config

-- A file with a number of equalizers.
abbrev with_eqs : SpeakermanConfig
with_eqs = record empty_file { eqs = 1 }

-- Two groups with five ports each, two of them equal.
abbrev front : LogicalGroupConfig
front = record unset_config {
  ports = 1 ∷ 1 ∷ 2 ∷ 3 ∷ 4 ∷ unset_size ∷ unset_size ∷ unset_size ∷ [];
}

abbrev back : LogicalGroupConfig
back = record unset_config { ports = 5 ∷ 5 ∷ 6 ∷ 7 ∷ 8 ∷ unset_size ∷ unset_size ∷ unset_size ∷ [] }

abbrev with_duplicates : SpeakermanConfig
with_duplicates = record with_eqs { logical_inputs = front ∷ back ∷ replicate 6 unset_config }

empty-IsSized : IsSized empty_file
empty-IsSized = record {
  eq_size = refl;
  group_sizes = ((refl, omega arith), ((refl, omega arith), tt));
  matrix_size = refl;
  noise_bits = omega arith;
}

with_eqs-IsSized : IsSized with_eqs
with_eqs-IsSized = record {
  eq_size = refl;
  group_sizes = ((refl, omega arith), ((refl, omega arith), tt));
  matrix_size = refl;
  noise_bits = omega arith;
}

duplicates-IsSized : IsSized with_duplicates
duplicates-IsSized = record {
  eq_size = refl;
  group_sizes = ((refl, omega arith), ((refl, omega arith), tt));
  matrix_size = refl;
  noise_bits = omega arith;
}

two_channels : get_total_channels (LogicalGroups.sanitize_initial Direction.input unset_groups) ≡ 2
unfolding LogicalGroups.sanitize_initial validate_groups compact_groups sanitize_groups move_groups
    get_group_count get_port_count is_valid_port_number validate_loop default_groups
    replace_with_defaults_if_unset compact_ports compact_from default_ports get_total_channels
    count_channels
two_channels = refl

ten_channels :
    get_total_channels
      (LogicalGroups.sanitize_initial Direction.input with_duplicates.logical_inputs)
    ≡ 10
unfolding LogicalGroups.sanitize_initial validate_groups compact_groups sanitize_groups move_groups
    get_group_count get_port_count is_valid_port_number validate_loop validate_ports validate_port
    contains sanitize replace_with_defaults_if_unset compact_ports compact_from get_total_channels
    count_channels
ten_channels = refl

set_initial-IsValid_example :
    (config' : SpeakermanConfig) × (set_initial with_eqs ≡ returns config')
    × IsValid config'
    × (config'.crossovers ≡ with_eqs.crossovers)
    × (config'.logical_inputs
        ≡ LogicalGroups.sanitize_initial Direction.input with_eqs.logical_inputs)
set_initial-IsValid_example =
    set_initial-IsValid with_eqs with_eqs-IsSized (omega arith) (omega (arith, two_channels))

set_initial-throws_example : set_initial with_duplicates ≡ throws
set_initial-throws_example =
    set_initial-throws with_duplicates duplicates-IsSized (omega (arith, ten_channels))

-- What `setInitial` makes of the file with a number of equalizers.
abbrev Started : Type 0
Started =
    (config' : SpeakermanConfig) × (set_initial with_eqs ≡ returns config')
    × IsValid config'
    × (config'.crossovers ≡ with_eqs.crossovers)
    × (config'.logical_inputs
        ≡ LogicalGroups.sanitize_initial Direction.input with_eqs.logical_inputs)

started : Started
started = set_initial-IsValid with_eqs with_eqs-IsSized (omega arith) (omega (arith, two_channels))

initial_channels : get_total_channels started.0.logical_inputs ≤ 8
initial_channels = let (_, _, _, _, same) = started in rw same (omega (arith, two_channels))

update_runtime_values-IsValid_example :
    (config' : SpeakermanConfig) × (update_runtime_values with_duplicates started.0
      ≡ returns config')
    × IsValid config'
    × IsSameLayout started.0 config'
    × HasNewWeights with_duplicates started.0 config'
update_runtime_values-IsValid_example =
    update_runtime_values-IsValid with_duplicates started.0 duplicates-IsSized started.2
      initial_channels

-- A library that reads and prints zeros.
abbrev numerals : Numerals
numerals = record { strtold = λ p. (0, p); print = λ v. codes "0" }

read_speakerman_config-IsValid_example :
    Ensures
      (λ config. IsValid config × IsSameLayout started.0 config)
      (read_speakerman_config numerals
        (bytes (codes "equalizers = 2"))
        (replicate 1025 0)
        7
        started.0
        true)
read_speakerman_config-IsValid_example =
    read_speakerman_config-IsValid numerals (bytes (codes "equalizers = 2")) (replicate 1025 0) 7
      started.0 started.2 initial_channels
