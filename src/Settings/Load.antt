-- ===== src/Settings/Load.antt =====
-- The reading of the configuration file into a running configuration: `readSpeakermanConfig` of
-- src/SpeakermanConfig.cpp.
use speakerman.Prelude.{ℕ, ◌≤◌, refl, Bool, true, false, List, arith}
use speakerman.LogicalGroups.PortMap.{get_total_channels}
use speakerman.Config
use speakerman.Config.{SpeakermanConfig, Effect, returns, ◌>>=◌, set_initial, update_runtime_values}
use speakerman.Config.Equalizers.{IsSized, IsValid}
use speakerman.Config.Runtime.{IsSameLayout, update_runtime_values-IsValid}
use speakerman.Settings.{Memory}
use speakerman.Settings.Variables.{Numerals}
use speakerman.Settings.Table.{readers}
use speakerman.Settings.Lines.{read_line}
use speakerman.Settings.Files.{actual_read_config}
use speakerman.Settings.Bounds.{Ensures, Ensures-bind}
use speakerman.Settings.KeepLines.{readers-keep}
use speakerman.Settings.Sized.{sized-IsSafe}

-- The file: it cannot be opened, the read position cannot be reset, or it is read.
pub data File : Type 0 where
  not_open no_seek : File
  bytes : List ℕ → File

-- `actualReadConfig` with the readers of `config_manager`; `line` is the memory of its buffer.
unfoldable pub read_file : Numerals → List ℕ → Memory → (runtime : Bool) → Effect SpeakermanConfig
unfolding actual_read_config read_line readers
read_file numerals stream line runtime =
    actual_read_config
      (λ l c. read_line numerals readers l runtime c >>= λ result. returns result.1) stream line
      Config.unset_config

-- `readSpeakermanConfig(basedUpon, isRuntime)`
unfoldable pub read_speakerman_config :
    Numerals
    → File
    → Memory
    → (stamp : ℕ) → (based_upon : SpeakermanConfig) → (is_runtime : Bool) → Effect SpeakermanConfig
unfolding read_file set_initial update_runtime_values
read_speakerman_config numerals not_open line stamp based_upon is_runtime = returns based_upon
read_speakerman_config numerals no_seek line stamp based_upon is_runtime = returns based_upon
read_speakerman_config numerals (bytes stream) line stamp based_upon true =
    read_file numerals stream line true >>= λ new.
    update_runtime_values new based_upon >>= λ result.
    returns (record result { time_stamp = stamp })
read_speakerman_config numerals (bytes stream) line stamp based_upon false =
    read_file numerals stream line false >>= λ read.
    set_initial read >>= λ result. returns (record result { time_stamp = stamp })

unset-IsSized : IsSized Config.unset_config
unset-IsSized = record {
  eq_size = refl;
  group_sizes = ((refl, omega arith), ((refl, omega arith), tt));
  matrix_size = refl;
  noise_bits = omega arith;
}

-- Whatever a file holds, what `actualReadConfig` returns has its sizes.
read_file-IsSized :
    (numerals : Numerals) (stream : List ℕ) (line : Memory) (runtime : Bool)
    → Ensures IsSized (read_file numerals stream line runtime)
unfolding read_file
read_file-IsSized numerals stream line runtime =
    readers-keep IsSized numerals runtime readers (sized-IsSafe runtime) stream line
      Config.unset_config unset-IsSized

-- The time stamp does not matter.
abbrev IsRunning : (old new : SpeakermanConfig) → Type 0
IsRunning old new = IsValid new × IsSameLayout old new

stamped :
    (old new : SpeakermanConfig) (stamp : ℕ)
    → IsRunning old new
    → IsRunning old (record new { time_stamp = stamp })
stamped old new stamp (v, s) = (
  record {
    eqs_fit = v.eqs_fit;
    eq_ok = v.eq_ok;
    eq_size = v.eq_size;
    detection_ok = v.detection_ok;
    has_inputs = v.has_inputs;
    groups_ok = v.groups_ok;
    matrix_size = v.matrix_size;
    sub_output_fits = v.sub_output_fits;
    threshold_ok = v.threshold_ok;
    sub_delay_ok = v.sub_delay_ok;
    noise_ok = v.noise_ok;
    scaling_ok = v.scaling_ok;
  },
  record {
    same_inputs = s.same_inputs;
    same_outputs = s.same_outputs;
    same_groups = s.same_groups;
    same_channels = s.same_channels;
    same_crossovers = s.same_crossovers;
    same_sub_output = s.same_sub_output;
    same_eqs = s.same_eqs;
  },
)

unchanged : (config : SpeakermanConfig) → IsSameLayout config config
unchanged config = record {
  same_inputs = refl;
  same_outputs = refl;
  same_groups = refl;
  same_channels = refl;
  same_crossovers = refl;
  same_sub_output = refl;
  same_eqs = refl;
}

-- From a valid configuration whose inputs have at most eight channels, whatever the configuration file
-- holds, `readSpeakermanConfig` at runtime does not throw, and gives a valid configuration with the same
-- ports of all groups and the same numbers of groups, channels, equalizers and crossovers and the same
-- output for the sub-woofer, unless the reading of the file reads over the end of the memory or of an
-- array.
pub read_speakerman_config-IsValid :
    (numerals : Numerals) (file : File) (line : Memory) (stamp : ℕ) (based_upon : SpeakermanConfig)
    → IsValid based_upon
    → get_total_channels based_upon.logical_inputs ≤ 8
    → Ensures
        (λ config. IsValid config × IsSameLayout based_upon config)
        (read_speakerman_config numerals file line stamp based_upon true)
unfolding read_speakerman_config
read_speakerman_config-IsValid numerals not_open line stamp based_upon v h =
    (v, unchanged based_upon)
read_speakerman_config-IsValid numerals no_seek line stamp based_upon v h =
    (v, unchanged based_upon)
read_speakerman_config-IsValid numerals (bytes stream) line stamp based_upon v h =
    Ensures-bind IsSized (IsRunning based_upon) (read_file numerals stream line true)
      (λ new. update_runtime_values new based_upon >>= λ result.
        returns (record result { time_stamp = stamp }))
      (read_file-IsSized numerals stream line true)
      (λ new sized.
        let (config', made, valid, same, _) =
          update_runtime_values-IsValid new based_upon sized v h in
        rw made (stamped based_upon config' stamp (valid, same)))
