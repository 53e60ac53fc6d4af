-- ===== src/Config.antt =====
-- The whole configuration: `SpeakermanConfig` of src/include/speakerman/SpeakermanConfig.hpp and of
-- src/SpeakermanConfig.cpp, lines 1139 to 1245. An `int` is its 32 bits.
pub mod Equalizers
pub mod Initial
pub mod Runtime
mod Examples
use speakerman.Prelude.{
  ℕ, zero, suc, ◌-◌, ◌*◌, ◌^◌, Bool, true, false, List, [], ◌∷◌, map, replicate, if◌then◌else◌,
  Option, none, some,
}
pub use speakerman.Prelude.Effects.{Effect, returns, throws, undefined, ◌>>=◌, or_throw}
use speakerman.Count.{mul_size}
use speakerman.Double.{Double, quiet_nan}
use speakerman.Unset.{
  unset_size, unset_int, size_unset, int_unset, double_unset, fixed_value_if_unset_or_out_of_range,
  set_default_or_boxed_from_source_if_unset, set_boxed_from_set_source,
}
use speakerman.Equalizer
use speakerman.Equalizer.{
  EqualizerConfig, unset_equalizer, default_center_freq, default_gain, default_bandwidth,
}
use speakerman.Detection
use speakerman.Detection.{DetectionConfig, default_detection}
use speakerman.LogicalGroup.{Direction}
use speakerman.LogicalGroups
use speakerman.LogicalGroups.{Groups, unset_groups, default_groups, change_groups}
use speakerman.LogicalGroups.PortMap.{get_total_channels}
use speakerman.ProcessingGroup.{unset_group, min_delay, default_delay, max_delay}
use speakerman.ProcessingGroups
use speakerman.ProcessingGroups.{ProcessingGroupsConfig}
use speakerman.Matrix
use speakerman.Matrix.{MatrixConfig, unset_matrix}

abbrev pub min_eqs : ℕ
min_eqs = 0

abbrev pub default_eqs : ℕ
default_eqs = 0

abbrev pub max_eqs : ℕ
max_eqs = 2

-- 0.25, the square root of 2, and 2
abbrev pub min_rel_sub_threshold : Double
min_rel_sub_threshold = 0x3fd0000000000000

abbrev pub default_rel_sub_threshold : Double
default_rel_sub_threshold = 0x3ff6a09e667f3bcd

abbrev pub max_rel_sub_threshold : Double
max_rel_sub_threshold = 0x4000000000000000

abbrev pub min_sub_output : ℕ
min_sub_output = 0

abbrev pub default_sub_output : ℕ
default_sub_output = 1

abbrev pub max_sub_output : ℕ
max_sub_output = 9

abbrev pub min_crossovers : ℕ
min_crossovers = 1

abbrev pub default_crossovers : ℕ
default_crossovers = 2

abbrev pub max_crossovers : ℕ
max_crossovers = 3

-- 1, 1 and 5
abbrev pub min_threshold_scaling : Double
min_threshold_scaling = 0x3ff0000000000000

abbrev pub default_threshold_scaling : Double
default_threshold_scaling = 0x3ff0000000000000

abbrev pub max_threshold_scaling : Double
max_threshold_scaling = 0x4014000000000000

abbrev pub default_generate_noise : ℕ
default_generate_noise = 0

-- `time_stamp` is the 64 bits of a `long long`.
pub record SpeakermanConfig : Type 0 where
  pub sub_output : ℕ
  pub crossovers : ℕ
  pub relative_sub_threshold : Double
  pub sub_delay : Double
  pub generate_noise : ℕ
  pub detection : DetectionConfig
  pub logical_inputs : Groups
  pub logical_outputs : Groups
  pub processing_groups : ProcessingGroupsConfig
  pub input_matrix : MatrixConfig
  pub eq : List EqualizerConfig
  pub eqs : ℕ
  pub time_stamp : ℕ
  pub threshold_scaling : Double

-- -1
abbrev pub no_time_stamp : ℕ
no_time_stamp = 2 ^ 64 - 1

-- `EqualizerConfig::defaultConfig`
abbrev pub default_equalizer : EqualizerConfig
default_equalizer = record {
  center = default_center_freq;
  gain = default_gain;
  bandwidth = default_bandwidth;
}

-- What the constructors of the members make; `default_config` sets the logical groups.
abbrev pub default_config : SpeakermanConfig
default_config = record {
  sub_output = default_sub_output;
  crossovers = default_crossovers;
  relative_sub_threshold = default_rel_sub_threshold;
  sub_delay = default_delay;
  generate_noise = default_generate_noise;
  detection = default_detection;
  logical_inputs = default_groups Direction.input;
  logical_outputs = default_groups Direction.output;
  processing_groups = record {
    groups = unset_size;
    channels = unset_size;
    group = replicate 2 unset_group;
  };
  input_matrix = unset_matrix;
  eq = replicate max_eqs default_equalizer;
  eqs = default_eqs;
  time_stamp = no_time_stamp;
  threshold_scaling = default_threshold_scaling;
}

-- `result.detection.unsetConfig()` makes a configuration that is not used: the detection keeps its
-- defaults, as does the scaling of the threshold.
abbrev pub unset_config : SpeakermanConfig
unset_config = record default_config {
  logical_inputs = unset_groups;
  logical_outputs = unset_groups;
  eq = replicate max_eqs unset_equalizer;
  sub_output = unset_size;
  crossovers = unset_size;
  relative_sub_threshold = quiet_nan;
  sub_delay = quiet_nan;
  generate_noise = unset_int;
  eqs = unset_size;
}

-- The body of the loops of `copyEqualizers`, after which `eqs` was fixed or not.
unfoldable pub copy_equalizer : Bool → EqualizerConfig → EqualizerConfig → EqualizerConfig
copy_equalizer true source e = Equalizer.set_if_unset default_equalizer source
copy_equalizer false source e =
    Equalizer.set_if_unset default_equalizer (Equalizer.set_if_unset source e)

-- The loops of `copyEqualizers` over the arrays, with `left` rounds to go before the last loop.
unfoldable pub copy_from :
    (left : ℕ) → Bool → List EqualizerConfig → List EqualizerConfig → Effect (List EqualizerConfig)
unfolding copy_equalizer
copy_from zero fixed source eq = returns (map (λ e. default_equalizer) eq)
copy_from (suc left) fixed (s ∷ source) (e ∷ eq) =
    copy_from left fixed source eq >>= λ rest. returns (copy_equalizer fixed s e ∷ rest)
copy_from (suc left) fixed _ _ = undefined

unfoldable pub copy_equalizers : SpeakermanConfig → SpeakermanConfig → Effect SpeakermanConfig
copy_equalizers source config =
    let (eqs', fixed) =
      fixed_value_if_unset_or_out_of_range size_unset config.eqs source.eqs min_eqs max_eqs in
    copy_from eqs' fixed source.eq config.eq >>= λ eq'.
    returns (record config { eqs = eqs'; eq = eq' })

-- `processingGroups.groups * processingGroups.channels`
unfoldable pub processing_channels : ProcessingGroupsConfig → ℕ
processing_channels config = mul_size config.groups config.channels

-- The settings that `setInitial` fills last.
unfoldable pub set_initial_values : SpeakermanConfig → SpeakermanConfig
set_initial_values config = record config {
  sub_output =
      (set_default_or_boxed_from_source_if_unset size_unset config.sub_output default_sub_output
        config.sub_output min_sub_output max_sub_output).0;
  relative_sub_threshold =
      (set_default_or_boxed_from_source_if_unset double_unset config.relative_sub_threshold
        default_rel_sub_threshold config.relative_sub_threshold min_rel_sub_threshold
        max_rel_sub_threshold).0;
  sub_delay =
      (set_default_or_boxed_from_source_if_unset double_unset config.sub_delay default_delay
        config.sub_delay min_delay max_delay).0;
  generate_noise =
      (set_default_or_boxed_from_source_if_unset int_unset config.generate_noise
        default_generate_noise config.generate_noise 0 1).0;
  threshold_scaling =
      (set_default_or_boxed_from_source_if_unset double_unset config.threshold_scaling
        default_threshold_scaling config.threshold_scaling min_threshold_scaling
        max_threshold_scaling).0;
  time_stamp = no_time_stamp;
}

-- The groups that `setInitial` sanitizes first.
unfoldable pub set_initial_groups : SpeakermanConfig → SpeakermanConfig
set_initial_groups config =
    let inputs = LogicalGroups.sanitize_initial Direction.input config.logical_inputs in
    record config {
      logical_inputs = inputs;
      logical_outputs = LogicalGroups.sanitize_initial Direction.output config.logical_outputs;
      processing_groups =
          ProcessingGroups.sanitize_initial (get_total_channels inputs) config.processing_groups;
    }

unfoldable pub set_initial : SpeakermanConfig → Effect SpeakermanConfig
set_initial config =
    let c1 = set_initial_groups config in
    or_throw (
      Matrix.replace_with_defaults_if_unset (processing_channels c1.processing_groups)
        (get_total_channels c1.logical_inputs) c1.input_matrix)
    >>= λ m.
        let c2 = record c1 {
          input_matrix = m;
          detection = Detection.set_if_unset default_detection c1.detection;
        } in
        copy_equalizers c2 c2 >>= λ c3. returns (set_initial_values c3)

-- The settings that `updateRuntimeValues` changes last.
unfoldable pub update_values : SpeakermanConfig → SpeakermanConfig → SpeakermanConfig
update_values new config = record config {
  relative_sub_threshold =
      (set_boxed_from_set_source double_unset config.relative_sub_threshold
        new.relative_sub_threshold min_rel_sub_threshold max_rel_sub_threshold).0;
  sub_delay =
      (set_boxed_from_set_source double_unset config.sub_delay new.sub_delay min_delay max_delay).0;
  generate_noise =
      (set_boxed_from_set_source int_unset config.generate_noise new.generate_noise 0 1).0;
  threshold_scaling =
      (set_boxed_from_set_source double_unset config.threshold_scaling new.threshold_scaling
        min_threshold_scaling max_threshold_scaling).0;
  time_stamp = no_time_stamp;
}

-- The groups that `updateRuntimeValues` changes first.
unfoldable pub update_groups : SpeakermanConfig → SpeakermanConfig → Effect SpeakermanConfig
update_groups new config =
    ProcessingGroups.change_runtime_values new.processing_groups config.processing_groups
    >>= λ groups. returns (record config {
      logical_inputs = change_groups new.logical_inputs config.logical_inputs;
      logical_outputs = change_groups new.logical_outputs config.logical_outputs;
      processing_groups = groups;
    })

unfoldable pub update_runtime_values : SpeakermanConfig → SpeakermanConfig → Effect SpeakermanConfig
update_runtime_values new config = update_groups new config >>= λ c1.
    or_throw (
      Matrix.change_runtime_values new.input_matrix (processing_channels c1.processing_groups)
        (get_total_channels c1.logical_inputs) c1.input_matrix)
    >>= λ m.
        let c2 = record c1 {
          input_matrix = m;
          detection = Detection.set_if_unset new.detection c1.detection;
        } in
        copy_equalizers new c2 >>= λ c3. returns (update_values new c3)
