-- ===== src/Detection.antt =====
-- The settings of the level detection: `DetectionConfig` of src/include/speakerman/DetectionConfig.h
-- and src/DetectionConfig.cc. An `int` is its 32 bits.
mod Examples
use speakerman.Prelude.{ℕ, ◌≤◌, ◌≡◌, ◌⊎◌, inl, inr, refl, false, arith}
use speakerman.Double.{Double, quiet_nan, less, less_irrefl}
use speakerman.Unset.{
  unset_size, unset_int, size_unset, int_unset, double_unset, set_config_value_if_unset,
  fixed_value_if_unset_or_boxed_if_out_of_range,
}
use speakerman.Unset.Bounds.{IsBoxed, fixed_value_boxed_lem}

-- 0.4 and 8
abbrev pub min_maximum_window_seconds : Double
min_maximum_window_seconds = 0x3fd999999999999a

abbrev pub max_maximum_window_seconds : Double
max_maximum_window_seconds = 0x4020000000000000

abbrev pub min_perceptive_levels : ℕ
min_perceptive_levels = 2

abbrev pub default_perceptive_levels : ℕ
default_perceptive_levels = 11

abbrev pub max_perceptive_levels : ℕ
max_perceptive_levels = 32

-- 0.0001, 0.001 and 0.01
abbrev pub min_minimum_window_seconds : Double
min_minimum_window_seconds = 0x3f1a36e2eb1c432d

abbrev pub default_minimum_window_seconds : Double
default_minimum_window_seconds = 0x3f50624dd2f1a9fc

abbrev pub max_minimum_window_seconds : Double
max_minimum_window_seconds = 0x3f847ae147ae147b

-- 0.001, 0.02 and 0.1
abbrev pub min_rms_fast_release_seconds : Double
min_rms_fast_release_seconds = 0x3f50624dd2f1a9fc

abbrev pub default_rms_fast_release_seconds : Double
default_rms_fast_release_seconds = 0x3f947ae147ae147b

abbrev pub max_rms_fast_release_seconds : Double
max_rms_fast_release_seconds = 0x3fb999999999999a

pub record DetectionConfig : Type 0 where
  pub maximum_window_seconds : Double
  pub minimum_window_seconds : Double
  pub rms_fast_release_seconds : Double
  pub perceptive_levels : ℕ
  pub use_brick_wall_prediction : ℕ

-- `DetectionConfig::defaultConfig`
abbrev pub default_detection : DetectionConfig
default_detection = record {
  maximum_window_seconds = min_maximum_window_seconds;
  minimum_window_seconds = default_minimum_window_seconds;
  rms_fast_release_seconds = default_rms_fast_release_seconds;
  perceptive_levels = default_perceptive_levels;
  use_brick_wall_prediction = 1;
}

-- `DetectionConfig::unsetConfig`
abbrev pub unset_detection : DetectionConfig
unset_detection = record {
  maximum_window_seconds = quiet_nan;
  minimum_window_seconds = quiet_nan;
  rms_fast_release_seconds = quiet_nan;
  perceptive_levels = unset_size;
  use_brick_wall_prediction = unset_int;
}

unfoldable pub set_if_unset : DetectionConfig → DetectionConfig → DetectionConfig
set_if_unset config_if_unset config = record {
  use_brick_wall_prediction =
      (set_config_value_if_unset int_unset config.use_brick_wall_prediction
        config_if_unset.use_brick_wall_prediction).0;
  maximum_window_seconds =
      fixed_value_if_unset_or_boxed_if_out_of_range double_unset config.maximum_window_seconds
        config_if_unset.maximum_window_seconds min_maximum_window_seconds
        max_maximum_window_seconds;
  minimum_window_seconds =
      fixed_value_if_unset_or_boxed_if_out_of_range double_unset config.minimum_window_seconds
        config_if_unset.minimum_window_seconds min_minimum_window_seconds
        max_minimum_window_seconds;
  rms_fast_release_seconds =
      fixed_value_if_unset_or_boxed_if_out_of_range double_unset config.rms_fast_release_seconds
        config_if_unset.rms_fast_release_seconds min_rms_fast_release_seconds
        max_rms_fast_release_seconds;
  perceptive_levels =
      fixed_value_if_unset_or_boxed_if_out_of_range size_unset config.perceptive_levels
        config_if_unset.perceptive_levels min_perceptive_levels max_perceptive_levels;
}

-- The windows, the release time and the number of levels are set and in their ranges.
pub record IsValid (config : DetectionConfig) : Type 0 where
  pub maximum_ok :
      IsBoxed double_unset min_maximum_window_seconds max_maximum_window_seconds
        config.maximum_window_seconds
  pub minimum_ok :
      IsBoxed double_unset min_minimum_window_seconds max_minimum_window_seconds
        config.minimum_window_seconds
  pub release_ok :
      IsBoxed double_unset min_rms_fast_release_seconds max_rms_fast_release_seconds
        config.rms_fast_release_seconds
  pub levels_ok :
      (min_perceptive_levels ≤ config.perceptive_levels)
      × (config.perceptive_levels ≤ max_perceptive_levels)

levels_fit :
    (v d : ℕ)
    → let n =
        fixed_value_if_unset_or_boxed_if_out_of_range size_unset v d min_perceptive_levels
          max_perceptive_levels in
      (min_perceptive_levels ≤ n) × (n ≤ max_perceptive_levels)
unfolding fixed_value_if_unset_or_boxed_if_out_of_range
levels_fit v d = ground arith

-- When the configuration or the one it falls back to is valid, and whatever the other holds, the windows,
-- the release time and the number of levels are set and in their ranges after `set_if_unset`.
pub set_detection-IsValid :
    (base config : DetectionConfig)
    → IsValid base ⊎ IsValid config
    → IsValid (set_if_unset base config)
unfolding set_if_unset less
set_detection-IsValid base config valid = record {
  maximum_ok =
      fixed_value_boxed_lem double_unset less_irrefl min_maximum_window_seconds
        max_maximum_window_seconds refl refl refl config.maximum_window_seconds
        base.maximum_window_seconds
        (elim valid [ inl b ↦ inr b.maximum_ok.0 | inr c ↦ inl c.maximum_ok.0 ]);
  minimum_ok =
      fixed_value_boxed_lem double_unset less_irrefl min_minimum_window_seconds
        max_minimum_window_seconds refl refl refl config.minimum_window_seconds
        base.minimum_window_seconds
        (elim valid [ inl b ↦ inr b.minimum_ok.0 | inr c ↦ inl c.minimum_ok.0 ]);
  release_ok =
      fixed_value_boxed_lem double_unset less_irrefl min_rms_fast_release_seconds
        max_rms_fast_release_seconds refl refl refl config.rms_fast_release_seconds
        base.rms_fast_release_seconds
        (elim valid [ inl b ↦ inr b.release_ok.0 | inr c ↦ inl c.release_ok.0 ]);
  levels_ok = levels_fit config.perceptive_levels base.perceptive_levels;
}

-- `DetectionConfig::defaultConfig` is valid.
pub default_detection-IsValid : IsValid default_detection
unfolding less
default_detection-IsValid = record {
  maximum_ok = (refl, refl, refl);
  minimum_ok = (refl, refl, refl);
  release_ok = (refl, refl, refl);
  levels_ok = (ground arith, ground arith);
}
