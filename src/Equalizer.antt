-- ===== src/Equalizer.antt =====
-- One equalizer: `EqualizerConfig` of src/include/speakerman/EqualizerConfig.h and
-- src/EqualizerConfig.cc.
mod Examples
use speakerman.Prelude.{◌≡◌, refl, false}
use speakerman.Double.{Double, quiet_nan, less, less_irrefl}
use speakerman.Unset.{double_unset, set_default_or_boxed_from_source_if_unset}
use speakerman.Unset.Bounds.{IsBoxed, set_default-IsBoxed}

-- 20, 1000 and 22000
abbrev pub min_center_freq : Double
min_center_freq = 0x4034000000000000

abbrev pub default_center_freq : Double
default_center_freq = 0x408f400000000000

abbrev pub max_center_freq : Double
max_center_freq = 0x40d57c0000000000

-- 0.1, 1 and 10
abbrev pub min_gain : Double
min_gain = 0x3fb999999999999a

abbrev pub default_gain : Double
default_gain = 0x3ff0000000000000

abbrev pub max_gain : Double
max_gain = 0x4024000000000000

-- 0.25, 1 and 8
abbrev pub min_bandwidth : Double
min_bandwidth = 0x3fd0000000000000

abbrev pub default_bandwidth : Double
default_bandwidth = 0x3ff0000000000000

abbrev pub max_bandwidth : Double
max_bandwidth = 0x4020000000000000

pub record EqualizerConfig : Type 0 where
  pub center : Double
  pub gain : Double
  pub bandwidth : Double

-- `EqualizerConfig::unsetConfig`
abbrev pub unset_equalizer : EqualizerConfig
unset_equalizer = record { center = quiet_nan; gain = quiet_nan; bandwidth = quiet_nan }

unfoldable pub set_if_unset : EqualizerConfig → EqualizerConfig → EqualizerConfig
set_if_unset base_config_if_unset config = record {
  center =
      (set_default_or_boxed_from_source_if_unset double_unset config.center default_center_freq
        base_config_if_unset.center min_center_freq max_center_freq).0;
  gain =
      (set_default_or_boxed_from_source_if_unset double_unset config.gain default_gain
        base_config_if_unset.gain min_gain max_gain).0;
  bandwidth =
      (set_default_or_boxed_from_source_if_unset double_unset config.bandwidth default_bandwidth
        base_config_if_unset.bandwidth min_bandwidth max_bandwidth).0;
}

-- The three settings are set and in their ranges.
pub record IsValid (config : EqualizerConfig) : Type 0 where
  pub center_ok : IsBoxed double_unset min_center_freq max_center_freq config.center
  pub gain_ok : IsBoxed double_unset min_gain max_gain config.gain
  pub bandwidth_ok : IsBoxed double_unset min_bandwidth max_bandwidth config.bandwidth

-- Whatever an equalizer and its base hold, the settings are set and in their ranges after `set_if_unset`.
pub set_equalizer-IsValid : (base config : EqualizerConfig) → IsValid (set_if_unset base config)
unfolding set_if_unset less
set_equalizer-IsValid base config = record {
  center_ok =
      set_default-IsBoxed double_unset less_irrefl min_center_freq max_center_freq refl refl refl
        config.center default_center_freq base.center (refl, refl, refl) refl;
  gain_ok =
      set_default-IsBoxed double_unset less_irrefl min_gain max_gain refl refl refl config.gain
        default_gain base.gain (refl, refl, refl) refl;
  bandwidth_ok =
      set_default-IsBoxed double_unset less_irrefl min_bandwidth max_bandwidth refl refl refl
        config.bandwidth default_bandwidth base.bandwidth (refl, refl, refl) refl;
}
