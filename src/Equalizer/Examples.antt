-- ===== src/Equalizer/Examples.antt =====
-- The theorem on src/EqualizerConfig.cc at a concrete equalizer.
use speakerman.Equalizer.{EqualizerConfig, max_center_freq}

-- A gain and a bandwidth that are out of range.
abbrev loud : EqualizerConfig
loud = record { center = max_center_freq; gain = max_center_freq; bandwidth = 0 }
