-- ===== src/Peak/Examples.antt =====
-- Runs of `PeakMemory` of src/include/tdap/PeakDetection.hpp.
use speakerman.Prelude.{ℕ, zero, suc, ◌+◌, ◌/◌, ◌≡◌, ◌*◌, List, [], ◌∷◌, ltb, arith}
use speakerman.Prelude.Effects.{returns}
use speakerman.Peak.{Data, add_sample_get_peak, set_samples, window_count_for}
use speakerman.Peak.Arrays.{IsValid}
use speakerman.Peak.Ranges.{add_sample_get_peak-IsValid}
use speakerman.Peak.Setup.{set_samples-IsValid}

abbrev copies {ℓ} : {A : Type ℓ} → ℕ → A → List A
copies zero x = []
copies (suc n) x = x ∷ copies n x

-- The windows of four samples for 45 samples, and of five for 48.
abbrev sizes : ℕ → ℕ
sizes count = 4 + count / 48

-- The data before `setSamples`, with room for 45 samples.
abbrev fresh : Data ℕ
fresh = record {
  max_samples = 48;
  samples = copies 52 0;
  windows = copies 13 (record { maximum = 0; start_at = 0; offset = 0 });
  sample_count = 0;
  window_count = 0;
  window_size = 0;
  recent_window = 0;
  oldest_window = 0;
  between_window_maximum = 0;
  in_window = 0;
}

set_samples-IsValid_example :
    (d' : Data ℕ) × (set_samples 0 ltb sizes 45 fresh ≡ returns d')
    × IsValid d'
    × (d'.sample_count + d'.window_size ≡ d'.window_size * d'.window_count)
unfolding window_count_for
set_samples-IsValid_example =
    set_samples-IsValid 0 ltb sizes 45 fresh (omega arith) (omega arith) (omega arith) (omega arith)
      (omega arith)

-- The data after `setSamples`.
set_up :
    (d' : Data ℕ) × (set_samples 0 ltb sizes 45 fresh ≡ returns d')
    × IsValid d'
    × (d'.sample_count + d'.window_size ≡ d'.window_size * d'.window_count)
unfolding window_count_for
set_up =
    set_samples-IsValid 0 ltb sizes 45 fresh (omega arith) (omega arith) (omega arith) (omega arith)
      (omega arith)

add_sample_get_peak-IsValid_example :
    (peak : ℕ) × (d' : Data ℕ) × (add_sample_get_peak 0 ltb 7 set_up.0 ≡ returns (peak, d'))
    × IsValid d'
add_sample_get_peak-IsValid_example = add_sample_get_peak-IsValid 0 ltb 7 set_up.0 set_up.2
