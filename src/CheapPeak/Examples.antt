-- ===== src/CheapPeak/Examples.antt =====
-- Runs of `CheapPeakMemory` of src/include/tdap/PeakDetection.hpp.
use speakerman.Prelude.{ℕ, ◌≡◌, [], ◌∷◌, ltb, arith}
use speakerman.Prelude.Effects.{returns, ◌>>=◌}
use speakerman.CheapPeak.{CheapPeakMemory, reset_peaks}
use speakerman.CheapPeak.Bounds.{IsInside, add_samples, maximum_with, reset_peaks-add_samples}

-- Four samples, in two windows of two.
abbrev four : CheapPeakMemory ℕ
four = record {
  window_size = 2;
  window_count = 2;
  window_peak = 0 ∷ 0 ∷ [];
  recent_window = 0;
  sample = 0;
  old_windows_peak = 0;
  recent_peak = 0;
}

-- The 9 was eight samples ago.
reset_peaks-add_samples_example :
    (m' : CheapPeakMemory ℕ) × ((reset_peaks 0 ltb four >>= λ m1.
    add_samples 0 ltb (9 ∷ 1 ∷ 1 ∷ 1 ∷ 1 ∷ 1 ∷ 1 ∷ 1 ∷ 1 ∷ []) m1)
      ≡ returns m')
    × IsInside m'
    × (m'.recent_peak ≡ maximum_with 0 ltb (9 ∷ 1 ∷ 1 ∷ 1 ∷ 1 ∷ 1 ∷ 1 ∷ 1 ∷ 1 ∷ []) 0)
reset_peaks-add_samples_example =
    reset_peaks-add_samples 0 ltb (9 ∷ 1 ∷ 1 ∷ 1 ∷ 1 ∷ 1 ∷ 1 ∷ 1 ∷ 1 ∷ []) four (omega arith)
      (omega arith) (omega arith)
