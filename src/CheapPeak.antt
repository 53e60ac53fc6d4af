-- ===== src/CheapPeak.antt =====
-- The maximum of the last samples by the maxima of windows: `CheapPeakMemory` of
-- src/include/tdap/PeakDetection.hpp. The lowest number and the order of the samples are arguments; the
-- sizes are those of its `CheapPeakMemoryMetrics`.
mod Bounds
mod Examples
use speakerman.Prelude.{ℕ, zero, ◌+◌, ◌%◌, Bool, true, false, List, ◌==◌}
use speakerman.Prelude.Effects.{Effect, returns, ◌>>=◌}
use speakerman.Peak.{write_at, maximum_of, maximum_from, zero_samples}

-- `CheapPeakMemory`
pub record CheapPeakMemory (S : Type 0) : Type 0 where
  pub window_size : ℕ
  pub window_count : ℕ
  pub window_peak : List S
  pub recent_window : ℕ
  pub sample : ℕ
  pub old_windows_peak : S
  pub recent_peak : S

-- `next`
unfoldable pub next_ptr : {S : Type 0} → CheapPeakMemory S → ℕ → ℕ
next_ptr m ptr = (ptr + 1) % m.window_size

module _ {S : Type 0} (lowest : S) (lt : S → S → Bool) where
  -- `calculateOldWindowsMax`
  unfoldable pub calculate_old_windows_max : CheapPeakMemory S → Effect S
  calculate_old_windows_max m = maximum_from lowest lt m.window_count 0 m.window_peak lowest

  -- `resetState`
  unfoldable pub reset_peaks : CheapPeakMemory S → Effect (CheapPeakMemory S)
  reset_peaks m = zero_samples lowest lt m.window_count 0 m.window_peak >>= λ peaks.
      returns (record m {
        window_peak = peaks;
        recent_window = 0;
        sample = 0;
        old_windows_peak = lowest;
        recent_peak = lowest;
      })

  -- The end of a window in `addSampleGetPeak`.
  unfoldable pub end_window : CheapPeakMemory S → Effect (CheapPeakMemory S)
  unfolding write_at calculate_old_windows_max next_ptr
  end_window m = write_at m.window_peak m.recent_window m.recent_peak >>= λ peaks.
      calculate_old_windows_max (record m { window_peak = peaks }) >>= λ old.
      write_at peaks (next_ptr m m.recent_window) lowest >>= λ peaks'. returns (record m {
        window_peak = peaks';
        old_windows_peak = old;
        recent_window = next_ptr m m.recent_window;
        sample = 0;
      })

  -- `addSampleGetPeak`: the peak, and the memory.
  unfoldable pub add_sample : S → CheapPeakMemory S → Effect (S × CheapPeakMemory S)
  unfolding maximum_of end_window
  add_sample new_sample m =
      let recent = maximum_of lowest lt m.recent_peak new_sample in
      let peak = maximum_of lowest lt recent m.old_windows_peak in
      let m1 = record m { recent_peak = recent; sample = m.sample + 1 } in
      elim (m1.sample == m1.window_size) [
        | true ↦ end_window m1 >>= λ m2. returns (peak, m2)
        | false ↦ returns (peak, m1)
      ]
