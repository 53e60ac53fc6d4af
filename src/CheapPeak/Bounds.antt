-- ===== src/CheapPeak/Bounds.antt =====
-- `CheapPeakMemory` of src/include/tdap/PeakDetection.hpp over many samples.
use speakerman.Prelude.{
  ◌+◌, ◌≤◌, ◌<◌, ◌≡◌, refl, ap, ◌∙◌, Bool, List, [], ◌∷◌, ◌==◌, arith, length, length-set, set,
  Bool-cases, inl, inr,
}
use speakerman.Prelude.Effects.{Effect, returns, ◌>>=◌}
use speakerman.Peak.{maximum_of}
use speakerman.Peak.Turns.{turn-lt}
use speakerman.Peak.Arrays.{Returns, write_at-eq}
use speakerman.Peak.Loops.{maximum_from-Returns}
use speakerman.Peak.Setup.{zero_samples-Returns}
use speakerman.CheapPeak.{
  CheapPeakMemory, next_ptr, calculate_old_windows_max, reset_peaks, end_window, add_sample,
}

-- The places of the memory are within its array.
pub record IsInside {S : Type 0} (m : CheapPeakMemory S) : Type 0 where
  pub sizes : m.window_size ≤ m.window_count
  pub windows_fit : m.window_count ≤ length m.window_peak
  pub recent_fits : m.recent_window < m.window_size
  pub sample_fits : m.sample < m.window_size

module _ {S : Type 0} (lowest : S) (lt : S → S → Bool) where
  -- Adding samples one after the other.
  unfoldable pub add_samples : List S → CheapPeakMemory S → Effect (CheapPeakMemory S)
  unfolding add_sample
  add_samples [] m = returns m
  add_samples (x ∷ xs) m = add_sample lowest lt x m >>= λ added. add_samples xs added.1

  -- The maximum of a number and others.
  unfoldable pub maximum_with : List S → S → S
  unfolding maximum_of
  maximum_with [] mx = mx
  maximum_with (x ∷ xs) mx = maximum_with xs (maximum_of lowest lt mx x)

  end_window-Returns :
      (m : CheapPeakMemory S)
      → m.window_size ≤ m.window_count
      → m.window_count ≤ length m.window_peak
      → m.recent_window < m.window_size
      → Returns (λ m'. IsInside m' × (m'.recent_peak ≡ m.recent_peak)) (end_window lowest lt m)
  unfolding end_window calculate_old_windows_max next_ptr
  end_window-Returns m s f r =
      let same = length-set m.window_peak m.recent_window m.recent_peak in
      let peaks = set m.window_peak m.recent_window m.recent_peak in
      let next_fits = turn-lt m.window_size m.recent_window r in
      let again = length-set peaks (next_ptr m m.recent_window) lowest in
      let made = write_at-eq m.window_peak m.recent_window m.recent_peak (omega arith) in
      let (old, made1, _) =
        maximum_from-Returns lowest lt m.window_count 0 peaks lowest (omega arith) in
      let made2 = write_at-eq peaks (next_ptr m m.recent_window) lowest (omega arith) in
      (
        record m {
          window_peak = set peaks (next_ptr m m.recent_window) lowest;
          old_windows_peak = old;
          recent_window = next_ptr m m.recent_window;
          sample = 0;
        },
        rw made (rw made1 (rw made2 refl)),
        (
          record {
            sizes = s;
            windows_fit = omega arith;
            recent_fits = next_fits;
            sample_fits = omega arith;
          },
          refl,
        ),
      )

  add_sample-Returns :
      (x : S) (m : CheapPeakMemory S)
      → IsInside m
      → Returns
          (λ a. IsInside a.1 × (a.1.recent_peak ≡ maximum_of lowest lt m.recent_peak x))
          (add_sample lowest lt x m)
  unfolding add_sample
  add_sample-Returns x m v =
      let recent = maximum_of lowest lt m.recent_peak x in
      let peak = maximum_of lowest lt recent m.old_windows_peak in
      let m1 = record m { recent_peak = recent; sample = m.sample + 1 } in
      let place = v.sample_fits in
      elim (Bool-cases (m.sample + 1 == m.window_size)) [
        | inl full ↦
            let (m2, made, p) = end_window-Returns m1 v.sizes v.windows_fit v.recent_fits in
            ((peak, m2), rw (full, add_sample) (rw made refl), p)
        | inr room ↦ (
          (peak, m1),
          rw (room, add_sample) refl,
          (
            record {
              sizes = v.sizes;
              windows_fit = v.windows_fit;
              recent_fits = v.recent_fits;
              sample_fits = ground arith;
            },
            refl,
          ),
        )
      ]

  add_samples-Returns :
      (xs : List S) (m : CheapPeakMemory S)
      → IsInside m
      → Returns
          (λ m'. IsInside m' × (m'.recent_peak ≡ maximum_with xs m.recent_peak))
          (add_samples xs m)
  unfolding add_samples maximum_with
  add_samples-Returns [] m v = (m, refl, (v, refl))
  add_samples-Returns (x ∷ xs) m v =
      let (added, made, (v1, peak1)) = add_sample-Returns x m v in
      let (m', made1, (v2, peak2)) = add_samples-Returns xs added.1 v1 in
      (m', rw made made1, (v2, peak2 ∙ ap (maximum_with xs) peak1))

  -- If the windows are not larger than their number, and the array has a place for each, then
  -- `resetState` returns, and adding any samples after it returns too, with every access within the
  -- array. The recent peak is then the maximum of all these samples, however old they are.
  pub reset_peaks-add_samples :
      (xs : List S) (m : CheapPeakMemory S)
      → 1 ≤ m.window_size
      → m.window_size ≤ m.window_count
      → m.window_count ≤ length m.window_peak
      → (m' : CheapPeakMemory S) × ((reset_peaks lowest lt m >>= λ m1. add_samples xs m1)
          ≡ returns m')
        × IsInside m'
        × (m'.recent_peak ≡ maximum_with xs lowest)
  unfolding reset_peaks
  reset_peaks-add_samples xs m some s f =
      let (peaks, made, same) =
        zero_samples-Returns lowest lt m.window_count 0 m.window_peak (omega arith) in
      let m1 = record m {
        window_peak = peaks;
        recent_window = 0;
        sample = 0;
        old_windows_peak = lowest;
        recent_peak = lowest;
      } in
      let (m', made1, (v, peak)) =
        add_samples-Returns xs m1 (record {
          sizes = s;
          windows_fit = omega arith;
          recent_fits = some;
          sample_fits = some;
        }) in
      (m', rw made made1, v, peak)
