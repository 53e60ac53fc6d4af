-- ===== src/Peak.antt =====
-- The maximum of the last samples: `PeakMemory` of src/include/tdap/PeakDetection.hpp. The two arrays are
-- lists; an access out of range is undefined. The order of the samples and the floating-point function
-- that gives the size of the windows are arguments: the source's gives zero for zero samples, and
-- then `setSamples` divides by zero. A size has less than 64 bits, so that sums do not wrap.
pub mod Turns
pub mod Arrays
pub mod Loops
pub mod Ranges
pub mod Setup
mod Examples
use speakerman.Prelude.{
  ℕ, zero, suc, ◌+◌, ◌-◌, ◌*◌, ◌/◌, ◌%◌, Bool, List, Option, none, some, if◌then◌else◌, ltb, ◌==◌,
  length, set, get_elem?,
}
use speakerman.Prelude.Effects.{Effect, returns, throws, undefined, ◌>>=◌}

-- `Window`; `data_` is the offset in the array of samples.
pub record Window (S : Type 0) : Type 0 where
  pub maximum : S
  pub start_at : ℕ
  pub offset : ℕ

-- `Data`
pub record Data (S : Type 0) : Type 0 where
  pub max_samples : ℕ
  pub samples : List S
  pub windows : List (Window S)
  pub sample_count : ℕ
  pub window_count : ℕ
  pub window_size : ℕ
  pub recent_window : ℕ
  pub oldest_window : ℕ
  pub between_window_maximum : S
  pub in_window : ℕ

-- Reading and writing an element of an array.
unfoldable pub read_at {ℓ} : {A : Type ℓ} → List A → ℕ → Effect A
read_at xs i = elim (get_elem? xs i) [ none ↦ undefined | some x ↦ returns x ]

unfoldable pub write_at {ℓ} : {A : Type ℓ} → List A → ℕ → A → Effect (List A)
write_at xs i x = if ltb i (length xs) then returns (set xs i x) else undefined

-- `windowCountForWindowSizeAndSamples`
unfoldable pub window_count_for : (window_size samples : ℕ) → ℕ
window_count_for window_size samples = 1 + (samples - 1) / window_size

-- `nextWindowPtr`
unfoldable pub next_window_ptr : {S : Type 0} → Data S → ℕ → ℕ
next_window_ptr d ptr = (ptr + 1) % d.window_count

module _ {S : Type 0} (nothing : S) (lt : S → S → Bool) where
  -- `Floats::max` and `std::max`
  unfoldable pub maximum_of : S → S → S
  maximum_of a b = if lt a b then b else a

  -- `markAsMostRecent` and `markAsOldest`
  unfoldable pub mark : Window S → Window S
  mark w = record w { maximum = nothing; start_at = 0 }

  -- `addToMostRecentGetMaximum`: the samples, and the window with its maximum.
  unfoldable pub add_to_most_recent : S → Window S → List S → Effect (List S × Window S)
  unfolding write_at maximum_of
  add_to_most_recent sample w samples =
      write_at samples (w.offset + w.start_at) sample >>= λ samples'.
      returns
        (samples', record w { start_at = w.start_at + 1; maximum = maximum_of w.maximum sample })

  -- The loop of `removeFromOldestGetMaximum`, with `left` samples to go from index `i`.
  unfoldable pub maximum_from : (left i : ℕ) → List S → S → Effect S
  unfolding read_at maximum_of
  maximum_from zero i samples mx = returns mx
  maximum_from (suc left) i samples mx =
      read_at samples i >>= λ s. maximum_from left (i + 1) samples (maximum_of mx s)

  -- `removeFromOldestGetMaximum`
  unfoldable pub remove_from_oldest : (window_size : ℕ) → Window S → List S → Effect (Window S)
  unfolding maximum_from
  remove_from_oldest window_size w samples =
      maximum_from (window_size - w.start_at) (w.offset + w.start_at) samples nothing >>= λ mx.
      returns (record w { start_at = w.start_at + 1; maximum = mx })

  -- The loop of `initNewSamples` from window `ptr` on, for as many rounds as `fuel` allows.
  unfoldable pub between_maximum : (fuel : ℕ) → Data S → (ptr : ℕ) → S → Effect S
  unfolding read_at maximum_of next_window_ptr
  between_maximum zero d ptr mx = undefined
  between_maximum (suc fuel) d ptr mx = elim (ptr == d.recent_window) [
    | Bool.true ↦ returns mx
    | Bool.false ↦ read_at d.windows ptr >>= λ w.
        between_maximum fuel d (next_window_ptr d ptr) (maximum_of mx w.maximum)
  ]

  -- A change of a window.
  unfoldable pub update_window : ℕ → (Window S → Window S) → Data S → Effect (Data S)
  unfolding read_at
  update_window i f d =
      read_at d.windows i >>= λ w. returns (record d { windows = set d.windows i (f w) })

  -- `initNewSamples`; the loop ends within one round of the windows.
  unfoldable pub init_new_samples : Data S → Effect (Data S)
  unfolding update_window mark between_maximum next_window_ptr
  init_new_samples d = update_window d.recent_window mark d >>= λ d1.
      update_window d1.oldest_window mark d1 >>= λ d2.
      between_maximum (d2.window_count + 1) d2 (next_window_ptr d2 d2.oldest_window) nothing
      >>= λ mx. returns (record d2 { between_window_maximum = mx })

  -- `Data::next`
  unfoldable pub next : Data S → Effect (Data S)
  unfolding init_new_samples next_window_ptr
  next d = init_new_samples (record d {
    recent_window = next_window_ptr d d.recent_window;
    oldest_window = next_window_ptr d d.oldest_window;
    in_window = 0;
  })

  -- `Data::addSampleGetPeak`: the peak, and the data.
  unfoldable pub add_sample_get_peak : S → Data S → Effect (S × Data S)
  unfolding read_at add_to_most_recent remove_from_oldest next maximum_of
  add_sample_get_peak sample d = read_at d.windows d.recent_window >>= λ w.
      add_to_most_recent sample w d.samples >>= λ added.
      let d1 = record d { samples = added.0; windows = set d.windows d.recent_window added.1 } in
      read_at d1.windows d1.oldest_window >>= λ o.
      remove_from_oldest d1.window_size o d1.samples >>= λ o'.
      let peak = maximum_of (maximum_of added.1.maximum o'.maximum) d1.between_window_maximum in
      let d2 = record d1 {
        windows = set d1.windows d1.oldest_window o';
        in_window = d1.in_window + 1;
      } in
      elim (d2.in_window == d2.window_size) [
        | Bool.true ↦ next d2 >>= λ d3. returns (peak, d3)
        | Bool.false ↦ returns (peak, d2)
      ]

  -- The loop of `setSamples` over the samples from index `i` on.
  unfoldable pub zero_samples : (left i : ℕ) → List S → Effect (List S)
  unfolding write_at
  zero_samples zero i samples = returns samples
  zero_samples (suc left) i samples =
      write_at samples i nothing >>= λ samples'. zero_samples left (i + 1) samples'

  -- The loop of `setSamples` over the windows from index `window` on.
  unfoldable pub init_windows :
      (left window offs window_size : ℕ) → List (Window S) → Effect (List (Window S))
  unfolding write_at
  init_windows zero window offs window_size windows = returns windows
  init_windows (suc left) window offs window_size windows =
      write_at windows window (record { maximum = nothing; start_at = 0; offset = offs })
      >>= λ windows'. init_windows left (window + 1) (offs + window_size) window_size windows'

  -- `setSamples`
  unfoldable pub set_samples :
      (window_size_for_samples : ℕ → ℕ) → (sample_count : ℕ) → Data S → Effect (Data S)
  unfolding zero_samples init_windows window_count_for
  set_samples window_size_for_samples sample_count d =
      if ltb d.max_samples sample_count
      then throws
      else let window_size = window_size_for_samples sample_count in
        if window_size == 0
        then undefined
        else let window_count = 1 + window_count_for window_size sample_count in
          zero_samples (window_size * window_count) 0 d.samples >>= λ samples'.
          init_windows window_count 0 0 window_size d.windows >>= λ windows'. returns (record {
            max_samples = d.max_samples;
            samples = samples';
            windows = windows';
            sample_count = window_size * window_count - window_size;
            window_count = window_count;
            window_size = window_size;
            recent_window = 0;
            oldest_window = 1 % window_count;
            between_window_maximum = nothing;
            in_window = 0;
          })

  -- `resetState`
  unfoldable pub reset_state : (window_size_for_samples : ℕ → ℕ) → Data S → Effect (Data S)
  unfolding set_samples
  reset_state window_size_for_samples d = set_samples window_size_for_samples d.sample_count d
