-- ===== src/Average.antt =====
-- Averages over the last samples: src/include/tdap/TrueFloatingPointWindowAverage.hpp. The history is a ring in an
-- array; an access out of range is undefined, and so is the remainder by zero. The type of the samples, and
-- the floating-point formula that takes the last average, the input and the value that leaves the window to
-- the next average, are arguments.
pub mod Delay
pub mod Limits
pub mod Sized
mod Examples
use speakerman.Prelude.{
  ℕ, zero, suc, ◌+◌, ◌-◌, ◌*◌, ◌/◌, ◌%◌, ◌≡◌, Bool, true, false, ◌&&◌, List, [], ◌∷◌, if◌then◌else◌,
  ltb, leb, ◌==◌, replicate, max,
}
use speakerman.Prelude.Effects.{Effect, returns, throws, undefined, ◌>>=◌}
use speakerman.Peak.{read_at, write_at}

-- `BaseHistoryAndEmdForTrueFloatingPointMovingAverage`; `samples` is `history_`.
pub record History (S : Type 0) : Type 0 where
  pub history_samples : ℕ
  pub samples : List S
  pub optimized : ℕ
  pub write_ptr : ℕ

-- `WindowForTrueFloatingPointMovingAverage` of a history
pub record Window (S : Type 0) : Type 0 where
  pub window_samples : ℕ
  pub read_ptr : ℕ
  pub average : S

-- `Sizes::force_between` and `Sizes::is_between`
unfoldable pub force_between : (value minimum maximum : ℕ) → ℕ
force_between value minimum maximum =
    if leb minimum value then (if leb value maximum then value else maximum) else minimum

abbrev pub is_between : (value minimum maximum : ℕ) → Bool
is_between value minimum maximum = leb minimum value && leb value maximum

module _ {S : Type 0} where
  -- `setNextPtr`
  unfoldable pub set_next_ptr : History S → ℕ → ℕ
  set_next_ptr h ptr = if ltb 0 ptr then ptr - 1 else h.optimized

  -- `getRelative`
  unfoldable pub get_relative : (delta : ℕ) → History S → Effect ℕ
  get_relative delta h =
      if h.optimized == 0 then undefined else returns ((h.write_ptr + delta) % h.optimized)

  -- `getHistoryValue`: the value, and the next place to read.
  unfoldable pub get_history_value : (read_ptr : ℕ) → History S → Effect (S × ℕ)
  unfolding read_at set_next_ptr
  get_history_value read_ptr h =
      read_at h.samples read_ptr >>= λ result. returns (result, set_next_ptr h read_ptr)

  -- `write`
  unfoldable pub write : S → History S → Effect (History S)
  unfolding write_at set_next_ptr
  write value h = write_at h.samples h.write_ptr value >>= λ samples.
      returns (record h { samples = samples; write_ptr = set_next_ptr h h.write_ptr })

  -- `fillWithAverage`
  unfoldable pub fill_with_average : S → History S → History S
  fill_with_average average h = record h { samples = replicate h.history_samples average }

  -- `optimiseForMaximumWindowSamples`: if it changed something, and the history.
  unfoldable pub optimise_for_maximum : (samples : ℕ) → History S → Bool × History S
  unfolding force_between
  optimise_for_maximum samples h =
      let new_history_end = force_between samples 4 h.history_samples in
      if new_history_end == h.optimized
      then (false, h)
      else (true, record h { optimized = new_history_end })

  -- `setReadPtr` of a window
  unfoldable pub set_read_ptr : History S → Window S → Effect (Window S)
  unfolding get_relative
  set_read_ptr h w =
      if leb w.window_samples h.optimized
      then (get_relative w.window_samples h >>= λ ptr. returns (record w { read_ptr = ptr }))
      else throws

  -- `setWindowSamples` of a window with a history
  unfoldable pub set_window_samples :
      (window_samples : ℕ) → History S → Window S → Effect (Window S)
  unfolding set_read_ptr
  set_window_samples window_samples h w =
      if is_between window_samples 1 h.history_samples
      then set_read_ptr h (record w { window_samples = window_samples })
      else throws

  module _ (next_average : (window_samples : ℕ) → (average input history : S) → S) where
    -- `addInput` of a window
    unfoldable pub add_to_window : S → History S → Window S → Effect (Window S)
    unfolding get_history_value
    add_to_window input h w = get_history_value w.read_ptr h >>= λ history. returns (record w {
      average = next_average w.window_samples w.average input history.0;
      read_ptr = history.1;
    })

-- The constants of `MetricsForTrueFloatingPointMovingAverageMetyrics` that depend on the template's
-- arguments, two of them through floating-point arithmetic.
pub record SizeLimits : Type 0 where
  pub max_max_window_samples : ℕ
  pub min_error_decay_to_window_ratio : ℕ
  pub max_err_mitigating_decay_samples : ℕ

abbrev pub min_max_window_samples : ℕ
min_max_window_samples = 64

-- `MIN_ERR_MITIGATING_DECAY_SAMPLES`
abbrev pub min_emd_samples : SizeLimits → ℕ
min_emd_samples limits = limits.min_error_decay_to_window_ratio * min_max_window_samples

-- `validWindowSizeInSamples`
unfoldable pub valid_samples : SizeLimits → (samples : ℕ) → Effect ℕ
valid_samples limits samples =
    if is_between samples min_max_window_samples limits.max_max_window_samples
    then returns samples
    else throws

-- `validErrorMitigatingDecaySamples`
unfoldable pub valid_emd_samples : SizeLimits → (samples : ℕ) → Effect ℕ
valid_emd_samples limits samples =
    if is_between samples (min_emd_samples limits) limits.max_err_mitigating_decay_samples
    then returns samples
    else throws

-- `validWindowSize`; `MIN_MIN_ERROR_DECAY_TO_WINDOW_RATIO` is 1.
unfoldable pub valid_window_size : SizeLimits → (emd_samples window_size : ℕ) → Effect ℕ
unfolding valid_samples
valid_window_size limits emd_samples window_size = valid_samples limits window_size >>= λ samples.
    if ltb samples (emd_samples / 1) then returns window_size else throws

-- `TrueFloatingPointWeightedMovingAverage`
pub record MovingAverage (S : Type 0) : Type 0 where
  pub history : History S
  pub window : Window S

module _ {S : Type 0} where
  -- Its constructor; `content` is what the arrays hold, and `zero_value` the average of a new window.
  unfoldable pub make_average :
      (limits : SizeLimits) (content zero_value : S) (max_window_size emd_samples : ℕ)
      → Effect (MovingAverage S)
  unfolding valid_emd_samples valid_window_size set_window_samples
  make_average limits content zero_value max_window_size emd_samples =
      valid_emd_samples limits emd_samples >>= λ emd.
      valid_window_size limits emd max_window_size >>= λ history_samples.
      let h : History S = record {
        history_samples = history_samples;
        samples = replicate history_samples content;
        optimized = history_samples;
        write_ptr = 0;
      } in
      set_window_samples max_window_size h
        (record { window_samples = 1; read_ptr = 1; average = zero_value })
      >>= λ w. returns (record { history = h; window = w })

  -- `setAverage`
  unfoldable pub set_average : S → MovingAverage S → MovingAverage S
  unfolding fill_with_average
  set_average average m = record {
    history = fill_with_average average m.history;
    window = record m.window { average = average };
  }

  -- `optimiseForMaximumSamples`
  unfoldable pub optimise : MovingAverage S → Effect (MovingAverage S)
  unfolding optimise_for_maximum set_read_ptr
  optimise m =
      let changed = optimise_for_maximum m.window.window_samples m.history in
      let m1 = record m { history = changed.1 } in
      if changed.0
      then (set_read_ptr m1.history m1.window >>= λ w. returns (record m1 { window = w }))
      else returns m1

  -- `setWindowSize`
  unfoldable pub set_window_size : (window_samples : ℕ) → MovingAverage S → Effect (MovingAverage S)
  unfolding set_window_samples optimise
  set_window_size window_samples m = set_window_samples window_samples m.history m.window >>= λ w.
      optimise (record m { window = w })

  module _ (next_average : (window_samples : ℕ) → (average input history : S) → S) where
    -- `addInput`
    unfoldable pub add_input : S → MovingAverage S → Effect (MovingAverage S)
    unfolding add_to_window write
    add_input input m = add_to_window next_average input m.history m.window >>= λ w.
        write input m.history >>= λ h. returns (record { history = h; window = w })
