-- ===== src/Average/Examples.antt =====
-- The theorems on averages of a window at concrete inputs, and what these inputs give.
use speakerman.Prelude.{replicate, ℕ, ◌+◌, ◌-◌, ◌≡◌, refl, [], ◌∷◌, arith}
use speakerman.Prelude.Effects.{returns, throws, undefined, ◌>>=◌}
use speakerman.Average.{SizeLimits, MovingAverage, make_average, set_window_size, add_input}
use speakerman.Average.Limits.{made, add_input-overruns, set_window_size-larger}
use speakerman.Average.Delay.{IsInside, age, add_inputs, add_inputs-delayed}
use speakerman.Average.Sized.{set_window_size-late}

-- The sum of a window, in place of its average
abbrev sum : (window_samples : ℕ) → (average input history : ℕ) → ℕ
sum window_samples average input history = average + input - history

-- A window of four in a history of six, of which five are used
abbrev running : MovingAverage ℕ
running = record {
  history = record {
    history_samples = 6;
    samples = 1 ∷ 2 ∷ 3 ∷ 4 ∷ 5 ∷ 6 ∷ [];
    optimized = 4;
    write_ptr = 1;
  };
  window = record { window_samples = 2; read_ptr = 3; average = 9 };
}

running-IsInside : IsInside running
running-IsInside = record { fits = ground arith; writes = ground arith; reads = ground arith }

running-age : age running.history running.window ≡ 2
unfolding age
running-age = refl

-- The limits for samples of type `double`, and the default ratio
abbrev double_limits : SizeLimits
double_limits = record {
  max_max_window_samples = 2147483648;
  min_error_decay_to_window_ratio = 10;
  max_err_mitigating_decay_samples = 45035996273704;
}

add_input-overruns_example :
    (make_average double_limits 0 0 64 640 >>= λ m. add_input sum 7 m >>= add_input sum 8)
    ≡ undefined
add_input-overruns_example =
    add_input-overruns sum double_limits 0 0 7 8 64 640
      (ground arith, ground arith, ground arith, ground arith, ground arith)

abbrev sixty_four : MovingAverage ℕ
sixty_four = made 0 0 64

set_window_size-larger_example : (set_window_size 8 sixty_four >>= set_window_size 16) ≡ throws
set_window_size-larger_example =
    set_window_size-larger sixty_four 8 16 (ground arith) (ground arith) (ground arith)
      (ground arith)

add_inputs-delayed_example :
    (m : MovingAverage ℕ) × (add_inputs sum (7 ∷ 8 ∷ []) running ≡ returns m)
    × ((add_input sum 9 m >>= λ m2. returns m2.window.average)
        ≡ returns (sum m.window.window_samples m.window.average 9 7))
add_inputs-delayed_example =
    add_inputs-delayed sum running 7 9 (8 ∷ []) running-IsInside running-age

-- The place that is written next is in the middle of what is used afterwards.
abbrev twenty : MovingAverage ℕ
twenty = record {
  history = record {
    history_samples = 20;
    samples = replicate 20 0;
    optimized = 20;
    write_ptr = 2;
  };
  window = record { window_samples = 20; read_ptr = 2; average = 0 };
}

set_window_size-late_example :
    (m : MovingAverage ℕ) × ((set_window_size 4 twenty >>= add_inputs sum (7 ∷ 1 ∷ 2 ∷ 3 ∷ 4 ∷ []))
      ≡ returns m)
    × ((add_input sum 5 m >>= λ m2. returns m2.window.average)
        ≡ returns (sum m.window.window_samples m.window.average 5 7))
set_window_size-late_example =
    set_window_size-late sum twenty 7 5 (1 ∷ 2 ∷ 3 ∷ 4 ∷ []) (ground arith) (ground arith)
      (ground arith) (ground arith) (ground arith)
