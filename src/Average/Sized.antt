-- ===== src/Average/Sized.antt =====
-- An average of src/include/tdap/TrueFloatingPointWindowAverage.hpp whose window was made smaller.
use native.Mathlib.Nat.{add-mod_right, mod-eq_of_lt}
use speakerman.Prelude.{
  ℕ, suc, ◌+◌, ◌%◌, ◌≤◌, ◌<◌, ◌≡◌, refl, ◌∙◌, true, false, List, ◌∷◌, leb, ◌==◌, length, arith,
}
use speakerman.Prelude.Effects.{returns, ◌>>=◌}
use speakerman.Average.{
  MovingAverage, force_between, get_relative, optimise_for_maximum, set_read_ptr,
  set_window_samples, optimise, set_window_size, add_input,
}
use speakerman.Average.Delay.{IsInside, age, add_inputs, add_inputs-delayed}

module _ {S : Type 0} where
  -- The average whose window was made smaller than the ring that it used
  abbrev sized : (window_samples : ℕ) → MovingAverage S → MovingAverage S
  sized window_samples m = record {
    history = record m.history { optimized = window_samples };
    window = record m.window { window_samples = window_samples; read_ptr = m.history.write_ptr };
  }

  set_window_size-smaller :
      (w : ℕ) (m : MovingAverage S)
      → 4 ≤ w
      → w < m.history.optimized
      → w ≤ m.history.history_samples
      → m.history.write_ptr < w
      → set_window_size w m ≡ returns (sized w m)
  unfolding set_window_size set_window_samples optimise optimise_for_maximum set_read_ptr
      get_relative force_between
  set_window_size-smaller w m some_size smaller fits inside =
      let start : (m.history.write_ptr + w) % w ≡ m.history.write_ptr =
        add-mod_right m.history.write_ptr w ∙ mod-eq_of_lt inside in
      let some_ring : (m.history.optimized == 0) ≡ false = ground arith in
      let some_window : (w == 0) ≡ false = ground arith in
      let one : leb 1 w ≡ true = ground arith in
      let four : leb 4 w ≡ true = ground arith in
      let fits : leb w m.history.history_samples ≡ true = ground arith in
      let used : leb w m.history.optimized ≡ true = ground arith in
      let itself : leb w w ≡ true = ground arith in
      let changed : (w == m.history.optimized) ≡ false = ground arith in
      rw one (
        rw fits (
          rw used (
            rw some_ring
              (rw four (rw fits (rw changed (rw itself (rw some_window (rw start refl)))))))))

  sized-IsInside :
      (w : ℕ) (m : MovingAverage S)
      → w < length m.history.samples
      → m.history.write_ptr < w
      → IsInside (sized w m)
  sized-IsInside w m room inside = record { fits = room; writes = omega arith; reads = omega arith }

  sized-age :
      (w : ℕ) (m : MovingAverage S)
      → m.history.write_ptr < w
      → age (sized w m).history (sized w m).window ≡ suc w
  unfolding age
  sized-age w m inside = ground arith

  module _ (next_average : (window_samples : ℕ) → (average input history : S) → S) where
    -- An average whose window is made smaller than the ring that it uses, to at least four samples and to more
    -- than the place that it writes next, takes out an input one input later than its window size says: `xs`
    -- are the inputs between, as many as the window size.
    pub set_window_size-late :
        (m0 : MovingAverage S) (a b : S) (xs : List S)
        → 4 ≤ length xs
        → length xs < m0.history.optimized
        → length xs ≤ m0.history.history_samples
        → length xs < length m0.history.samples
        → m0.history.write_ptr < length xs
        → (m : MovingAverage S) × ((set_window_size (length xs) m0
              >>= add_inputs next_average (a ∷ xs))
            ≡ returns m)
          × ((add_input next_average b m >>= λ m2. returns m2.window.average)
              ≡ returns (next_average m.window.window_samples m.window.average b a))
    set_window_size-late m0 a b xs some_size smaller fits room inside =
        let (m, made_m, taken) =
          add_inputs-delayed next_average (sized (length xs) m0) a b xs
            (sized-IsInside (length xs) m0 room inside) (sized-age (length xs) m0 inside) in
        (m, rw (set_window_size-smaller (length xs) m0 some_size smaller fits inside) made_m, taken)
