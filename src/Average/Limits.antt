-- ===== src/Average/Limits.antt =====
-- Where the history of src/include/tdap/TrueFloatingPointWindowAverage.hpp ends.
use native.Mathlib.Nat.{mod_self}
use speakerman.Prelude.{
  ◌/◌, ltb, ℕ, zero, suc, ◌+◌, ◌%◌, ◌≤◌, ◌<◌, ◌≡◌, refl, ap, ◌∙◌, true, false, List, [], ◌∷◌, none,
  some, leb, ◌==◌, length, replicate, length-replicate, length-set, get_elem?, set, arith,
}
use speakerman.Prelude.Effects.{returns, throws, undefined, ◌>>=◌}
use speakerman.Peak.{read_at}
use speakerman.Peak.Arrays.{write_at-eq}
use speakerman.Average.{
  SizeLimits, min_max_window_samples, min_emd_samples, valid_samples, valid_emd_samples,
  valid_window_size, MovingAverage, force_between, is_between, set_next_ptr, get_relative,
  get_history_value, write, optimise_for_maximum, set_read_ptr, set_window_samples, add_to_window,
  make_average, optimise, set_window_size, add_input,
}

get_elem?-replicate {ℓ} :
    {A : Type ℓ} (n i : ℕ) (a : A) → i < n → get_elem? (replicate n a) i ≡ some a
get_elem?-replicate zero i a h = absurd (omega arith)
get_elem?-replicate (suc n) zero a h = refl
get_elem?-replicate (suc n) (suc i) a h = get_elem?-replicate n i a (omega arith)

get_elem?-past {ℓ} : {A : Type ℓ} (xs : List A) (i : ℕ) → length xs ≤ i → get_elem? xs i ≡ none
get_elem?-past [] i h = refl
get_elem?-past (x ∷ xs) zero h = absurd (omega arith)
get_elem?-past (x ∷ xs) (suc i) h = get_elem?-past xs i (omega arith)

pub read_at-some {ℓ} :
    {A : Type ℓ} (xs : List A) (i : ℕ) (x : A) → get_elem? xs i ≡ some x → read_at xs i ≡ returns x
unfolding read_at
read_at-some xs i x found = ground arith

read_at-none {ℓ} :
    {A : Type ℓ} (xs : List A) (i : ℕ) → get_elem? xs i ≡ none → read_at xs i ≡ undefined
unfolding read_at
read_at-none xs i missing = ground arith

-- The constructor accepts a window and a decay of these sizes.
abbrev pub IsAccepted : SizeLimits → (n emd : ℕ) → Type 0
IsAccepted limits n emd =
    (min_max_window_samples ≤ n)
    × (n ≤ limits.max_max_window_samples)
    × (min_emd_samples limits ≤ emd)
    × (emd ≤ limits.max_err_mitigating_decay_samples)
    × (n < emd)

module _ {S : Type 0} where
  -- The window that was made for a history has its size, and starts at the place that is written next.
  abbrev pub made : (content zero_value : S) → ℕ → MovingAverage S
  made content zero_value n = record {
    history = record {
      history_samples = n;
      samples = replicate n content;
      optimized = n;
      write_ptr = 0;
    };
    window = record { window_samples = n; read_ptr = 0; average = zero_value };
  }

  -- A history of any size that the constructor accepts
  make_average-eq :
      (limits : SizeLimits) (content zero_value : S) (n emd : ℕ)
      → IsAccepted limits n emd
      → make_average limits content zero_value n emd ≡ returns (made content zero_value n)
  unfolding make_average valid_emd_samples valid_window_size valid_samples set_window_samples
      set_read_ptr get_relative
  make_average-eq limits content zero_value n emd
        (some_size, size_fits, some_decay, decay_fits, longer) =
      let start : (0 + n) % n ≡ 0 = ap (λ k. k % n) (omega arith) ∙ mod_self n in
      let decay : is_between emd (min_emd_samples limits) limits.max_err_mitigating_decay_samples
          ≡ true =
        ground arith in
      let size : is_between n min_max_window_samples limits.max_max_window_samples ≡ true =
        ground arith in
      let ratio : ltb n (emd / 1) ≡ true = ground arith in
      let between : is_between n 1 n ≡ true = ground arith in
      let fits : leb n n ≡ true = ground arith in
      let some_size : (n == 0) ≡ false = ground arith in
      rw decay (rw size (rw ratio (rw between (rw fits (rw some_size (rw start refl))))))

  module _ (next_average : (window_samples : ℕ) → (average input history : S) → S) where
    -- After an input both places are one past the last element.
    add_input-first :
        (content zero_value a : S) (n : ℕ)
        → 1 ≤ n
        → add_input next_average a (made content zero_value n)
          ≡ returns (record {
            history = record {
              history_samples = n;
              samples = set (replicate n content) 0 a;
              optimized = n;
              write_ptr = n;
            };
            window = record {
              window_samples = n;
              read_ptr = n;
              average = next_average n zero_value a content;
            };
          })
    unfolding add_input add_to_window get_history_value write set_next_ptr
    add_input-first content zero_value a n h =
        let size = length-replicate n content in
        let read =
          read_at-some (replicate n content) 0 content
            (get_elem?-replicate n 0 content (omega arith)) in
        let written = write_at-eq (replicate n content) 0 a (omega arith) in
        rw read (rw written refl)

    add_input-past :
        (b : S) (m : MovingAverage S)
        → length m.history.samples ≤ m.window.read_ptr
        → add_input next_average b m ≡ undefined
    unfolding add_input add_to_window get_history_value
    add_input-past b m h =
        rw
          (read_at-none m.history.samples m.window.read_ptr
            (get_elem?-past m.history.samples m.window.read_ptr h))
          refl

    -- An average of any size that the constructor accepts reads behind the end of its history at its second
    -- input.
    pub add_input-overruns :
        (limits : SizeLimits) (content zero_value a b : S) (n emd : ℕ)
        → IsAccepted limits n emd
        → (make_average limits content zero_value n emd >>= λ m.
            add_input next_average a m >>= add_input next_average b)
          ≡ undefined
    add_input-overruns limits content zero_value a b n emd accepted =
        let (some_size, _, _, _, _) = accepted in
        let size = length-set (replicate n content) 0 a in
        let size0 = length-replicate n content in
        rw (make_average-eq limits content zero_value n emd accepted) (
          rw (add_input-first content zero_value a n (omega arith))
            (add_input-past b _ (omega arith)))

  -- A window that was set to a smaller size, of at least four samples, cannot be made larger again, not even to
  -- a size that the history has room for: the ring that is used keeps the smaller size.
  pub set_window_size-larger :
      (m : MovingAverage S) (smaller larger : ℕ)
      → 4 ≤ smaller
      → smaller < larger
      → larger ≤ m.history.history_samples
      → smaller ≤ m.history.optimized
      → (set_window_size smaller m >>= set_window_size larger) ≡ throws
  unfolding set_window_size set_window_samples optimise optimise_for_maximum set_read_ptr
      get_relative force_between
  set_window_size-larger m smaller larger some_size less fits used = ground arith
