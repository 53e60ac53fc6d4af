-- ===== src/Peak/Setup.antt =====
-- `setSamples` and `resetState` of `PeakMemory` of src/include/tdap/PeakDetection.hpp.
use speakerman.Prelude.{
  ℕ, zero, suc, ◌+◌, ◌-◌, ◌*◌, ◌/◌, ◌%◌, ◌≤◌, ◌<◌, ◌≡◌, refl, sym, ap, ◌∙◌, Bool, false, List, none,
  some, ltb, ◌==◌, arith, length, length-set, set, get_elem?, get_elem?-set_self, get_elem?-set_ne,
}
use native.Mathlib.Nat.{mul-le-mul_right}
use native.Mathlib.Decide.{dec_lt}
use speakerman.Prelude.Effects.{returns, undefined}
use speakerman.Peak.{
  Window, Data, write_at, window_count_for, zero_samples, init_windows, set_samples,
}
use speakerman.Peak.Turns.{turn-lt}
use speakerman.Peak.Arrays.{Returns, write_at-eq, IsValid}

-- The first windows lie one behind the other, and are at their first sample.
abbrev AreSet : {S : Type 0} → (k size : ℕ) → List (Window S) → Type 0
AreSet {S = S} k size ws =
    (i : ℕ) (w : Window S)
    → i < k
    → get_elem? ws i ≡ some w
    → (w.offset ≡ i * size) × (w.start_at ≡ 0)

module _ {S : Type 0} (nothing : S) (lt : S → S → Bool) where
  pub zero_samples-Returns :
      (left i : ℕ) (samples : List S)
      → i + left ≤ length samples
      → Returns (λ s. length s ≡ length samples) (zero_samples nothing lt left i samples)
  unfolding zero_samples
  zero_samples-Returns zero i samples h = (samples, refl, refl)
  zero_samples-Returns (suc left) i samples h =
      let same = length-set samples i nothing in
      let (s, made, size) =
        zero_samples-Returns left (i + 1) (set samples i nothing) (omega arith) in
      (s, rw (write_at-eq samples i nothing (omega arith)) made, size ∙ same)

  zero_samples-undefined :
      (left i : ℕ) (samples : List S)
      → i ≤ length samples
      → length samples < i + left
      → zero_samples nothing lt left i samples ≡ undefined
  unfolding zero_samples write_at
  zero_samples-undefined zero i samples h k = absurd (omega arith)
  zero_samples-undefined (suc left) i samples h k = elim (dec_lt i (length samples)) [
    | yes inside ↦
        let same = length-set samples i nothing in
        rw (write_at-eq samples i nothing inside)
          (zero_samples-undefined left (i + 1) (set samples i nothing) (omega arith) (omega arith))
    | no outside ↦ let e : ltb i (length samples) ≡ false = ground arith in rw e refl
  ]

  init_windows-Returns :
      (left window offs size : ℕ) (ws : List (Window S))
      → window + left ≤ length ws
      → offs ≡ window * size
      → AreSet window size ws
      → Returns
          (λ ws'. (length ws' ≡ length ws) × AreSet (window + left) size ws')
          (init_windows nothing lt left window offs size ws)
  unfolding init_windows
  init_windows-Returns zero window offs size ws h o a =
      (ws, refl, (refl, λ i w k e. a i w (omega arith) e))
  init_windows-Returns (suc left) window offs size ws h o a =
      let v : Window S = record { maximum = nothing; start_at = 0; offset = offs } in
      let same = length-set ws window v in
      let placed : (i : ℕ) (w : Window S)
          → i ≡ window
          → get_elem? (set ws window v) i ≡ some w
          → (w.offset ≡ i * size) × (w.start_at ≡ 0) =
        λ i w q e.
          let at : some v ≡ some w =
            sym (get_elem?-set_self ws window v (omega arith))
            ∙ ap (get_elem? (set ws window v)) (sym q)
            ∙ e in
          let same_window : v ≡ w =
            ap (λ x. elim x as (λ _. Window S) [ none ↦ v | some y ↦ y ]) at in
          (
            sym (ap (λ y. y.offset) same_window) ∙ o ∙ ap (λ j. j * size) (sym q),
            sym (ap (λ y. y.start_at) same_window),
          ) in
      let more : AreSet (window + 1) size (set ws window v) = λ i w k e. elim (dec_lt i window) [
        | yes before ↦ a i w before (sym (get_elem?-set_ne ws v (λ q. absurd (omega arith))) ∙ e)
        | no last ↦ placed i w (omega arith) e
      ] in
      let (ws', made, (size', set')) =
        init_windows-Returns left (window + 1) (offs + size) size (set ws window v) (omega arith)
          (omega arith) more in
      (
        ws',
        rw (write_at-eq ws window v (omega arith)) made,
        (size' ∙ same, λ i w k e. set' i w (omega arith) e),
      )

  -- `setSamples` returns if the arrays have room for the windows that it makes, and there are samples
  -- in a window: the data are valid then, and remember one window less than there are.
  pub set_samples-IsValid :
      (size_for : ℕ → ℕ) (sample_count : ℕ) (d : Data S)
      → 1 ≤ sample_count
      → sample_count ≤ d.max_samples
      → 1 ≤ size_for sample_count
      → size_for sample_count * (1 + window_count_for (size_for sample_count) sample_count)
        ≤ length d.samples
      → 1 + window_count_for (size_for sample_count) sample_count ≤ length d.windows
      → (d' : Data S) × (set_samples nothing lt size_for sample_count d ≡ returns d')
        × IsValid d'
        × (d'.sample_count + d'.window_size ≡ d'.window_size * d'.window_count)
  unfolding set_samples window_count_for
  set_samples-IsValid size_for c d some_samples few some_size room places =
      let size = size_for c in
      let n = 1 + (1 + (c - 1) / size) in
      let not_over : ltb d.max_samples c ≡ false = ground arith in
      let not_zero : (size == 0) ≡ false = ground arith in
      let (samples', made, same) = zero_samples-Returns (size * n) 0 d.samples (omega arith) in
      let (ws, made1, (same1, laid)) =
        init_windows-Returns n 0 0 size d.windows (omega arith) (omega arith)
          (λ i w k e. absurd (omega arith)) in
      let second = turn-lt n 0 (omega arith) in
      (
        record {
          max_samples = d.max_samples;
          samples = samples';
          windows = ws;
          sample_count = size * n - size;
          window_count = n;
          window_size = size;
          recent_window = 0;
          oldest_window = 1 % n;
          between_window_maximum = nothing;
          in_window = 0;
        },
        rw not_over (rw not_zero (rw made (rw made1 refl))),
        record {
          ready = record {
            two_windows = omega arith;
            some_size = some_size;
            samples_fit = omega arith;
            windows_fit = omega arith;
            laid = λ i w k e. (laid i w (omega arith) e).0;
            recent_fits = omega arith;
            oldest_next = refl;
          };
          in_window_fits = omega arith;
          recent_at = λ w e. (laid 0 w (omega arith) e).1;
          oldest_at = λ w e. (laid (1 % n) w (omega arith) e).1;
        },
        let one : 1 * size ≤ n * size = mul-le-mul_right size (omega arith) in omega arith,
      )

  -- If the windows need more samples than the array has, `setSamples` writes over its end.
  pub set_samples-undefined :
      (size_for : ℕ → ℕ) (sample_count : ℕ) (d : Data S)
      → 1 ≤ sample_count
      → sample_count ≤ d.max_samples
      → length d.samples
        < size_for sample_count * (1 + window_count_for (size_for sample_count) sample_count)
      → set_samples nothing lt size_for sample_count d ≡ undefined
  unfolding set_samples window_count_for
  set_samples-undefined size_for c d some_samples few over =
      let size = size_for c in
      let n = 1 + (1 + (c - 1) / size) in
      let not_over : ltb d.max_samples c ≡ false = ground arith in
      let some_size : 1 ≤ size = elim (dec_lt 0 size) [
        | yes h ↦ h
        | no h ↦
            let none : size ≡ 0 = omega arith in
            let all : size * n ≡ 0 * n = ap (λ k. k * n) none in absurd (omega arith)
      ] in
      let not_zero : (size == 0) ≡ false = ground arith in
      rw not_over (
        rw not_zero
          (rw (zero_samples-undefined (size * n) 0 d.samples (omega arith) (omega arith)) refl))
