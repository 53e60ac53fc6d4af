-- ===== src/Peak/Ranges.antt =====
-- `PeakMemory` of src/include/tdap/PeakDetection.hpp stays within its arrays.
use native.Mathlib.Nat.{mul-le-mul_right}
use speakerman.Prelude.{
  ℕ, ◌+◌, ◌-◌, ◌*◌, ◌≤◌, ◌<◌, ◌≡◌, refl, sym, ap, ◌∙◌, subst, Bool, true, false, List, none, some,
  ◌==◌, arith, length, length-set, set, get_elem?, get_elem?-set_self, get_elem?-set_ne, Bool-cases,
  inl, inr,
}
use speakerman.Prelude.Effects.{Effect, returns, ◌>>=◌}
use speakerman.Peak.{
  Window, Data, maximum_of, add_to_most_recent, remove_from_oldest, next, add_sample_get_peak,
}
use speakerman.Peak.Turns.{turn-lt, turn_other}
use speakerman.Peak.Arrays.{
  read_at-Returns, write_at-eq, StartsAt, set-IsLaid, set-StartsAt, IsReady, IsValid,
}
use speakerman.Peak.Loops.{maximum_from-Returns, next-IsValid}

module _ {S : Type 0} (nothing : S) (lt : S → S → Bool) where
  -- The sample at a place of a window is one of the samples.
  in_samples :
      (count size i offset start len : ℕ)
      → i < count
      → offset ≡ i * size
      → start ≤ size
      → count * size ≤ len
      → offset + size ≤ len
  in_samples count size i offset start len h o s fit =
      let rows : (i + 1) * size ≤ count * size = mul-le-mul_right size (omega arith) in
      let row : (i + 1) * size ≡ i * size + size = omega arith in omega arith

  self-StartsAt :
      (ws : List (Window S)) (i start : ℕ) (v : Window S)
      → i < length ws
      → v.start_at ≡ start
      → StartsAt (set ws i v) i start
  self-StartsAt ws i start v h same u e =
      let found_self : some v ≡ some u = sym (get_elem?-set_self ws i v h) ∙ e in
      sym (ap (λ o. elim o as (λ _. ℕ) [ none ↦ start | some x ↦ x.start_at ]) found_self) ∙ same

  -- The end of `addSampleGetPeak`.
  finish_step :
      (d : Data S) (peak : S)
      → IsReady d
      → d.in_window ≤ d.window_size
      → StartsAt d.windows d.recent_window d.in_window
      → StartsAt d.windows d.oldest_window d.in_window
      → (p : S) × (d' : Data S) × ((elim (d.in_window == d.window_size)
            as (λ _. Effect (S × Data S)) [
              | true ↦ next nothing lt d >>= λ d3. returns (peak, d3)
              | false ↦ returns (peak, d)
            ])
          ≡ returns (p, d'))
        × IsValid d'
  finish_step d peak r h recent oldest = elim (Bool-cases (d.in_window == d.window_size)) [
    | inl full ↦
        let (d', made, valid) = next-IsValid nothing lt d r in
        (peak, d', rw full (rw made refl), valid)
    | inr room ↦ (
      peak,
      d,
      rw room refl,
      record { ready = r; in_window_fits = ground arith; recent_at = recent; oldest_at = oldest },
    )
  ]

  -- On valid data `addSampleGetPeak` returns, its loops ended and every access within the arrays, and the
  -- data are valid again.
  pub add_sample_get_peak-IsValid :
      (sample : S) (d : Data S)
      → IsValid d
      → (peak : S) × (d' : Data S) × (add_sample_get_peak nothing lt sample d ≡ returns (peak, d'))
        × IsValid d'
  unfolding add_sample_get_peak add_to_most_recent remove_from_oldest
  add_sample_get_peak-IsValid sample d v =
      let r = v.ready in
      let n = d.window_count in
      let size = d.window_size in
      let fit = r.windows_fit in
      let place = v.in_window_fits in
      let recent = r.recent_fits in
      let oldest : d.oldest_window < n =
        subst (λ o. o < n) (sym r.oldest_next) (turn-lt n d.recent_window recent) in
      let (w, made, at) = read_at-Returns d.windows d.recent_window (omega arith) in
      let start = v.recent_at w at in
      let inside =
        in_samples n size d.recent_window w.offset d.in_window (length d.samples) recent
          (r.laid d.recent_window w recent at) (omega arith) r.samples_fit in
      let written = write_at-eq d.samples (w.offset + w.start_at) sample (omega arith) in
      let samples' = set d.samples (w.offset + w.start_at) sample in
      let same_size = length-set d.samples (w.offset + w.start_at) sample in
      let w' = record w {
        start_at = w.start_at + 1;
        maximum = maximum_of nothing lt w.maximum sample;
      } in
      let windows1 = set d.windows d.recent_window w' in
      let other_size = length-set d.windows d.recent_window w' in
      let (o, made1, at1) = read_at-Returns windows1 d.oldest_window (omega arith) in
      let apart = turn_other n d.recent_window r.two_windows recent in
      let at0 : get_elem? d.windows d.oldest_window ≡ some o =
        sym (get_elem?-set_ne d.windows w' (λ e. apart (sym r.oldest_next ∙ sym e))) ∙ at1 in
      let start1 = v.oldest_at o at0 in
      let inside1 =
        in_samples n size d.oldest_window o.offset d.in_window (length d.samples) oldest
          (r.laid d.oldest_window o oldest at0) (omega arith) r.samples_fit in
      let (mx, made2, _) =
        maximum_from-Returns nothing lt (size - o.start_at) (o.offset + o.start_at) samples' nothing
          (omega arith) in
      let o' = record o { start_at = o.start_at + 1; maximum = mx } in
      let d2 = record d {
        samples = samples';
        windows = set windows1 d.oldest_window o';
        in_window = d.in_window + 1;
      } in
      let ready2 : IsReady d2 = record {
        two_windows = r.two_windows;
        some_size = r.some_size;
        samples_fit = let all = r.samples_fit in omega arith;
        windows_fit = omega (arith, length-set windows1 d.oldest_window o');
        laid =
            set-IsLaid n size d.oldest_window windows1 o o' at1 refl
              (set-IsLaid n size d.recent_window d.windows w w' at refl r.laid);
        recent_fits = recent;
        oldest_next = r.oldest_next;
      } in
      let peak =
        maximum_of nothing lt (maximum_of nothing lt w'.maximum mx) d.between_window_maximum in
      let (p, d', step, valid) =
        finish_step d2 peak ready2 (omega arith)
          (set-StartsAt windows1 d.oldest_window d.recent_window (d.in_window + 1) o' (omega arith)
            (self-StartsAt d.windows d.recent_window (d.in_window + 1) w' (omega arith)
              (omega arith)))
          (self-StartsAt windows1 d.oldest_window (d.in_window + 1) o' (omega arith)
            (omega arith)) in
      (p, d', rw made (rw written (rw made1 (rw made2 step))), valid)
