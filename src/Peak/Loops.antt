-- ===== src/Peak/Loops.antt =====
-- The loops of `PeakMemory` of src/include/tdap/PeakDetection.hpp, and the change to the next window.
use speakerman.Prelude.{
  ℕ, zero, suc, ◌+◌, ◌≤◌, ◌<◌, ◌≡◌, ◌≢◌, refl, sym, ap, ◌∙◌, subst, Bool, List, none, some, ◌==◌,
  arith, length, length-set, set, get_elem?, get_elem?-set_self, Bool-cases, inl, inr,
}
use speakerman.Prelude.Effects.{returns}
use speakerman.Peak.{
  Window, Data, read_at, next_window_ptr, maximum_of, mark, maximum_from, between_maximum,
  update_window, init_new_samples, next,
}
use speakerman.Peak.Turns.{turn, turn-lt, turns, turns-reach}
use speakerman.Peak.Arrays.{
  Returns, Returns-bind, read_at-Returns, StartsAt, set-IsLaid, set-StartsAt, IsReady, IsValid,
}

module _ {S : Type 0} (nothing : S) (lt : S → S → Bool) where
  pub maximum_from-Returns :
      (left i : ℕ) (samples : List S) (mx : S)
      → i + left ≤ length samples
      → Returns (λ _. Unit) (maximum_from nothing lt left i samples mx)
  unfolding maximum_from
  maximum_from-Returns zero i samples mx h = (mx, refl, tt)
  maximum_from-Returns (suc left) i samples mx h =
      Returns-bind (λ s. get_elem? samples i ≡ some s) (λ _. Unit) (read_at samples i)
        (λ s. maximum_from nothing lt left (i + 1) samples (maximum_of nothing lt mx s))
        (read_at-Returns samples i (omega arith))
        (λ s _.
          maximum_from-Returns left (i + 1) samples (maximum_of nothing lt mx s) (omega arith))

  turns-left :
      (n k p r : ℕ) → turns n k p ≡ r → p ≢ r → (m : ℕ) × (k ≡ m + 1) × (turns n m (turn n p) ≡ r)
  turns-left n zero p r t h = absurd (h t)
  turns-left n (suc k) p r t h = (k, omega arith, t)

  -- The loop over the windows between ends at the recent one.
  between_maximum-Returns :
      (fuel k : ℕ) (d : Data S) (ptr : ℕ) (mx : S)
      → d.window_count ≤ length d.windows
      → ptr < d.window_count
      → turns d.window_count k ptr ≡ d.recent_window
      → k < fuel
      → Returns (λ _. Unit) (between_maximum nothing lt fuel d ptr mx)
  unfolding between_maximum next_window_ptr
  between_maximum-Returns zero k d ptr mx w p t f = absurd (omega arith)
  between_maximum-Returns (suc fuel) k d ptr mx w p t f =
      elim (Bool-cases (ptr == d.recent_window)) [
        | inl here ↦ (mx, rw (here, between_maximum) refl, tt)
        | inr away ↦
            let (m, before, same) =
              turns-left d.window_count k ptr d.recent_window t (ground arith) in
            let (mx', made, _) =
              Returns-bind (λ v. get_elem? d.windows ptr ≡ some v) (λ _. Unit)
                (read_at d.windows ptr)
                (λ v.
                  between_maximum nothing lt fuel d (next_window_ptr d ptr)
                    (maximum_of nothing lt mx v.maximum))
                (read_at-Returns d.windows ptr (omega arith))
                (λ v _.
                  between_maximum-Returns fuel m d (turn d.window_count ptr)
                    (maximum_of nothing lt mx v.maximum) w (turn-lt d.window_count ptr p) same
                    (omega arith)) in
            (mx', rw (away, between_maximum) made, tt)
      ]

  -- The data with a window marked.
  with_mark : Data S → ℕ → Window S → Data S
  with_mark d i w = record d { windows = set d.windows i (mark nothing lt w) }

  marked :
      (d : Data S) (i : ℕ)
      → i < length d.windows
      → (w : Window S) × (get_elem? d.windows i ≡ some w)
        × (update_window nothing lt i (mark nothing lt) d ≡ returns (with_mark d i w))
  unfolding update_window with_mark
  marked d i h = let (w, made, at) = read_at-Returns d.windows i h in (w, at, rw made refl)

  mark-IsReady :
      (d : Data S) (i : ℕ) (w : Window S)
      → get_elem? d.windows i ≡ some w
      → IsReady d
      → IsReady (with_mark d i w)
  unfolding mark with_mark
  mark-IsReady d i w at r = record {
    two_windows = r.two_windows;
    some_size = r.some_size;
    samples_fit = r.samples_fit;
    windows_fit =
        let fit = r.windows_fit in omega (arith, length-set d.windows i (mark nothing lt w));
    laid = set-IsLaid d.window_count d.window_size i d.windows w (mark nothing lt w) at refl r.laid;
    recent_fits = r.recent_fits;
    oldest_next = r.oldest_next;
  }

  mark-StartsAt :
      (ws : List (Window S)) (i : ℕ) (w : Window S)
      → i < length ws
      → StartsAt (set ws i (mark nothing lt w)) i 0
  unfolding mark
  mark-StartsAt ws i w h u e =
      let same : some (mark nothing lt w) ≡ some u =
        sym (get_elem?-set_self ws i (mark nothing lt w) h) ∙ e in
      sym (ap (λ o. elim o as (λ _. ℕ) [ none ↦ 0 | some x ↦ x.start_at ]) same)

  -- The loop of `initNewSamples` after the windows were marked.
  between-Returns :
      (d : Data S)
      → IsReady d
      → Returns
          (λ _. Unit)
          (between_maximum nothing lt
            (d.window_count + 1)
            d
            (next_window_ptr d d.oldest_window)
            nothing)
  unfolding next_window_ptr
  between-Returns d r =
      let n = d.window_count in
      let recent = r.recent_fits in
      let next_fits : turn n d.oldest_window < n =
        turn-lt n d.oldest_window
          (subst (λ o. o < n) (sym r.oldest_next) (turn-lt n d.recent_window recent)) in
      let (k, few, reach) =
        turns-reach n (turn n d.oldest_window) d.recent_window next_fits recent in
      between_maximum-Returns (n + 1) k d (turn n d.oldest_window) nothing r.windows_fit next_fits
        reach (omega arith)

  -- `initNewSamples` returns, and its loop ends.
  init_new_samples-IsValid :
      (d : Data S) → IsReady d → d.in_window ≡ 0 → Returns IsValid (init_new_samples nothing lt d)
  unfolding init_new_samples with_mark mark
  init_new_samples-IsValid d r z =
      let n = d.window_count in
      let fit = r.windows_fit in
      let recent = r.recent_fits in
      let oldest : d.oldest_window < n =
        subst (λ o. o < n) (sym r.oldest_next) (turn-lt n d.recent_window recent) in
      let (w, at, made) = marked d d.recent_window (omega arith) in
      let d1 = with_mark d d.recent_window w in
      let r1 = mark-IsReady d d.recent_window w at r in
      let fit1 = r1.windows_fit in
      let (o, at1, made1) = marked d1 d.oldest_window (omega arith) in
      let d2 = with_mark d1 d.oldest_window o in
      let r2 = mark-IsReady d1 d.oldest_window o at1 r1 in
      let (mx, made2, _) = between-Returns d2 r2 in
      (
        record d2 { between_window_maximum = mx },
        rw made (rw made1 (rw made2 refl)),
        record {
          ready = record {
            two_windows = r2.two_windows;
            some_size = r2.some_size;
            samples_fit = r2.samples_fit;
            windows_fit = r2.windows_fit;
            laid = r2.laid;
            recent_fits = r2.recent_fits;
            oldest_next = r2.oldest_next;
          };
          in_window_fits = let size = r.some_size in omega arith;
          recent_at = subst (StartsAt d2.windows d.recent_window) (sym z) (
              set-StartsAt d1.windows d.oldest_window d.recent_window 0 (mark nothing lt o) refl
                (mark-StartsAt d.windows d.recent_window w (omega arith)));
          oldest_at =
              subst (StartsAt d2.windows d.oldest_window) (sym z)
                (mark-StartsAt d1.windows d.oldest_window o (omega arith));
        },
      )

  -- `next` returns.
  pub next-IsValid : (d : Data S) → IsReady d → Returns IsValid (next nothing lt d)
  unfolding next next_window_ptr
  next-IsValid d r =
      let recent = r.recent_fits in
      let turned = record d {
        recent_window = turn d.window_count d.recent_window;
        oldest_window = turn d.window_count d.oldest_window;
        in_window = 0;
      } in
      init_new_samples-IsValid turned
        (record {
          two_windows = r.two_windows;
          some_size = r.some_size;
          samples_fit = r.samples_fit;
          windows_fit = r.windows_fit;
          laid = r.laid;
          recent_fits = turn-lt d.window_count d.recent_window recent;
          oldest_next = ap (turn d.window_count) r.oldest_next;
        })
        refl
