-- ===== src/Matrix/Weights.antt =====
-- Which weights the functions of src/MatrixConfig.cc leave.
use speakerman.Prelude.{
  ℕ, ◌+◌, ◌-◌, ◌*◌, ◌≤◌, ◌<◌, ◌≡◌, refl, Bool, ◌&&◌, ◌==◌, ltb, leb, if◌then◌else◌, min, length,
  set, arith, Option, none, some,
}
use speakerman.Double.{Double, quiet_nan}
use speakerman.Unset.{
  double_unset, set_config_value_if_unset, set_default_or_boxed_from_source_if_unset,
}
use speakerman.Matrix.Loops.{at, Gives, set-Gives, Gives-of, compose-Gives, same-Gives, loop-Gives}
use speakerman.Matrix.{
  MatrixConfig, min_weight, max_weight, method, weights_for, weight, loop, default_weight,
  default_cell, replace_with_defaults_if_unset, runtime_cell, unset_cell, runtime_row, unset_row,
  change_runtime_values,
}

weights_for-eq : (pc : ℕ) → pc < 8 → weights_for pc ≡ some (8 * pc)
unfolding weights_for method
weights_for-eq pc h = ground arith

weight-eq : (pc lc : ℕ) → pc < 8 → lc < 8 → weight pc lc ≡ some (8 * pc + lc)
unfolding weight weights_for method
weight-eq pc lc h k = ground arith

-- The cells of a row from `i` on, and the rows from `i` on.
abbrev in_row : ℕ → ℕ → ℕ → ℕ → ℕ → Bool
in_row pc m i p l = p == pc && (leb i l && ltb l (i + m))

abbrev in_rows : ℕ → ℕ → ℕ → ℕ → ℕ → Bool
in_rows columns m i p l = ltb l columns && (leb i p && ltb p (i + m))

row-Gives :
    (pc left i : ℕ) (cell : ℕ → MatrixConfig → Option MatrixConfig) (w : MatrixConfig)
    (f : ℕ → ℕ → Double → Double)
    → length w ≡ 64
    → pc < 8
    → i + left ≤ 8
    → ((lc : ℕ)
        → lc < 8
        → (u : MatrixConfig) → cell lc u ≡ some (set u (8 * pc + lc) (f pc lc (at u pc lc))))
    → Gives (loop left i cell w) w (λ p l v. if in_row pc left i p l then f p l v else v)
row-Gives pc left i cell w f e hp fit each =
    loop-Gives left i cell w (λ lc p l. p == pc && l == lc) f e
      (λ k h h' u size.
        Gives-of (cell k u) (some (set u (8 * pc + k) (f pc k (at u pc k)))) u
          (λ p l v. if p == pc && l == k then f p l v else v) (each k (omega arith) u)
          (set-Gives u pc k f size hp (omega arith)))
      (in_row pc) (λ m j p l. ground arith) (λ m j p l. ground arith)

pub default_cell-eq :
    (mn pc lc : ℕ) (u : MatrixConfig)
    → pc < 8
    → lc < 8
    → default_cell mn pc lc u
      ≡ some (
          set u
            (8 * pc + lc)
            (set_config_value_if_unset double_unset (at u pc lc) (default_weight mn pc lc)).0)
unfolding default_cell
default_cell-eq mn pc lc u h k = rw (weight-eq pc lc h k, default_cell) refl

-- What `replaceWithDefaultsIfUnset` makes of a weight.
abbrev pub defaulted : (P L p l : ℕ) → Double → Double
defaulted P L p l v = (set_config_value_if_unset double_unset v (default_weight (min P L) p l)).0

-- With at most eight channels of both kinds, `replaceWithDefaultsIfUnset` does not throw, sets the
-- weights of these channels that were unset to one or zero by their places, and changes no other
-- weight.
pub replace_with_defaults_lem :
    (P L : ℕ) (w : MatrixConfig)
    → P ≤ 8
    → L ≤ 8
    → length w ≡ 64
    → Gives
        (replace_with_defaults_if_unset P L w)
        w
        (λ p l v. if ltb p P && ltb l L then defaulted P L p l v else v)
unfolding replace_with_defaults_if_unset
replace_with_defaults_lem P L w hp hl e =
    same-Gives (replace_with_defaults_if_unset P L w) w
      (λ p l v. if in_rows L P 0 p l then defaulted P L p l v else v)
      (λ p l v. if ltb p P && ltb l L then defaulted P L p l v else v)
      (loop-Gives P 0 (λ pc. loop L 0 (default_cell (min P L) pc)) w (λ pc p l. in_row pc L 0 p l)
        (defaulted P L) e
        (λ pc h h' u size.
          row-Gives pc L 0 (default_cell (min P L) pc) u (defaulted P L) size (omega arith)
            (omega arith) (λ lc k v. default_cell-eq (min P L) pc lc v (omega arith) k))
        (in_rows L) (λ m j p l. ground arith) (λ m j p l. ground arith))
      (λ p l kp kl v. ground arith)

abbrev unset_value : ℕ → ℕ → Double → Double
unset_value p l v = quiet_nan

unset_cell-eq :
    (pc lc : ℕ) (u : MatrixConfig) → unset_cell (8 * pc) lc u ≡ some (set u (8 * pc + lc) quiet_nan)
unfolding unset_cell
unset_cell-eq pc lc u = refl

unset_row-Gives :
    (pc : ℕ) (w : MatrixConfig)
    → pc < 8
    → length w ≡ 64
    → Gives (unset_row pc w) w (λ p l v. if p == pc then quiet_nan else v)
unfolding unset_row
unset_row-Gives pc w h e =
    Gives-of (unset_row pc w) (loop 8 0 (unset_cell (8 * pc)) w) w
      (λ p l v. if p == pc then quiet_nan else v) (rw (weights_for-eq pc h, unset_row) refl)
      (same-Gives (loop 8 0 (unset_cell (8 * pc)) w) w
        (λ p l v. if in_row pc 8 0 p l then quiet_nan else v)
        (λ p l v. if p == pc then quiet_nan else v)
        (row-Gives pc 8 0 (unset_cell (8 * pc)) w unset_value e h (omega arith)
          (λ lc k u. unset_cell-eq pc lc u))
        (λ p l kp kl v. ground arith))

module _ (new : MatrixConfig) where
  -- What `changeRuntimeValues` makes of a weight.
  abbrev pub at_runtime : (P L p l : ℕ) → Double → Double
  at_runtime P L p l v =
      (set_default_or_boxed_from_source_if_unset double_unset v (default_weight (min P L) p l)
        (at new p l) min_weight max_weight).0

  runtime_cell-eq :
      (P L pc lc : ℕ) (u : MatrixConfig)
      → pc < 8
      → lc < 8
      → runtime_cell new (min P L) pc (8 * pc) lc u
        ≡ some (set u (8 * pc + lc) (at_runtime P L pc lc (at u pc lc)))
  unfolding runtime_cell
  runtime_cell-eq P L pc lc u h k = rw (weight-eq pc lc h k, runtime_cell) refl

  runtime_row-Gives :
      (P L pc : ℕ) (w : MatrixConfig)
      → pc < 8
      → L ≤ 8
      → length w ≡ 64
      → Gives
          (runtime_row new (min P L) L pc w)
          w
          (λ p l v. if p == pc then if ltb l L then at_runtime P L p l v else quiet_nan else v)
  unfolding runtime_row
  runtime_row-Gives P L pc w h hl e =
      let set_cells = loop L 0 (runtime_cell new (min P L) pc (8 * pc)) w in
      let clear = λ (u : MatrixConfig). loop (8 - L) L (unset_cell (8 * pc)) u in
      let both = elim set_cells as (λ _. Option MatrixConfig) [ none ↦ none | some u ↦ clear u ] in
      let target = λ (p l : ℕ) (v : Double).
        if p == pc then if ltb l L then at_runtime P L p l v else quiet_nan else v in
      let made : runtime_row new (min P L) L pc w ≡ both =
        rw (weights_for-eq pc h, runtime_row) refl in
      Gives-of (runtime_row new (min P L) L pc w) both w target made (
        same-Gives both w
          (λ p l v.
            if in_row pc (8 - L) L p l
            then quiet_nan
            else if in_row pc L 0 p l
            then at_runtime P L p l v
            else v)
          target
          (compose-Gives set_cells clear w
            (λ p l v. if in_row pc L 0 p l then at_runtime P L p l v else v)
            (λ p l v. if in_row pc (8 - L) L p l then quiet_nan else v)
            (row-Gives pc L 0 (runtime_cell new (min P L) pc (8 * pc)) w (at_runtime P L) e h
              (omega arith) (λ lc k u. runtime_cell-eq P L pc lc u h k))
            (λ u size.
              row-Gives pc (8 - L) L (unset_cell (8 * pc)) u unset_value size h (omega arith)
                (λ lc k x. unset_cell-eq pc lc x)))
          (λ p l kp kl v. ground arith))

  -- The rows from `i` on.
  abbrev from_row : ℕ → ℕ → ℕ → ℕ → Bool
  from_row m i p l = leb i p && ltb p (i + m)

  -- With at most eight channels of both kinds, `changeRuntimeValues` does not throw. A weight of these
  -- channels that is set stays as it is, or is boxed into its range if it was not in it, whatever the
  -- new configuration says; one that is unset becomes the new one in the range, or the default. All
  -- other weights are unset.
  pub change_runtime_values_lem :
      (P L : ℕ) (w : MatrixConfig)
      → P ≤ 8
      → L ≤ 8
      → length w ≡ 64
      → Gives
          (change_runtime_values new P L w)
          w
          (λ p l v. if ltb p P && ltb l L then at_runtime P L p l v else quiet_nan)
  unfolding change_runtime_values
  change_runtime_values_lem P L w hp hl e =
      let changed = loop P 0 (runtime_row new (min P L) L) w in
      let clear = λ (u : MatrixConfig). loop (8 - P) P unset_row u in
      let row = λ (p l : ℕ) (v : Double). if ltb l L then at_runtime P L p l v else quiet_nan in
      same-Gives (change_runtime_values new P L w) w
        (λ p l v.
          if from_row (8 - P) P p l then quiet_nan else if from_row P 0 p l then row p l v else v)
        (λ p l v. if ltb p P && ltb l L then at_runtime P L p l v else quiet_nan)
        (compose-Gives changed clear w (λ p l v. if from_row P 0 p l then row p l v else v)
          (λ p l v. if from_row (8 - P) P p l then quiet_nan else v)
          (loop-Gives P 0 (runtime_row new (min P L) L) w (λ pc p l. p == pc) row e
            (λ k h h' u size. runtime_row-Gives P L k u (omega arith) hl size) from_row
            (λ m j p l. ground arith) (λ m j p l. ground arith))
          (λ u size.
            loop-Gives (8 - P) P unset_row u (λ pc p l. p == pc) unset_value size
              (λ k h h' x len. unset_row-Gives k x (omega arith) len) from_row
              (λ m j p l. ground arith) (λ m j p l. ground arith)))
        (λ p l kp kl v. ground arith)
