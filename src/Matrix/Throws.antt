-- ===== src/Matrix/Throws.antt =====
-- When `replaceWithDefaultsIfUnset` of src/MatrixConfig.cc throws.
use native.Mathlib.Decide.{dec_lt}
use speakerman.Prelude.{
  ℕ, zero, suc, ◌+◌, ◌*◌, ◌≤◌, ◌<◌, ◌≡◌, refl, min, length, set, arith, ◌∙◌, Option, none, some,
}
use speakerman.Matrix.Weights.{defaulted, default_cell-eq}
use speakerman.Matrix.Loops.{at, loop-cons}
use speakerman.Matrix.{
  MatrixConfig, method, weights_for, weight, loop, default_cell, replace_with_defaults_if_unset,
}

loop-none :
    (left i : ℕ) (body : ℕ → MatrixConfig → Option MatrixConfig) (w : MatrixConfig)
    → body i w ≡ none
    → loop (suc left) i body w ≡ none
unfolding loop
loop-none left i body w e = rw (e, loop) refl

row-throws :
    (left i : ℕ) (cell : ℕ → MatrixConfig → Option MatrixConfig) (w : MatrixConfig)
    → i ≤ 8
    → 8 < i + left
    → ((k : ℕ) → k < 8 → (u : MatrixConfig) → (u' : MatrixConfig) × (cell k u ≡ some u'))
    → ((u : MatrixConfig) → cell 8 u ≡ none)
    → loop left i cell w ≡ none
unfolding loop
row-throws zero i cell w h k each last = absurd (omega arith)
row-throws (suc left) i cell w h k each last = elim (dec_lt i 8) [
  | yes below ↦
      let (u, made) = each i below w in
      loop-cons left i cell w u made
      ∙ row-throws left (i + 1) cell u (omega arith) (omega arith) each last
  | no over ↦ let e : i ≡ 8 = omega arith in rw e (loop-none left 8 cell w (last w))
]

default_cell_out : (mn pc : ℕ) (u : MatrixConfig) → default_cell mn pc 8 u ≡ none
unfolding default_cell weight weights_for method
default_cell_out mn pc u = ground arith

-- With a processing channel, and more than eight logical channels, it throws.
pub replace_with_defaults_throws :
    (P L : ℕ) (w : MatrixConfig)
    → 0 < P
    → 8 < L
    → length w ≡ 64
    → replace_with_defaults_if_unset P L w ≡ none
unfolding replace_with_defaults_if_unset
replace_with_defaults_throws zero L w h k e = absurd (omega arith)
replace_with_defaults_throws (suc P) L w h k e =
    let thrown =
      row-throws L 0 (default_cell (min (suc P) L) 0) w (omega arith) (omega arith)
        (λ lc below u. (
          set u (8 * 0 + lc) (defaulted (suc P) L 0 lc (at u 0 lc)),
          default_cell-eq (min (suc P) L) 0 lc u (omega arith) below,
        ))
        (λ u. default_cell_out (min (suc P) L) 0 u) in
    loop-none P 0 (λ pc. loop L 0 (default_cell (min (suc P) L) pc)) w thrown
