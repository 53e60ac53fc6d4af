-- ===== src/Count/Bounds.antt =====
-- What the functions of src/include/tdap/Count.hpp promise of sums, products and alignments.
use native.Mathlib.Nat.{mod-lt, mul-le-mul_left, mul-le-mul_right, mul-mod_right}
use speakerman.Prelude.{
  ℕ, ◌+◌, ◌-◌, ◌*◌, ◌/◌, ◌%◌, ◌^◌, ◌≤◌, ◌<◌, ◌≡◌, ◌⊎◌, true, arith, zero, suc, ap, ◌∙◌, leb,
}
use speakerman.Count.{max_size_t, max_count, product, product3, sum, is_valid_sum, aligned_with}

le_of_le_div : (m a b : ℕ) → 0 < a → b ≤ m / a → a * b ≤ m
le_of_le_div m a b h k = omega (arith, mul-le-mul_left a k)

max_count-le : (size : ℕ) → max_count size ≤ max_size_t
max_count-le size = ground arith

max_count_half : (size : ℕ) → 2 ≤ size → 2 * max_count size ≤ max_size_t
max_count_half size h = omega (arith, mul-le-mul_right (max_count size) h)

pos_of_product : (a p : ℕ) → 0 < a * p → 0 < p
pos_of_product a zero h = omega arith
pos_of_product a (suc p) h = omega arith

next_multiple : (v a : ℕ) → 0 < a → (v + a - v % a) % a ≡ 0
next_multiple v a h =
    let e : v + a - v % a ≡ a * (v / a + 1) = omega (arith, mod-lt v h) in
    rw e (mul-mod_right a (v / a + 1))

module _ (size : ℕ) where
  -- A product of two counts that is not zero is the exact product, and at most the maximum.
  pub product_exact :
      (a b : ℕ) → 0 < product size a b → (product size a b ≡ a * b) × (a * b ≤ max_count size)
  unfolding product
  product_exact a b h = ground (arith, le_of_le_div (max_count size) a b, max_count-le size)

  -- So for three.
  pub product3_exact :
      (a b c : ℕ)
      → 0 < product3 size a b c
      → (product3 size a b c ≡ a * (b * c)) × (a * (b * c) ≤ max_count size)
  unfolding product3
  product3_exact a b c h =
      let (outer, fits) = product_exact a (product size b c) h in
      let (inner, _) = product_exact b c (pos_of_product a (product size b c) (rw outer at h)) in
      (outer ∙ ap (λ (p : ℕ). a * p) inner, rw (← inner) fits)

  -- A first count that is a multiple of 2^32 makes every product zero, since its square wraps to
  -- zero; the comment in the source promises the product wherever it is at most the maximum.
  pub product_of_big : (k b : ℕ) → product size (k * 2 ^ 32) b ≡ 0
  unfolding product
  product_of_big k b = ground arith

  -- The sum of two counts is exact if it is at most the maximum, and else zero.
  pub sum_lem :
      (a b : ℕ)
      → ((sum size a b ≡ a + b) × (a + b ≤ max_count size))
        ⊎ ((sum size a b ≡ 0) × (max_count size < a + b))
  unfolding sum
  sum_lem a b = ground arith

-- For elements of two bytes and more, `is_valid_sum` says exactly whether the sum is at most the
-- maximum.
pub is_valid_sum_lem :
    (size a b : ℕ) → 2 ≤ size → is_valid_sum size a b ≡ leb (a + b) (max_count size)
unfolding is_valid_sum
is_valid_sum_lem size a b h = ground (arith, max_count_half size h)

-- For elements of one byte it accepts every pair of `size_t` values.
pub is_valid_sum_bytes : (a b : ℕ) → a < 2 ^ 64 → b < 2 ^ 64 → is_valid_sum 1 a b ≡ true
unfolding is_valid_sum
is_valid_sum_bytes a b h k = ground arith

-- The aligned value is the first multiple of the alignment that is not below the value, if that fits.
pub aligned_with_lem :
    (v a : ℕ)
    → 0 < a
    → v + a < 2 ^ 64
    → (aligned_with v a % a ≡ 0) × (v ≤ aligned_with v a) × (aligned_with v a < v + a)
unfolding aligned_with
aligned_with_lem v a h k = ground (arith, next_multiple v a h, mod-lt v h)
