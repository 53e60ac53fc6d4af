-- ===== src/Count.antt =====
-- Numbers of elements that fit in memory: `CountOfSize` of src/include/tdap/Count.hpp, for elements of
-- `size` bytes. A `size_t` has 64 bits, and its arithmetic wraps.
pub mod Bounds
mod Examples
use speakerman.Prelude.{
  ℕ, ◌+◌, ◌-◌, ◌*◌, ◌/◌, ◌%◌, ◌^◌, Bool, not, ◌&&◌, ◌==◌, ltb, leb, if◌then◌else◌,
}

abbrev pub max_size_t : ℕ
max_size_t = 2 ^ 64 - 1

-- `+` and `*` of `size_t`
abbrev pub add_size : ℕ → ℕ → ℕ
add_size a b = (a + b) % 2 ^ 64

abbrev pub mul_size : ℕ → ℕ → ℕ
mul_size a b = a * b % 2 ^ 64

module _ (size : ℕ) where
  -- `max()`
  abbrev pub max_count : ℕ
  max_count = max_size_t / size

  unfoldable pub valid : ℕ → Bool
  valid cnt = leb cnt max_count

  unfoldable pub valid_positive : ℕ → Bool
  unfolding valid
  valid_positive cnt = ltb 0 cnt && valid cnt

  unfoldable pub product : ℕ → ℕ → ℕ
  product cnt1 cnt2 =
      if ltb 0 (mul_size cnt1 cnt1) && leb cnt2 (max_count / cnt1) then mul_size cnt1 cnt2 else 0

  unfoldable pub product3 : ℕ → ℕ → ℕ → ℕ
  product3 cnt1 cnt2 cnt3 = product cnt1 (product cnt2 cnt3)

  unfoldable pub product4 : ℕ → ℕ → ℕ → ℕ → ℕ
  product4 cnt1 cnt2 cnt3 cnt4 = product cnt1 (product3 cnt2 cnt3 cnt4)

  unfoldable pub sum : ℕ → ℕ → ℕ
  sum cnt1 cnt2 =
      if leb cnt1 max_count && leb cnt2 max_count && leb cnt2 (max_count - cnt1)
      then add_size cnt1 cnt2
      else 0

  unfoldable pub sum3 : ℕ → ℕ → ℕ → ℕ
  sum3 cnt1 cnt2 cnt3 = sum cnt1 (sum cnt2 cnt3)

  unfoldable pub sum4 : ℕ → ℕ → ℕ → ℕ → ℕ
  sum4 cnt1 cnt2 cnt3 cnt4 = sum cnt1 (sum3 cnt2 cnt3 cnt4)

  unfoldable pub is_valid_sum : ℕ → ℕ → Bool
  is_valid_sum cnt1 cnt2 =
      leb cnt1 max_count && leb cnt2 max_count && leb (add_size cnt1 cnt2) max_count

  unfoldable pub is_valid_sum3 : ℕ → ℕ → ℕ → Bool
  is_valid_sum3 cnt1 cnt2 cnt3 = is_valid_sum cnt1 cnt2 && is_valid_sum (add_size cnt1 cnt2) cnt3

  unfoldable pub is_valid_sum4 : ℕ → ℕ → ℕ → ℕ → Bool
  is_valid_sum4 cnt1 cnt2 cnt3 cnt4 =
      is_valid_sum cnt1 cnt2
      && is_valid_sum cnt3 cnt4
      && is_valid_sum (add_size cnt1 cnt2) (add_size cnt3 cnt4)

-- `value + alignment - (value % alignment)`, with each operation on `size_t`.
unfoldable pub aligned_with : ℕ → ℕ → ℕ
aligned_with value alignment =
    if not (alignment == 0)
    then if not (value % alignment == 0)
      then (add_size value alignment + 2 ^ 64 - value % alignment) % 2 ^ 64
      else value
    else 0
