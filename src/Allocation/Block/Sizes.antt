-- ===== src/Allocation/Block/Sizes.antt =====
-- The sizes that `roundup` of src/Allocation.cpp gives.
use speakerman.Prelude.{ℕ, ◌+◌, ◌*◌, ◌/◌, ◌^◌, ◌≤◌, ◌<◌, ◌≡◌, arith}
use speakerman.Allocation.{alignment, roundup}

-- The least number of whole units that hold a size.
abbrev pub padded : ℕ → ℕ
padded size = 32 * ((size + 31) / 32)

pub roundup-eq : (size : ℕ) → 1 ≤ size → size < 2 ^ 63 → roundup size alignment ≡ padded size
unfolding roundup
roundup-eq size some_size small = omega arith
