-- ===== src/Count/Examples.antt =====
-- The theorems on src/include/tdap/Count.hpp at concrete counts.
use speakerman.Prelude.{◌≤◌, ◌≡◌, refl, arith}
use speakerman.Count.{max_count, product}
use speakerman.Count.Bounds.{product_exact}

six : product 8 2 3 ≡ 6
unfolding product
six = refl

product_exact_example : (product 8 2 3 ≡ 6) × (6 ≤ max_count 8)
product_exact_example = product_exact 8 2 3 (omega (arith, six))
