-- ===== src/Unset/Examples.antt =====
-- The theorems on src/include/speakerman/UnsetValue.h at concrete values.
use speakerman.Prelude.{◌≡◌, refl, ℕ, true, false, ltb, arith}
use speakerman.Unset.{size_unset, unset_size, set_default_or_boxed_from_source_if_unset}

ltb_irrefl : (a : ℕ) → ltb a a ≡ false
ltb_irrefl a = ground arith

source_is_boxed :
    set_default_or_boxed_from_source_if_unset size_unset unset_size 3 20 1 10 ≡ (10, true)
unfolding set_default_or_boxed_from_source_if_unset
source_is_boxed = refl
