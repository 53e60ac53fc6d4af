-- ===== src/Allocation/Guards.antt =====
-- The class `Disable` of src/include/tdap/Allocation.hpp, which turns consecutive allocation off in a
-- thread while an object of it lives.
use speakerman.Prelude.{
  ℕ, zero, suc, ◌+◌, ◌-◌, ◌%◌, ◌^◌, ◌≤◌, ◌<◌, ◌≡◌, refl, Bool, true, false, Option, if◌then◌else◌,
  ◌==◌, arith,
}
use speakerman.Prelude.Effects.{returns, ◌>>=◌}
use speakerman.Allocation.{int_mod, default_alloc}
use speakerman.Allocation.World.{World, disable, reenable, is_above_zero, allocate_static}

-- The destructor of `Disable`, with the member `execute_` that the constructor set.
unfoldable pub end_disable : (me : ℕ) → (execute : Bool) → World → World
unfolding reenable
end_disable me execute w = if execute then (reenable me w).1 else w

-- So many objects of `Disable`, each within the life of the one before.
unfoldable pub nested_disables : (me depth : ℕ) → World → World
unfolding disable end_disable
nested_disables me zero w = w
nested_disables me (suc depth) w =
    let started = disable me w in end_disable me started.0 (nested_disables me depth started.1)

module _ (me : ℕ) where
  -- A thread where consecutive allocation is off already gets one further off by each object.
  nested_disables-disabled :
      (depth : ℕ) (w : World)
      → 1 ≤ w.disabled me
      → w.disabled me + depth < 2 ^ 31
      → (nested_disables me depth w).disabled me ≡ w.disabled me + depth
  unfolding nested_disables
  nested_disables-disabled zero w off small = omega arith
  nested_disables-disabled (suc depth) w off small =
      let self : (me == me) ≡ true = ground arith in
      let count : (w.disabled me + 1) % int_mod ≡ w.disabled me + 1 = omega arith in
      let many : (w.disabled me + 1 == 1) ≡ false = ground arith in
      let inner = nested_disables-disabled depth (disable me w).1 in ground (arith, inner)

  nested_disables_zero :
      (depth : ℕ) (w : World)
      → 1 ≤ depth
      → depth < 2 ^ 31
      → w.disabled me ≡ 0
      → (nested_disables me depth w).disabled me ≡ depth - 1
  unfolding nested_disables end_disable reenable disable
  nested_disables_zero zero w some_depth small on = absurd (omega arith)
  nested_disables_zero (suc zero) w some_depth small on = ground arith
  nested_disables_zero (suc (suc depth)) w some_depth small on =
      let self : (me == me) ≡ true = ground arith in
      let inner = nested_disables-disabled (suc depth) (disable me w).1 in ground (arith, inner)

  -- Objects of `Disable` one within the other, in a thread where consecutive allocation is on: a single one
  -- leaves it on. With more than one it stays off after their ends: an allocation takes no block then.
  pub nested_disables_lem :
      (depth : ℕ) (w : World)
      → 1 ≤ depth
      → depth < 2 ^ 31
      → w.disabled me ≡ 0
      → ((nested_disables me depth w).disabled me ≡ depth - 1)
        × ((malloc : ℕ → Option ℕ) (aligned_alloc : ℕ → ℕ → Option ℕ) (size : ℕ) (aligned : Bool)
            → 2 ≤ depth
            → allocate_static malloc aligned_alloc me size aligned (nested_disables me depth w) ≡ (
                default_alloc malloc aligned_alloc size aligned >>= λ p.
                returns (p, nested_disables me depth w)))
  unfolding allocate_static
  nested_disables_lem depth w some_depth small on =
      let count = nested_disables_zero depth w some_depth small on in
      (
        count,
        λ malloc aligned_alloc size aligned deep.
            let off : is_above_zero ((nested_disables me depth w).disabled me) ≡ true =
              ground arith in
            rw off refl,
      )
