-- ===== src/Unset/Bounds.antt =====
-- Which values the functions of src/include/speakerman/UnsetValue.h leave.
use speakerman.Prelude.{◌≡◌, Bool, false, ◌&&◌, not, arith, ◌⊎◌}
use speakerman.Unset.{
  UnsetValue, clamp, fixed_value_if_unset_or_boxed_if_out_of_range,
  set_default_or_boxed_from_source_if_unset, set_boxed_from_set_source,
}

module _ {T : Type 0} (u : UnsetValue T) where
  open u use {is, lt}

  -- Set, not below the minimum, and not above the maximum. (A NaN that does not stand for "not set" is
  -- neither below nor above.)
  abbrev pub IsBoxed : T → T → T → Type 0
  IsBoxed minimum maximum v = (is v ≡ false) × (lt v minimum ≡ false) × (lt maximum v ≡ false)

  module _ (lt_irrefl : (a : T) → lt a a ≡ false) (minimum maximum : T)
      (ordered : lt maximum minimum ≡ false) (is_minimum : is minimum ≡ false)
      (is_maximum : is maximum ≡ false) where
    pub clamp-IsBoxed : (v : T) → is v ≡ false → IsBoxed minimum maximum (clamp u v minimum maximum)
    clamp-IsBoxed v set = ground (arith, lt_irrefl minimum, lt_irrefl maximum)

    -- With a default in the range, the setting that takes its own value, else the source's, else the
    -- default fails exactly when none of the three is set. When it succeeds, it leaves a value in the
    -- range.
    pub set_default_or_boxed_lem :
        (v default_value source_value v' : T) (done : Bool)
        → IsBoxed minimum maximum default_value
        → set_default_or_boxed_from_source_if_unset u v default_value source_value minimum maximum
          ≡ (v', done)
        → (done ≡ not (is v && is source_value && is default_value))
          × ((done ≡ false) ⊎ IsBoxed minimum maximum v')
    unfolding set_default_or_boxed_from_source_if_unset
    set_default_or_boxed_lem v d s v' done b e =
        ground (arith, lt_irrefl minimum, lt_irrefl maximum)

    -- `fixedValueIfUnsetOrBoxedIfOutOfRange` leaves a value in the range when the value is set, or the one to
    -- fall back to.
    pub fixed_value_boxed_lem :
        (v value_if_unset : T)
        → (is v ≡ false) ⊎ (is value_if_unset ≡ false)
        → IsBoxed minimum maximum
            (fixed_value_if_unset_or_boxed_if_out_of_range u v value_if_unset minimum maximum)
    unfolding fixed_value_if_unset_or_boxed_if_out_of_range
    fixed_value_boxed_lem v d set = ground (arith, lt_irrefl minimum, lt_irrefl maximum)

    -- A value in the range is in the range after `setBoxedFromSetSource`, whatever the source.
    pub set_boxed_from_set_source-IsBoxed :
        (v source_value : T)
        → IsBoxed minimum maximum v
        → IsBoxed minimum maximum (set_boxed_from_set_source u v source_value minimum maximum).0
    unfolding set_boxed_from_set_source
    set_boxed_from_set_source-IsBoxed v s b = ground (arith, lt_irrefl minimum, lt_irrefl maximum)

    -- With a default in the range, the value is in the range afterwards.
    pub set_default-IsBoxed :
        (v default_value source_value : T)
        → IsBoxed minimum maximum default_value
        → is default_value ≡ false
        → IsBoxed minimum maximum
            (set_default_or_boxed_from_source_if_unset u v default_value source_value minimum
              maximum).0
    unfolding set_default_or_boxed_from_source_if_unset
    set_default-IsBoxed v d s b e = ground (arith, lt_irrefl minimum, lt_irrefl maximum)
