-- ===== src/Unset.antt =====
-- Values that may be "not set": src/include/speakerman/UnsetValue.h. Functions that change their
-- first argument return it, before their result where they have one.
pub mod Bounds
mod Examples
use speakerman.Prelude.{ℕ, ◌+◌, ◌-◌, ◌%◌, ◌^◌, Bool, true, false, ◌==◌, ◌||◌, ltb, if◌then◌else◌}
use speakerman.Double.{Double, less, quiet_nan, signaling_nan}

-- `UnsetValue<T>`, with the order that the functions below use on `T`.
pub record UnsetValue {ℓ} (T : Type ℓ) : Type ℓ where
  pub value : T
  pub is : T → Bool
  pub lt : T → T → Bool

abbrev pub unset_size : ℕ
unset_size = 2 ^ 64 - 1

-- `UnsetValue<size_t>`
abbrev pub size_unset : UnsetValue ℕ
size_unset = record { value = unset_size; is = λ test. test == unset_size; lt = ltb }

-- `UnsetValue<double>::is` compares the bits with those of the two NaNs.
abbrev pub double_is_unset : Double → Bool
double_is_unset test = test == signaling_nan || test == quiet_nan

-- `UnsetValue<double>`
abbrev pub double_unset : UnsetValue Double
double_unset = record { value = quiet_nan; is = double_is_unset; lt = less }

-- `UnsetValue<int>`: an `int` is its 32 bits, so that -1 is the largest number, and the order is the
-- signed one.
abbrev pub unset_int : ℕ
unset_int = 2 ^ 32 - 1

abbrev pub int_unset : UnsetValue ℕ
int_unset = record {
  value = unset_int;
  is = λ test. test == unset_int;
  lt = λ a b. ltb ((a + 2 ^ 31) % 2 ^ 32) ((b + 2 ^ 31) % 2 ^ 32);
}

module _ {ℓ} {T : Type ℓ} (u : UnsetValue T) where
  open u use {value as unset, is, lt}

  -- `std::clamp`
  abbrev pub clamp : T → T → T → T
  clamp v lo hi = if lt v lo then lo else if lt hi v then hi else v

  unfoldable pub set_config_value_if_unset : T → T → T × Bool
  set_config_value_if_unset target copy_from =
      if is target then (copy_from, true) else (target, false)

  unfoldable pub fixed_value_if_unset_or_out_of_range : T → T → T → T → T × Bool
  fixed_value_if_unset_or_out_of_range v value_if_unset minimum maximum =
      if is v || lt v minimum || lt maximum v then (value_if_unset, true) else (v, false)

  unfoldable pub unset_if_invalid : T → T → T → T × Bool
  unset_if_invalid v minimum maximum =
      if lt v minimum || lt maximum v then (unset, true) else (v, false)

  unfoldable pub box_if_set_and_out_of_range : T → T → T → T
  box_if_set_and_out_of_range v minimum maximum =
      if is v then v else if lt v minimum then minimum else if lt maximum v then maximum else v

  unfoldable pub fixed_value_if_unset_or_boxed_if_out_of_range : T → T → T → T → T
  fixed_value_if_unset_or_boxed_if_out_of_range v value_if_unset minimum maximum =
      if is v
      then clamp value_if_unset minimum maximum
      else if lt v minimum
      then minimum
      else if lt maximum v
      then maximum
      else v

  unfoldable pub set_default_or_boxed_from_source_if_unset : T → T → T → T → T → T × Bool
  set_default_or_boxed_from_source_if_unset v default_value source_value minimum maximum =
      if is v
      then if is source_value
        then if is default_value then (v, false) else (default_value, true)
        else (clamp source_value minimum maximum, true)
      else (clamp v minimum maximum, true)

  unfoldable pub set_default_or_from_source_if_unset : T → T → T → T × Bool
  set_default_or_from_source_if_unset v default_value source_value =
      if is v
      then if is source_value
        then if is default_value then (v, false) else (default_value, true)
        else (source_value, true)
      else (v, true)

  unfoldable pub set_boxed_from_set_source : T → T → T → T → T × Bool
  set_boxed_from_set_source v source_value minimum maximum =
      if is source_value then (v, false) else (clamp source_value minimum maximum, true)

  unfoldable pub set_from_set_source : T → T → T × Bool
  set_from_set_source v source_value = if is source_value then (v, false) else (source_value, true)
