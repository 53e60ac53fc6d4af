-- ===== src/ProcessingGroup/Bounds.antt =====
-- Which values `makeValidateBasedOn` and `copyRuntimeValues` of src/ProcessingGroupConfig.cc leave.
use speakerman.Prelude.Effects.{returns}
use speakerman.Prelude.{
  ltb, ℕ, ◌+◌, ◌≤◌, ◌<◌, ◌≡◌, ◌⊎◌, inl, inr, refl, false, List, [], ◌∷◌, arith, length, Bool-cases,
  some, codes, decimal, ◌++◌,
}
use speakerman.Double.{less, less_irrefl}
use speakerman.Unset.{
  size_unset, double_unset, set_default_or_boxed_from_source_if_unset, set_boxed_from_set_source,
}
use speakerman.Unset.Bounds.{IsBoxed, set_default-IsBoxed, set_boxed_from_set_source-IsBoxed}
use speakerman.Named.{
  Name, is_unset_name, copy_to_name, copy_bytes, copy_to_name_lem, print_to_name_fits,
}
use speakerman.Equalizer.{EqualizerConfig, unset_equalizer, set_if_unset, set_equalizer-IsValid}
use speakerman.Equalizer
use speakerman.ProcessingGroup.{
  ProcessingGroupConfig, min_eqs, max_eqs, default_eqs, min_threshold, default_threshold,
  max_threshold, min_delay, default_delay, max_delay, set_eqs, set_group_name,
  make_validate_based_on, runtime_values, copy_runtime_values,
}

-- The first `eqs` equalizers are in their ranges, and the others unset.
abbrev pub EqsOk : (i eqs : ℕ) → List EqualizerConfig → Type 0
EqsOk i eqs [] = Unit
EqsOk i eqs (e ∷ es) =
    (((i < eqs) × Equalizer.IsValid e) ⊎ ((eqs ≤ i) × (e ≡ unset_equalizer))) × EqsOk (i + 1) eqs es

set_eqs-EqsOk :
    (i eqs : ℕ) (froms es : List EqualizerConfig)
    → length froms ≡ length es
    → EqsOk i eqs (set_eqs i eqs froms es)
unfolding set_eqs
set_eqs-EqsOk i eqs [] [] e = tt
set_eqs-EqsOk i eqs [] (x ∷ es) e = absurd (omega arith)
set_eqs-EqsOk i eqs (f ∷ froms) [] e = tt
set_eqs-EqsOk i eqs (f ∷ froms) (x ∷ es) e =
    let rest = set_eqs-EqsOk (i + 1) eqs froms es (omega arith) in
    ground (arith, set_equalizer-IsValid f x)

length-set_eqs :
    (i eqs : ℕ) (froms es : List EqualizerConfig) → length (set_eqs i eqs froms es) ≡ length es
unfolding set_eqs
length-set_eqs i eqs [] es = refl
length-set_eqs i eqs (f ∷ froms) [] = refl
length-set_eqs i eqs (f ∷ froms) (x ∷ es) = omega (arith, length-set_eqs (i + 1) eqs froms es)

-- A group that can be used: at most two equalizers, those in use set and in range and the others unset, the
-- threshold and the delay set and in range, and a name.
pub record IsUsable (config : ProcessingGroupConfig) : Type 0 where
  pub eqs_fit : config.eqs ≤ max_eqs
  pub eq_ok : EqsOk 0 config.eqs config.eq
  pub eq_size : length config.eq ≡ max_eqs
  pub threshold_ok : IsBoxed double_unset min_threshold max_threshold config.threshold
  pub delay_ok : IsBoxed double_unset min_delay max_delay config.delay
  pub named : is_unset_name config.name ≡ false
  pub name_fits : length config.name ≤ 63

default_eqs_fit :
    (v s : ℕ)
    → (set_default_or_boxed_from_source_if_unset size_unset v default_eqs s min_eqs max_eqs).0
      ≤ max_eqs
unfolding set_default_or_boxed_from_source_if_unset
default_eqs_fit v s = ground arith

new_eqs_fit :
    (v s : ℕ) → v ≤ max_eqs → (set_boxed_from_set_source size_unset v s min_eqs max_eqs).0 ≤ max_eqs
unfolding set_boxed_from_set_source
new_eqs_fit v s h = ground arith

copied_name :
    (source name : Name)
    → is_unset_name source ≡ false
    → let name' = (copy_to_name (some source) name).0 in
      (is_unset_name name' ≡ false) × (length name' ≤ 63)
unfolding copy_to_name copy_bytes
copied_name [] name h = absurd (ground arith)
copied_name (c ∷ cs) name h = (refl, (copy_to_name_lem (c ∷ cs) name).2)

default_group_name :
    (n : ℕ) → (is_unset_name (set_group_name n) ≡ false) × (length (set_group_name n) ≤ 63)
unfolding set_group_name
default_group_name n = (refl, print_to_name_fits (codes "Processing group " ++ decimal n))

validated_name :
    (number : ℕ) (source config : ProcessingGroupConfig)
    → length config.name ≤ 63
    → let name' = (make_validate_based_on source number 0 config).name in
      (is_unset_name name' ≡ false) × (length name' ≤ 63)
unfolding make_validate_based_on
validated_name number source config h = elim (Bool-cases (is_unset_name config.name)) [
  | inr set ↦ rw set (set, h)
  | inl unset ↦ rw unset (elim (Bool-cases (is_unset_name source.name)) [
    | inl missing ↦ rw missing (default_group_name (number + 1))
    | inr given ↦ rw given (copied_name source.name config.name given)
  ])
]

-- Whatever the two groups hold, with two equalizers each and a name of at most 63 bytes, the group is
-- usable after `makeValidateBasedOn`: it has a name, at most two equalizers, those in use in their
-- ranges and the others unset, and a threshold and a delay in their ranges.
pub make_validate_based_on-IsUsable :
    (source config : ProcessingGroupConfig) (number channels : ℕ)
    → length source.eq ≡ 2
    → length config.eq ≡ 2
    → length config.name ≤ 63
    → IsUsable (make_validate_based_on source number channels config)
unfolding make_validate_based_on less
make_validate_based_on-IsUsable source config number channels es ec n =
    let eqs' =
      (set_default_or_boxed_from_source_if_unset size_unset config.eqs default_eqs source.eqs
        min_eqs max_eqs).0 in
    let (named, fits) = validated_name number source config n in
    record {
      eqs_fit = default_eqs_fit config.eqs source.eqs;
      eq_ok = set_eqs-EqsOk 0 eqs' source.eq config.eq (omega arith);
      eq_size = omega (arith, length-set_eqs 0 eqs' source.eq config.eq);
      threshold_ok =
          set_default-IsBoxed double_unset less_irrefl min_threshold max_threshold refl refl refl
            config.threshold default_threshold source.threshold (refl, refl, refl) refl;
      delay_ok =
          set_default-IsBoxed double_unset less_irrefl min_delay max_delay refl refl refl
            config.delay default_delay source.delay (refl, refl, refl) refl;
      named = named;
      name_fits = fits;
    }

runtime_name :
    (eqs' : ℕ) (source config : ProcessingGroupConfig)
    → is_unset_name config.name ≡ false
    → length config.name ≤ 63
    → let name' = (runtime_values eqs' source config).name in
      (is_unset_name name' ≡ false) × (length name' ≤ 63)
unfolding runtime_values
runtime_name eqs' source config set h = elim (Bool-cases (is_unset_name source.name)) [
  | inl missing ↦ rw missing (set, h)
  | inr given ↦ rw given (copied_name source.name config.name given)
]

runtime_values-IsUsable :
    (eqs' : ℕ) (source config : ProcessingGroupConfig)
    → eqs' ≤ max_eqs
    → length source.eq ≡ 2
    → IsUsable config
    → IsUsable (runtime_values eqs' source config)
unfolding runtime_values less
runtime_values-IsUsable eqs' source config fit es u =
    let (named, fits) = runtime_name eqs' source config u.named u.name_fits in
    let size = u.eq_size in
    record {
      eqs_fit = fit;
      eq_ok = set_eqs-EqsOk 0 eqs' source.eq config.eq (omega arith);
      eq_size = omega (arith, length-set_eqs 0 eqs' source.eq config.eq);
      threshold_ok =
          set_boxed_from_set_source-IsBoxed double_unset less_irrefl min_threshold max_threshold
            refl refl refl config.threshold source.threshold u.threshold_ok;
      delay_ok =
          set_boxed_from_set_source-IsBoxed double_unset less_irrefl min_delay max_delay refl refl
            refl config.delay source.delay u.delay_ok;
      named = named;
      name_fits = fits;
    }

-- When values are copied from any other group while the program runs, to a usable group, then no array is
-- overrun, and the group stays usable.
pub copy_runtime_values-IsUsable :
    (source config : ProcessingGroupConfig)
    → length source.eq ≡ 2
    → IsUsable config
    → (config' : ProcessingGroupConfig) × (copy_runtime_values source config ≡ returns config')
      × IsUsable config'
unfolding copy_runtime_values
copy_runtime_values-IsUsable source config es u =
    let eqs' = (set_boxed_from_set_source size_unset config.eqs source.eqs min_eqs max_eqs).0 in
    let fit = new_eqs_fit config.eqs source.eqs u.eqs_fit in
    let within : ltb max_eqs eqs' ≡ false = ground arith in
    (
      runtime_values eqs' source config,
      rw within refl,
      runtime_values-IsUsable eqs' source config fit es u,
    )
