-- ===== src/Config/Equalizers.antt =====
-- What `SpeakermanConfig::copyEqualizers` of src/SpeakermanConfig.cpp leaves, and the configurations
-- that the processing can use.
use speakerman.Prelude.{
  ℕ, zero, suc, ◌*◌, ◌^◌, ◌≤◌, ◌<◌, ◌≡◌, refl, ap, ◌∙◌, Bool, true, false, List, [], ◌∷◌, length,
  All, arith, map,
}
use speakerman.Double.{less}
use speakerman.Unset.{size_unset, double_unset, fixed_value_if_unset_or_out_of_range}
use speakerman.Unset.Bounds.{IsBoxed}
use speakerman.Equalizer
use speakerman.Equalizer.{EqualizerConfig, set_equalizer-IsValid}
use speakerman.Detection
use speakerman.Detection.{DetectionConfig, default_detection, set_detection-IsValid}
use speakerman.LogicalGroups.{get_group_count}
use speakerman.ProcessingGroup.{min_delay, max_delay}
use speakerman.ProcessingGroups
use speakerman.ProcessingGroups.{ProcessingGroupsConfig, GroupsOk, sanitize_initial-GroupsOk}
use speakerman.Config.{
  SpeakermanConfig, returns, undefined, default_equalizer, max_eqs, min_rel_sub_threshold,
  max_rel_sub_threshold, max_sub_output, min_threshold_scaling, max_threshold_scaling,
  copy_equalizer, copy_from, copy_equalizers,
}

-- The arrays have their sizes, the names of the groups their bound, and the `int` has 32 bits.
pub record IsSized (config : SpeakermanConfig) : Type 0 where
  pub eq_size : length config.eq ≡ 2
  pub group_sizes : All ProcessingGroups.IsSized config.processing_groups.group
  pub matrix_size : length config.input_matrix ≡ 64
  pub noise_bits : config.generate_noise < 2 ^ 32

-- One or two groups, of at least one channel each and at most eight channels together, that can be used.
pub record IsUsableGroups (config : ProcessingGroupsConfig) : Type 0 where
  pub some_groups : 1 ≤ config.groups
  pub few_groups : config.groups ≤ 2
  pub some_channels : 1 ≤ config.channels
  pub channels_fit : config.groups * config.channels ≤ 8
  pub groups_ok : GroupsOk 0 config.groups config.group

-- The equalizers, the thresholds, the delays and the detection are set and neither below nor above their
-- ranges, the numbers of groups, channels and equalizers are in range, each group in use is usable, and the
-- arrays have their sizes; `crossovers` is not looked at.
pub record IsValid (config : SpeakermanConfig) : Type 0 where
  pub eqs_fit : config.eqs ≤ max_eqs
  pub eq_ok : All Equalizer.IsValid config.eq
  pub eq_size : length config.eq ≡ 2
  pub detection_ok : Detection.IsValid config.detection
  pub has_inputs : 0 < get_group_count config.logical_inputs
  pub groups_ok : IsUsableGroups config.processing_groups
  pub matrix_size : length config.input_matrix ≡ 64
  pub sub_output_fits : config.sub_output ≤ max_sub_output
  pub threshold_ok :
      IsBoxed double_unset min_rel_sub_threshold max_rel_sub_threshold config.relative_sub_threshold
  pub sub_delay_ok : IsBoxed double_unset min_delay max_delay config.sub_delay
  pub noise_ok : config.generate_noise ≤ 1
  pub scaling_ok :
      IsBoxed double_unset min_threshold_scaling max_threshold_scaling config.threshold_scaling

default-IsValid : Equalizer.IsValid default_equalizer
unfolding less
default-IsValid = ground arith

map-IsValid : (es : List EqualizerConfig) → All Equalizer.IsValid (map (λ e. default_equalizer) es)
map-IsValid [] = tt
map-IsValid (e ∷ es) = (default-IsValid, map-IsValid es)

copy_equalizer-IsValid :
    (fixed : Bool) (s e : EqualizerConfig) → Equalizer.IsValid (copy_equalizer fixed s e)
unfolding copy_equalizer
copy_equalizer-IsValid true s e = set_equalizer-IsValid default_equalizer s
copy_equalizer-IsValid false s e =
    set_equalizer-IsValid default_equalizer (Equalizer.set_if_unset s e)

-- The loops return valid equalizers.
pub copy_from-returns :
    (left : ℕ) (fixed : Bool) (source eq : List EqualizerConfig)
    → left ≤ length source
    → left ≤ length eq
    → (eq' : List EqualizerConfig) × (copy_from left fixed source eq ≡ returns eq')
      × All Equalizer.IsValid eq'
      × (length eq' ≡ length eq)
unfolding copy_from
copy_from-returns zero fixed source eq h k =
    (map (λ e. default_equalizer) eq, refl, map-IsValid eq, length-map eq)
  where
    length-map : (es : List EqualizerConfig) → length (map (λ e. default_equalizer) es) ≡ length es
    length-map [] = refl
    length-map (e ∷ es) = ap suc (length-map es)
copy_from-returns (suc left) fixed [] eq h k = absurd (omega arith)
copy_from-returns (suc left) fixed (s ∷ source) [] h k = absurd (omega arith)
copy_from-returns (suc left) fixed (s ∷ source) (e ∷ eq) h k =
    let (rest, made, valid, size) =
      copy_from-returns left fixed source eq (omega arith) (omega arith) in
    (
      copy_equalizer fixed s e ∷ rest,
      rw made refl,
      (copy_equalizer-IsValid fixed s e, valid),
      ap suc size,
    )

-- They leave the array if they are to go over more equalizers than it has.
pub copy_from-undefined :
    (left : ℕ) (fixed : Bool) (source eq : List EqualizerConfig)
    → length eq < left
    → copy_from left fixed source eq ≡ undefined
unfolding copy_from
copy_from-undefined zero fixed source eq h = absurd (omega arith)
copy_from-undefined (suc left) fixed [] eq h = refl
copy_from-undefined (suc left) fixed (s ∷ source) [] h = refl
copy_from-undefined (suc left) fixed (s ∷ source) (e ∷ eq) h =
    rw (copy_from-undefined left fixed source eq (omega arith)) refl

pub eqs_in_range :
    (v s : ℕ) → v ≤ 2 → fixed_value_if_unset_or_out_of_range size_unset v s 0 2 ≡ (v, false)
unfolding fixed_value_if_unset_or_out_of_range
eqs_in_range v s h = ground arith

pub eqs_out_of_range :
    (v s : ℕ) → 2 < v → fixed_value_if_unset_or_out_of_range size_unset v s 0 2 ≡ (s, true)
unfolding fixed_value_if_unset_or_out_of_range
eqs_out_of_range v s h = ground arith

pub copied :
    (source config : SpeakermanConfig)
    → length source.eq ≡ 2
    → length config.eq ≡ 2
    → config.eqs ≤ 2
    → (eq' : List EqualizerConfig) × (copy_equalizers source config
        ≡ returns (record config { eq = eq' }))
      × All Equalizer.IsValid eq'
      × (length eq' ≡ 2)
unfolding copy_equalizers
copied source config es ec h =
    let (eq', made, valid, size) =
      copy_from-returns config.eqs false source.eq config.eq (omega arith) (omega arith) in
    (eq', rw (eqs_in_range config.eqs source.eqs h) (rw made refl), valid, size ∙ ec)
