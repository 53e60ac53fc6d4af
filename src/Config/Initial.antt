-- ===== src/Config/Initial.antt =====
-- Which configurations `SpeakermanConfig::setInitial` of src/SpeakermanConfig.cpp can fill, and what it
-- leaves.
use native.Mathlib.Nat.{mod-eq_of_lt, mul-le-mul_right}
use speakerman.Prelude.{
  inl, ℕ, ◌*◌, ◌^◌, ◌≤◌, ◌<◌, ◌≡◌, refl, ◌∙◌, true, ◌&&◌, List, length, All, arith, some, ltb,
  if◌then◌else◌,
}
use speakerman.Count.{mul_size}
use speakerman.Double.{less, less_irrefl}
use speakerman.Unset.{
  size_unset, int_unset, double_unset, set_default_or_boxed_from_source_if_unset,
}
use speakerman.Unset.Bounds.{set_default-IsBoxed}
use speakerman.Equalizer
use speakerman.Equalizer.{EqualizerConfig, set_equalizer-IsValid}
use speakerman.Detection
use speakerman.Detection.{
  DetectionConfig, default_detection, set_detection-IsValid, default_detection-IsValid,
}
use speakerman.LogicalGroup.{
  Direction, get_port_count, is_valid_port_number, compact_ports, replace_with_defaults_if_unset,
  default_ports,
}
use speakerman.LogicalGroups
use speakerman.LogicalGroups.{Groups, get_group_count, validate_groups}
use speakerman.LogicalGroups.PortMap.{get_total_channels}
use speakerman.ProcessingGroup.{min_delay, default_delay, max_delay}
use speakerman.ProcessingGroups
use speakerman.ProcessingGroups.{ProcessingGroupsConfig, GroupsOk, sanitize_initial-GroupsOk}
use speakerman.Matrix
use speakerman.Matrix.{MatrixConfig}
use speakerman.Matrix.Loops.{Gives}
use speakerman.Matrix.Weights.{defaulted, replace_with_defaults_lem}
use speakerman.Matrix.Throws.{replace_with_defaults_throws}
use speakerman.Config.Equalizers.{
  IsSized, IsUsableGroups, IsValid, copy_from-undefined, eqs_out_of_range, copied,
}
use speakerman.Config.{
  SpeakermanConfig, returns, throws, undefined, ◌>>=◌, default_rel_sub_threshold,
  min_rel_sub_threshold, max_rel_sub_threshold, min_sub_output, default_sub_output, max_sub_output,
  default_threshold_scaling, min_threshold_scaling, max_threshold_scaling, default_generate_noise,
  copy_equalizers, processing_channels, set_initial_groups, set_initial_values, set_initial,
}

-- There is at least one logical group.
default-has_group : (d : Direction) → get_group_count (LogicalGroups.default_groups d) ≡ 1
unfolding LogicalGroups.default_groups get_group_count replace_with_defaults_if_unset compact_ports
    is_valid_port_number default_ports get_port_count
default-has_group Direction.input = refl
default-has_group Direction.output = refl

pub sanitize_initial-has_group :
    (d : Direction) (group : Groups) → 0 < get_group_count (LogicalGroups.sanitize_initial d group)
unfolding LogicalGroups.sanitize_initial
sanitize_initial-has_group d group = ground (arith, default-has_group d)

usable_groups :
    (total : ℕ) (config : ProcessingGroupsConfig)
    → All ProcessingGroups.IsSized config.group
    → IsUsableGroups (ProcessingGroups.sanitize_initial total config)
usable_groups total config h =
    let (a, b, c, d, e) = sanitize_initial-GroupsOk total config h in
    record { some_groups = a; few_groups = b; some_channels = c; channels_fit = d; groups_ok = e }

pub channels_in_range :
    (config : ProcessingGroupsConfig)
    → config.groups * config.channels ≤ 8
    → processing_channels config ≤ 8
unfolding processing_channels
channels_in_range config h =
    let e : mul_size config.groups config.channels ≡ config.groups * config.channels =
      mod-eq_of_lt (omega arith) in
    rw e h

channels_positive :
    (config : ProcessingGroupsConfig) → IsUsableGroups config → 0 < processing_channels config
unfolding processing_channels
channels_positive config u =
    let fit = u.channels_fit in
    let e : mul_size config.groups config.channels ≡ config.groups * config.channels =
      mod-eq_of_lt (omega arith) in
    let one : 1 * config.channels ≤ config.groups * config.channels =
      mul-le-mul_right config.channels u.some_groups in
    let some_channels = u.some_channels in rw e (omega arith)

noise_fits :
    (v : ℕ)
    → v < 2 ^ 32
    → (set_default_or_boxed_from_source_if_unset int_unset v default_generate_noise v 0 1).0 ≤ 1
unfolding set_default_or_boxed_from_source_if_unset
noise_fits v h = ground arith

output_fits :
    (v : ℕ)
    → (set_default_or_boxed_from_source_if_unset size_unset v default_sub_output v min_sub_output
        max_sub_output).0
      ≤ max_sub_output
unfolding set_default_or_boxed_from_source_if_unset
output_fits v = ground arith

module _ (config : SpeakermanConfig) (sized : IsSized config) where
  inputs : Groups
  inputs = LogicalGroups.sanitize_initial Direction.input config.logical_inputs

  groups : ProcessingGroupsConfig
  groups = ProcessingGroups.sanitize_initial (get_total_channels inputs) config.processing_groups

  usable : IsUsableGroups groups
  unfolding groups
  usable = usable_groups (get_total_channels inputs) config.processing_groups sized.group_sizes

  with_matrix : MatrixConfig → SpeakermanConfig
  with_matrix m = record config {
    logical_inputs = inputs;
    logical_outputs = LogicalGroups.sanitize_initial Direction.output config.logical_outputs;
    processing_groups = groups;
    input_matrix = m;
    detection = Detection.set_if_unset default_detection config.detection;
  }

  matrix_filled :
      get_total_channels inputs ≤ 8
      → Gives
          (Matrix.replace_with_defaults_if_unset
            (processing_channels groups)
            (get_total_channels inputs)
            config.input_matrix)
          config.input_matrix
          (λ p l v.
            if ltb p (processing_channels groups) && ltb l (get_total_channels inputs)
            then defaulted (processing_channels groups) (get_total_channels inputs) p l v
            else v)
  matrix_filled few =
      replace_with_defaults_lem (processing_channels groups) (get_total_channels inputs)
        config.input_matrix (channels_in_range groups usable.channels_fit) few sized.matrix_size

  initial_step :
      (m : MatrixConfig)
      → Matrix.replace_with_defaults_if_unset
          (processing_channels groups)
          (get_total_channels inputs)
          config.input_matrix
        ≡ some m
      → set_initial config
        ≡ (copy_equalizers (with_matrix m) (with_matrix m) >>= λ c. returns (set_initial_values c))
  unfolding set_initial set_initial_groups with_matrix groups inputs
  initial_step m e = rw e refl

  values-IsValid :
      (m : MatrixConfig) (eq' : List EqualizerConfig)
      → config.eqs ≤ 2
      → length m ≡ 64
      → All Equalizer.IsValid eq'
      → length eq' ≡ 2
      → IsValid (set_initial_values (record (with_matrix m) { eq = eq' }))
  unfolding set_initial_values with_matrix inputs less
  values-IsValid m eq' h size valid len = record {
    eqs_fit = h;
    eq_ok = valid;
    eq_size = len;
    detection_ok =
        set_detection-IsValid default_detection config.detection (inl default_detection-IsValid);
    has_inputs = sanitize_initial-has_group Direction.input config.logical_inputs;
    groups_ok = usable;
    matrix_size = size;
    sub_output_fits = output_fits config.sub_output;
    threshold_ok =
        set_default-IsBoxed double_unset less_irrefl min_rel_sub_threshold max_rel_sub_threshold
          refl refl refl config.relative_sub_threshold default_rel_sub_threshold
          config.relative_sub_threshold (refl, refl, refl) refl;
    sub_delay_ok =
        set_default-IsBoxed double_unset less_irrefl min_delay max_delay refl refl refl
          config.sub_delay default_delay config.sub_delay (refl, refl, refl) refl;
    noise_ok = noise_fits config.generate_noise sized.noise_bits;
    scaling_ok =
        set_default-IsBoxed double_unset less_irrefl min_threshold_scaling max_threshold_scaling
          refl refl refl config.threshold_scaling default_threshold_scaling config.threshold_scaling
          (refl, refl, refl) refl;
  }

  -- The number of channels of all inputs, after these were sanitized.
  abbrev pub input_channels : ℕ
  input_channels =
      get_total_channels (LogicalGroups.sanitize_initial Direction.input config.logical_inputs)

  -- A configuration whose number of equalizers is set and in range, and whose inputs have at most
  -- eight channels after they were sanitized, is filled by `setInitial`: the result is valid, has
  -- the sanitized inputs, and has the same number of crossovers, which is not checked.
  pub set_initial-IsValid :
      config.eqs ≤ 2
      → input_channels ≤ 8
      → (config' : SpeakermanConfig) × (set_initial config ≡ returns config')
        × IsValid config'
        × (config'.crossovers ≡ config.crossovers)
        × (config'.logical_inputs
            ≡ LogicalGroups.sanitize_initial Direction.input config.logical_inputs)
  unfolding inputs set_initial_values with_matrix
  set_initial-IsValid h few =
      let g = matrix_filled few in
      let c = with_matrix g.result in
      let (eq', made, valid, len) = copied c c sized.eq_size sized.eq_size h in
      (
        set_initial_values (record c { eq = eq' }),
        initial_step g.result g.made ∙ rw made refl,
        values-IsValid g.result eq' h g.size valid len,
        refl,
        refl,
      )

  -- If the number of equalizers is unset or out of range, `setInitial` goes over the end of the array
  -- of equalizers.
  pub set_initial-undefined : 2 < config.eqs → input_channels ≤ 8 → set_initial config ≡ undefined
  unfolding inputs copy_equalizers with_matrix
  set_initial-undefined h few =
      let g = matrix_filled few in
      let c = with_matrix g.result in
      let size = sized.eq_size in
      let out = copy_from-undefined config.eqs true config.eq config.eq (omega arith) in
      initial_step g.result g.made ∙ rw (eqs_out_of_range config.eqs config.eqs h) (rw out refl)

  -- If the sanitized inputs have more than eight channels, `setInitial` throws.
  pub set_initial-throws : 8 < input_channels → set_initial config ≡ throws
  unfolding inputs set_initial set_initial_groups groups
  set_initial-throws many =
      let u = usable in
      let none_made =
        replace_with_defaults_throws (processing_channels groups) (get_total_channels inputs)
          config.input_matrix (channels_positive groups u) many sized.matrix_size in
      rw none_made refl
