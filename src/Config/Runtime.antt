-- ===== src/Config/Runtime.antt =====
-- What `SpeakermanConfig::updateRuntimeValues` of src/SpeakermanConfig.cpp changes of a running
-- configuration.
use speakerman.Prelude.{
  inr, ℕ, zero, suc, ◌+◌, ◌^◌, ◌≤◌, ◌<◌, ◌≡◌, refl, sym, ap, ap₂, ◌∙◌, ◌&&◌, List, [], ◌∷◌, length,
  All, arith, ltb, if◌then◌else◌, some, ◌==◌,
}
use speakerman.Double.{quiet_nan, less, less_irrefl}
use speakerman.Unset.{int_unset, double_unset, set_boxed_from_set_source}
use speakerman.Unset.Bounds.{set_boxed_from_set_source-IsBoxed}
use speakerman.Equalizer
use speakerman.Equalizer.{EqualizerConfig}
use speakerman.Detection
use speakerman.Detection.{set_detection-IsValid}
use speakerman.LogicalGroup.{get_port_count, change_runtime_values}
use speakerman.LogicalGroups.{Groups, get_group_count, change_from, change_groups}
use speakerman.LogicalGroups.PortMap.{get_total_channels, count_channels}
use speakerman.ProcessingGroup.{ProcessingGroupConfig, min_delay, max_delay}
use speakerman.ProcessingGroups
use speakerman.ProcessingGroups.{GroupsOk, change_runtime_values-GroupsOk}
use speakerman.Matrix
use speakerman.Matrix.{MatrixConfig}
use speakerman.Matrix.Loops.{at, Gives}
use speakerman.Matrix.Weights.{at_runtime, change_runtime_values_lem}
use speakerman.Config.Equalizers.{IsSized, IsUsableGroups, IsValid, copied}
use speakerman.Config.Initial.{channels_in_range}
use speakerman.Config.{
  SpeakermanConfig, returns, ◌>>=◌, copy_equalizers, processing_channels, update_groups,
  update_values, update_runtime_values, min_rel_sub_threshold, max_rel_sub_threshold,
  min_threshold_scaling, max_threshold_scaling,
}

-- The ports of the groups.
abbrev pub all_ports : Groups → List (List ℕ)
all_ports [] = []
all_ports (c ∷ group) = c.ports ∷ all_ports group

change_from-ports :
    (left : ℕ) (runtime group : Groups)
    → all_ports (change_from left runtime group) ≡ all_ports group
unfolding change_from change_runtime_values
change_from-ports zero runtime group = refl
change_from-ports (suc left) [] group = refl
change_from-ports (suc left) (new ∷ runtime) [] = refl
change_from-ports (suc left) (new ∷ runtime) (c ∷ group) =
    ap (◌∷◌ c.ports) (change_from-ports left runtime group)

-- The numbers of groups and channels depend on the ports only.
group_count_of : List (List ℕ) → ℕ
group_count_of [] = 0
group_count_of (p ∷ ps) = if get_port_count p == 0 then 0 else group_count_of ps + 1

get_group_count-ports : (group : Groups) → get_group_count group ≡ group_count_of (all_ports group)
unfolding get_group_count group_count_of
get_group_count-ports [] = refl
get_group_count-ports (c ∷ group) = rw (get_group_count-ports group) refl

channels_of : ℕ → List (List ℕ) → ℕ
channels_of zero ps = 0
channels_of (suc left) [] = 0
channels_of (suc left) (p ∷ ps) = get_port_count p + channels_of left ps

count_channels-ports :
    (left : ℕ) (group : Groups) → count_channels left group ≡ channels_of left (all_ports group)
unfolding count_channels channels_of
count_channels-ports zero group = refl
count_channels-ports (suc left) [] = refl
count_channels-ports (suc left) (c ∷ group) =
    ap (λ n. get_port_count c.ports + n) (count_channels-ports left group)

change_groups-ports :
    (runtime group : Groups) → all_ports (change_groups runtime group) ≡ all_ports group
unfolding change_groups
change_groups-ports runtime group = change_from-ports (get_group_count group) runtime group

change_groups-count :
    (runtime group : Groups) → get_group_count (change_groups runtime group) ≡ get_group_count group
change_groups-count runtime group =
    get_group_count-ports (change_groups runtime group)
    ∙ ap group_count_of (change_groups-ports runtime group)
    ∙ sym (get_group_count-ports group)

change_groups-channels :
    (runtime group : Groups)
    → get_total_channels (change_groups runtime group) ≡ get_total_channels group
unfolding get_total_channels
change_groups-channels runtime group =
    count_channels-ports (get_group_count (change_groups runtime group))
      (change_groups runtime group)
    ∙ ap₂ channels_of (change_groups-count runtime group) (change_groups-ports runtime group)
    ∙ sym (count_channels-ports (get_group_count group) group)

-- What must not change while the audio is processed.
pub record IsSameLayout (old new : SpeakermanConfig) : Type 0 where
  pub same_inputs : all_ports new.logical_inputs ≡ all_ports old.logical_inputs
  pub same_outputs : all_ports new.logical_outputs ≡ all_ports old.logical_outputs
  pub same_groups : new.processing_groups.groups ≡ old.processing_groups.groups
  pub same_channels : new.processing_groups.channels ≡ old.processing_groups.channels
  pub same_crossovers : new.crossovers ≡ old.crossovers
  pub same_sub_output : new.sub_output ≡ old.sub_output
  pub same_eqs : new.eqs ≡ old.eqs

noise_stays : (v s : ℕ) → v ≤ 1 → s < 2 ^ 32 → (set_boxed_from_set_source int_unset v s 0 1).0 ≤ 1
unfolding set_boxed_from_set_source
noise_stays v s h k = ground arith

-- The matrix has the weights that `changeRuntimeValues` makes of the old and the new ones.
abbrev pub HasNewWeights : (new old config' : SpeakermanConfig) → Type 0
HasNewWeights new old config' =
    let P = processing_channels old.processing_groups in
    let L = get_total_channels old.logical_inputs in
    (p l : ℕ)
    → p < 8
    → l < 8
    → at config'.input_matrix p l ≡ (
        if ltb p P && ltb l L
        then at_runtime new.input_matrix P L p l (at old.input_matrix p l)
        else quiet_nan)

module _ (new config : SpeakermanConfig) (sized : IsSized new) (valid : IsValid config) where
  -- The processing groups after the change, in which every group in use is usable
  changed_groups :
      (group' : List ProcessingGroupConfig) × (ProcessingGroups.change_runtime_values
          new.processing_groups config.processing_groups
        ≡ returns (record config.processing_groups { group = group' }))
      × GroupsOk 0 config.processing_groups.groups group'
  changed_groups =
      change_runtime_values-GroupsOk new.processing_groups config.processing_groups
        sized.group_sizes valid.groups_ok.groups_ok

  updated : SpeakermanConfig
  updated = record config {
    logical_inputs = change_groups new.logical_inputs config.logical_inputs;
    logical_outputs = change_groups new.logical_outputs config.logical_outputs;
    processing_groups = record config.processing_groups { group = changed_groups.0 };
  }

  updated-eq : update_groups new config ≡ returns updated
  unfolding update_groups updated
  updated-eq = rw changed_groups.1 refl

  processing : ℕ
  processing = processing_channels config.processing_groups

  logical : ℕ
  logical = get_total_channels config.logical_inputs

  same_logical :
      get_total_channels (change_groups new.logical_inputs config.logical_inputs) ≡ logical
  unfolding logical
  same_logical = change_groups-channels new.logical_inputs config.logical_inputs

  with_matrix : MatrixConfig → SpeakermanConfig
  with_matrix m = record updated {
    input_matrix = m;
    detection = Detection.set_if_unset new.detection config.detection;
  }

  matrix_changed :
      logical ≤ 8
      → Gives
          (Matrix.change_runtime_values new.input_matrix processing logical config.input_matrix)
          config.input_matrix
          (λ p l v.
            if ltb p processing && ltb l logical
            then at_runtime new.input_matrix processing logical p l v
            else quiet_nan)
  unfolding processing
  matrix_changed few =
      change_runtime_values_lem new.input_matrix processing logical config.input_matrix
        (channels_in_range config.processing_groups valid.groups_ok.channels_fit) few
        valid.matrix_size

  update_step :
      (m : MatrixConfig)
      → Matrix.change_runtime_values new.input_matrix processing logical config.input_matrix
        ≡ some m
      → update_runtime_values new config
        ≡ (copy_equalizers new (with_matrix m) >>= λ c. returns (update_values new c))
  unfolding update_runtime_values with_matrix updated processing processing_channels
  update_step m e = rw updated-eq (rw (same_logical, e) refl)

  groups_stay : IsUsableGroups (record config.processing_groups { group = changed_groups.0 })
  groups_stay =
      let u = valid.groups_ok in
      record {
        some_groups = u.some_groups;
        few_groups = u.few_groups;
        some_channels = u.some_channels;
        channels_fit = u.channels_fit;
        groups_ok = changed_groups.2;
      }

  values-IsValid :
      (m : MatrixConfig) (eq' : List EqualizerConfig)
      → length m ≡ 64
      → All Equalizer.IsValid eq'
      → length eq' ≡ 2
      → IsValid (update_values new (record (with_matrix m) { eq = eq' }))
  unfolding update_values with_matrix updated less
  values-IsValid m eq' size ok len = record {
    eqs_fit = valid.eqs_fit;
    eq_ok = ok;
    eq_size = len;
    detection_ok = set_detection-IsValid new.detection config.detection (inr valid.detection_ok);
    has_inputs = rw (change_groups-count new.logical_inputs config.logical_inputs) valid.has_inputs;
    groups_ok = groups_stay;
    matrix_size = size;
    sub_output_fits = valid.sub_output_fits;
    threshold_ok =
        set_boxed_from_set_source-IsBoxed double_unset less_irrefl min_rel_sub_threshold
          max_rel_sub_threshold refl refl refl config.relative_sub_threshold
          new.relative_sub_threshold valid.threshold_ok;
    sub_delay_ok =
        set_boxed_from_set_source-IsBoxed double_unset less_irrefl min_delay max_delay refl refl
          refl config.sub_delay new.sub_delay valid.sub_delay_ok;
    noise_ok = noise_stays config.generate_noise new.generate_noise valid.noise_ok sized.noise_bits;
    scaling_ok =
        set_boxed_from_set_source-IsBoxed double_unset less_irrefl min_threshold_scaling
          max_threshold_scaling refl refl refl config.threshold_scaling new.threshold_scaling
          valid.scaling_ok;
  }

  layout_stays :
      (m : MatrixConfig) (eq' : List EqualizerConfig)
      → IsSameLayout config (update_values new (record (with_matrix m) { eq = eq' }))
  unfolding update_values with_matrix updated
  layout_stays m eq' = record {
    same_inputs = change_groups-ports new.logical_inputs config.logical_inputs;
    same_outputs = change_groups-ports new.logical_outputs config.logical_outputs;
    same_groups = refl;
    same_channels = refl;
    same_crossovers = refl;
    same_sub_output = refl;
    same_eqs = refl;
  }

  -- From a valid configuration whose inputs have at most eight channels, whatever the new one says,
  -- `updateRuntimeValues` returns a valid configuration with the same ports of all groups, the same
  -- numbers of groups, channels, equalizers and crossovers and the same output for the sub-woofer,
  -- and with the weights that `changeRuntimeValues` of the matrix makes of the old and the new ones.
  pub update_runtime_values-IsValid :
      get_total_channels config.logical_inputs ≤ 8
      → (config' : SpeakermanConfig) × (update_runtime_values new config ≡ returns config')
        × IsValid config'
        × IsSameLayout config config'
        × HasNewWeights new config config'
  unfolding logical processing update_values with_matrix updated
  update_runtime_values-IsValid few =
      let g = matrix_changed few in
      let c = with_matrix g.result in
      let (eq', made, ok, len) = copied new c sized.eq_size valid.eq_size valid.eqs_fit in
      (
        update_values new (record c { eq = eq' }),
        update_step g.result g.made ∙ rw made refl,
        values-IsValid g.result eq' g.size ok len,
        layout_stays g.result eq',
        g.weights,
      )
