-- ===== src/Settings/Table.antt =====
-- The variables that `ConfigManager` of src/SpeakermanConfig.cpp knows, and their keys.
use speakerman.Prelude.{
  ℕ, zero, suc, ◌+◌, ◌*◌, ◌/◌, ◌%◌, Bool, true, false, List, [], ◌∷◌, ◌++◌, if◌then◌else◌, leb,
  codes, get_or, take, drop,
}
use speakerman.Double.{Double}
use speakerman.Equalizer.{EqualizerConfig, unset_equalizer}
use speakerman.Detection.{DetectionConfig}
use speakerman.LogicalGroup.{LogicalGroupConfig, unset_config}
use speakerman.ProcessingGroup.{ProcessingGroupConfig, unset_group}
use speakerman.Settings.Variables.{
  Field, Variable, count, integer, real, name, counts, reals, KeyVariableReader,
}

-- The array after a change of an element.
unfoldable pub change {ℓ} : {A : Type ℓ} → ℕ → (A → A) → List A → List A
change i f [] = []
change zero f (x ∷ xs) = f x ∷ xs
change (suc i) f (x ∷ xs) = x ∷ change i f xs

-- `add_reader` and `add_array_reader`
abbrev pub add_reader : (key : List ℕ) → (runtime_changeable : Bool) → Variable → KeyVariableReader
add_reader key runtime_changeable variable = record {
  key = key;
  variable = variable;
  runtime_changeable = runtime_changeable;
  is_deprecated = false;
}

-- The digits of an index, as the loops write them.
abbrev pub index_digits : ℕ → List ℕ
index_digits i = if leb 10 i then (48 + i / 10) ∷ (48 + i % 10) ∷ [] else (48 + i % 10) ∷ []

-- A field of a processing group.
abbrev of_group :
    {T : Type 0}
    → ℕ
    → (ProcessingGroupConfig → T)
    → (T → ProcessingGroupConfig → ProcessingGroupConfig)
    → Field T
of_group g get put = record {
  get = λ c. get (get_or c.processing_groups.group g unset_group);
  put = λ v c. record c {
    processing_groups = record c.processing_groups {
      group = change g (put v) c.processing_groups.group;
    };
  };
}

-- A field of a logical input.
abbrev of_input :
    {T : Type 0}
    → ℕ
    → (LogicalGroupConfig → T)
    → (T → LogicalGroupConfig → LogicalGroupConfig)
    → Field T
of_input i get put = record {
  get = λ c. get (get_or c.logical_inputs i unset_config);
  put = λ v c. record c { logical_inputs = change i (put v) c.logical_inputs };
}

-- A field of an equalizer.
abbrev of_equalizer :
    {T : Type 0} → ℕ → (EqualizerConfig → T) → (T → EqualizerConfig → EqualizerConfig) → Field T
of_equalizer e get put = record {
  get = λ c. get (get_or c.eq e unset_equalizer);
  put = λ v c. record c { eq = change e (put v) c.eq };
}

-- The round `i` of the loop of `addLogicalGroups`.
unfoldable pub input_readers : ℕ → List KeyVariableReader
input_readers i =
    let grp = codes "logicalInput/" ++ index_digits i ++ codes "/" in
    add_reader (grp ++ codes "name") true
      (name (of_input i (λ g. g.name) (λ v g. record g { name = v })))
    ∷ add_reader (grp ++ codes "volume") true
        (real (of_input i (λ g. g.volume) (λ v g. record g { volume = v })))
    ∷ add_reader (grp ++ codes "port-numbers") false
        (counts (of_input i (λ g. g.ports) (λ v g. record g { ports = v })))
    ∷ []

-- A loop that adds readers, from `i` on, with `left` rounds to go.
unfoldable pub add_loop : (left i : ℕ) → (ℕ → List KeyVariableReader) → List KeyVariableReader
add_loop zero i round = []
add_loop (suc left) i round = round i ++ add_loop left (i + 1) round

-- The round `e` of the loop over the equalizers.
unfoldable pub equalizer_readers : ℕ → List KeyVariableReader
equalizer_readers e =
    let eq_key = codes "equalizer/" ++ index_digits e ++ codes "/" in
    add_reader (eq_key ++ codes "center") true
      (real (of_equalizer e (λ q. q.center) (λ v q. record q { center = v })))
    ∷ add_reader (eq_key ++ codes "gain") true
        (real (of_equalizer e (λ q. q.gain) (λ v q. record q { gain = v })))
    ∷ add_reader (eq_key ++ codes "bandwidth") true
        (real (of_equalizer e (λ q. q.bandwidth) (λ v q. record q { bandwidth = v })))
    ∷ []

-- A field of an equalizer of a processing group.
abbrev of_group_equalizer :
    {T : Type 0}
    → (g e : ℕ) → (EqualizerConfig → T)
    → (T → EqualizerConfig → EqualizerConfig)
    → Field T
of_group_equalizer g e get put =
    of_group g (λ p. get (get_or p.eq e unset_equalizer))
      (λ v p. record p { eq = change e (put v) p.eq })

-- The round `e` of the loop over the equalizers of group `g`.
unfoldable pub group_equalizer_readers : (g e : ℕ) → List KeyVariableReader
group_equalizer_readers g e =
    let eq_key =
      codes "group/" ++ index_digits g ++ codes "/equalizer/" ++ index_digits e ++ codes "/" in
    add_reader (eq_key ++ codes "center") true
      (real (of_group_equalizer g e (λ q. q.center) (λ v q. record q { center = v })))
    ∷ add_reader (eq_key ++ codes "gain") true
        (real (of_group_equalizer g e (λ q. q.gain) (λ v q. record q { gain = v })))
    ∷ add_reader (eq_key ++ codes "bandwidth") true
        (real (of_group_equalizer g e (λ q. q.bandwidth) (λ v q. record q { bandwidth = v })))
    ∷ []

-- The round `g` of the loop over the processing groups.
unfoldable pub group_readers : ℕ → List KeyVariableReader
unfolding add_loop group_equalizer_readers
group_readers g =
    let group_key = codes "group/" ++ index_digits g ++ codes "/" in
    add_reader (group_key ++ codes "equalizers") true
      (count (of_group g (λ p. p.eqs) (λ v p. record p { eqs = v })))
    ∷ add_reader (group_key ++ codes "threshold") true
        (real (of_group g (λ p. p.threshold) (λ v p. record p { threshold = v })))
    ∷ add_reader (group_key ++ codes "delay") true
        (real (of_group g (λ p. p.delay) (λ v p. record p { delay = v })))
    ∷ add_reader (group_key ++ codes "use-sub") true
        (integer (of_group g (λ p. p.use_sub) (λ v p. record p { use_sub = v })))
    ∷ add_reader (group_key ++ codes "mono") true
        (integer (of_group g (λ p. p.mono) (λ v p. record p { mono = v })))
    ∷ add_reader (group_key ++ codes "name") true
        (name (of_group g (λ p. p.name) (λ v p. record p { name = v })))
    ∷ add_loop 2 0 (group_equalizer_readers g)

-- The row of the weights of a processing channel.
abbrev weights_of : ℕ → Field (List Double)
weights_of pc = record {
  get = λ c. take 8 (drop (8 * pc) c.input_matrix);
  put = λ vs c. record c {
    input_matrix = take (8 * pc) c.input_matrix ++ vs ++ drop (8 * pc + 8) c.input_matrix;
  };
}

-- The round `pc` of the loop over the processing channels.
unfoldable pub weight_readers : ℕ → List KeyVariableReader
weight_readers pc =
    add_reader (codes "groups/in/" ++ index_digits pc ++ codes "/logical-channel-weights") true
      (reals (weights_of pc))
    ∷ []

-- The variables without an index.
abbrev pub plain_readers : List KeyVariableReader
plain_readers =
    add_reader (codes "groups") false (
      count record {
        get = λ c. c.processing_groups.groups;
        put = λ v c. record c { processing_groups = record c.processing_groups { groups = v } };
      })
    ∷ add_reader (codes "group-channels") false (
        count record {
          get = λ c. c.processing_groups.channels;
          put = λ v c. record c { processing_groups = record c.processing_groups { channels = v } };
        })
    ∷ add_reader (codes "crossovers") false
        (count record { get = λ c. c.crossovers; put = λ v c. record c { crossovers = v } })
    ∷ add_reader (codes "sub-relative-threshold") true (
        real record {
          get = λ c. c.relative_sub_threshold;
          put = λ v c. record c { relative_sub_threshold = v };
        })
    ∷ add_reader (codes "sub-delay") true
        (real record { get = λ c. c.sub_delay; put = λ v c. record c { sub_delay = v } })
    ∷ add_reader (codes "sub-output") false
        (count record { get = λ c. c.sub_output; put = λ v c. record c { sub_output = v } })
    ∷ add_reader (codes "generate-noise") true (
        integer
          record { get = λ c. c.generate_noise; put = λ v c. record c { generate_noise = v } })
    ∷ []

-- A field of the detection.
abbrev of_detection :
    {T : Type 0} → (DetectionConfig → T) → (T → DetectionConfig → DetectionConfig) → Field T
of_detection get put = record {
  get = λ c. get c.detection;
  put = λ v c. record c { detection = put v c.detection };
}

abbrev pub detection_readers : List KeyVariableReader
detection_readers =
    add_reader (codes "detection.slow-seconds") false (
      real (
        of_detection (λ d. d.maximum_window_seconds)
          (λ v d. record d { maximum_window_seconds = v })))
    ∷ add_reader (codes "detection.fast-seconds") false (
        real (
          of_detection (λ d. d.minimum_window_seconds)
            (λ v d. record d { minimum_window_seconds = v })))
    ∷ add_reader (codes "detection.rms-fast-release-seconds") false (
        real (
          of_detection (λ d. d.rms_fast_release_seconds)
            (λ v d. record d { rms_fast_release_seconds = v })))
    ∷ add_reader (codes "detection.time-constants") false (
        count (of_detection (λ d. d.perceptive_levels) (λ v d. record d { perceptive_levels = v })))
    ∷ add_reader (codes "detection.use-brick-wall-prediction") false (
        integer (
          of_detection (λ d. d.use_brick_wall_prediction)
            (λ v d. record d { use_brick_wall_prediction = v })))
    ∷ []

abbrev pub eqs_reader : KeyVariableReader
eqs_reader =
    add_reader (codes "equalizers") true
      (count record { get = λ c. c.eqs; put = λ v c. record c { eqs = v } })

unfoldable pub indexed_readers : List KeyVariableReader
unfolding add_loop equalizer_readers group_readers weight_readers
indexed_readers =
    add_loop 2 0 equalizer_readers ++ (add_loop 2 0 group_readers ++ add_loop 8 0 weight_readers)

-- The readers that the constructor of `ConfigManager` adds, in this order.
unfoldable pub readers : List KeyVariableReader
unfolding add_loop input_readers indexed_readers
readers =
    plain_readers
    ++ (detection_readers ++ (add_loop 8 0 input_readers ++ (eqs_reader ∷ indexed_readers)))
