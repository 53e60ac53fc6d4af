-- ===== src/Settings/Safe.antt =====
-- Which variables of src/SpeakermanConfig.cpp can change at runtime, and the settings that no such
-- variable changes.
use speakerman.Prelude.{
  ℕ, zero, suc, ◌≡◌, refl, ap, ◌∙◌, true, List, [], ◌∷◌, ◌++◌, All, All-append,
}
use speakerman.Detection.{DetectionConfig}
use speakerman.LogicalGroup.{LogicalGroupConfig}
use speakerman.LogicalGroups.{Groups}
use speakerman.Config.{SpeakermanConfig, Effect}
use speakerman.Config.Runtime.{all_ports}
use speakerman.Settings.Variables.{KeyVariableReader}
use speakerman.Settings.Table.{
  change, add_loop, input_readers, equalizer_readers, group_equalizer_readers, group_readers,
  weight_readers, indexed_readers, eqs_reader, plain_readers, detection_readers, readers,
}
use speakerman.Settings.Bounds.{Ensures, All-loop}
use speakerman.Settings.Keep.{IsSafe}

-- The settings that must not change at runtime.
pub record FixedPart : Type 0 where
  pub groups : ℕ
  pub channels : ℕ
  pub crossovers : ℕ
  pub sub_output : ℕ
  pub detection : DetectionConfig
  pub input_ports : List (List ℕ)
  pub logical_outputs : Groups

abbrev pub fixed_part : SpeakermanConfig → FixedPart
fixed_part c = record {
  groups = c.processing_groups.groups;
  channels = c.processing_groups.channels;
  crossovers = c.crossovers;
  sub_output = c.sub_output;
  detection = c.detection;
  input_ports = all_ports c.logical_inputs;
  logical_outputs = c.logical_outputs;
}

-- Names and volumes of inputs can change.
ports_stay :
    (i : ℕ) (f : LogicalGroupConfig → LogicalGroupConfig) (g : Groups)
    → ((c : LogicalGroupConfig) → (f c).ports ≡ c.ports)
    → all_ports (change i f g) ≡ all_ports g
unfolding change
ports_stay i f [] h = refl
ports_stay zero f (c ∷ g) h = ap (λ p. p ∷ all_ports g) (h c)
ports_stay (suc i) f (c ∷ g) h = ap (◌∷◌ c.ports) (ports_stay i f g h)

with_ports : (c : SpeakermanConfig) → List (List ℕ) → FixedPart
with_ports c ports = record (fixed_part c) { input_ports = ports }

-- The fixed settings are these.
module _ (part : FixedPart) where
  abbrev pub HasFixed : SpeakermanConfig → Type 0
  HasFixed c = fixed_part c ≡ part

  abbrev Safe : KeyVariableReader → Type 0
  Safe = IsSafe HasFixed true

  input-IsSafe : (i : ℕ) → All Safe (input_readers i)
  unfolding input_readers with_ports
  input-IsSafe i = (
    λ v c l h.
        ap (with_ports c) (ports_stay i (λ g. record g { name = v }) c.logical_inputs (λ g. refl))
        ∙ h,
    (
      λ v c h.
          ap (with_ports c)
            (ports_stay i (λ g. record g { volume = v }) c.logical_inputs (λ g. refl))
          ∙ h,
      (tt, tt),
    ),
  )

  equalizer-IsSafe : (e : ℕ) → All Safe (equalizer_readers e)
  unfolding equalizer_readers
  equalizer-IsSafe e = (λ _ _ h. h, (λ _ _ h. h, (λ _ _ h. h, tt)))

  group_equalizer-IsSafe : (g e : ℕ) → All Safe (group_equalizer_readers g e)
  unfolding group_equalizer_readers
  group_equalizer-IsSafe g e = (λ _ _ h. h, (λ _ _ h. h, (λ _ _ h. h, tt)))

  group-IsSafe : (g : ℕ) → All Safe (group_readers g)
  unfolding group_readers
  group-IsSafe g =
      let equalizers =
        All-loop Safe 2 0 (group_equalizer_readers g) (λ j _. group_equalizer-IsSafe g j) in
      (
        λ _ _ h. h,
        (λ _ _ h. h, (λ _ _ h. h, (λ _ _ _ h. h, (λ _ _ _ h. h, (λ _ _ _ h. h, equalizers))))),
      )

  weight-IsSafe : (pc : ℕ) → All Safe (weight_readers pc)
  unfolding weight_readers
  weight-IsSafe pc = (λ _ _ _ h. h, tt)

  indexed-IsSafe : All Safe indexed_readers
  unfolding indexed_readers
  indexed-IsSafe =
      All-append Safe (add_loop 2 0 equalizer_readers)
        (add_loop 2 0 group_readers ++ add_loop 8 0 weight_readers)
        (All-loop Safe 2 0 equalizer_readers (λ j _. equalizer-IsSafe j))
        (All-append Safe (add_loop 2 0 group_readers) (add_loop 8 0 weight_readers)
          (All-loop Safe 2 0 group_readers (λ j _. group-IsSafe j))
          (All-loop Safe 8 0 weight_readers (λ j _. weight-IsSafe j)))

  plain-IsSafe : All Safe plain_readers
  plain-IsSafe = (tt, (tt, (tt, (λ _ _ h. h, (λ _ _ h. h, (tt, (λ _ _ _ h. h, tt)))))))

  detection-IsSafe : All Safe detection_readers
  detection-IsSafe = (tt, (tt, (tt, (tt, (tt, tt)))))

  pub readers-IsSafe : All Safe readers
  unfolding readers
  readers-IsSafe =
      let inputs = add_loop 8 0 input_readers in
      let last = eqs_reader ∷ indexed_readers in
      All-append Safe plain_readers (detection_readers ++ (inputs ++ last)) plain-IsSafe (
        All-append Safe detection_readers (inputs ++ last) detection-IsSafe (
          All-append Safe inputs last (All-loop Safe 8 0 input_readers (λ j _. input-IsSafe j))
            (λ _ _ h. h, indexed-IsSafe)))

-- An effect on a configuration that keeps the fixed part.
abbrev pub KeepsFixed : SpeakermanConfig → Effect SpeakermanConfig → Type 0
KeepsFixed config = Ensures (HasFixed (fixed_part config))
