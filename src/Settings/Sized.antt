-- ===== src/Settings/Sized.antt =====
-- The arrays, names and numbers of a configuration keep their sizes while src/SpeakermanConfig.cpp reads
-- it.
use speakerman.Prelude.{
  ℕ, zero, suc, ◌+◌, ◌*◌, ◌<◌, ◌≤◌, ◌≡◌, refl, ap, ◌∙◌, Bool, true, false, List, [], ◌∷◌, ◌++◌, All,
  All-append, arith, length, length-append, length-take, length-drop, take, drop,
}
use speakerman.Double.{Double}
use speakerman.Equalizer.{EqualizerConfig}
use speakerman.ProcessingGroup.{ProcessingGroupConfig}
use speakerman.ProcessingGroups
use speakerman.Config.{SpeakermanConfig}
use speakerman.Config.Equalizers.{IsSized}
use speakerman.Settings.Variables.{KeyVariableReader}
use speakerman.Settings.Table.{
  change, add_loop, input_readers, equalizer_readers, group_equalizer_readers, group_readers,
  weight_readers, indexed_readers, eqs_reader, plain_readers, detection_readers, readers,
}
use speakerman.Settings.Bounds.{All-loop}
use speakerman.Settings.Keep.{Keeps, IsSafe}

abbrev Safe : KeyVariableReader → Type 0
Safe = IsSafe IsSized false

-- Settings that have no size.
other :
    (c c' : SpeakermanConfig)
    → c'.eq ≡ c.eq
    → c'.processing_groups.group ≡ c.processing_groups.group
    → c'.input_matrix ≡ c.input_matrix
    → c'.generate_noise ≡ c.generate_noise
    → IsSized c
    → IsSized c'
other c c' e g m n h = record {
  eq_size = rw e h.eq_size;
  group_sizes = rw g h.group_sizes;
  matrix_size = rw m h.matrix_size;
  noise_bits = rw n h.noise_bits;
}

length-change {ℓ} :
    {A : Type ℓ} (i : ℕ) (f : A → A) (xs : List A) → length (change i f xs) ≡ length xs
unfolding change
length-change i f [] = refl
length-change zero f (x ∷ xs) = refl
length-change (suc i) f (x ∷ xs) = ap suc (length-change i f xs)

change-All {ℓ} :
    {A : Type ℓ} (P : A → Type 0) (i : ℕ) (f : A → A) (xs : List A)
    → ((x : A) → P x → P (f x))
    → All P xs
    → All P (change i f xs)
unfolding change
change-All P i f [] k h = tt
change-All P zero f (x ∷ xs) k (h, hs) = (k x h, hs)
change-All P (suc i) f (x ∷ xs) k (h, hs) = (h, change-All P i f xs k hs)

input-IsSafe : (i : ℕ) → All Safe (input_readers i)
unfolding input_readers
input-IsSafe i = (
  λ v c l h. other c _ refl refl refl refl h,
  (λ v c h. other c _ refl refl refl refl h, (λ v c h. other c _ refl refl refl refl h, tt)),
)

with_eq :
    (c : SpeakermanConfig) (e : ℕ) (f : EqualizerConfig → EqualizerConfig)
    → IsSized c
    → IsSized (record c { eq = change e f c.eq })
with_eq c e f h = record {
  eq_size = length-change e f c.eq ∙ h.eq_size;
  group_sizes = h.group_sizes;
  matrix_size = h.matrix_size;
  noise_bits = h.noise_bits;
}

with_group :
    (c : SpeakermanConfig) (g : ℕ) (f : ProcessingGroupConfig → ProcessingGroupConfig)
    → ((p : ProcessingGroupConfig) → ProcessingGroups.IsSized p → ProcessingGroups.IsSized (f p))
    → IsSized c
    → IsSized (record c {
      processing_groups = record c.processing_groups {
        group = change g f c.processing_groups.group;
      };
    })
with_group c g f k h = record {
  eq_size = h.eq_size;
  group_sizes = change-All ProcessingGroups.IsSized g f c.processing_groups.group k h.group_sizes;
  matrix_size = h.matrix_size;
  noise_bits = h.noise_bits;
}

with_weights :
    (c : SpeakermanConfig) (pc : ℕ) (vs : List Double)
    → pc < 8
    → length vs ≡ 8
    → IsSized c
    → IsSized (record c {
      input_matrix = take (8 * pc) c.input_matrix ++ vs ++ drop (8 * pc + 8) c.input_matrix;
    })
with_weights c pc vs k l h = record {
  eq_size = h.eq_size;
  group_sizes = h.group_sizes;
  matrix_size =
      let m = c.input_matrix in
      let size = h.matrix_size in
      omega (
        arith,
        length-append (take (8 * pc) m ++ vs) (drop (8 * pc + 8) m),
        length-append (take (8 * pc) m) vs,
        length-take (8 * pc) m,
        length-drop (8 * pc + 8) m,
      );
  noise_bits = h.noise_bits;
}

equalizer-IsSafe : (e : ℕ) → All Safe (equalizer_readers e)
unfolding equalizer_readers
equalizer-IsSafe e = (
  λ v c h. with_eq c e (λ q. record q { center = v }) h,
  (
    λ v c h. with_eq c e (λ q. record q { gain = v }) h,
    (λ v c h. with_eq c e (λ q. record q { bandwidth = v }) h, tt),
  ),
)

-- Changing an equalizer of a group.
group_equalizer :
    (c : SpeakermanConfig) (g e : ℕ) (f : EqualizerConfig → EqualizerConfig)
    → IsSized c
    → IsSized (record c {
      processing_groups = record c.processing_groups {
        group = change g (λ p. record p { eq = change e f p.eq }) c.processing_groups.group;
      };
    })
group_equalizer c g e f h =
    with_group c g (λ p. record p { eq = change e f p.eq })
      (λ p (n, m). (length-change e f p.eq ∙ n, m)) h

group_equalizer-IsSafe : (g e : ℕ) → All Safe (group_equalizer_readers g e)
unfolding group_equalizer_readers
group_equalizer-IsSafe g e = (
  λ v c h. group_equalizer c g e (λ q. record q { center = v }) h,
  (
    λ v c h. group_equalizer c g e (λ q. record q { gain = v }) h,
    (λ v c h. group_equalizer c g e (λ q. record q { bandwidth = v }) h, tt),
  ),
)

group-IsSafe : (g : ℕ) → All Safe (group_readers g)
unfolding group_readers
group-IsSafe g =
    let equalizers =
      All-loop Safe 2 0 (group_equalizer_readers g) (λ j _. group_equalizer-IsSafe g j) in
    (
      λ v c h. with_group c g (λ p. record p { eqs = v }) (λ p k. k) h,
      (
        λ v c h. with_group c g (λ p. record p { threshold = v }) (λ p k. k) h,
        (
          λ v c h. with_group c g (λ p. record p { delay = v }) (λ p k. k) h,
          (
            λ v c l h. with_group c g (λ p. record p { use_sub = v }) (λ p k. k) h,
            (
              λ v c l h. with_group c g (λ p. record p { mono = v }) (λ p k. k) h,
              (
                λ v c l h. with_group c g (λ p. record p { name = v }) (λ p k. (k.0, l)) h,
                equalizers,
              ),
            ),
          ),
        ),
      ),
    )

weight-IsSafe : (pc : ℕ) → pc < 8 → All Safe (weight_readers pc)
unfolding weight_readers
weight-IsSafe pc k = (λ v c l h. with_weights c pc v k l h, tt)

indexed-IsSafe : All Safe indexed_readers
unfolding indexed_readers
indexed-IsSafe =
    All-append Safe (add_loop 2 0 equalizer_readers)
      (add_loop 2 0 group_readers ++ add_loop 8 0 weight_readers)
      (All-loop Safe 2 0 equalizer_readers (λ j _. equalizer-IsSafe j))
      (All-append Safe (add_loop 2 0 group_readers) (add_loop 8 0 weight_readers)
        (All-loop Safe 2 0 group_readers (λ j _. group-IsSafe j))
        (All-loop Safe 8 0 weight_readers (λ j k. weight-IsSafe j (omega arith))))

with_noise :
    (c : SpeakermanConfig) (v : ℕ) → v ≤ 1 → IsSized c → IsSized (record c { generate_noise = v })
with_noise c v l h = record {
  eq_size = h.eq_size;
  group_sizes = h.group_sizes;
  matrix_size = h.matrix_size;
  noise_bits = omega arith;
}

plain-IsSafe : All Safe plain_readers
plain-IsSafe = (
  λ v c h. other c _ refl refl refl refl h,
  (
    λ v c h. other c _ refl refl refl refl h,
    (
      λ v c h. other c _ refl refl refl refl h,
      (
        λ v c h. other c _ refl refl refl refl h,
        (
          λ v c h. other c _ refl refl refl refl h,
          (λ v c h. other c _ refl refl refl refl h, (λ v c l h. with_noise c v l h, tt)),
        ),
      ),
    ),
  ),
)

detection-IsSafe : All Safe detection_readers
detection-IsSafe = (
  λ v c h. other c _ refl refl refl refl h,
  (
    λ v c h. other c _ refl refl refl refl h,
    (
      λ v c h. other c _ refl refl refl refl h,
      (λ v c h. other c _ refl refl refl refl h, (λ v c l h. other c _ refl refl refl refl h, tt)),
    ),
  ),
)

readers-IsSafe : All Safe readers
unfolding readers
readers-IsSafe =
    let inputs = add_loop 8 0 input_readers in
    let last = eqs_reader ∷ indexed_readers in
    All-append Safe plain_readers (detection_readers ++ (inputs ++ last)) plain-IsSafe (
      All-append Safe detection_readers (inputs ++ last) detection-IsSafe (
        All-append Safe inputs last (All-loop Safe 8 0 input_readers (λ j _. input-IsSafe j))
          (λ v c h. other c _ refl refl refl refl h, indexed-IsSafe)))

-- The same holds at runtime, when fewer variables can change.
pub sized-IsSafe : (runtime : Bool) → All (IsSafe IsSized runtime) readers
sized-IsSafe false = readers-IsSafe
sized-IsSafe true = all readers readers-IsSafe
  where
    one : (b : Bool) (P : Type 0) → P → elim b as (λ _. Type 0) [ true ↦ P | false ↦ Unit ]
    one true P p = p
    one false P p = tt

    all : (rs : List KeyVariableReader) → All Safe rs → All (IsSafe IsSized true) rs
    all [] h = tt
    all (r ∷ rs) (h, hs) = (one r.runtime_changeable (Keeps IsSized r.variable) h, all rs hs)
