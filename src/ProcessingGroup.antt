-- ===== src/ProcessingGroup.antt =====
-- One processing group: `ProcessingGroupConfig` of src/include/speakerman/ProcessingGroupConfig.h and
-- src/ProcessingGroupConfig.cc. `eq` is the array of 2 equalizers; an `int` is its 32 bits. The
-- objects may be the same in the source: every field is read before it is written, so that this makes
-- no difference.
pub mod Bounds
use speakerman.Prelude.Effects.{Effect, returns, undefined}
use speakerman.Prelude.{
  ℕ, ◌+◌, List, [], ◌∷◌, ◌++◌, ltb, if◌then◌else◌, some, replicate, codes, decimal,
}
use speakerman.Double.{Double, quiet_nan}
use speakerman.Unset.{
  unset_size, unset_int, size_unset, int_unset, double_unset,
  set_default_or_boxed_from_source_if_unset, set_default_or_from_source_if_unset,
  set_boxed_from_set_source, set_from_set_source,
}
use speakerman.Named.{Name, is_unset_name, copy_to_name, print_to_name}
use speakerman.Equalizer.{EqualizerConfig, unset_equalizer, set_if_unset}

abbrev pub min_eqs : ℕ
min_eqs = 0

abbrev pub default_eqs : ℕ
default_eqs = 0

abbrev pub max_eqs : ℕ
max_eqs = 2

-- 0.001, 0.1 and 0.9
abbrev pub min_threshold : Double
min_threshold = 0x3f50624dd2f1a9fc

abbrev pub default_threshold : Double
default_threshold = 0x3fb999999999999a

abbrev pub max_threshold : Double
max_threshold = 0x3feccccccccccccd

-- 0, 0 and 0.02
abbrev pub min_delay : Double
min_delay = 0

abbrev pub default_delay : Double
default_delay = 0

abbrev pub max_delay : Double
max_delay = 0x3f947ae147ae147b

abbrev pub default_use_sub : ℕ
default_use_sub = 1

abbrev pub default_mono : ℕ
default_mono = 0

pub record ProcessingGroupConfig : Type 0 where
  pub name : Name
  pub threshold : Double
  pub delay : Double
  pub use_sub : ℕ
  pub mono : ℕ
  pub eq : List EqualizerConfig
  pub eqs : ℕ

-- `ProcessingGroupConfig::unsetConfig`, which is what the constructor makes
abbrev pub unset_group : ProcessingGroupConfig
unset_group = record {
  name = [];
  threshold = quiet_nan;
  delay = quiet_nan;
  use_sub = unset_int;
  mono = unset_int;
  eq = replicate max_eqs unset_equalizer;
  eqs = unset_size;
}

-- The two loops over the equalizers, from index `i` on: the first `eqs` are set from the source, the
-- others unset. (`eqs` is at most their number where this is called.)
unfoldable pub set_eqs :
    (i eqs : ℕ) → List EqualizerConfig → List EqualizerConfig → List EqualizerConfig
set_eqs i eqs (from ∷ froms) (e ∷ es) =
    (if ltb i eqs then set_if_unset from e else unset_equalizer) ∷ set_eqs (i + 1) eqs froms es
set_eqs i eqs _ es = es

-- `setDefaultNumberedName`
unfoldable pub set_group_name : ℕ → Name
unfolding print_to_name decimal
set_group_name group_id = (print_to_name (codes "Processing group " ++ decimal group_id)).0

-- The number of logical channels only sets a local variable that is not used.
unfoldable pub make_validate_based_on :
    ProcessingGroupConfig
    → (group_id logical_channels : ℕ) → ProcessingGroupConfig
    → ProcessingGroupConfig
make_validate_based_on copy_from group_id logical_channels config =
    let eqs' =
      (set_default_or_boxed_from_source_if_unset size_unset config.eqs default_eqs copy_from.eqs
        min_eqs max_eqs).0 in
    record {
      eqs = eqs';
      eq = set_eqs 0 eqs' copy_from.eq config.eq;
      name =
          if is_unset_name config.name
          then if is_unset_name copy_from.name
            then set_group_name (group_id + 1)
            else (copy_to_name (some copy_from.name) config.name).0
          else config.name;
      delay =
          (set_default_or_boxed_from_source_if_unset double_unset config.delay default_delay
            copy_from.delay min_delay max_delay).0;
      threshold =
          (set_default_or_boxed_from_source_if_unset double_unset config.threshold default_threshold
            copy_from.threshold min_threshold max_threshold).0;
      mono =
          (set_default_or_from_source_if_unset int_unset config.mono default_mono copy_from.mono).0;
      use_sub =
          (set_default_or_from_source_if_unset int_unset config.use_sub default_use_sub
            copy_from.use_sub).0;
    }

-- What `copyRuntimeValues` sets, with `eqs'` equalizers
unfoldable pub runtime_values :
    (eqs' : ℕ) → ProcessingGroupConfig → ProcessingGroupConfig → ProcessingGroupConfig
runtime_values eqs' copy_from config = record {
  eqs = eqs';
  eq = set_eqs 0 eqs' copy_from.eq config.eq;
  delay =
      (set_boxed_from_set_source double_unset config.delay copy_from.delay min_delay max_delay).0;
  threshold =
      (set_boxed_from_set_source double_unset config.threshold copy_from.threshold min_threshold
        max_threshold).0;
  mono = (set_from_set_source int_unset config.mono copy_from.mono).0;
  use_sub = (set_from_set_source int_unset config.use_sub copy_from.use_sub).0;
  name =
      if is_unset_name copy_from.name
      then config.name
      else (copy_to_name (some copy_from.name) config.name).0;
}

-- With more equalizers than the array has, the loop runs over its end.
unfoldable pub copy_runtime_values :
    ProcessingGroupConfig → ProcessingGroupConfig → Effect ProcessingGroupConfig
copy_runtime_values copy_from config =
    let eqs' = (set_boxed_from_set_source size_unset config.eqs copy_from.eqs min_eqs max_eqs).0 in
    if ltb max_eqs eqs' then undefined else returns (runtime_values eqs' copy_from config)
