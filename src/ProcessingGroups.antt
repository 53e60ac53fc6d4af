-- ===== src/ProcessingGroups.antt =====
-- All processing groups: `ProcessingGroupsConfig` of src/include/speakerman/ProcessingGroupConfig.h
-- and src/ProcessingGroupConfig.cc. `group` is the array of 2 groups.
mod Examples
use speakerman.Prelude.Effects.{Effect, returns, ◌>>=◌}
use speakerman.Prelude.{
  ℕ, zero, suc, ◌+◌, ◌*◌, ◌/◌, ◌≤◌, ◌<◌, ◌≡◌, ◌⊎◌, inl, inr, refl, false, List, [], ◌∷◌, ltb, leb,
  ◌==◌, if◌then◌else◌, arith, length, All, Bool-cases,
}
use speakerman.LogicalGroup.{max_channels}
use speakerman.Unset.{size_unset, set_default_or_boxed_from_source_if_unset}
use speakerman.ProcessingGroup.{
  ProcessingGroupConfig, unset_group, make_validate_based_on, copy_runtime_values,
}
use speakerman.ProcessingGroup.Bounds.{
  IsUsable, make_validate_based_on-IsUsable, copy_runtime_values-IsUsable,
}

abbrev pub max_groups : ℕ
max_groups = 2

abbrev pub min_groups : ℕ
min_groups = 1

abbrev pub default_groups : ℕ
default_groups = 1

abbrev pub min_group_channels : ℕ
min_group_channels = 1

abbrev pub default_group_channels : ℕ
default_group_channels = 2

pub record ProcessingGroupsConfig : Type 0 where
  pub groups : ℕ
  pub channels : ℕ
  pub group : List ProcessingGroupConfig

-- The two loops of `sanitizeInitial`, from group `i` on.
unfoldable pub sanitize_from :
    (i groups total_channels : ℕ) → List ProcessingGroupConfig → List ProcessingGroupConfig
sanitize_from i groups total_channels [] = []
sanitize_from i groups total_channels (config ∷ group) =
    (if ltb i groups then make_validate_based_on config i total_channels config else unset_group)
    ∷ sanitize_from (i + 1) groups total_channels group

unfoldable pub sanitize_initial : ℕ → ProcessingGroupsConfig → ProcessingGroupsConfig
sanitize_initial total_channels config =
    let groups' =
      (set_default_or_boxed_from_source_if_unset size_unset config.groups default_groups
        config.groups min_groups max_groups).0 in
    let maximum = if groups' == 0 then max_channels else max_channels / groups' in
    record {
      groups = groups';
      channels =
          (set_default_or_boxed_from_source_if_unset size_unset config.channels
            default_group_channels config.channels min_group_channels maximum).0;
      group = sanitize_from 0 groups' total_channels config.group;
    }

-- The loop of `changeRuntimeValues`, from group `i` on.
unfoldable pub change_from :
    (i groups : ℕ)
    → List ProcessingGroupConfig
    → List ProcessingGroupConfig
    → Effect (List ProcessingGroupConfig)
change_from i groups (new ∷ runtime) (config ∷ group) =
    (if ltb i groups then copy_runtime_values new config else returns config) >>= λ config'.
    change_from (i + 1) groups runtime group >>= λ group'. returns (config' ∷ group')
change_from i groups _ group = returns group

unfoldable pub change_runtime_values :
    ProcessingGroupsConfig → ProcessingGroupsConfig → Effect ProcessingGroupsConfig
change_runtime_values runtime config =
    change_from 0 config.groups runtime.group config.group >>= λ group.
    returns (record config { group = group })

-- The arrays of a group have their sizes, and the name its bound.
abbrev pub IsSized : ProcessingGroupConfig → Type 0
IsSized config = (length config.eq ≡ 2) × (length config.name ≤ 63)

-- The first `groups` groups are usable.
abbrev pub GroupsOk : (i groups : ℕ) → List ProcessingGroupConfig → Type 0
GroupsOk i groups [] = Unit
GroupsOk i groups (config ∷ group) =
    (IsUsable config ⊎ (groups ≤ i)) × GroupsOk (i + 1) groups group

sanitize_from-GroupsOk :
    (i groups total : ℕ) (group : List ProcessingGroupConfig)
    → All IsSized group
    → GroupsOk i groups (sanitize_from i groups total group)
unfolding sanitize_from
sanitize_from-GroupsOk i groups total [] h = tt
sanitize_from-GroupsOk i groups total (config ∷ group) ((e, n), hs) =
    let rest = sanitize_from-GroupsOk (i + 1) groups total group hs in
    ground (arith, make_validate_based_on-IsUsable config config i total e e n)

change_one :
    (i groups : ℕ) (new config : ProcessingGroupConfig)
    → IsSized new
    → IsUsable config ⊎ (groups ≤ i)
    → (config' : ProcessingGroupConfig) × ((if ltb i groups
          then copy_runtime_values new config
          else returns config)
        ≡ returns config')
      × (IsUsable config' ⊎ (groups ≤ i))
change_one i groups new config (e, _) usable = elim (Bool-cases (ltb i groups)) [
  | inr over ↦ (config, rw over refl, inr (ground arith))
  | inl used ↦
      let u : IsUsable config = elim usable [ inl u ↦ u | inr over ↦ absurd (ground arith) ] in
      let (config', made, ok) = copy_runtime_values-IsUsable new config e u in
      (config', rw used made, inl ok)
]

change_from-GroupsOk :
    (i groups : ℕ) (runtime group : List ProcessingGroupConfig)
    → All IsSized runtime
    → GroupsOk i groups group
    → (group' : List ProcessingGroupConfig) × (change_from i groups runtime group ≡ returns group')
      × GroupsOk i groups group'
unfolding change_from
change_from-GroupsOk i groups [] group hr h = (group, refl, h)
change_from-GroupsOk i groups (new ∷ runtime) [] hr h = ([], refl, h)
change_from-GroupsOk i groups (new ∷ runtime) (config ∷ group) (sized, hr) (usable, hs) =
    let (config', made, ok) = change_one i groups new config sized usable in
    let (group', rest, oks) = change_from-GroupsOk (i + 1) groups runtime group hr hs in
    (config' ∷ group', rw (made) (rw rest refl), (ok, oks))

groups_fit :
    (v : ℕ)
    → let n =
        (set_default_or_boxed_from_source_if_unset size_unset v default_groups v min_groups
          max_groups).0 in
      (1 ≤ n) × (n ≤ 2)
unfolding set_default_or_boxed_from_source_if_unset
groups_fit v = ground arith

channels_fit :
    (v groups : ℕ)
    → 1 ≤ groups
    → groups ≤ 2
    → let maximum = if groups == 0 then max_channels else max_channels / groups in
      let n =
        (set_default_or_boxed_from_source_if_unset size_unset v default_group_channels v
          min_group_channels maximum).0 in
      (1 ≤ n) × (groups * n ≤ 8)
unfolding set_default_or_boxed_from_source_if_unset
channels_fit v zero h k = absurd (omega arith)
channels_fit v (suc zero) h k = ground arith
channels_fit v (suc (suc zero)) h k = ground arith
channels_fit v (suc (suc (suc n))) h k = absurd (omega arith)

-- After `sanitizeInitial`, of arrays with their sizes, there are one or two groups with at least one
-- channel each and at most eight channels together, and each of these groups is usable: it has a name, its
-- threshold, its delay and the equalizers that it uses are set and in range, and its other equalizers unset.
pub sanitize_initial-GroupsOk :
    (total : ℕ) (config : ProcessingGroupsConfig)
    → All IsSized config.group
    → let config' = sanitize_initial total config in
      (1 ≤ config'.groups)
      × (config'.groups ≤ 2)
      × (1 ≤ config'.channels)
      × (config'.groups * config'.channels ≤ 8)
      × GroupsOk 0 config'.groups config'.group
unfolding sanitize_initial
sanitize_initial-GroupsOk total config h =
    let groups' =
      (set_default_or_boxed_from_source_if_unset size_unset config.groups default_groups
        config.groups min_groups max_groups).0 in
    let (some_groups, few) = groups_fit config.groups in
    let (some_channels, fit) = channels_fit config.channels groups' some_groups few in
    (some_groups, few, some_channels, fit, sanitize_from-GroupsOk 0 groups' total config.group h)

-- When values change while the program runs, the groups in use stay usable, and the numbers of groups
-- and channels stay the same.
pub change_runtime_values-GroupsOk :
    (runtime config : ProcessingGroupsConfig)
    → All IsSized runtime.group
    → GroupsOk 0 config.groups config.group
    → (group' : List ProcessingGroupConfig) × (change_runtime_values runtime config
        ≡ returns (record config { group = group' }))
      × GroupsOk 0 config.groups group'
unfolding change_runtime_values
change_runtime_values-GroupsOk runtime config h k =
    let (group', made, ok) = change_from-GroupsOk 0 config.groups runtime.group config.group h k in
    (group', rw made refl, ok)
