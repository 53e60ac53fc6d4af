-- ===== src/ProcessingGroups/Examples.antt =====
-- The theorems on src/ProcessingGroupConfig.cc at concrete groups.
use speakerman.Prelude.{◌≤◌, ◌*◌, refl, [], ◌∷◌, All, arith, codes, inl}
use speakerman.ProcessingGroup.{ProcessingGroupConfig, unset_group}
use speakerman.ProcessingGroup.Bounds.{make_validate_based_on-IsUsable}
use speakerman.Unset.{set_default_or_boxed_from_source_if_unset}
use speakerman.ProcessingGroups.{
  sanitize_from, ProcessingGroupsConfig, IsSized, GroupsOk, sanitize_initial,
  sanitize_initial-GroupsOk,
}

-- A group with a name and two equalizers.
abbrev named : ProcessingGroupConfig
named = record unset_group { name = codes "Main"; eqs = 2 }

abbrev groups : ProcessingGroupsConfig
groups = record { groups = 2; channels = 7; group = named ∷ unset_group ∷ [] }

groups-IsSized : All IsSized groups.group
groups-IsSized = ((refl, omega arith), ((refl, omega arith), tt))

sanitize_initial-GroupsOk_example :
    let config' = sanitize_initial 2 groups in
    (1 ≤ config'.groups)
    × (config'.groups ≤ 2)
    × (1 ≤ config'.channels)
    × (config'.groups * config'.channels ≤ 8)
    × GroupsOk 0 config'.groups config'.group
sanitize_initial-GroupsOk_example = sanitize_initial-GroupsOk 2 groups groups-IsSized

usable : GroupsOk 0 2 (sanitize_initial 2 groups).group
unfolding sanitize_initial sanitize_from set_default_or_boxed_from_source_if_unset
usable = (
  inl (make_validate_based_on-IsUsable named named 0 2 refl refl (omega arith)),
  (inl (make_validate_based_on-IsUsable unset_group unset_group 1 2 refl refl (omega arith)), tt),
)
