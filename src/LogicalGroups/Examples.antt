-- ===== src/LogicalGroups/Examples.antt =====
-- The theorems on all groups of src/LogicalGroupConfig.cc at concrete configurations.
use speakerman.Prelude.{◌≡◌, ◌≤◌, refl, true, ◌∷◌, length, take, codes, replicate}
use speakerman.Unset.{unset_size}
use speakerman.LogicalGroup.{
  LogicalGroupConfig, default_volume, min_volume, is_valid_port_number, get_port_count,
}
use speakerman.LogicalGroups.{Groups, get_group_count, validate_loop, no_usage}
use speakerman.LogicalGroups.Unique.{group_ports, IsDistinct, validate_loop_lem}
use speakerman.LogicalGroups.Duplicates.{ports_of}
use speakerman.LogicalGroups.PortMap.{create_mapping, get_total_channels, count_channels}
use speakerman.LogicalGroups.PortMap.Mapping.{numbered, wanted, create_mapping-eq}

abbrev front : LogicalGroupConfig
front = record { name = codes "Front"; volume = default_volume; ports = ports_of 1 1 2 }

abbrev back : LogicalGroupConfig
back = record { name = codes "Back"; volume = min_volume; ports = ports_of 2 3 unset_size }

abbrev groups : Groups
groups = front ∷ back ∷ replicate 6 (record back { ports = replicate 8 unset_size })

valid_1 : is_valid_port_number 1 ≡ true
unfolding is_valid_port_number
valid_1 = refl

valid_2 : is_valid_port_number 2 ≡ true
unfolding is_valid_port_number
valid_2 = refl

total : get_total_channels groups ≡ 5
unfolding get_total_channels count_channels get_group_count get_port_count is_valid_port_number
total = refl

validate_loop_lem_example :
    let (group', u) = validate_loop 8 groups no_usage in
    IsDistinct (group_ports group')
    × (length (group_ports group') ≤ 8)
    × (u.channel_count ≡ length (group_ports group'))
validate_loop_lem_example = validate_loop_lem groups

create_mapping-eq_example :
    create_mapping groups ≡ numbered 0 (take 8 (wanted 0 (take (get_group_count groups) groups)))
create_mapping-eq_example = create_mapping-eq groups
