-- ===== src/LogicalGroups.antt =====
-- The groups of one direction: `AbstractLogicalGroupsConfig` and `LogicalPortMap` of
-- src/include/speakerman/LogicalGroupConfig.h and src/LogicalGroupConfig.cc. `group` is the array of
-- 8 groups.
pub mod Unique
pub mod Duplicates
pub mod PortMap
mod Examples
use speakerman.Prelude.{
  ℕ, zero, suc, ◌+◌, ◌-◌, ◌%◌, max, Bool, true, false, not, ◌||◌, List, [], ◌∷◌, ◌++◌, ltb, ◌==◌,
  if◌then◌else◌, get_or, set, replicate, fill_from, length,
}
use speakerman.Double.{Double}
use speakerman.Unset.{unset_size}
use speakerman.LogicalGroup.{
  Direction, LogicalGroupConfig, unset_config, max_channels, is_valid_port_number, compact_ports,
  get_port_count, replace_with_defaults_if_unset, change_runtime_values, sanitize,
}

abbrev pub max_groups : ℕ
max_groups = 8

abbrev pub Groups : Type 0
Groups = List LogicalGroupConfig

-- The groups before the first one without ports.
unfoldable pub get_group_count : Groups → ℕ
unfolding get_port_count
get_group_count [] = 0
get_group_count (config ∷ group) =
    let count = get_group_count group in if get_port_count config.ports == 0 then 0 else count + 1

-- The first loop of `compactGroups`, from group `g` on.
unfoldable pub sanitize_groups : Direction → (left g : ℕ) → Groups → Groups
sanitize_groups direction zero g group = group
sanitize_groups direction (suc left) g [] = []
sanitize_groups direction (suc left) g (config ∷ group) =
    let config' = sanitize direction g config in
    record config' { ports = (compact_ports config'.ports).1 }
    ∷ sanitize_groups direction left (g + 1) group

-- The second loop of `compactGroups`, from index `i` on.
unfoldable pub move_groups : (left i count : ℕ) → Groups → ℕ × Groups
unfolding get_port_count
move_groups zero i count group = (count, group)
move_groups (suc left) i count group =
    let config = get_or group i unset_config in
    let used = not (get_port_count config.ports == 0) in
    move_groups left (i + 1) (if used then count + 1 else count)
      (if used then set group count config else group)

unfoldable pub compact_groups : Direction → Groups → ℕ × Groups
compact_groups direction group =
    let group_count = get_group_count group in
    let (count, group') =
      move_groups group_count 0 0 (sanitize_groups direction group_count 0 group) in
    (count, fill_from count unset_config group')

-- `std::find(...) != end()`
unfoldable pub contains : ℕ → List ℕ → Bool
contains x [] = false
contains x (y ∷ ys) = y == x || contains x ys

-- The local variables of `validateGroups`.
pub record Usage : Type 0 where
  pub used_ports : List ℕ
  pub channel_count : ℕ

-- The body of the loop over the ports of a group: the new port, and the variables.
unfoldable pub validate_port : ℕ → Usage → ℕ × Usage
unfolding contains
validate_port port u =
    if is_valid_port_number port
    then if contains port u.used_ports
      then (unset_size, u)
      else if ltb u.channel_count max_channels
      then (
        port,
        record {
          used_ports = set u.used_ports u.channel_count port;
          channel_count = u.channel_count + 1;
        },
      )
      else (unset_size, u)
    else (unset_size, u)

unfoldable pub validate_ports : List ℕ → Usage → List ℕ × Usage
validate_ports [] u = ([], u)
validate_ports (port ∷ ports) u =
    let (port', u') = validate_port port u in
    let (ports', u'') = validate_ports ports u' in (port' ∷ ports', u'')

-- The loop over the first groups.
unfoldable pub validate_loop : ℕ → Groups → Usage → Groups × Usage
validate_loop zero group u = (group, u)
validate_loop (suc left) [] u = ([], u)
validate_loop (suc left) (config ∷ group) u =
    let (ports', u') = validate_ports config.ports u in
    let (group', u'') = validate_loop left group u' in
    (
      (if get_port_count ports' == 0 then unset_config else record config { ports = ports' })
          ∷ group',
      u'',
    )

abbrev pub no_usage : Usage
no_usage = record { used_ports = replicate max_channels unset_size; channel_count = 0 }

unfoldable pub validate_groups : Direction → Groups → ℕ × Groups
validate_groups direction group =
    let (group_count, group') = compact_groups direction group in
    compact_groups direction (validate_loop group_count group' no_usage).0

-- `unsetConfig` of the groups
abbrev pub unset_groups : Groups
unset_groups = replicate max_groups unset_config

-- `defaultConfig`, by `createDefaultLogicalGroupsConfig`
unfoldable pub default_groups : Direction → Groups
unfolding replace_with_defaults_if_unset
default_groups direction =
    fill_from 1 unset_config
      (set unset_groups 0 (replace_with_defaults_if_unset direction 0 unset_config))

unfoldable pub sanitize_initial : Direction → Groups → Groups
sanitize_initial direction group =
    let group' = (validate_groups direction group).1 in
    if get_group_count group' == 0 then default_groups direction else group'

-- The loop of `changeRuntimeValues`.
unfoldable pub change_from : ℕ → Groups → Groups → Groups
unfolding change_runtime_values
change_from (suc left) (new ∷ runtime) (config ∷ group) =
    change_runtime_values new config ∷ change_from left runtime group
change_from _ _ group = group

unfoldable pub change_groups : Groups → Groups → Groups
change_groups runtime group = change_from (get_group_count group) runtime group
