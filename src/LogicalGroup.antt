-- ===== src/LogicalGroup.antt =====
-- One logical group of channels: `LogicalGroupConfig` of src/include/speakerman/LogicalGroupConfig.h
-- and src/LogicalGroupConfig.cc. `ports` is the array of 8 port numbers.
pub mod Compact
pub mod Sanitize
mod Examples
use speakerman.Prelude.{
  ℕ, zero, suc, ◌+◌, ◌*◌, Bool, true, false, ◌&&◌, List, [], ◌∷◌, ◌++◌, leb, ltb, ◌==◌,
  if◌then◌else◌, some, get_or, set, replicate, codes, decimal, length, select, fill_from,
}
use speakerman.Double.{Double, quiet_nan}
use speakerman.Unset.{
  unset_size, double_is_unset, double_unset, clamp, set_config_value_if_unset,
  set_boxed_from_set_source,
}
use speakerman.Named.{Name, is_unset_name, copy_to_name, print_to_name}

-- `enum class Direction`
pub data Direction : Type 0 where
  input output : Direction

abbrev pub max_channels : ℕ
max_channels = 8

abbrev pub default_channels : ℕ
default_channels = 2

abbrev pub min_port_number : ℕ
min_port_number = 1

abbrev pub max_port_number : ℕ
max_port_number = 0xffff

-- 0.0, 1.0 and 40.0
abbrev pub min_volume : Double
min_volume = 0

abbrev pub default_volume : Double
default_volume = 0x3ff0000000000000

abbrev pub max_volume : Double
max_volume = 0x4044000000000000

pub record LogicalGroupConfig : Type 0 where
  pub name : Name
  pub volume : Double
  pub ports : List ℕ

unfoldable pub is_valid_port_number : ℕ → Bool
is_valid_port_number number = leb min_port_number number && ltb number max_port_number

-- The array after `setNoPorts`.
abbrev pub no_ports : List ℕ
no_ports = replicate max_channels unset_size

-- `unsetConfig`, which is the `defaultConfig` too: `createUnsetConfig` on top of the constructor.
abbrev pub unset_config : LogicalGroupConfig
unset_config = record { name = []; volume = quiet_nan; ports = no_ports }

-- The loop of `compactPorts` from index `i` on, with `left` rounds to go.
unfoldable pub compact_from : (left i port_count : ℕ) → List ℕ → ℕ × List ℕ
compact_from zero i port_count ports = (port_count, ports)
compact_from (suc left) i port_count ports =
    let port = get_or ports i unset_size in
    let valid = is_valid_port_number port in
    compact_from left (i + 1) (if valid then port_count + 1 else port_count)
      (if valid then set ports port_count port else set ports i unset_size)

-- `compactPorts` on the array: the count that it returns, and the new array.
unfoldable pub compact_ports : List ℕ → ℕ × List ℕ
unfolding compact_from
compact_ports ports = compact_from max_channels 0 0 ports

unfoldable pub get_port_count : List ℕ → ℕ
get_port_count [] = 0
get_port_count (port ∷ ports) =
    let count = get_port_count ports in if is_valid_port_number port then count + 1 else count

-- `setDefaultNumberedName`: `printToName("Logical %s group %zu", ...)`
unfoldable pub set_default_numbered_name : ℕ → Direction → Name
unfolding print_to_name decimal
set_default_numbered_name number direction =
    (print_to_name (
      codes "Logical "
      ++ (elim direction [ input ↦ codes "input" | output ↦ codes "output" ])
      ++ codes " group "
      ++ decimal number)).0

-- The default ports of a group, written over an array without ports.
unfoldable pub default_ports : ℕ → List ℕ
default_ports group_number =
    let offs = default_channels * group_number + 1 in set (set no_ports 0 offs) 1 (offs + 1)

unfoldable pub replace_with_defaults_if_unset :
    Direction → ℕ → LogicalGroupConfig → LogicalGroupConfig
replace_with_defaults_if_unset direction group_number config =
    let (count, ports) = compact_ports config.ports in
    record {
      name =
          if is_unset_name config.name
          then set_default_numbered_name group_number direction
          else config.name;
      volume =
          (set_config_value_if_unset double_unset config.volume
            (clamp double_unset default_volume min_volume max_volume)).0;
      ports = if count == 0 then default_ports group_number else ports;
    }

unfoldable pub change_runtime_values : LogicalGroupConfig → LogicalGroupConfig → LogicalGroupConfig
change_runtime_values new_runtime_config config = record config {
  volume =
      if double_is_unset new_runtime_config.volume
      then config.volume
      else (set_boxed_from_set_source double_unset config.volume new_runtime_config.volume
          min_volume max_volume).0;
  name =
      if is_unset_name new_runtime_config.name
      then config.name
      else (copy_to_name (some new_runtime_config.name) config.name).0;
}

unfoldable pub sanitize : Direction → ℕ → LogicalGroupConfig → LogicalGroupConfig
sanitize direction group_number config =
    if get_port_count config.ports == 0
    then unset_config
    else replace_with_defaults_if_unset direction group_number config
