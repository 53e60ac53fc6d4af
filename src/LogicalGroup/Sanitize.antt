-- ===== src/LogicalGroup/Sanitize.antt =====
-- What `sanitize` and `changeRuntimeValues` of src/LogicalGroupConfig.cc leave of a group.
use speakerman.Prelude.{ℕ, ◌≤◌, ◌<◌, ◌≡◌, refl, false, arith, length}
use speakerman.Double.{less, less_irrefl}
use speakerman.Unset.{double_is_unset, double_unset, set_config_value_if_unset}
use speakerman.Unset.Bounds.{IsBoxed, set_boxed_from_set_source-IsBoxed}
use speakerman.Named.{is_unset_name, copy_to_name_lem}
use speakerman.LogicalGroup.{
  Direction, LogicalGroupConfig, min_volume, max_volume, get_port_count, sanitize,
  replace_with_defaults_if_unset, change_runtime_values, set_default_numbered_name,
}
use speakerman.LogicalGroup.Compact.{get_port_count-compact_ports}

-- A group that can be used: it has a name, a volume and ports.
pub record IsUsable (config : LogicalGroupConfig) : Type 0 where
  pub named : is_unset_name config.name ≡ false
  pub has_volume : double_is_unset config.volume ≡ false
  pub has_ports : 0 < get_port_count config.ports

default_name : (n : ℕ) (d : Direction) → is_unset_name (set_default_numbered_name n d) ≡ false
unfolding set_default_numbered_name
default_name n Direction.input = refl
default_name n Direction.output = refl

-- A group with a valid port is usable after `sanitize`: it has a name, a volume and ports, and at
-- least as many valid ports as before.
pub sanitize-IsUsable :
    (direction : Direction) (number : ℕ) (config : LogicalGroupConfig)
    → length config.ports ≡ 8
    → 0 < get_port_count config.ports
    → let config' = sanitize direction number config in
      IsUsable config' × (get_port_count config.ports ≤ get_port_count config'.ports)
unfolding sanitize replace_with_defaults_if_unset set_config_value_if_unset
sanitize-IsUsable d n c e h =
    ground (arith, get_port_count-compact_ports c.ports e, default_name n d)

range : less max_volume min_volume ≡ false
unfolding less
range = refl

-- When values change at runtime, a volume in the range stays in the range, a name within 63 bytes
-- stays within 63 bytes, and the ports stay the same.
pub change_runtime_values_bounds :
    (new config : LogicalGroupConfig)
    → IsBoxed double_unset min_volume max_volume config.volume
    → length config.name ≤ 63
    → let config' = change_runtime_values new config in
      IsBoxed double_unset min_volume max_volume config'.volume
      × (length config'.name ≤ 63)
      × (config'.ports ≡ config.ports)
unfolding change_runtime_values
change_runtime_values_bounds new c b n = ground (
  arith,
  set_boxed_from_set_source-IsBoxed double_unset less_irrefl min_volume max_volume range refl refl
      c.volume new.volume b,
  copy_to_name_lem new.name c.name,
)
