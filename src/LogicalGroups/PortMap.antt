-- ===== src/LogicalGroups/PortMap.antt =====
-- The channels of all groups together: `LogicalPortMap`, `createMapping`, `getTotalChannels` and
-- `volumeForChannel` of src/LogicalGroupConfig.cc. A map is its first `count` entries.
pub mod Mapping
pub mod Volumes
use speakerman.Prelude.{
  ℕ, zero, suc, ◌+◌, ◌-◌, ◌%◌, ◌^◌, ◌≤◌, ◌<◌, max, ◌≡◌, refl, sym, ap, ◌∙◌, Bool, true, false, List,
  [], ◌∷◌, ◌++◌, ltb, if◌then◌else◌, arith, length, length-append, length-take, take, take-of_le,
  get_or, replicate, append_assoc, append-nil, Bool-cases, inl, inr, ltb→lt, lt→ltb,
  length-replicate,
}
use native.Mathlib.Decide.{dec_lt}
use native.Mathlib.Nat.{mod-eq_of_lt}
use speakerman.Double.{Double}
use speakerman.Unset.{unset_size}
use speakerman.LogicalGroup.{LogicalGroupConfig, max_channels, is_valid_port_number, get_port_count}
use speakerman.LogicalGroups.{Groups, get_group_count}

pub record LogicalPortMapEntry : Type 0 where
  pub port : ℕ
  pub logical_group : ℕ
  pub group_channel : ℕ
  pub channel : ℕ

-- `wrappedPort`; `port - 1` wraps at zero.
unfoldable pub wrapped_port : LogicalPortMapEntry → ℕ → ℕ
wrapped_port entry maximum_port = max 0 ((entry.port + 2 ^ 64 - 1) % 2 ^ 64) % max 1 maximum_port

abbrev pub LogicalPortMap : Type 0
LogicalPortMap = List LogicalPortMapEntry

unfoldable pub add : LogicalPortMapEntry → LogicalPortMap → LogicalPortMap × Bool
add entry entries =
    if ltb (length entries) max_channels
    then (entries ++ record entry { channel = length entries } ∷ [], true)
    else (entries, false)

-- The inner loop of `createMapping`, for the ports of group `g` from number `c` on.
unfoldable pub map_ports : (g c : ℕ) → List ℕ → LogicalPortMap → LogicalPortMap
map_ports g c [] m = m
map_ports g c (p ∷ ports) m =
    if is_valid_port_number p
    then map_ports g (c + 1) ports
        (add (record { port = p; logical_group = g; group_channel = c; channel = unset_size }) m).0
    else m

-- The outer loop, from group `g` on.
unfoldable pub map_groups : (left g : ℕ) → Groups → LogicalPortMap → LogicalPortMap
map_groups (suc left) g (config ∷ group) m =
    map_groups left (g + 1) group (map_ports g 0 config.ports m)
map_groups _ g _ m = m

unfoldable pub create_mapping : Groups → LogicalPortMap
create_mapping group = map_groups (get_group_count group) 0 group []

-- The loop of `getTotalChannels`.
unfoldable pub count_channels : ℕ → Groups → ℕ
count_channels (suc left) (config ∷ group) = get_port_count config.ports + count_channels left group
count_channels _ _ = 0

unfoldable pub get_total_channels : Groups → ℕ
get_total_channels group = count_channels (get_group_count group) group

-- The loop of `volumeForChannel`, with its variables `startChannel` and `volume`.
unfoldable pub volume_from : (left channel start : ℕ) → Double → Groups → Double
volume_from (suc left) channel start volume (config ∷ group) =
    if ltb channel start
    then volume
    else volume_from left channel (start + get_port_count config.ports) config.volume group
volume_from _ channel start volume _ = volume

unfoldable pub volume_for_channel : ℕ → Groups → Double
volume_for_channel channel group = volume_from (get_group_count group) channel 0 0 group
