-- ===== src/LogicalGroup/Examples.antt =====
-- The theorems on one group of src/LogicalGroupConfig.cc at concrete configurations.
use speakerman.Prelude.{◌≡◌, ◌<◌, refl, ℕ, List, [], ◌∷◌, ◌++◌, length, drop, map, arith, codes}
use speakerman.Unset.{unset_size, double_unset}
use speakerman.Unset.Bounds.{IsBoxed}
use speakerman.LogicalGroup.{
  LogicalGroupConfig, default_volume, min_volume, max_volume, is_valid_port_number, compact_ports,
  get_port_count,
}
use speakerman.LogicalGroup.Compact.{valid_ports, cleaned, compact_ports-eq}

-- Ports 1 and 2, each behind a port that is not valid.
abbrev gaps : List ℕ
gaps = 0 ∷ 1 ∷ 0 ∷ 2 ∷ unset_size ∷ unset_size ∷ unset_size ∷ unset_size ∷ []

abbrev group : LogicalGroupConfig
group = record { name = codes "Front"; volume = default_volume; ports = gaps }

-- The first two ports are moved up, and port 2 is left at its old place.
gaps_are_closed :
    compact_ports gaps
    ≡ (2, 1 ∷ 2 ∷ unset_size ∷ 2 ∷ unset_size ∷ unset_size ∷ unset_size ∷ unset_size ∷ [])
unfolding compact_ports is_valid_port_number
gaps_are_closed = refl

has_ports : 0 < get_port_count gaps
unfolding get_port_count is_valid_port_number
has_ports = omega arith

in_range : IsBoxed double_unset min_volume max_volume default_volume
unfolding speakerman.Double.less
in_range = (refl, refl, refl)

compact_ports-eq_example : compact_ports gaps ≡ (
  length (valid_ports gaps),
  valid_ports gaps ++ drop (length (valid_ports gaps)) (map cleaned gaps),
)
compact_ports-eq_example = compact_ports-eq gaps refl
