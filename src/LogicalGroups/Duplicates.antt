-- ===== src/LogicalGroups/Duplicates.antt =====
-- A port that `validateGroups` of src/LogicalGroupConfig.cc leaves twice.
use speakerman.Prelude.{ℕ, suc, ◌≡◌, refl, true, false, List, [], ◌∷◌, arith, replicate, ◌==◌}
use speakerman.Unset.{unset_size}
use speakerman.LogicalGroup.{
  Direction, LogicalGroupConfig, unset_config, is_valid_port_number, compact_ports, get_port_count,
  sanitize, replace_with_defaults_if_unset,
}
use speakerman.LogicalGroup.Compact.{unset_is_not_valid}
use speakerman.LogicalGroups.Unique.{group_ports}
use speakerman.LogicalGroups.{
  Groups, get_group_count, sanitize_groups, move_groups, compact_groups, contains, validate_port,
  validate_ports, validate_loop, no_usage, validate_groups,
}

-- Two ports in the front of the array, and three.
abbrev pub ports_of : ℕ → ℕ → ℕ → List ℕ
ports_of a b c = a ∷ b ∷ c ∷ replicate 5 unset_size

module _ (a b : ℕ) (valid_a : is_valid_port_number a ≡ true)
    (valid_b : is_valid_port_number b ≡ true) where
  compact_full : compact_ports (ports_of a a b) ≡ (3, ports_of a a b)
  unfolding compact_ports
  compact_full = ground (arith, unset_is_not_valid)

  compact_gap : compact_ports (ports_of a unset_size b) ≡ (2, ports_of a b b)
  unfolding compact_ports
  compact_gap = ground (arith, unset_is_not_valid)

  compact_twice : compact_ports (ports_of a b b) ≡ (3, ports_of a b b)
  unfolding compact_ports
  compact_twice = ground (arith, unset_is_not_valid)

  count_full : get_port_count (ports_of a a b) ≡ 3
  unfolding get_port_count
  count_full = ground (arith, unset_is_not_valid)

  count_gap : get_port_count (ports_of a unset_size b) ≡ 2
  unfolding get_port_count
  count_gap = ground (arith, unset_is_not_valid)

  count_twice : get_port_count (ports_of a b b) ≡ 3
  unfolding get_port_count
  count_twice = ground (arith, unset_is_not_valid)

  validated :
      (a == b) ≡ false → (validate_ports (ports_of a a b) no_usage).0 ≡ ports_of a unset_size b
  unfolding validate_ports validate_port contains
  validated ne = ground (arith, unset_is_not_valid)

abbrev pub others : Groups
others = replicate 7 unset_config

no_count : get_port_count unset_config.ports ≡ 0
unfolding get_port_count is_valid_port_number
no_count = refl

sanitize-ports :
    (direction : Direction) (number n : ℕ) (c : LogicalGroupConfig) (q : List ℕ)
    → (get_port_count c.ports == 0) ≡ false
    → compact_ports c.ports ≡ (suc n, q)
    → (sanitize direction number c).ports ≡ q
unfolding sanitize replace_with_defaults_if_unset
sanitize-ports direction number n c q e f = ground arith

-- `compactGroups` of a single group with ports.
compact_groups-one :
    (direction : Direction) (c : LogicalGroupConfig) (n k : ℕ) (q r : List ℕ)
    → (get_port_count c.ports == 0) ≡ false
    → compact_ports c.ports ≡ (suc n, q)
    → compact_ports q ≡ (k, r)
    → (get_port_count r == 0) ≡ false
    → compact_groups direction (c ∷ others)
      ≡ (1, record (sanitize direction 0 c) { ports = r } ∷ others)
unfolding compact_groups get_group_count sanitize_groups move_groups
compact_groups-one direction c n k q r e f g h =
    rw (no_count, e) (rw (sanitize-ports direction 0 n c q e f, g) (rw h refl))

validate_loop-one :
    (c : LogicalGroupConfig) (q : List ℕ)
    → (validate_ports c.ports no_usage).0 ≡ q
    → (get_port_count q == 0) ≡ false
    → (validate_loop 1 (c ∷ others) no_usage).0 ≡ record c { ports = q } ∷ others
unfolding validate_loop
validate_loop-one c q e f = rw (e, f) refl

ports_left :
    (a b : ℕ)
    → is_valid_port_number a ≡ true
    → is_valid_port_number b ≡ true
    → group_ports (record unset_config { ports = ports_of a b b } ∷ others) ≡ a ∷ b ∷ b ∷ []
unfolding is_valid_port_number
ports_left a b va vb = rw (va, vb) refl

-- A group with the ports `a`, `a` and `b`, in this order, does not lose its duplicate: the second `a`
-- is removed, the ports are moved up, and `b` stays at its old place too. The validated
-- configuration then has the ports `a`, `b` and `b`.
pub validate_groups-duplicates :
    (direction : Direction) (config : LogicalGroupConfig) (a b : ℕ)
    → is_valid_port_number a ≡ true
    → is_valid_port_number b ≡ true
    → (a == b) ≡ false
    → config.ports ≡ ports_of a a b
    → let (count, group') = validate_groups direction (config ∷ others) in
      (count ≡ 1) × (group_ports group' ≡ a ∷ b ∷ b ∷ [])
unfolding validate_groups
validate_groups-duplicates direction config a b va vb ne e =
    let first =
      compact_groups-one direction config 2 3 (ports_of a a b) (ports_of a a b)
        (rw (e, count_full a b va vb) refl) (rw (e, compact_full a b va vb) refl)
        (compact_full a b va vb) (rw (count_full a b va vb) refl) in
    let c = record (sanitize direction 0 config) { ports = ports_of a unset_size b } in
    let second =
      compact_groups-one direction c 1 3 (ports_of a b b) (ports_of a b b)
        (rw (count_gap a b va vb) refl) (compact_gap a b va vb) (compact_twice a b va vb)
        (rw (count_twice a b va vb) refl) in
    rw
      (
        first,
        validate_loop-one (record c { ports = ports_of a a b }) (ports_of a unset_size b)
            (validated a b va vb ne) (rw (count_gap a b va vb) refl),
        second,
      )
      (refl, ports_left a b va vb)
