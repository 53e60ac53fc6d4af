-- ===== src/LogicalGroups/PortMap/Mapping.antt =====
-- Which entries `createMapping` of src/LogicalGroupConfig.cc gives, and `wrappedPort`.
use speakerman.Prelude.{
  ℕ, zero, suc, ◌+◌, ◌-◌, ◌%◌, ◌^◌, ◌≤◌, ◌<◌, max, ◌≡◌, refl, ap, ◌∙◌, false, List, [], ◌∷◌, ◌++◌,
  ltb, if◌then◌else◌, arith, length, length-append, length-take, take, take-of_le, append_assoc,
  append-nil, Bool-cases, inl, inr, ltb→lt,
}
use native.Mathlib.Nat.{mod-eq_of_lt}
use speakerman.Unset.{unset_size}
use speakerman.LogicalGroup.{is_valid_port_number}
use speakerman.LogicalGroups.{Groups, get_group_count}
use speakerman.LogicalGroups.PortMap.{
  LogicalPortMapEntry, LogicalPortMap, wrapped_port, add, map_ports, map_groups, create_mapping,
}

-- The ports of group `g` up to the first that is not valid.
abbrev entries_of : (g c : ℕ) → List ℕ → LogicalPortMap
entries_of g c [] = []
entries_of g c (p ∷ ports) =
    if is_valid_port_number p
    then record { port = p; logical_group = g; group_channel = c; channel = unset_size }
      ∷ entries_of g (c + 1) ports
    else []

-- Those of all groups, from `g` on.
abbrev pub wanted : ℕ → Groups → LogicalPortMap
wanted g [] = []
wanted g (config ∷ group) = entries_of g 0 config.ports ++ wanted (g + 1) group

-- Entries with their channels counted from `i` on.
abbrev pub numbered : ℕ → LogicalPortMap → LogicalPortMap
numbered i [] = []
numbered i (e ∷ es) = record e { channel = i } ∷ numbered (i + 1) es

length-numbered : (i : ℕ) (es : LogicalPortMap) → length (numbered i es) ≡ length es
length-numbered i [] = refl
length-numbered i (e ∷ es) = ap suc (length-numbered (i + 1) es)

numbered-append :
    (i : ℕ) (es : LogicalPortMap) (e : LogicalPortMapEntry)
    → numbered i (es ++ e ∷ []) ≡ numbered i es ++ record e { channel = i + length es } ∷ []
numbered-append i [] e = ap (λ k. record e { channel = k } ∷ []) (omega arith)
numbered-append i (x ∷ es) e = ap (◌∷◌ (record x { channel = i })) (
    numbered-append (i + 1) es e
    ∙ ap (λ k. numbered (i + 1) es ++ record e { channel = k } ∷ []) (omega arith))

take-append_full {ℓ} :
    {A : Type ℓ} (n : ℕ) (xs ys : List A) → n ≤ length xs → take n (xs ++ ys) ≡ take n xs
take-append_full zero xs ys h = refl
take-append_full (suc n) [] ys h = absurd (omega arith)
take-append_full (suc n) (x ∷ xs) ys h = ap (◌∷◌ x) (take-append_full n xs ys (omega arith))

abbrev held : LogicalPortMap → LogicalPortMap
held es = numbered 0 (take 8 es)

not_less : (a b : ℕ) → b ≤ a → ltb a b ≡ false
not_less a b h = ground arith

add-held :
    (e : LogicalPortMapEntry) (es : LogicalPortMap) → (add e (held es)).0 ≡ held (es ++ e ∷ [])
unfolding add
add-held e es = elim (Bool-cases (ltb (length es) 8)) [
  | inl room ↦
      let lt = ltb→lt _ _ room in
      rw
        (
          take-of_le 8 es (omega arith),
          length-numbered 0 es,
          room,
          take-of_le 8 (es ++ e ∷ []) (omega (arith, length-append es (e ∷ []))),
          numbered-append 0 es e,
        )
        (ap (λ k. numbered 0 es ++ record e { channel = k } ∷ []) (omega arith))
  | inr full ↦
      let many : 8 ≤ length es = ground arith in
      let stays : 8 ≤ length (held es) =
        omega (arith, length-numbered 0 (take 8 es), length-take 8 es) in
      rw (not_less (length (held es)) 8 stays, take-append_full 8 es (e ∷ []) many) refl
]

map_ports-held :
    (g c : ℕ) (ports : List ℕ) (es : LogicalPortMap)
    → map_ports g c ports (held es) ≡ held (es ++ entries_of g c ports)
unfolding map_ports
map_ports-held g c [] es = rw append-nil
map_ports-held g c (p ∷ ports) es = elim (Bool-cases (is_valid_port_number p)) [
  | inr stops ↦ rw (stops, append-nil es) refl
  | inl goes ↦
      let e : LogicalPortMapEntry = record {
        port = p;
        logical_group = g;
        group_channel = c;
        channel = unset_size;
      } in
      rw
        (
          goes,
          add-held e es,
          map_ports-held g (c + 1) ports (es ++ e ∷ []),
          append_assoc es (e ∷ []) (entries_of g (c + 1) ports),
        )
        refl
]

map_groups-held :
    (left g : ℕ) (group : Groups) (es : LogicalPortMap)
    → map_groups left g group (held es) ≡ held (es ++ wanted g (take left group))
unfolding map_groups
map_groups-held zero g group es = rw append-nil
map_groups-held (suc left) g [] es = rw append-nil
map_groups-held (suc left) g (config ∷ group) es =
    rw
      (
        map_ports-held g 0 config.ports es,
        map_groups-held left (g + 1) group (es ++ entries_of g 0 config.ports),
        append_assoc es (entries_of g 0 config.ports) (wanted (g + 1) (take left group)),
      )
      refl

-- The mapping has the first eight ports of the groups before the first group without ports (a group behind
-- that one is left out, even with ports): those of each of these groups up to its first invalid one, in order, each with its group, its place in the group and, as its channel, its
-- place in the mapping.
pub create_mapping-eq :
    (group : Groups)
    → create_mapping group ≡ numbered 0 (take 8 (wanted 0 (take (get_group_count group) group)))
unfolding create_mapping
create_mapping-eq group = map_groups-held (get_group_count group) 0 group []

-- A wrapped port is an index below the number of ports, and that of a port in range is one less.
pub wrapped_port_lem :
    (e : LogicalPortMapEntry) (maximum : ℕ)
    → 0 < e.port
    → e.port ≤ maximum
    → maximum < 2 ^ 64
    → wrapped_port e maximum ≡ e.port - 1
unfolding wrapped_port
wrapped_port_lem e maximum h k l =
    let below : max 0 ((e.port + 2 ^ 64 - 1) % 2 ^ 64) ≡ e.port - 1 = omega arith in
    rw below (mod-eq_of_lt (omega arith))
