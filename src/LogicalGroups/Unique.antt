-- ===== src/LogicalGroups/Unique.antt =====
-- What the loop of `validateGroups` of src/LogicalGroupConfig.cc leaves of the ports: no port twice,
-- and at most eight of them.
use speakerman.Prelude.{
  ℕ, zero, suc, ◌+◌, ◌-◌, ◌≤◌, ◌<◌, ◌≡◌, refl, sym, ap, true, false, ◌||◌, List, [], ◌∷◌, ◌++◌,
  arith, length, length-append, set, set-append, replicate, append_assoc, append-nil, Bool-cases,
  inl, inr, ◌==◌, ltb, ltb→lt, if◌then◌else◌,
}
use speakerman.Unset.{unset_size}
use speakerman.LogicalGroup.{LogicalGroupConfig, unset_config, is_valid_port_number, get_port_count}
use speakerman.LogicalGroup.Compact.{valid_ports, get_port_count-eq, unset_is_not_valid}
use speakerman.LogicalGroups.{
  Groups, Usage, contains, validate_port, validate_ports, validate_loop, no_usage,
}

-- All valid ports of the groups, in order.
abbrev pub group_ports : Groups → List ℕ
group_ports [] = []
group_ports (config ∷ group) = valid_ports config.ports ++ group_ports group

-- No element stands twice.
abbrev pub IsDistinct : List ℕ → Type 0
IsDistinct [] = Unit
IsDistinct (x ∷ xs) = (contains x xs ≡ false) × IsDistinct xs

-- The variables after the ports `taken` were kept.
abbrev holding : List ℕ → Usage
holding taken = record {
  used_ports = taken ++ replicate (8 - length taken) unset_size;
  channel_count = length taken;
}

contains-append :
    (x : ℕ) (xs ys : List ℕ) → contains x (xs ++ ys) ≡ (contains x xs || contains x ys)
unfolding contains
contains-append x [] ys = refl
contains-append x (y ∷ xs) ys = ground (arith, contains-append x xs ys)

contains-unset :
    (n x : ℕ) → is_valid_port_number x ≡ true → contains x (replicate n unset_size) ≡ false
unfolding contains
contains-unset zero x v = refl
contains-unset (suc n) x v = ground (arith, contains-unset n x v, unset_is_not_valid)

IsDistinct-append :
    (xs : List ℕ) (x : ℕ) → IsDistinct xs → contains x xs ≡ false → IsDistinct (xs ++ x ∷ [])
unfolding contains
IsDistinct-append [] x d c = (refl, tt)
IsDistinct-append (y ∷ xs) x (c, d) e =
    ground (arith, IsDistinct-append xs x d, contains-append y xs (x ∷ []))

-- What a step keeps: the kept ports are distinct and at most eight.
abbrev IsUsage : List ℕ → Type 0
IsUsage taken = IsDistinct taken × (length taken ≤ 8)

-- What code that turns the variables after `taken` into `u` and gives the ports `out` has kept.
abbrev Kept : List ℕ → List ℕ → Usage → Type 0
Kept taken out u = (u ≡ holding (taken ++ valid_ports out)) × IsUsage (taken ++ valid_ports out)

-- The kept port goes to the first free place.
holding-take :
    (taken : List ℕ) (port : ℕ)
    → length taken < 8
    → record {
      used_ports = set (taken ++ replicate (8 - length taken) unset_size) (length taken) port;
      channel_count = length taken + 1;
    }
      ≡ holding (taken ++ port ∷ [])
holding-take taken port h =
    let more : length (taken ++ port ∷ []) ≡ length taken + 1 =
      omega (arith, length-append taken (port ∷ [])) in
    let free : 8 - length taken ≡ suc (8 - length (taken ++ port ∷ [])) = omega arith in
    let rest = replicate (8 - length (taken ++ port ∷ [])) unset_size in
    let written : set (taken ++ replicate (8 - length taken) unset_size) (length taken) port
        ≡ (taken ++ port ∷ []) ++ rest =
      rw (free, append_assoc taken (port ∷ []) rest) (set-append taken rest unset_size port) in
    λ i. record { used_ports = written i; channel_count = sym more i }

Kept-none : (taken : List ℕ) → IsUsage taken → Kept taken (unset_size ∷ []) (holding taken)
Kept-none taken u = rw (unset_is_not_valid, append-nil taken) (refl, u)

validate_port-Kept :
    (port : ℕ) (taken : List ℕ)
    → IsUsage taken
    → let (port', u) = validate_port port (holding taken) in Kept taken (port' ∷ []) u
unfolding validate_port
validate_port-Kept port taken u = elim (Bool-cases (is_valid_port_number port)) [
  | inr invalid ↦ rw invalid (Kept-none taken u)
  | inl valid ↦ elim (Bool-cases (contains port (holding taken).used_ports)) [
    | inl old ↦ rw (valid, old) (Kept-none taken u)
    | inr new ↦ elim (Bool-cases (ltb (length taken) 8)) [
      | inr full ↦ rw (valid, new, full) (Kept-none taken u)
      | inl room ↦
          rw (valid, new, room, valid)
            (
              holding-take taken port (ltb→lt _ _ room),
              (
                IsDistinct-append taken port u.0 (
                    ground (
                      arith,
                      contains-append port taken (replicate (8 - length taken) unset_size),
                    )),
                omega (arith, length-append taken (port ∷ []), ltb→lt _ _ room),
              ),
            )
    ]
  ]
]

valid_ports-cons :
    (x : ℕ) (xs : List ℕ) → valid_ports (x ∷ xs) ≡ valid_ports (x ∷ []) ++ valid_ports xs
valid_ports-cons x xs = ground arith

validate_ports-Kept :
    (ports taken : List ℕ)
    → IsUsage taken
    → let (ports', u) = validate_ports ports (holding taken) in Kept taken ports' u
unfolding validate_ports
validate_ports-Kept [] taken u = rw (append-nil taken) (refl, u)
validate_ports-Kept (port ∷ ports) taken u =
    let first = validate_port-Kept port taken u in
    let port' = (validate_port port (holding taken)).0 in
    let taken' = taken ++ valid_ports (port' ∷ []) in
    rw first.0 (
      rw
        (
          valid_ports-cons port' (validate_ports ports (holding taken')).0,
          ← append_assoc taken (valid_ports (port' ∷ []))
              (valid_ports (validate_ports ports (holding taken')).0),
        )
        (validate_ports-Kept ports taken' first.1))

-- The same for groups.
abbrev KeptGroups : List ℕ → Groups → Usage → Type 0
KeptGroups taken out u =
    (u ≡ holding (taken ++ group_ports out)) × IsUsage (taken ++ group_ports out)

nil_of_length : (ports : List ℕ) → (get_port_count ports == 0) ≡ true → valid_ports ports ≡ []
nil_of_length ports e = ground (arith, get_port_count-eq ports)

no_valid_ports : valid_ports unset_config.ports ≡ []
unfolding is_valid_port_number
no_valid_ports = refl

-- A group that is left without ports becomes the unset group, which has none either.
valid_ports-validated :
    (config : LogicalGroupConfig) (ports : List ℕ)
    → valid_ports
        (if get_port_count ports == 0 then unset_config else record config { ports = ports }).ports
      ≡ valid_ports ports
valid_ports-validated config ports = elim (Bool-cases (get_port_count ports == 0)) [
  | inl none_left ↦ rw (none_left, nil_of_length ports none_left) no_valid_ports
  | inr some_left ↦ rw some_left refl
]

validate_loop-cons :
    (left : ℕ) (config : LogicalGroupConfig) (group : Groups) (u : Usage)
    → let (ports', u') = validate_ports config.ports u in
      let (group', u'') = validate_loop left group u' in
      validate_loop (suc left) (config ∷ group) u ≡ (
        (if get_port_count ports' == 0 then unset_config else record config { ports = ports' })
            ∷ group',
        u'',
      )
unfolding validate_loop
validate_loop-cons left config group u = refl

validate_loop-Kept :
    (group : Groups) (taken : List ℕ)
    → IsUsage taken
    → let (group', u) = validate_loop (length group) group (holding taken) in
      KeptGroups taken group' u
unfolding validate_loop
validate_loop-Kept [] taken u = rw (append-nil taken) (refl, u)
validate_loop-Kept (config ∷ group) taken u =
    let first = validate_ports-Kept config.ports taken u in
    let ports' = (validate_ports config.ports (holding taken)).0 in
    let taken' = taken ++ valid_ports ports' in
    rw
      (
        validate_loop-cons (length group) config group (holding taken),
        first.0,
        valid_ports-validated config ports',
        ← append_assoc taken (valid_ports ports')
            (group_ports (validate_loop (length group) group (holding taken')).0),
      )
      (validate_loop-Kept group taken' first.1)

-- After the loop of `validateGroups` over all the groups no valid port stands twice in them, there are
-- at most eight, and `channelCount` is their number.
pub validate_loop_lem :
    (group : Groups)
    → let (group', u) = validate_loop (length group) group no_usage in
      IsDistinct (group_ports group')
      × (length (group_ports group') ≤ 8)
      × (u.channel_count ≡ length (group_ports group'))
validate_loop_lem group =
    let (e, (distinct, few)) = validate_loop-Kept group [] (tt, omega arith) in
    (distinct, few, ap (λ (u : Usage). u.channel_count) e)
