-- ===== src/LogicalGroup/Compact.antt =====
-- What `LogicalGroupConfig::compactPorts` of src/LogicalGroupConfig.cc leaves in the array.
use speakerman.Prelude.{
  ℕ, zero, suc, ◌+◌, ◌≡◌, refl, sym, ap, ap₂, ◌∙◌, false, List, [], ◌∷◌, ◌++◌, arith, if◌then◌else◌,
  get_or, set, drop, length, length-append, select, map, append-nil, append_assoc, get_or-append,
  set-append, Bool-cases, inl, inr,
}
use speakerman.Unset.{unset_size}
use speakerman.LogicalGroup.{is_valid_port_number, compact_from, compact_ports, get_port_count}

abbrev pub valid_ports : List ℕ → List ℕ
valid_ports = select is_valid_port_number

-- A port that is not valid is marked as unset.
pub cleaned : ℕ → ℕ
cleaned port = if is_valid_port_number port then port else unset_size

-- What the loop leaves from the write position on, where `junk` lies between that and the index.
overlay : (junk rest : List ℕ) → List ℕ
overlay junk [] = junk
overlay junk (x ∷ rest) =
    if is_valid_port_number x
    then x ∷ overlay (drop 1 (junk ++ x ∷ [])) rest
    else overlay (junk ++ unset_size ∷ []) rest

length-shift : (junk : List ℕ) (x : ℕ) → length (drop 1 (junk ++ x ∷ [])) ≡ length junk
length-shift [] x = refl
length-shift (y ∷ js) x = omega (arith, length-append js (x ∷ []))

-- A valid port is written at the write position, over the first byte of the junk if there is any.
set-kept :
    (kept junk rest : List ℕ) (x : ℕ)
    → set (kept ++ (junk ++ x ∷ rest)) (length kept) x
      ≡ (kept ++ x ∷ []) ++ (drop 1 (junk ++ x ∷ []) ++ rest)
set-kept kept [] rest x = set-append kept rest x x ∙ sym (append_assoc kept (x ∷ []) rest)
set-kept kept (y ∷ js) rest x =
    set-append kept (js ++ x ∷ rest) y x
    ∙ rw (append_assoc kept (x ∷ []) ((js ++ x ∷ []) ++ rest), append_assoc js (x ∷ []) rest) refl

-- The index reads and writes right behind the junk.
get-at :
    (kept junk rest : List ℕ) (x d : ℕ)
    → get_or (kept ++ (junk ++ x ∷ rest)) (length (kept ++ junk)) d ≡ x
get-at kept junk rest x d =
    rw (← append_assoc kept junk (x ∷ rest)) (get_or-append (kept ++ junk) rest x d)

set-at :
    (kept junk rest : List ℕ) (x v : ℕ)
    → set (kept ++ (junk ++ x ∷ rest)) (length (kept ++ junk)) v
      ≡ kept ++ ((junk ++ v ∷ []) ++ rest)
set-at kept junk rest x v = rw (← append_assoc kept junk (x ∷ rest)) (
    set-append (kept ++ junk) rest x v
    ∙ rw (append_assoc kept junk (v ∷ rest), append_assoc junk (v ∷ []) rest) refl)

compact_step :
    (left i n : ℕ) (ports : List ℕ) (x : ℕ)
    → get_or ports i unset_size ≡ x
    → compact_from (suc left) i n ports
      ≡ compact_from left
          (i + 1)
          (if is_valid_port_number x then n + 1 else n)
          (if is_valid_port_number x then set ports n x else set ports i unset_size)
unfolding compact_from
compact_step left i n ports x e =
    ap
      (λ (y : ℕ).
        compact_from left (i + 1) (if is_valid_port_number y then n + 1 else n)
          (if is_valid_port_number y then set ports n y else set ports i unset_size))
      e

abbrev pair : ℕ → List ℕ → ℕ × List ℕ
pair n ports = (n, ports)

compact_from-eq :
    (rest kept junk : List ℕ) (i n : ℕ) (ports : List ℕ)
    → i ≡ length (kept ++ junk)
    → n ≡ length kept
    → ports ≡ kept ++ (junk ++ rest)
    → compact_from (length rest) i n ports
      ≡ (length kept + length (valid_ports rest), kept ++ overlay junk rest)
unfolding compact_from overlay
compact_from-eq [] kept junk i n ports ei en e =
    rw (en, e, append-nil junk) (ap (λ k. (k, kept ++ junk)) (omega arith))
compact_from-eq (x ∷ rest) kept junk i n ports ei en e =
    compact_step (length rest) i n ports x (rw (ei, e) (get-at kept junk rest x unset_size))
    ∙ elim (Bool-cases (is_valid_port_number x)) [
      | inl valid ↦
          let shifted = drop 1 (junk ++ x ∷ []) in
          rw valid (
            compact_from-eq rest (kept ++ x ∷ []) shifted (i + 1) (n + 1) (set ports n x)
              (omega (
                arith,
                length-append kept junk,
                length-append kept (x ∷ []),
                length-append (kept ++ x ∷ []) shifted,
                length-shift junk x,
              ))
              (omega (arith, length-append kept (x ∷ []))) (rw (en, e) (set-kept kept junk rest x))
            ∙ ap₂ pair (omega (arith, length-append kept (x ∷ [])))
                (append_assoc kept (x ∷ []) (overlay shifted rest)))
      | inr invalid ↦ rw invalid (
          compact_from-eq rest kept (junk ++ unset_size ∷ []) (i + 1) n (set ports i unset_size)
            (omega (
              arith,
              length-append kept junk,
              length-append junk (unset_size ∷ []),
              length-append kept (junk ++ unset_size ∷ []),
            ))
            en (rw (ei, e) (set-at kept junk rest x unset_size)))
    ]

-- Dropping as many elements as there are valid ports commutes with the walk of `overlay`.
drop-one : (n : ℕ) (xs : List ℕ) → drop n (drop 1 xs) ≡ drop (suc n) xs
drop-one zero xs = refl
drop-one (suc n) [] = refl
drop-one (suc n) (x ∷ xs) = refl

drop-append-shift :
    (n x : ℕ) (junk ys : List ℕ)
    → drop n (drop 1 (junk ++ x ∷ []) ++ ys) ≡ drop (suc n) (junk ++ x ∷ ys)
drop-append-shift n x [] ys = refl
drop-append-shift n x (y ∷ js) ys = rw (append_assoc js (x ∷ []) ys) refl

overlay-eq :
    (rest junk : List ℕ)
    → overlay junk rest
      ≡ valid_ports rest ++ drop (length (valid_ports rest)) (junk ++ map cleaned rest)
unfolding overlay cleaned
overlay-eq [] junk = sym (append-nil junk)
overlay-eq (x ∷ rest) junk = elim (Bool-cases (is_valid_port_number x)) [
  | inl valid ↦
      rw
        (
          valid,
          overlay-eq rest (drop 1 (junk ++ x ∷ [])),
          drop-append-shift (length (valid_ports rest)) x junk (map cleaned rest),
        )
        refl
  | inr invalid ↦
      rw
        (
          invalid,
          overlay-eq rest (junk ++ unset_size ∷ []),
          append_assoc junk (unset_size ∷ []) (map cleaned rest),
        )
        refl
]

-- `compactPorts` returns the number of valid ports, and moves these to the front of the array in
-- their order. Behind them stays what stood there, with invalid ports replaced by the unset one: a
-- valid port that was moved is not erased at its old place.
pub compact_ports-eq :
    (ports : List ℕ)
    → length ports ≡ 8
    → compact_ports ports ≡ (
      length (valid_ports ports),
      valid_ports ports ++ drop (length (valid_ports ports)) (map cleaned ports),
    )
unfolding compact_ports
compact_ports-eq ports e =
    ap (λ n. compact_from n 0 0 ports) (sym e)
    ∙ compact_from-eq ports [] [] 0 0 ports refl refl refl
    ∙ ap₂ pair (omega arith) (overlay-eq ports [])

pub get_port_count-eq : (ports : List ℕ) → get_port_count ports ≡ length (valid_ports ports)
unfolding get_port_count
get_port_count-eq [] = refl
get_port_count-eq (x ∷ xs) = ground (arith, get_port_count-eq xs)

get_port_count-append :
    (xs ys : List ℕ) → get_port_count (xs ++ ys) ≡ get_port_count xs + get_port_count ys
unfolding get_port_count
get_port_count-append [] ys = omega arith
get_port_count-append (x ∷ xs) ys = ground (arith, get_port_count-append xs ys)

get_port_count-valid_ports :
    (xs : List ℕ) → get_port_count (valid_ports xs) ≡ length (valid_ports xs)
unfolding get_port_count
get_port_count-valid_ports [] = refl
get_port_count-valid_ports (x ∷ xs) = ground (arith, get_port_count-valid_ports xs)

pub unset_is_not_valid : is_valid_port_number unset_size ≡ false
unfolding is_valid_port_number
unset_is_not_valid = refl

get_port_count-drop-cleaned :
    (n : ℕ) (xs : List ℕ) → get_port_count (drop n (map cleaned xs)) ≡ get_port_count (drop n xs)
unfolding get_port_count cleaned
get_port_count-drop-cleaned zero [] = refl
get_port_count-drop-cleaned (suc n) [] = refl
get_port_count-drop-cleaned (suc n) (x ∷ xs) = get_port_count-drop-cleaned n xs
get_port_count-drop-cleaned zero (x ∷ xs) =
    ground (arith, get_port_count-drop-cleaned zero xs, unset_is_not_valid)

-- After `compactPorts` the array counts more ports than `compactPorts` returned: one more for each
-- valid port that stood at or behind that number of places, since it is there twice.
pub get_port_count-compact_ports :
    (ports : List ℕ)
    → length ports ≡ 8
    → let (count, ports') = compact_ports ports in
      (count ≡ get_port_count ports)
      × (get_port_count ports' ≡ count + get_port_count (drop count ports))
get_port_count-compact_ports ports e =
    let n = length (valid_ports ports) in
    rw (compact_ports-eq ports e) (
      sym (get_port_count-eq ports),
      omega (
        arith,
        get_port_count-append (valid_ports ports) (drop n (map cleaned ports)),
        get_port_count-valid_ports ports,
        get_port_count-drop-cleaned n ports,
      ),
    )
