-- ===== src/JsonReader/Paths/Text.antt =====
-- The texts that `getTotalString` of src/JsonCanonicalReader.cc gives.
use speakerman.Prelude.{
  ℕ, ◌≤◌, ◌≡◌, refl, sym, ap, ◌∙◌, false, List, [], ◌∷◌, ◌++◌, if◌then◌else◌, ◌==◌, length,
  append-nil, append_assoc, All, arith,
}
use speakerman.JsonReader.{with_separators, keep_byte, trim_end, trim_after_first}

-- The parts of a path, each with its end.
abbrev pub ended : List (List ℕ) → List ℕ
ended [] = []
ended (part ∷ parts) = (part ++ 0 ∷ []) ++ ended parts

-- The parts of a path with separators between.
abbrev pub join : (separator : ℕ) → List (List ℕ) → List ℕ
join separator [] = []
join separator (part ∷ []) = part
join separator (part ∷ next ∷ parts) = part ++ separator ∷ join separator (next ∷ parts)

-- A part has bytes, and none of them is zero or the separator.
abbrev pub IsPart : (separator : ℕ) → List ℕ → Type 0
IsPart separator part =
    (1 ≤ length part) × All (λ c. ((c == 0) ≡ false) × ((c == separator) ≡ false)) part

with_separators-append :
    (separator : ℕ) (xs ys : List ℕ)
    → with_separators separator (xs ++ ys)
      ≡ with_separators separator xs ++ with_separators separator ys
unfolding with_separators
with_separators-append separator [] ys = refl
with_separators-append separator (x ∷ xs) ys =
    ap (λ l. (if x == 0 then separator else x) ∷ l) (with_separators-append separator xs ys)

with_separators-part :
    (separator : ℕ) (part : List ℕ)
    → All (λ c. ((c == 0) ≡ false) × ((c == separator) ≡ false)) part
    → with_separators separator part ≡ part
unfolding with_separators
with_separators-part separator [] p = refl
with_separators-part separator (c ∷ cs) p =
    rw (p.0.0) (ap (λ l. c ∷ l) (with_separators-part separator cs p.1))

-- Only a separator at the end is removed.
trim_end-part :
    (separator : ℕ) (part rest : List ℕ)
    → All (λ c. ((c == 0) ≡ false) × ((c == separator) ≡ false)) part
    → trim_end separator (part ++ rest) ≡ part ++ trim_end separator rest
unfolding trim_end keep_byte
trim_end-part separator [] rest p = refl
trim_end-part separator (c ∷ cs) rest p =
    let later = trim_end-part separator cs rest p.1 in
    ap (keep_byte separator c) later ∙ kept (cs ++ trim_end separator rest)
  where
    kept : (l : List ℕ) → keep_byte separator c l ≡ c ∷ l
    kept [] = rw (p.0.1, keep_byte) refl
    kept (d ∷ ds) = refl

trim_end-separator :
    (separator c : ℕ) (cs rest : List ℕ)
    → trim_end separator rest ≡ c ∷ cs
    → trim_end separator (separator ∷ rest) ≡ separator ∷ c ∷ cs
unfolding trim_end keep_byte
trim_end-separator separator c cs rest e = rw (e, trim_end, keep_byte) refl

trim_end_alone : (separator : ℕ) → trim_end separator (separator ∷ []) ≡ []
unfolding trim_end keep_byte
trim_end_alone separator = ground arith

join-cons :
    (separator : ℕ) (part : List ℕ) (parts : List (List ℕ))
    → IsPart separator part
    → (c : ℕ) × (cs : List ℕ) × (join separator (part ∷ parts) ≡ c ∷ cs)
join-cons separator [] parts p = absurd (omega arith)
join-cons separator (c ∷ cs) [] p = (c, cs, refl)
join-cons separator (c ∷ cs) (next ∷ parts) p =
    (c, cs ++ separator ∷ join separator (next ∷ parts), refl)

with_separators_zero :
    (separator : ℕ) (l : List ℕ)
    → with_separators separator (0 ∷ l) ≡ separator ∷ with_separators separator l
unfolding with_separators
with_separators_zero separator l = refl

with_separators-ended :
    (separator : ℕ) (part : List ℕ) (parts : List (List ℕ))
    → IsPart separator part
    → with_separators separator (ended (part ∷ parts))
      ≡ part ++ separator ∷ with_separators separator (ended parts)
with_separators-ended separator part parts p =
    ap (with_separators separator) (append_assoc part (0 ∷ []) (ended parts))
    ∙ with_separators-append separator part (0 ∷ ended parts)
    ∙ ap (λ l. l ++ with_separators separator (0 ∷ ended parts))
        (with_separators-part separator part p.1)
    ∙ ap (λ l. part ++ l) (with_separators_zero separator (ended parts))

trim_end-ended :
    (separator : ℕ) (part : List ℕ) (parts : List (List ℕ))
    → All (IsPart separator) (part ∷ parts)
    → trim_end separator (with_separators separator (ended (part ∷ parts)))
      ≡ join separator (part ∷ parts)
unfolding with_separators
trim_end-ended separator part [] p =
    ap (trim_end separator) (with_separators-ended separator part [] p.0)
    ∙ trim_end-part separator part (separator ∷ []) p.0.1
    ∙ ap (λ l. part ++ l) (trim_end_alone separator)
    ∙ append-nil part
trim_end-ended separator part (next ∷ parts) p =
    let rest = with_separators separator (ended (next ∷ parts)) in
    let later = trim_end-ended separator next parts p.1 in
    let (c, cs, e) = join-cons separator next parts p.1.0 in
    ap (trim_end separator) (with_separators-ended separator part (next ∷ parts) p.0)
    ∙ trim_end-part separator part (separator ∷ rest) p.0.1
    ∙ ap (λ l. part ++ l)
        (trim_end-separator separator c cs rest (later ∙ e) ∙ ap (λ l. separator ∷ l) (sym e))

-- A first byte that is no separator is kept by itself.
trim_after_first-eq :
    (separator c : ℕ) (rest : List ℕ)
    → (c == separator) ≡ false
    → trim_after_first separator (c ∷ rest) ≡ trim_end separator (c ∷ rest)
unfolding trim_after_first trim_end keep_byte
trim_after_first-eq separator c rest other = kept (trim_end separator rest)
  where
    kept : (l : List ℕ) → c ∷ l ≡ keep_byte separator c l
    kept [] = rw (other, keep_byte) refl
    kept (d ∷ ds) = refl

pub trim_after_first-ended :
    (separator : ℕ) (parts : List (List ℕ))
    → All (IsPart separator) parts
    → trim_after_first separator (with_separators separator (ended parts)) ≡ join separator parts
unfolding trim_after_first with_separators
trim_after_first-ended separator [] p = refl
trim_after_first-ended separator ([] ∷ parts) p = absurd (omega arith)
trim_after_first-ended separator ((c ∷ cs) ∷ parts) p =
    let whole = trim_end-ended separator (c ∷ cs) parts p in
    let kept : (if c == 0 then separator else c) ≡ c = rw (p.0.1.0.0) refl in
    let rest = with_separators separator ((cs ++ 0 ∷ []) ++ ended parts) in
    ap (λ d. trim_after_first separator (d ∷ rest)) kept
    ∙ trim_after_first-eq separator c rest p.0.1.0.1
    ∙ ap (λ d. trim_end separator (d ∷ rest)) (sym kept)
    ∙ whole
