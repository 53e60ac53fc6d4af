-- ===== src/Allocation/World/Chain/Neighbours.antt =====
-- The neighbours of a handle in the list of src/Allocation.cpp.
use speakerman.Prelude.{
  ℕ, ◌≡◌, ◌≢◌, refl, true, false, Bool-cases, inl, inr, Option, none, some, Option-cases, List, [],
  ◌∷◌, ◌==◌, arith,
}
use speakerman.Allocation.{Handle}
use speakerman.Allocation.World.Chain.{IsChain, has, remove}

-- The neighbours of a handle that is not the first are in the list.
pub prev-has :
    (hs : ℕ → Option Handle) (before at : Option ℕ) (xs : List ℕ) (me : ℕ) (h : Handle)
    → IsChain hs before at xs
    → hs me ≡ some h
    → has me xs ≡ true
    → at ≢ some me
    → (p : ℕ) × (h.prev ≡ some p) × (has p xs ≡ true)
prev-has hs before at [] me h c is inside other = absurd (ground arith)
prev-has hs before at (x ∷ xs) me h (here, once, g, gis, prev, rest) is inside other =
    elim (Option-cases g.next) [
      | inl last ↦ absurd (no_rest xs rest last (ground arith))
      | inr (n, next) ↦ elim (Bool-cases (n == me)) [
        | inl this ↦ (x, second xs rest (ground arith), ground arith)
        | inr more ↦
            let (p, q, k) =
              prev-has hs (some x) g.next xs me h rest is (ground arith) (ground arith) in
            (p, q, ground arith)
      ]
    ]
  where
    no_rest : (ys : List ℕ) → IsChain hs (some x) g.next ys → g.next ≡ none → has me ys ≡ true → ⊥
    no_rest [] c e k = cc
    no_rest (y ∷ ys) (e, _, _, _, _, _) k l = cc

    second : (ys : List ℕ) → IsChain hs (some x) g.next ys → g.next ≡ some me → h.prev ≡ some x
    second [] c e = absurd (ground arith)
    second (y ∷ ys) (e, _, k, kis, kprev, _) l = ground arith

pub first_prev :
    (hs : ℕ → Option Handle) (before at : Option ℕ) (xs : List ℕ) (me : ℕ) (h : Handle)
    → IsChain hs before at xs
    → hs me ≡ some h
    → at ≡ some me
    → h.prev ≡ before
first_prev hs before at [] me h c is e = absurd (ground arith)
first_prev hs before at (x ∷ xs) me h (here, once, g, gis, prev, rest) is e = ground arith

pub next-has :
    (hs : ℕ → Option Handle) (before at : Option ℕ) (xs : List ℕ) (n : ℕ)
    → IsChain hs before at xs
    → at ≡ some n
    → has n xs ≡ true
next-has hs before at [] n c e = absurd (ground arith)
next-has hs before at (x ∷ xs) n (here, _, _, _, _, _) e = ground arith

pub next-has_inside :
    (hs : ℕ → Option Handle) (before at : Option ℕ) (xs : List ℕ) (me n : ℕ) (h : Handle)
    → IsChain hs before at xs
    → hs me ≡ some h
    → has me xs ≡ true
    → h.next ≡ some n
    → has n xs ≡ true
next-has_inside hs before at [] me n h c is inside e = absurd (ground arith)
next-has_inside hs before at (x ∷ xs) me n h (here, once, g, gis, prev, rest) is inside e =
    elim (Bool-cases (me == x)) [
      | inl this ↦ let k = next-has hs (some x) g.next xs n rest (ground arith) in ground arith
      | inr other ↦
          let k = next-has_inside hs (some x) g.next xs me n h rest is (ground arith) e in
          ground arith
    ]

pub has-remove : (x me : ℕ) (xs : List ℕ) → has x xs ≡ false → has x (remove me xs) ≡ false
has-remove x me [] out = refl
has-remove x me (y ∷ ys) out = let k = has-remove x me ys in ground (arith, k)
