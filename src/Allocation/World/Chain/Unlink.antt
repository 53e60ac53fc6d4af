-- ===== src/Allocation/World/Chain/Unlink.antt =====
-- Taking a handle out of the list of handles of src/Allocation.cpp.
use speakerman.Prelude.{
  ℕ, ◌≡◌, refl, ap, true, false, Bool-cases, inl, inr, Option, none, some, List, [], ◌∷◌,
  if◌then◌else◌, ◌==◌, arith,
}
use speakerman.Prelude.Effects.{Effect, returns, throws}
use speakerman.Allocation.{Handle, is_null, is_same}
use speakerman.Allocation.World.{World, fetch, modify, unlink_handle}
use speakerman.Allocation.World.Chain.{IsChain, has, remove}
use speakerman.Allocation.World.Chain.Neighbours.{prev-has, first_prev, next-has_inside}
use speakerman.Allocation.World.Chain.Pointers.{
  with_next, with_prev, unlinked, at_after, unlinked-IsChain,
}

-- An address at which there is a handle.
abbrev IsHandle : (ℕ → Option Handle) → Option ℕ → Type 0
IsHandle hs at = (p : ℕ) → at ≡ some p → (g : Handle) × (hs p ≡ some g)

has-IsHandle :
    (hs : ℕ → Option Handle) (before at : Option ℕ) (xs : List ℕ) (a : ℕ)
    → IsChain hs before at xs
    → has a xs ≡ true
    → (g : Handle) × (hs a ≡ some g)
has-IsHandle hs before at [] a c inside = absurd (ground arith)
has-IsHandle hs before at (x ∷ xs) a (here, once, g, gis, prev, rest) inside =
    elim (Bool-cases (a == x)) [
      | inl this ↦ (g, ground arith)
      | inr other ↦ has-IsHandle hs (some x) g.next xs a rest (ground arith)
    ]

with_next-IsHandle :
    (hs : ℕ → Option Handle) (prev v next : Option ℕ)
    → IsHandle hs next
    → IsHandle (with_next hs prev v) next
with_next-IsHandle hs none v next k n e = k n e
with_next-IsHandle hs (some p) v next k n e =
    let (g, is) = k n e in
    elim (Bool-cases (n == p)) [
      | inl this ↦ (record g { next = v }, ground arith)
      | inr other ↦ (g, ground arith)
    ]

fetch-found : (w : World) (a : ℕ) (h : Handle) → w.handles a ≡ some h → fetch w a ≡ returns h
unfolding fetch
fetch-found w a h e = rw (e, fetch) refl

behind-eq :
    (w : World) (prev next : Option ℕ)
    → IsHandle w.handles prev
    → (elim prev as (λ _. Effect World) [
      | none ↦ returns w
      | some p ↦ modify w p (λ q. record q { next = next })
    ])
      ≡ returns (record w { handles = with_next w.handles prev next })
unfolding modify
behind-eq w none next k = refl
behind-eq w (some p) next k = let (g, is) = k p refl in rw (fetch-found w p g is) (rw is refl)

in_front-eq :
    (w : World) (next prev : Option ℕ)
    → IsHandle w.handles next
    → (elim next as (λ _. Effect World) [
      | none ↦ returns w
      | some n ↦ modify w n (λ q. record q { prev = prev })
    ])
      ≡ returns (record w { handles = with_prev w.handles next prev })
unfolding modify
in_front-eq w none prev k = refl
in_front-eq w (some n) prev k = let (g, is) = k n refl in rw (fetch-found w n g is) (rw is refl)

from_start-eq :
    (w : World) (me : ℕ) (xs : List ℕ) (h : Handle)
    → IsChain w.handles none w.linked xs
    → w.handles me ≡ some h
    → has me xs ≡ true
    → (if is_null h.prev
        then (if is_same w.linked (some me) then returns (record w { linked = h.next }) else throws)
        else returns w)
      ≡ returns (record w { linked = at_after w.linked h.next me })
from_start-eq w me xs h c is inside = elim (Bool-cases (is_same w.linked (some me))) [
  | inl first ↦
      let alone : is_null h.prev ≡ true =
        ap is_null (first_prev w.handles none w.linked xs me h c is (ground arith)) in
      rw alone (rw first refl)
  | inr other ↦
      let (p, q, k) = prev-has w.handles none w.linked xs me h c is inside (ground arith) in
      let more : is_null h.prev ≡ false = ap is_null q in rw more (rw other refl)
]

-- `unlink_handle` takes a handle of the list out of it.
pub unlink_handle-IsChain :
    (w : World) (me : ℕ) (xs : List ℕ)
    → IsChain w.handles none w.linked xs
    → has me xs ≡ true
    → (w' : World) × (unlink_handle me w ≡ returns w')
      × IsChain w'.handles none w'.linked (remove me xs)
unfolding unlink_handle
unlink_handle-IsChain w me xs c inside =
    let (h, is) = has-IsHandle w.handles none w.linked xs me c inside in
    let w1 = record w { linked = at_after w.linked h.next me } in
    let w2 = record w1 { handles = with_next w.handles h.prev h.next } in
    let prev_is : IsHandle w.handles h.prev = λ p e.
      elim (Bool-cases (is_same w.linked (some me))) [
        | inl first ↦
            let alone = first_prev w.handles none w.linked xs me h c is (ground arith) in
            absurd (ground arith)
        | inr other ↦
            let (q, at, k) = prev-has w.handles none w.linked xs me h c is inside (ground arith) in
            has-IsHandle w.handles none w.linked xs p c (ground arith)
      ] in
    let next_is : IsHandle w.handles h.next = λ n e.
      has-IsHandle w.handles none w.linked xs n c
        (next-has_inside w.handles none w.linked xs me n h c is inside e) in
    (
      record w2 { handles = unlinked w.handles h.prev h.next },
      rw (fetch-found w me h is) (
          rw (from_start-eq w me xs h c is inside) (
            rw (behind-eq w1 h.prev h.next prev_is) (
              in_front-eq w2 h.next h.prev
                (with_next-IsHandle w.handles h.prev h.next h.next next_is)))),
      unlinked-IsChain w.handles none w.linked xs me h c is inside (λ p e. cc),
    )
