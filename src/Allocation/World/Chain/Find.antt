-- ===== src/Allocation/World/Chain/Find.antt =====
-- Finding the handle of an address among the handles of src/Allocation.cpp.
use speakerman.Prelude.{
  ℕ, zero, suc, ◌<◌, ◌≡◌, refl, Bool, false, Option, none, some, List, [], ◌∷◌, length,
  if◌then◌else◌, arith,
}
use speakerman.Prelude.Effects.{returns}
use speakerman.Allocation.{Handle, belongs_to}
use speakerman.Allocation.World.{World, fetch, belongs_from, belongs_to_any}
use speakerman.Allocation.World.Chain.{IsChain}

-- A handle at an address has this address in its block.
abbrev pub owns : Option Handle → ℕ → Bool
owns none ptr = false
owns (some h) ptr = belongs_to h ptr

-- The first of the handles that has an address in its block.
abbrev pub first_owner : (ℕ → Option Handle) → ℕ → List ℕ → Option ℕ
first_owner hs ptr [] = none
first_owner hs ptr (x ∷ xs) = if owns (hs x) ptr then some x else first_owner hs ptr xs

belongs_from-first_owner :
    (w : World) (ptr fuel : ℕ) (before at : Option ℕ) (xs : List ℕ)
    → IsChain w.handles before at xs
    → length xs < fuel
    → belongs_from fuel at ptr w ≡ returns (first_owner w.handles ptr xs)
unfolding belongs_from fetch
belongs_from-first_owner w ptr zero before at xs c f = absurd (omega arith)
belongs_from-first_owner w ptr (suc fuel) before at [] c f = rw (c, belongs_from) refl
belongs_from-first_owner w ptr (suc fuel) before at (x ∷ xs) (here, once, h, is, prev, rest) f =
    let later = belongs_from-first_owner w ptr fuel (some x) h.next xs rest (omega arith) in
    ground (arith, later)

-- `belongs_to_any` goes through the whole list, with more rounds than there are handles: it gives the first
-- handle that has the address in its block, and none if there is none.
pub belongs_to_any-first_owner :
    (w : World) (ptr fuel : ℕ) (xs : List ℕ)
    → IsChain w.handles none w.linked xs
    → length xs < fuel
    → belongs_to_any fuel ptr w ≡ returns (first_owner w.handles ptr xs)
unfolding belongs_to_any
belongs_to_any-first_owner w ptr fuel xs c f =
    belongs_from-first_owner w ptr fuel none w.linked xs c f
