-- ===== src/Allocation/World/Chain.antt =====
-- The doubly linked list of the handles of src/Allocation.cpp stands for a list of addresses.
pub mod Neighbours
pub mod Pointers
pub mod Unlink
pub mod Find
use speakerman.Prelude.{
  ℕ, zero, suc, ◌+◌, ◌<◌, ◌≡◌, ◌≢◌, refl, sym, ap, ◌∙◌, subst, Bool, true, false, ◌||◌, Bool-cases,
  inl, inr, Option, none, some, Option-cases, List, [], ◌∷◌, if◌then◌else◌, ◌==◌, ==_iff, length,
  arith,
}
use speakerman.Prelude.Effects.{Effect, returns, throws, undefined, ◌>>=◌}
use speakerman.Allocation.{Handle, belongs_to, is_null, is_same}
use speakerman.Allocation.World.{
  World, update, fetch, put_handle, modify, link_handle, unlink_handle, belongs_from,
  belongs_to_any,
}

abbrev pub has : ℕ → List ℕ → Bool
has a [] = false
has a (x ∷ xs) = (a == x) || has a xs

abbrev pub remove : ℕ → List ℕ → List ℕ
remove a [] = []
remove a (x ∷ xs) = if a == x then xs else x ∷ remove a xs

-- From an address on, with this one before it, the pointers lead through these handles, each once.
abbrev pub IsChain : (ℕ → Option Handle) → (before at : Option ℕ) → List ℕ → Type 0
IsChain hs before at [] = at ≡ none
IsChain hs before at (x ∷ xs) =
    (at ≡ some x)
    × (has x xs ≡ false)
    × (h : Handle) × (hs x ≡ some h)
    × (h.prev ≡ before)
    × IsChain hs (some x) h.next xs

-- A handle elsewhere has no part in it.
pub IsChain-update :
    (hs : ℕ → Option Handle) (before at : Option ℕ) (xs : List ℕ) (a : ℕ) (v : Option Handle)
    → has a xs ≡ false
    → IsChain hs before at xs
    → IsChain (update hs a v) before at xs
IsChain-update hs before at [] a v away c = c
IsChain-update hs before at (x ∷ xs) a v away (here, once, h, is, prev, rest) = (
  here,
  once,
  h,
  ground arith,
  prev,
  IsChain-update hs (some x) h.next xs a v (ground arith) rest,
)

-- The first handle gets another one before it.
pub IsChain-set_prev :
    (hs : ℕ → Option Handle) (before before' : Option ℕ) (x : ℕ) (xs : List ℕ) (h : Handle)
    → hs x ≡ some h
    → IsChain hs before (some x) (x ∷ xs)
    → IsChain (update hs x (some (record h { prev = before' }))) before' (some x) (x ∷ xs)
IsChain-set_prev hs before before' x xs h at (here, once, g, is, prev, rest) =
    let same : some h ≡ some g = sym at ∙ is in
    let follows : h.next ≡ g.next =
      ap (λ o. elim o as (λ _. Option ℕ) [ none ↦ none | some y ↦ y.next ]) same in
    (
      refl,
      once,
      record h { prev = before' },
      ground arith,
      refl,
      IsChain-update hs (some x) h.next xs x (some (record h { prev = before' })) once
          (subst (λ n. IsChain hs (some x) n xs) (sym follows) rest),
    )

-- `link_handle` puts a handle before the others.
pub link_handle-IsChain :
    (w : World) (me : ℕ) (xs : List ℕ) (h : Handle)
    → IsChain w.handles none w.linked xs
    → w.handles me ≡ some h
    → has me xs ≡ false
    → (w' : World) × (link_handle me w ≡ returns w') × IsChain w'.handles none w'.linked (me ∷ xs)
unfolding link_handle modify fetch
link_handle-IsChain w me [] h c at new = (
  record (put_handle w me (some (record h { prev = none; next = none }))) { linked = some me },
  rw (c, link_handle) (ground arith),
  (refl, refl, record h { prev = none; next = none }, ground arith, refl, refl),
)
link_handle-IsChain w me (x ∷ xs) h (here, once, g, is, prev, rest) at new =
    let front = record g { prev = some me } in
    let mine = record h { next = some x; prev = none } in
    let hs1 = update w.handles x (some front) in
    (
      record w { handles = update hs1 me (some mine); linked = some me },
      rw (here, link_handle) (ground arith),
      (
        refl,
        new,
        mine,
        ground arith,
        refl,
        IsChain-update hs1 (some me) (some x) (x ∷ xs) me (some mine) new
            (IsChain-set_prev w.handles none (some me) x xs g is (refl, once, g, is, prev, rest)),
      ),
    )
