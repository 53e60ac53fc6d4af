-- ===== src/Allocation/World/Chain/Pointers.antt =====
-- The pointers that are changed when a handle leaves the list of src/Allocation.cpp.
use speakerman.Prelude.{
  ℕ, ◌≡◌, refl, sym, ap, ◌∙◌, subst, true, false, Bool-cases, inl, inr, Option, none, some, List,
  [], ◌∷◌, if◌then◌else◌, ◌==◌, arith,
}
use speakerman.Allocation.{Handle, is_same}
use speakerman.Allocation.World.{update}
use speakerman.Allocation.World.Chain.{IsChain, IsChain-update, IsChain-set_prev, has, remove}
use speakerman.Allocation.World.Chain.Neighbours.{prev-has, first_prev, next-has_inside, has-remove}

-- The handles with another pointer at the handle of an address, if there is one.
abbrev pub set_next : Option ℕ → Option Handle → Option Handle
set_next v none = none
set_next v (some h) = some (record h { next = v })

abbrev pub set_prev : Option ℕ → Option Handle → Option Handle
set_prev v none = none
set_prev v (some h) = some (record h { prev = v })

abbrev pub with_next : (ℕ → Option Handle) → Option ℕ → Option ℕ → ℕ → Option Handle
with_next hs none v = hs
with_next hs (some p) v = update hs p (set_next v (hs p))

abbrev pub with_prev : (ℕ → Option Handle) → Option ℕ → Option ℕ → ℕ → Option Handle
with_prev hs none v = hs
with_prev hs (some n) v = update hs n (set_prev v (hs n))

abbrev pub unlinked : (ℕ → Option Handle) → (prev next : Option ℕ) → ℕ → Option Handle
unlinked hs prev next = with_prev (with_next hs prev next) next prev

abbrev pub IsOutside : Option ℕ → List ℕ → Type 0
IsOutside before xs = (p : ℕ) → before ≡ some p → has p xs ≡ false

-- After the first handle was taken out.
pub unlinked-IsChain_tail :
    (hs : ℕ → Option Handle) (before next : Option ℕ) (me : ℕ) (xs : List ℕ)
    → IsChain hs (some me) next xs
    → IsOutside before xs
    → IsChain (unlinked hs before next) before next xs
unlinked-IsChain_tail hs before next me [] c out = c
unlinked-IsChain_tail hs none next me (n ∷ ys) (here, once, g, is, prev, rest) out =
    subst (λ k. IsChain (unlinked hs none k) none k (n ∷ ys)) (sym here)
      (subst (λ o. IsChain (update hs n (set_prev none o)) none (some n) (n ∷ ys)) (sym is)
        (IsChain-set_prev hs (some me) none n ys g is (refl, once, g, is, prev, rest)))
unlinked-IsChain_tail hs (some p) next me (n ∷ ys) (here, once, g, is, prev, rest) out =
    let hs1 = with_next hs (some p) (some n) in
    let is1 : hs1 n ≡ some g = let o = out p refl in ground arith in
    let c1 =
      IsChain-update hs (some me) (some n) (n ∷ ys) p (set_next (some n) (hs p)) (out p refl)
        (refl, once, g, is, prev, rest) in
    subst (λ k. IsChain (unlinked hs (some p) k) (some p) k (n ∷ ys)) (sym here)
      (subst (λ o. IsChain (update hs1 n (set_prev (some p) o)) (some p) (some n) (n ∷ ys))
        (sym is1) (IsChain-set_prev hs1 (some me) (some p) n ys g is1 c1))

-- The address after a handle was taken out.
abbrev pub at_after : (at next : Option ℕ) → ℕ → Option ℕ
at_after at next me = if is_same at (some me) then next else at

pub with_prev-outside :
    (hs : ℕ → Option Handle) (next v : Option ℕ) (x : ℕ)
    → ((n : ℕ) → next ≡ some n → (x == n) ≡ false)
    → with_prev hs next v x ≡ hs x
with_prev-outside hs none v x apart = refl
with_prev-outside hs (some n) v x apart = let a = apart n refl in ground arith

pub with_next-outside :
    (hs : ℕ → Option Handle) (prev v : Option ℕ) (x p : ℕ)
    → prev ≡ some p
    → (x == p) ≡ false
    → with_next hs prev v x ≡ hs x
with_next-outside hs none v x p e apart = refl
with_next-outside hs (some q) v x p e apart = ground arith

pub with_next_self :
    (hs : ℕ → Option Handle) (prev v : Option ℕ) (x : ℕ) (g : Handle)
    → hs x ≡ some g
    → prev ≡ some x
    → with_next hs prev v x ≡ some (record g { next = v })
with_next_self hs none v x g is e = cc
with_next_self hs (some q) v x g is e = ground arith

-- A handle before the one that is taken out only gets the address after it.
pub unlinked-before :
    (hs : ℕ → Option Handle) (x me : ℕ) (xs : List ℕ) (h g : Handle)
    → IsChain hs (some x) g.next xs
    → hs me ≡ some h
    → has me xs ≡ true
    → has x xs ≡ false
    → hs x ≡ some g
    → unlinked hs h.prev h.next x ≡ some (record g { next = at_after g.next h.next me })
unlinked-before hs x me xs h g rest is inside once gis =
    let apart : (n : ℕ) → h.next ≡ some n → (x == n) ≡ false = λ n e.
      let k = next-has_inside hs (some x) g.next xs me n h rest is inside e in ground arith in
    let kept = with_prev-outside (with_next hs h.prev h.next) h.next h.prev x apart in
    elim (Bool-cases (is_same g.next (some me))) [
      | inl next ↦
          let first = first_prev hs (some x) g.next xs me h rest is (ground arith) in
          kept
          ∙ with_next_self hs h.prev h.next x g gis first
          ∙ ap (λ v. some (record g { next = v })) (ground arith)
      | inr more ↦
          let (p, q, k) = prev-has hs (some x) g.next xs me h rest is inside (ground arith) in
          kept
          ∙ with_next-outside hs h.prev h.next x p q (ground arith)
          ∙ gis
          ∙ ap (λ v. some (record g { next = v })) (ground arith)
    ]

pub unlinked-IsChain :
    (hs : ℕ → Option Handle) (before at : Option ℕ) (xs : List ℕ) (me : ℕ) (h : Handle)
    → IsChain hs before at xs
    → hs me ≡ some h
    → has me xs ≡ true
    → IsOutside before xs
    → IsChain (unlinked hs h.prev h.next) before (at_after at h.next me) (remove me xs)
unlinked-IsChain hs before at [] me h c is inside out = absurd (ground arith)
unlinked-IsChain hs before at (x ∷ xs) me h (here, once, g, gis, prev, rest) is inside out =
    elim (Bool-cases (me == x)) [
      | inl this ↦
          let same : some g ≡ some h = ground arith in
          let before_is : h.prev ≡ before = ground arith in
          let next_is : g.next ≡ h.next = ground arith in
          let first : is_same at (some me) ≡ true = ground arith in
          rw this (
            rw first (
              subst (λ b. IsChain (unlinked hs b h.next) before h.next xs) (sym before_is)
                (unlinked-IsChain_tail hs before h.next x xs
                  (subst (λ k. IsChain hs (some x) k xs) next_is rest)
                  (λ p e. let o = out p e in ground arith))))
      | inr other ↦
          let later =
            unlinked-IsChain hs (some x) g.next xs me h rest is (ground arith)
              (λ p e. ground arith) in
          let first : is_same at (some me) ≡ false = ground arith in
          rw other (
            rw first (
              here,
              has-remove x me xs once,
              record g { next = at_after g.next h.next me },
              unlinked-before hs x me xs h g rest is (ground arith) once gis,
              prev,
              later,
            ))
    ]
