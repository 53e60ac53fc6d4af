-- ===== src/Allocation/Block/Reuse.antt =====
-- Freeing what was allocated in a block of src/Allocation.cpp, and resetting the block.
use speakerman.Prelude.{
  ℕ, ◌+◌, ◌-◌, ◌%◌, ◌≤◌, ◌<◌, ◌≡◌, refl, ap, ◌∙◌, Bool, true, false, Option, none, some, List, [],
  ◌∷◌, if◌then◌else◌, ◌==◌, length, All, arith,
}
use speakerman.Prelude.Effects.{Effect, returns, ◌>>=◌}
use speakerman.Allocation.{
  int_mod, Handle, enabled, belongs_to, free_ptr, leave, reset, is_same, is_closed,
}
use speakerman.Allocation.Block.{
  Request, AreSizes, total, allocated, IsEntered, allocate_all, allocate_all-places,
}

-- Freeing addresses one after the other.
unfoldable pub free_all : Handle → List ℕ → Handle
unfolding free_ptr
free_all h [] = h
free_all h (p ∷ ps) = free_all (free_ptr h p).0 ps

abbrev with_count : Handle → ℕ → Handle
with_count h count = record h { allocations = count }

-- Each address of the block is one allocation less.
free_all-eq :
    (h : Handle) (left : ℕ) (ps : List ℕ)
    → h.allocations ≡ left + length ps
    → left + length ps < int_mod
    → All (λ p. belongs_to h p ≡ true) ps
    → free_all h ps ≡ with_count h left
unfolding free_all belongs_to
free_all-eq h left [] count small inside = ap (with_count h) (count ∙ omega arith)
free_all-eq h left (p ∷ ps) count small inside =
    let one_less : (h.allocations + int_mod - 1) % int_mod ≡ left + length ps = omega arith in
    rw (inside.0) (
      rw one_less
        (free_all-eq (with_count h (left + length ps)) left ps refl (omega arith) inside.1))

-- What `reset` gives when so many allocations are left, in a block that no thread uses.
abbrev pub after_reset : Handle → (left : ℕ) → Effect (Option (Bool × Handle))
after_reset h left = returns (
    some (
      if left == 0
      then (true, record h { allocations = left; thread_id = none; next_alloc = h.alloc_start })
      else (false, record h { allocations = left; thread_id = none })))

reset-eq :
    (h : Handle) (owner left : ℕ)
    → h.state ≡ enabled
    → h.owner ≡ some owner
    → reset true (some owner) (record h { allocations = left; thread_id = none })
      ≡ after_reset h left
unfolding reset
reset-eq h owner left s o =
    let is_open : is_closed h.state ≡ false = ap is_closed s in
    let owned : is_same h.owner (some owner) ≡ true =
      ap (λ t. is_same t (some owner)) o ∙ ground arith in
    rw is_open (rw owned refl)

leave-eq :
    (me : ℕ) (h : Handle)
    → h.thread_id ≡ some me
    → leave me h ≡ returns (record h { thread_id = none })
unfolding leave
leave-eq me h t =
    let mine : is_same h.thread_id (some me) ≡ true =
      ap (λ i. is_same i (some me)) t ∙ ground arith in
    rw mine refl

module _ (malloc : ℕ → Option ℕ) (aligned_alloc : ℕ → ℕ → Option ℕ) (me : ℕ) where
  -- After a thread allocated in a block that was empty, freed some of it and left, `reset` empties the
  -- block if as many addresses of the block were freed as were allocated, and else refuses.
  pub reset-allocate_all :
      (requests : List Request) (ps : List ℕ) (h : Handle) (owner : ℕ)
      → IsEntered me h
      → h.owner ≡ some owner
      → h.allocations ≡ 0
      → AreSizes requests
      → h.next_alloc + total requests ≤ h.alloc_end
      → length requests < int_mod
      → length ps ≤ length requests
      → All (λ p. belongs_to h p ≡ true) ps
      → (allocate_all malloc aligned_alloc me h requests >>= λ all.
          leave me (free_all all.1 ps) >>= λ left. reset true (some owner) left)
        ≡ after_reset
            (record h { next_alloc = h.next_alloc + total requests })
            (length requests - length ps)
  unfolding belongs_to
  reset-allocate_all requests ps h owner v o empty sizes fits few freed inside =
      let made = allocate_all-places malloc aligned_alloc me requests h v sizes fits in
      let h1 = allocated h (h.next_alloc + total requests) (length requests) in
      let left = length requests - length ps in
      let free = free_all-eq h1 left ps (omega arith) (omega arith) inside in
      rw made (
        rw free (
          rw (leave-eq me (with_count h1 left) v.entered) (
            reset-eq (record h { next_alloc = h.next_alloc + total requests }) owner left
              v.open_state o)))
