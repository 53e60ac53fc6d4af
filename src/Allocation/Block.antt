-- ===== src/Allocation/Block.antt =====
-- What a thread allocates in a block of src/Allocation.cpp, and how the block is used again.
mod Sizes
pub mod Reuse
use speakerman.Prelude.{
  ℕ, zero, suc, ◌+◌, ◌-◌, ◌*◌, ◌/◌, ◌%◌, ◌^◌, ◌≤◌, ◌<◌, ◌≡◌, ◌≢◌, refl, sym, ap, ap₂, ◌∙◌, Bool,
  true, false, Bool-cases, inl, inr, Option, none, some, List, [], ◌∷◌, if◌then◌else◌, ltb, leb,
  ◌==◌, length, All, arith,
}
use speakerman.Prelude.Effects.{Effect, returns, throws, undefined, ◌>>=◌}
use speakerman.Allocation.{
  size_mod, int_mod, alignment, Handle, enabled, roundup, aligned_next, get_this_and_next_alloc,
  belongs_to, allocate, free_ptr, reset, is_same, is_closed,
}
use speakerman.Allocation.Block.Sizes.{padded, roundup-eq}

-- A request is a size, and if an alignment is asked for.
abbrev pub Request : Type 0
Request = ℕ × Bool

-- The sizes and the places of requests that lie one behind the other.
abbrev pub total : List Request → ℕ
total [] = 0
total ((size, _) ∷ rest) = padded size + total rest

abbrev pub places : (start : ℕ) → List Request → List ℕ
places start [] = []
places start ((size, _) ∷ rest) = start ∷ places (start + padded size) rest

-- The requests ask for something, and for less than half of what can be addressed.
abbrev pub AreSizes : List Request → Type 0
AreSizes = All (λ (r : Request). (1 ≤ r.0) × (r.0 < 2 ^ 63))

-- The thread has entered the open block.
pub record IsEntered (me : ℕ) (h : Handle) : Type 0 where
  pub open_state : h.state ≡ enabled
  pub entered : h.thread_id ≡ some me
  pub start_first : h.alloc_start ≤ h.next_alloc
  pub addressed : h.alloc_end < size_mod
  pub counted : h.allocations < int_mod

-- The handle after so many allocations, up to this place.
abbrev pub allocated : Handle → (next count : ℕ) → Handle
allocated h next count = record h {
  next_alloc = next;
  allocations = (h.allocations + count) % int_mod;
}

module _ (malloc : ℕ → Option ℕ) (aligned_alloc : ℕ → ℕ → Option ℕ) (me : ℕ) where
  -- Requests one after the other.
  unfoldable pub allocate_all : Handle → List Request → Effect (List ℕ × Handle)
  unfolding allocate
  allocate_all h [] = returns ([], h)
  allocate_all h (r ∷ rest) = allocate malloc aligned_alloc me h r.0 r.1 >>= λ first.
      allocate_all first.1 rest >>= λ others. returns (first.0 ∷ others.0, others.1)

  get_this_and_next_alloc-eq :
      (h : Handle) (size : ℕ) (aligned : Bool)
      → 1 ≤ size
      → size < 2 ^ 63
      → h.next_alloc + padded size < size_mod
      → get_this_and_next_alloc h size aligned ≡ returns (h.next_alloc, h.next_alloc + padded size)
  unfolding get_this_and_next_alloc aligned_next
  get_this_and_next_alloc-eq h size aligned some_size small fits =
      let rounded = roundup-eq size some_size small in
      let positive : (padded size == 0) ≡ false = ground arith in
      let next : (h.next_alloc + padded size) % size_mod ≡ h.next_alloc + padded size =
        omega arith in
      elim aligned
        as (λ b.
          get_this_and_next_alloc h size b ≡ returns (h.next_alloc, h.next_alloc + padded size)) [
            | true ↦ rw (rounded) (rw (positive) (rw next refl))
            | false ↦ rw (rounded) (rw next refl)
          ]

  -- A request that fits takes the next place of the block.
  pub allocate-fits :
      (h : Handle) (size : ℕ) (aligned : Bool)
      → IsEntered me h
      → 1 ≤ size
      → size < 2 ^ 63
      → h.next_alloc + padded size ≤ h.alloc_end
      → allocate malloc aligned_alloc me h size aligned
        ≡ returns (h.next_alloc, allocated h (h.next_alloc + padded size) 1)
  unfolding allocate
  allocate-fits h size aligned v some_size small fits =
      let addressed = v.addressed in
      let place = get_this_and_next_alloc-eq h size aligned some_size small (omega arith) in
      let inside : leb (h.next_alloc + padded size) h.alloc_end ≡ true = ground arith in
      let is_open : is_closed h.state ≡ false = ap is_closed v.open_state in
      let mine : is_same h.thread_id (some me) ≡ true =
        ap (λ t. is_same t (some me)) v.entered ∙ ground arith in
      rw place (rw is_open (rw mine (rw inside refl)))

  allocated-IsEntered :
      (h : Handle) (next count : ℕ)
      → h.alloc_start ≤ next
      → IsEntered me h
      → IsEntered me (allocated h next count)
  allocated-IsEntered h next count k v = record {
    open_state = v.open_state;
    entered = v.entered;
    start_first = k;
    addressed = v.addressed;
    counted = omega arith;
  }

  allocated-allocated :
      (h : Handle) (next next' a b : ℕ)
      → allocated (allocated h next a) next' b ≡ allocated h next' (a + b)
  allocated-allocated h next next' a b =
      let same : ((h.allocations + a) % int_mod + b) % int_mod
          ≡ (h.allocations + (a + b)) % int_mod =
        omega arith in
      ap (λ n. record h { next_alloc = next'; allocations = n }) same

  allocated_none : (h : Handle) → h.allocations < int_mod → h ≡ allocated h (h.next_alloc + 0) 0
  allocated_none h counted =
      let next : h.next_alloc ≡ h.next_alloc + 0 = omega arith in
      let count : h.allocations ≡ (h.allocations + 0) % int_mod = omega arith in
      ap₂ (λ n c. record h { next_alloc = n; allocations = c }) next count

  -- If all requests fit in the block, then they take its places one behind the other, whatever
  -- alignment they ask for, and each is counted.
  pub allocate_all-places :
      (requests : List Request) (h : Handle)
      → IsEntered me h
      → AreSizes requests
      → h.next_alloc + total requests ≤ h.alloc_end
      → allocate_all h requests
        ≡ returns (
          places h.next_alloc requests,
          allocated h (h.next_alloc + total requests) (length requests),
        )
  unfolding allocate_all
  allocate_all-places [] h v s fits = ap (λ g. returns ([], g)) (allocated_none h v.counted)
  allocate_all-places ((size, aligned) ∷ rest) h v s fits =
      let now = allocate-fits h size aligned v s.0.0 s.0.1 (omega arith) in
      let next = h.next_alloc + padded size in
      let h1 = allocated h next 1 in
      let start = v.start_first in
      let later =
        allocate_all-places rest h1 (allocated-IsEntered h next 1 (omega arith) v) s.1
          (omega arith) in
      let end : next + total rest ≡ h.next_alloc + (padded size + total rest) = omega arith in
      let count : 1 + length rest ≡ suc (length rest) = omega arith in
      let last : allocated h1 (next + total rest) (length rest)
          ≡ allocated h (h.next_alloc + (padded size + total rest)) (suc (length rest)) =
        allocated-allocated h next (next + total rest) 1 (length rest)
        ∙ ap₂ (allocated h) end count in
      rw now (rw later (ap (λ g. returns (h.next_alloc ∷ places next rest, g)) last))
