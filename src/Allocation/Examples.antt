-- ===== src/Allocation/Examples.antt =====
-- Runs of the functions of src/Allocation.cpp.
use speakerman.Prelude.{
  ℕ, ◌+◌, ◌-◌, ◌≤◌, ◌≡◌, ◌≢◌, if◌then◌else◌, ◌==◌, refl, subst, Bool, true, false, Option, none,
  some, List, [], ◌∷◌, length, arith,
}
use speakerman.Prelude.Effects.{returns, ◌>>=◌}
use speakerman.Allocation
use speakerman.Allocation.{Handle, enabled, leave, reset, roundup, default_alloc, belongs_to}
use speakerman.Allocation.Block.{
  Request, IsEntered, total, places, allocated, allocate_all, allocate_all-places,
}
use speakerman.Allocation.Block.Reuse.{free_all, after_reset, reset-allocate_all}
use speakerman.Allocation.World
use speakerman.Allocation.World.{
  World, update, fetch, put_handle, modify, link_handle, unlink_handle, allocate_static, block,
  construct, belongs_to_any,
}
use speakerman.Allocation.World.Chain.{IsChain, remove}
use speakerman.Allocation.World.Chain.Unlink.{unlink_handle-IsChain}
use speakerman.Allocation.World.Chain.Find.{first_owner, belongs_to_any-first_owner}
use speakerman.Allocation.World.Threads.{IsConsistent, returns_inj}
use speakerman.Allocation.World.Runs.{
  constructs, enters, Reach, start, next, no_handles, Reach-IsConsistent, leave-returns,
}
use speakerman.Allocation.Guards.{nested_disables, nested_disables_lem}

-- What `malloc` and the like give: the handle of 200 bytes is at 1024, and its block at 4096.
abbrev malloc : ℕ → Option ℕ
malloc size = if size == 200 then some 1024 else some 4096

abbrev other_alloc : ℕ → ℕ → Option ℕ
other_alloc a size = none

-- A block of 128 bytes.
abbrev fresh : Handle
fresh = record {
  data_start = 4096;
  alloc_start = 4096;
  alloc_end = 4224;
  next_alloc = 4096;
  owner = none;
  state = enabled;
  locked_memory = false;
  allocations = 0;
  prev = none;
  next = none;
  thread_id = none;
}

abbrev entered : Handle
entered = record fresh { thread_id = some 1; owner = some 5 }

entered-IsEntered : IsEntered 1 entered
entered-IsEntered = record {
  open_state = refl;
  entered = refl;
  start_first = omega arith;
  addressed = omega arith;
  counted = omega arith;
}

abbrev requests : List Request
requests = (1, false) ∷ (40, true) ∷ []

allocate_all-places_example :
    allocate_all malloc other_alloc 1 entered requests
    ≡ returns (places 4096 requests, allocated entered (4096 + total requests) (length requests))
allocate_all-places_example =
    allocate_all-places malloc other_alloc 1 requests entered entered-IsEntered (omega arith)
      (omega arith)

-- Both are freed.
reset-allocate_all_example :
    (allocate_all malloc other_alloc 1 entered requests >>= λ all.
    leave 1 (free_all all.1 (4096 ∷ 4128 ∷ [])) >>= λ left. reset true (some 5) left)
    ≡ after_reset (record entered { next_alloc = 4096 + total requests }) (length requests - 2)
unfolding belongs_to
reset-allocate_all_example =
    reset-allocate_all malloc other_alloc 1 requests (4096 ∷ 4128 ∷ []) entered 5 entered-IsEntered
      refl refl (omega arith) (omega arith) (omega arith) (omega arith) (refl, (refl, tt))

nested_disables_lem_example :
    ((nested_disables 1 2 no_handles).disabled 1 ≡ 2 - 1)
    × ((malloc : ℕ → Option ℕ) (aligned_alloc : ℕ → ℕ → Option ℕ) (size : ℕ) (aligned : Bool)
        → 2 ≤ 2
        → allocate_static malloc aligned_alloc 1 size aligned (nested_disables 1 2 no_handles) ≡ (
            default_alloc malloc aligned_alloc size aligned >>= λ p.
            returns (p, nested_disables 1 2 no_handles)))
nested_disables_lem_example = nested_disables_lem 1 2 no_handles (omega arith) (omega arith) refl

-- Handles at 20 and 10.
abbrev two_handles : World
two_handles = record no_handles {
  handles =
      update (update (λ a. none) 10 (some (record fresh { prev = some 20 }))) 20
        (some (record fresh { alloc_start = 32; alloc_end = 64; next = some 10 }));
  linked = some 20;
}

two_handles-IsChain : IsChain two_handles.handles none two_handles.linked (20 ∷ 10 ∷ [])
two_handles-IsChain = (refl, refl, _, refl, refl, (refl, refl, _, refl, refl, refl))

unlink_handle-IsChain_example :
    (w' : World) × (unlink_handle 10 two_handles ≡ returns w')
    × IsChain w'.handles none w'.linked (remove 10 (20 ∷ 10 ∷ []))
unlink_handle-IsChain_example =
    unlink_handle-IsChain two_handles 10 (20 ∷ 10 ∷ []) two_handles-IsChain refl

belongs_to_any-first_owner_example :
    belongs_to_any 3 4100 two_handles
    ≡ returns (first_owner two_handles.handles 4100 (20 ∷ 10 ∷ []))
belongs_to_any-first_owner_example =
    belongs_to_any-first_owner two_handles 4100 3 (20 ∷ 10 ∷ []) two_handles-IsChain (omega arith)

-- The world after the construction of a handle, and after a thread entered it.
abbrev one_handle : World
one_handle =
    put_handle (record (put_handle no_handles 1024 (some fresh)) { linked = some 1024 }) 1024
      (some (record fresh { prev = none; next = none }))

abbrev one_entered : World
one_entered = record (put_handle one_handle 1024 (some (record fresh { thread_id = some 1 }))) {
  thread_handle = update no_handles.thread_handle 1 (some 1024);
}

construct_run :
    construct malloc other_alloc other_alloc 200 1 128 no_handles ≡ returns (1024, one_handle)
unfolding construct allocate_static default_alloc block link_handle modify fetch roundup
construct_run = refl

one_handle-Reach : Reach one_handle
unfolding allocate_static default_alloc
one_handle-Reach = next start (
    constructs malloc other_alloc other_alloc 200 1 128 1024 one_handle
      (λ object e. subst (λ (o : ℕ × World). o.1.handles o.0 ≡ none) (returns_inj e) refl)
      construct_run)

one_entered-Reach : Reach one_entered
unfolding World.enter Allocation.enter fetch
one_entered-Reach = next one_handle-Reach (enters 1 (some 1024) one_entered refl)

Reach-IsConsistent_example : IsConsistent one_entered
Reach-IsConsistent_example = Reach-IsConsistent one_entered-Reach

leave-returns_example :
    (w' : World) × (World.leave 1 one_entered ≡ returns w')
    × ((u : ℕ) → w'.thread_handle u ≢ some 1024)
leave-returns_example = leave-returns 1 1024 one_entered-Reach refl
