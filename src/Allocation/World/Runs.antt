-- ===== src/Allocation/World/Runs.antt =====
-- Threads that call the functions of src/Allocation.cpp in any order.
use speakerman.Prelude.{ℕ, ◌≡◌, ◌≢◌, Bool, Option, none, some, arith}
use speakerman.Prelude.Effects.{returns}
use speakerman.Allocation
use speakerman.Allocation.{Handle, is_same}
use speakerman.Allocation.World
use speakerman.Allocation.World.{
  World, update, fetch, put_handle, allocate_static, construct, free_static, disable, reenable,
  not_null_or_throw,
}
use speakerman.Allocation.World.Threads.{IsConsistent}
use speakerman.Allocation.World.Calls.{
  set_owner-Keeps, disown-Keeps, lock_memory-Keeps, unlock_memory-Keeps, reset-Keeps, enter-Keeps,
  leave-Keeps, free_static-Keeps, allocate_static-Keeps,
}
use speakerman.Allocation.World.Life.{IsFresh, free-Keeps, construct-Keeps}

-- A call of a thread that returns. A call that throws or waits changes nothing.
pub data Step (w : World) : World → Type 0 where
  constructs :
      (malloc : ℕ → Option ℕ) (aligned_alloc realloc : ℕ → ℕ → Option ℕ) (size_of me block_size : ℕ)
      (a : ℕ) (w' : World)
      → IsFresh malloc aligned_alloc realloc size_of me w
      → construct malloc aligned_alloc realloc size_of me block_size w ≡ returns (a, w')
      → Step w w'
  news :
      (malloc : ℕ → Option ℕ) (aligned_alloc : ℕ → ℕ → Option ℕ) (me size : ℕ) (aligned : Bool)
      (p : ℕ) (w' : World)
      → allocate_static malloc aligned_alloc me size aligned w ≡ returns (p, w')
      → Step w w'
  deletes : (fuel ptr : ℕ) (w' : World) → free_static fuel ptr w ≡ returns w' → Step w w'
  enters :
      (me : ℕ) (handle : Option ℕ) (w' : World) → World.enter me handle w ≡ returns w' → Step w w'
  leaves : (me : ℕ) (w' : World) → World.leave me w ≡ returns w' → Step w w'
  frees :
      (fuel : ℕ) (handle : Option ℕ) (w' : World)
      → World.free fuel handle w ≡ returns (some w')
      → Step w w'
  sets_owner :
      (handle owner : Option ℕ) (w' : World)
      → World.set_owner w handle owner ≡ returns w'
      → Step w w'
  disowns :
      (handle owner : Option ℕ) (w' : World) → World.disown w handle owner ≡ returns w' → Step w w'
  resets :
      (handle owner : Option ℕ) (b : Bool) (w' : World)
      → World.reset w handle owner ≡ returns (some (b, w'))
      → Step w w'
  locks :
      (handle : Option ℕ) (result : ℕ) (b : Bool) (w' : World)
      → World.lock_memory w handle result ≡ returns (b, w')
      → Step w w'
  unlocks :
      (handle : Option ℕ) (result : ℕ) (b : Bool) (w' : World)
      → World.unlock_memory w handle result ≡ returns (b, w')
      → Step w w'
  disables : (me : ℕ) → Step w (disable me w).1
  reenables : (me : ℕ) → Step w (reenable me w).1
  -- An owner gets the handle that it was constructed with.
  owns : (owner a : ℕ) → Step w (record w { owner_handle = update w.owner_handle owner (some a) })

-- The start of the program.
abbrev pub no_handles : World
no_handles = record {
  handles = λ a. none;
  linked = none;
  owner_handle = λ o. none;
  thread_handle = λ t. none;
  disabled = λ t. 0;
}

pub data Reach : World → Type 0 where
  start : Reach no_handles
  next : {w w' : World} → Reach w → Step w w' → Reach w'

Step-IsConsistent : {w w' : World} → Step w w' → IsConsistent w → IsConsistent w'
unfolding disable reenable
Step-IsConsistent {w} (constructs malloc aligned realloc size_of me size a w' fresh e) c =
    construct-Keeps malloc aligned realloc size_of me size w fresh c (a, w') e
Step-IsConsistent {w} (news malloc aligned_alloc me size aligned p w' e) c =
    allocate_static-Keeps w c malloc aligned_alloc me size aligned (p, w') e
Step-IsConsistent {w} (deletes fuel ptr w' e) c = free_static-Keeps w c fuel ptr w' e
Step-IsConsistent {w} (enters me handle w' e) c = enter-Keeps w c me handle w' e
Step-IsConsistent {w} (leaves me w' e) c = leave-Keeps w c me w' e
Step-IsConsistent {w} (frees fuel handle w' e) c = free-Keeps fuel handle w c (some w') e
Step-IsConsistent {w} (sets_owner handle owner w' e) c = set_owner-Keeps w c handle owner w' e
Step-IsConsistent {w} (disowns handle owner w' e) c = disown-Keeps w c handle owner w' e
Step-IsConsistent {w} (resets handle owner b w' e) c = reset-Keeps w c handle owner (some (b, w')) e
Step-IsConsistent {w} (locks handle result b w' e) c = lock_memory-Keeps w c handle result (b, w') e
Step-IsConsistent {w} (unlocks handle result b w' e) c =
    unlock_memory-Keeps w c handle result (b, w') e
Step-IsConsistent (disables me) c = record {
  entered = c.entered;
  known = c.known;
  at_rest = c.at_rest;
}
Step-IsConsistent (reenables me) c = record {
  entered = c.entered;
  known = c.known;
  at_rest = c.at_rest;
}
Step-IsConsistent (owns owner a) c = record {
  entered = c.entered;
  known = c.known;
  at_rest = c.at_rest;
}

-- After any calls from the start of the program, the handle of a thread is a handle that this thread
-- has entered, every handle that a thread has entered is the one of that thread, and no closed handle
-- is in use.
pub Reach-IsConsistent : {w : World} → Reach w → IsConsistent w
Reach-IsConsistent start = record {
  entered = λ t a e. absurd (ground arith);
  known = λ t a h p q. absurd (ground arith);
  at_rest = λ a h p. absurd (ground arith);
}
Reach-IsConsistent (next r s) = Step-IsConsistent s (Reach-IsConsistent r)

-- After any calls from the start of the program, a thread that uses a handle can leave it: `leave`
-- returns, and no thread uses the handle then.
pub leave-returns :
    {w : World} (t a : ℕ)
    → Reach w
    → w.thread_handle t ≡ some a
    → (w' : World) × (World.leave t w ≡ returns w') × ((u : ℕ) → w'.thread_handle u ≢ some a)
unfolding World.leave fetch Allocation.leave
leave-returns {w} t a r used =
    let c = Reach-IsConsistent r in
    let (h, at, mine) = c.entered t a used in
    (
      record (put_handle w a (some (record h { thread_id = none }))) {
        thread_handle = update w.thread_handle t none;
      },
      ground arith,
      λ u e.
          let other : w.thread_handle u ≡ some a = ground arith in
          let (g, at', its) = c.entered u a other in ground arith,
    )
