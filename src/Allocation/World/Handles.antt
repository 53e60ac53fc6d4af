-- ===== src/Allocation/World/Handles.antt =====
-- The functions of one handle of src/Allocation.cpp that leave its thread as it is, and do not close it
-- while a thread uses it.
use speakerman.Prelude.{ℕ, ◌≡◌, Bool, false, not, ◌&&◌, Option, some, arith}
use speakerman.Prelude.Effects.{returns}
use speakerman.Allocation
use speakerman.Allocation.{
  Handle, is_null, is_same, is_closed, get_this_and_next_alloc, default_alloc, belongs_to,
}

-- A closed handle that a thread uses.
abbrev pub is_closed_in_use : Handle → Bool
is_closed_in_use h = is_closed h.state && not (is_null h.thread_id)

abbrev pub SameThread : Handle → Handle → Type 0
SameThread h h' =
    (h'.thread_id ≡ h.thread_id) × (is_closed_in_use h ≡ false → is_closed_in_use h' ≡ false)

pub set_owner-SameThread :
    (same : Bool) (owner : Option ℕ) (h h' : Handle)
    → Allocation.set_owner same owner h ≡ returns h'
    → SameThread h h'
unfolding Allocation.set_owner
set_owner-SameThread same owner h h' e = (ground arith, λ k. ground arith)

pub disown-SameThread :
    (same : Bool) (owner : Option ℕ) (h h' : Handle)
    → Allocation.disown same owner h ≡ returns h'
    → SameThread h h'
unfolding Allocation.disown
disown-SameThread same owner h h' e = (ground arith, λ k. ground arith)

pub lock_memory-SameThread :
    (result : ℕ) (h : Handle) (r : Bool × Handle)
    → Allocation.lock_memory result h ≡ returns r
    → SameThread h r.1
unfolding Allocation.lock_memory
lock_memory-SameThread result h r e = (ground arith, λ k. ground arith)

pub unlock_memory-SameThread :
    (result : ℕ) (h : Handle) (r : Bool × Handle)
    → Allocation.unlock_memory result h ≡ returns r
    → SameThread h r.1
unfolding Allocation.unlock_memory
unlock_memory-SameThread result h r e = (ground arith, λ k. ground arith)

pub reset-SameThread :
    (same : Bool) (owner : Option ℕ) (h h' : Handle) (b : Bool)
    → Allocation.reset same owner h ≡ returns (some (b, h'))
    → SameThread h h'
unfolding Allocation.reset
reset-SameThread same owner h h' b e = (ground arith, λ k. ground arith)

pub close-SameThread : (h h' : Handle) → Allocation.close h ≡ some h' → SameThread h h'
unfolding Allocation.close
close-SameThread h h' e = (ground arith, λ k. ground arith)

pub free_ptr-SameThread : (h : Handle) (ptr : ℕ) → SameThread h (Allocation.free_ptr h ptr).0
unfolding Allocation.free_ptr
free_ptr-SameThread h ptr = (ground arith, λ k. ground arith)

pub allocate-SameThread :
    (malloc : ℕ → Option ℕ) (aligned_alloc : ℕ → ℕ → Option ℕ) (me : ℕ) (h : Handle) (size : ℕ)
    (aligned : Bool) (r : ℕ × Handle)
    → Allocation.allocate malloc aligned_alloc me h size aligned ≡ returns r
    → SameThread h r.1
unfolding Allocation.allocate
allocate-SameThread malloc aligned_alloc me h size aligned r e = (ground arith, λ k. ground arith)
