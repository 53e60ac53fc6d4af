-- ===== src/Allocation.antt =====
-- Blocks of memory from which a thread allocates consecutively: src/Allocation.cpp and
-- src/include/tdap/Allocation.hpp. A pointer is its address, with 64 bits; a null pointer to an object
-- is `none`. An `int` is its 32 bits. Every function that locks a mutex is one step. A function that
-- throws changes nothing. This file has the members of `Handle` that use one handle.
pub mod Block
pub mod World
pub mod Guards
mod Examples
use speakerman.Prelude.{
  ℕ, zero, ◌+◌, ◌-◌, ◌*◌, ◌/◌, ◌%◌, ◌^◌, Bool, true, false, ◌&&◌, Option, none, some, if◌then◌else◌,
  ltb, leb, ◌==◌,
}
use speakerman.Prelude.Effects.{Effect, returns, throws, undefined, ◌>>=◌, or_throw}

-- Numbers of type `size_t` and addresses, and of type `int`.
abbrev pub size_mod : ℕ
size_mod = 2 ^ 64

abbrev pub int_mod : ℕ
int_mod = 2 ^ 32

-- `sizeof(max_align_t)` on x86-64
abbrev pub alignment : ℕ
alignment = 32

-- `State`
pub data State : Type 0 where
  enabled closed : State

-- `Handle`, with the two addresses of its `Block`.
pub record Handle : Type 0 where
  pub data_start : ℕ
  pub alloc_start : ℕ
  pub alloc_end : ℕ
  pub next_alloc : ℕ
  pub owner : Option ℕ
  pub state : State
  pub locked_memory : Bool
  pub allocations : ℕ
  pub prev : Option ℕ
  pub next : Option ℕ
  pub thread_id : Option ℕ

-- Comparing pointers to objects, and numbers of threads.
abbrev pub is_same : Option ℕ → Option ℕ → Bool
is_same none none = true
is_same none (some b) = false
is_same (some a) none = false
is_same (some a) (some b) = a == b

abbrev pub is_null : Option ℕ → Bool
is_null none = true
is_null (some a) = false

abbrev pub is_closed : State → Bool
is_closed enabled = false
is_closed closed = true

-- `roundup`
unfoldable pub roundup : (value to : ℕ) → ℕ
roundup value to = to * (1 + (value + size_mod - 1) % size_mod / to) % size_mod

-- The place after an aligned one in `get_this_and_next_alloc`. A size of zero is divided by.
unfoldable pub aligned_next : Handle → (rounded_size : ℕ) → Effect ℕ
unfolding roundup
aligned_next h rounded_size =
    if rounded_size == 0
    then undefined
    else let place = (roundup h.next_alloc rounded_size + size_mod - h.alloc_start) % size_mod in
      returns ((h.alloc_start + place + rounded_size) % size_mod)

-- `get_this_and_next_alloc`: the place, and the next one, which is written over what the aligned case
-- gives.
unfoldable pub get_this_and_next_alloc : Handle → (size : ℕ) → (aligned : Bool) → Effect (ℕ × ℕ)
unfolding roundup aligned_next
get_this_and_next_alloc h size aligned =
    let rounded_size = roundup size alignment in
    (if aligned then aligned_next h rounded_size else returns 0) >>= λ next_alloc.
    returns (h.next_alloc, (h.next_alloc + rounded_size) % size_mod)

-- `belongs_to`
unfoldable pub belongs_to : Handle → ℕ → Bool
belongs_to h ptr = leb h.alloc_start ptr && ltb ptr h.alloc_end

-- What `malloc` and `aligned_alloc` give at a call.
module _ (malloc : ℕ → Option ℕ) (aligned_alloc : ℕ → ℕ → Option ℕ) where
  -- `default_alloc`
  unfoldable pub default_alloc : (size : ℕ) → (aligned : Bool) → Effect ℕ
  default_alloc size aligned =
      if ltb 0 size && aligned then or_throw (aligned_alloc size size) else or_throw (malloc size)

  -- `allocate` in the thread `me`: the address, and the handle.
  unfoldable pub allocate : (me : ℕ) → Handle → (size : ℕ) → (aligned : Bool) → Effect (ℕ × Handle)
  unfolding get_this_and_next_alloc default_alloc
  allocate me h size aligned = get_this_and_next_alloc h size aligned >>= λ place.
      if is_closed h.state
      then (default_alloc size aligned >>= λ result. returns (result, h))
      else if is_same h.thread_id (some me)
      then (if leb place.1 h.alloc_end
          then returns (
            place.0,
            record h { next_alloc = place.1; allocations = (h.allocations + 1) % int_mod },
          )
          else default_alloc size aligned >>= λ result.
              returns (result, record h { next_alloc = place.1 }))
      else default_alloc size aligned >>= λ result. returns (result, h)

-- `free_ptr`: the handle, and if the C library frees the address.
unfoldable pub free_ptr : Handle → ℕ → Handle × Bool
unfolding belongs_to
free_ptr h ptr =
    if belongs_to h ptr
    then (record h { allocations = (h.allocations + int_mod - 1) % int_mod }, false)
    else (h, true)

-- `get_block_size`, `get_allocated_bytes` and `is_consecutive`
unfoldable pub get_block_size : Handle → ℕ
get_block_size h = (h.alloc_end + size_mod - h.alloc_start) % size_mod

unfoldable pub get_allocated_bytes : Handle → ℕ
get_allocated_bytes h = (h.next_alloc + size_mod - h.alloc_start) % size_mod

unfoldable pub is_consecutive : Handle → Bool
is_consecutive h = leb h.next_alloc h.alloc_end

-- `unsafe_check_closed_or_throw`
abbrev pub check_closed_or_throw {ℓ} : {A : Type ℓ} → Handle → Effect A → Effect A
check_closed_or_throw h rest = if is_closed h.state then throws else rest

-- `set_owner`; `same` is what `same_handle` of the owner gives, if there is one.
unfoldable pub set_owner : (same : Bool) → (owner : Option ℕ) → Handle → Effect Handle
set_owner same owner h =
    if is_null owner
    then throws
    else if is_null h.owner
    then (if same then returns (record h { owner = owner }) else throws)
    else throws

-- `disown`
unfoldable pub disown : (same : Bool) → (owner : Option ℕ) → Handle → Effect Handle
disown same owner h =
    if is_null owner
    then throws
    else check_closed_or_throw h (
        if is_same h.owner owner
        then (if same then returns (record h { owner = none }) else throws)
        else throws)

-- `enter` and `leave` in the thread `me`, less the variable of the thread.
unfoldable pub enter : (me : ℕ) → Handle → Effect Handle
enter me h =
    check_closed_or_throw h
      (if is_null h.thread_id then returns (record h { thread_id = some me }) else throws)

unfoldable pub leave : (me : ℕ) → Handle → Effect Handle
leave me h =
    if is_same h.thread_id (some me) then returns (record h { thread_id = none }) else throws

-- `close`: `none` if the loop still waits.
unfoldable pub close : Handle → Option Handle
close h =
    if is_closed h.state
    then some h
    else if is_null h.owner && is_null h.thread_id
    then some (record h { locked_memory = false; state = closed })
    else none

-- `reset`: `none` if the loop still waits.
unfoldable pub reset : (same : Bool) → (owner : Option ℕ) → Handle → Effect (Option (Bool × Handle))
reset same owner h = check_closed_or_throw h (
    if is_same h.owner owner
    then if is_null owner
      then undefined
      else if same
      then returns (
          if is_null h.thread_id
          then some (
              if h.allocations == 0
              then (true, record h { next_alloc = h.alloc_start })
              else (false, h))
          else none)
      else throws
    else throws)

-- `lock_memory` and `unlock_memory`; `result` is what `mlock` or `munlock` gives.
unfoldable pub lock_memory : (result : ℕ) → Handle → Effect (Bool × Handle)
lock_memory result h = check_closed_or_throw h (
    if h.locked_memory
    then throws
    else returns (if result == 0 then (true, record h { locked_memory = true }) else (false, h)))

unfoldable pub unlock_memory : (result : ℕ) → Handle → Effect (Bool × Handle)
unlock_memory result h = check_closed_or_throw h (
    if h.locked_memory
    then returns (if result == 0 then (true, record h { locked_memory = false }) else (false, h))
    else throws)
