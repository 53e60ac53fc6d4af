-- ===== src/Allocation/World.antt =====
-- All handles, and the variables of the threads: the static members of `Handle` and the functions of
-- `consecutive_alloc` in src/Allocation.cpp. What the C library gives at a call is an argument.
pub mod Chain
pub mod Handles
pub mod Threads
pub mod Enter
pub mod Calls
pub mod Life
pub mod Runs
use speakerman.Prelude.{
  ℕ, zero, suc, ◌+◌, ◌-◌, ◌*◌, ◌/◌, ◌%◌, ◌^◌, ◌≡◌, refl, Bool, true, false, ◌&&◌, ◌||◌, Option,
  none, some, if◌then◌else◌, ltb, leb, ◌==◌,
}
use speakerman.Prelude.Effects.{Effect, returns, throws, undefined, ◌>>=◌, or_throw}
use speakerman.Allocation
use speakerman.Allocation.{
  size_mod, int_mod, alignment, Handle, enabled, roundup, belongs_to, default_alloc, is_null,
  is_same,
}

-- `linked_`, the handles at their addresses, and `handle_` of the owners; of each thread
-- `thread_handle_` and `disable_consecutive_allocation_`.
pub record World : Type 0 where
  pub handles : ℕ → Option Handle
  pub linked : Option ℕ
  pub owner_handle : ℕ → Option ℕ
  pub thread_handle : ℕ → Option ℕ
  pub disabled : ℕ → ℕ

abbrev pub update {ℓ} : {A : Type ℓ} → (ℕ → A) → ℕ → A → ℕ → A
update f a v b = if b == a then v else f b

-- Reading and changing the object at an address, if there is one.
unfoldable pub fetch : World → ℕ → Effect Handle
fetch w a = elim (w.handles a) [ none ↦ undefined | some h ↦ returns h ]

abbrev pub put_handle : World → ℕ → Option Handle → World
put_handle w a h = record w { handles = update w.handles a h }

unfoldable pub modify : World → ℕ → (Handle → Handle) → Effect World
unfolding fetch
modify w a f = fetch w a >>= λ h. returns (put_handle w a (some (f h)))

-- `link_handle`
unfoldable pub link_handle : (me : ℕ) → World → Effect World
unfolding modify
link_handle me w = elim w.linked [
  | none ↦ modify (record w { linked = some me }) me (λ h. record h { prev = none; next = none })
  | some walk ↦
      modify (record w { linked = some me }) walk (λ h. record h { prev = some me }) >>= λ w1.
      modify w1 me (λ h. record h { next = some walk; prev = none })
]

-- `unlink_handle`; the pointers of `me` are read at the start, since no step changes them.
unfoldable pub unlink_handle : (me : ℕ) → World → Effect World
unfolding fetch modify
unlink_handle me w = fetch w me >>= λ h.
    (if is_null h.prev
      then (if is_same w.linked (some me) then returns (record w { linked = h.next }) else throws)
      else returns w)
    >>= λ w1.
        (elim h.prev as (λ _. Effect World) [
          | none ↦ returns w1
          | some p ↦ modify w1 p (λ q. record q { next = h.next })
        ])
        >>= λ w2. elim h.next [
          | none ↦ returns w2
          | some n ↦ modify w2 n (λ q. record q { prev = h.prev })
        ]

-- The loop of `belongs_to_any` from a handle on, for as many rounds as `fuel` allows.
unfoldable pub belongs_from : (fuel : ℕ) → (walk : Option ℕ) → (ptr : ℕ) → World → Effect (Option ℕ)
unfolding fetch belongs_to
belongs_from zero walk ptr w = undefined
belongs_from (suc fuel) none ptr w = returns none
belongs_from (suc fuel) (some a) ptr w = fetch w a >>= λ h. elim (belongs_to h ptr) [
  | true ↦ returns (some a)
  | false ↦ belongs_from fuel h.next ptr w
]

-- `belongs_to_any`
unfoldable pub belongs_to_any : (fuel ptr : ℕ) → World → Effect (Option ℕ)
unfolding belongs_from
belongs_to_any fuel ptr w = belongs_from fuel w.linked ptr w

-- `reenable_consecutive_allocation` and `disable_consecutive_allocation`
unfoldable pub reenable : (me : ℕ) → World → Bool × World
reenable me w =
    let count = (w.disabled me + int_mod - 1) % int_mod in
    (count == 0, record w { disabled = update w.disabled me count })

unfoldable pub disable : (me : ℕ) → World → Bool × World
disable me w =
    let count = (w.disabled me + 1) % int_mod in
    (count == 1, record w { disabled = update w.disabled me count })

-- An `int` of these bits is above zero.
abbrev pub is_above_zero : ℕ → Bool
is_above_zero bits = ltb 0 bits && ltb bits (2 ^ 31)

module _ (malloc : ℕ → Option ℕ) (aligned_alloc : ℕ → ℕ → Option ℕ) where
  -- `allocate_static` in the thread `me`, which is the operator `new`
  unfoldable pub allocate_static : (me size : ℕ) → (aligned : Bool) → World → Effect (ℕ × World)
  unfolding default_alloc fetch Allocation.allocate
  allocate_static me size aligned w =
      let default = default_alloc malloc aligned_alloc size aligned >>= λ p. returns (p, w) in
      if is_above_zero (w.disabled me)
      then default
      else elim (w.thread_handle me) as (λ _. Effect (ℕ × World)) [
        | none ↦ default
        | some a ↦ fetch w a >>= λ h.
            Allocation.allocate malloc aligned_alloc me h size aligned >>= λ r.
            returns (r.0, put_handle w a (some r.1))
      ]

  -- The constructor of `Block`: the addresses of its memory and of the block.
  unfoldable pub block : (realloc : ℕ → ℕ → Option ℕ) → (block_size : ℕ) → Effect (ℕ × ℕ)
  unfolding roundup
  block realloc block_size = or_throw (malloc block_size) >>= λ result.
      if result % alignment == 0
      then returns (result, result)
      else or_throw (realloc result ((block_size + alignment) % size_mod)) >>= λ new_result.
          returns (new_result, roundup new_result alignment)

  -- The constructor of `Handle` and `construct_with_size`. `size_of` is the size of a `Handle`.
  unfoldable pub construct :
      (realloc : ℕ → ℕ → Option ℕ) (size_of me block_size : ℕ) → World → Effect (ℕ × World)
  unfolding allocate_static block link_handle
  construct realloc size_of me block_size w = allocate_static me size_of false w >>= λ object.
      block realloc block_size >>= λ memory.
      link_handle object.0 (
        put_handle object.1 object.0 (
          some (record {
            data_start = memory.0;
            alloc_start = memory.1;
            alloc_end = (memory.1 + block_size) % size_mod;
            next_alloc = memory.1;
            owner = none;
            state = enabled;
            locked_memory = false;
            allocations = 0;
            prev = none;
            next = none;
            thread_id = none;
          })))
      >>= λ w1. returns (object.0, w1)

-- `free_static`, which is the operator `delete`
unfoldable pub free_static : (fuel ptr : ℕ) → World → Effect World
unfolding belongs_to_any modify Allocation.free_ptr
free_static fuel ptr w = belongs_to_any fuel ptr w >>= λ owner. elim owner as (λ _. Effect World) [
  | none ↦ returns w
  | some a ↦ modify w a (λ h. (Allocation.free_ptr h ptr).0)
]

-- `not_null_or_throw_with_message`
abbrev pub not_null_or_throw {ℓ} : {A : Type ℓ} → Option ℕ → (ℕ → Effect A) → Effect A
not_null_or_throw none f = throws
not_null_or_throw (some a) f = f a

-- `consecutive_alloc::enter` and `leave` in the thread `me`
unfoldable pub enter : (me : ℕ) → (handle : Option ℕ) → World → Effect World
unfolding fetch Allocation.enter
enter me handle w = not_null_or_throw handle λ a.
    if is_null (w.thread_handle me)
    then (fetch w a >>= λ h. Allocation.enter me h >>= λ h'.
        returns (record (put_handle w a (some h')) {
          thread_handle = update w.thread_handle me (some a);
        }))
    else throws

unfoldable pub leave : (me : ℕ) → World → Effect World
unfolding fetch Allocation.leave
leave me w = not_null_or_throw (w.thread_handle me) λ a. fetch w a >>= λ h.
    Allocation.leave me h >>= λ h'.
    returns (record (put_handle w a (some h')) { thread_handle = update w.thread_handle me none })

-- `consecutive_alloc::free`: `none` if it still waits.
unfoldable pub free : (fuel : ℕ) → (handle : Option ℕ) → World → Effect (Option World)
unfolding fetch Allocation.close unlink_handle free_static
free fuel handle w = not_null_or_throw handle λ a. fetch w a >>= λ h.
    elim (Allocation.close h) as (λ _. Effect (Option World)) [
      | none ↦ returns none
      | some h' ↦ unlink_handle a (put_handle w a (some h')) >>= λ w1.
          free_static fuel a (put_handle w1 a none) >>= λ w2. returns (some w2)
    ]

-- `same_handle` of an owner, if there is one
abbrev pub same_handle : World → (owner : Option ℕ) → (a : ℕ) → Bool
same_handle w none a = false
same_handle w (some o) a = is_same (w.owner_handle o) (some a)

-- The other functions of `consecutive_alloc` with a handle.
module _ (w : World) (handle : Option ℕ) where
  unfoldable pub set_owner : (owner : Option ℕ) → Effect World
  unfolding fetch Allocation.set_owner
  set_owner owner = not_null_or_throw handle λ a. fetch w a >>= λ h.
      Allocation.set_owner (same_handle w owner a) owner h >>= λ h'.
      returns (put_handle w a (some h'))

  unfoldable pub disown : (owner : Option ℕ) → Effect World
  unfolding fetch Allocation.disown
  disown owner = not_null_or_throw handle λ a. fetch w a >>= λ h.
      Allocation.disown (same_handle w owner a) owner h >>= λ h'. returns (put_handle w a (some h'))

  unfoldable pub reset : (owner : Option ℕ) → Effect (Option (Bool × World))
  unfolding fetch Allocation.reset
  reset owner = not_null_or_throw handle λ a. fetch w a >>= λ h.
      Allocation.reset (same_handle w owner a) owner h >>= λ r.
      elim r as (λ _. Effect (Option (Bool × World))) [
        | none ↦ returns none
        | some (b, h') ↦ returns (some (b, put_handle w a (some h')))
      ]

  unfoldable pub lock_memory : (result : ℕ) → Effect (Bool × World)
  unfolding fetch Allocation.lock_memory
  lock_memory result = not_null_or_throw handle λ a. fetch w a >>= λ h.
      Allocation.lock_memory result h >>= λ r. returns (r.0, put_handle w a (some r.1))

  unfoldable pub unlock_memory : (result : ℕ) → Effect (Bool × World)
  unfolding fetch Allocation.unlock_memory
  unlock_memory result = not_null_or_throw handle λ a. fetch w a >>= λ h.
      Allocation.unlock_memory result h >>= λ r. returns (r.0, put_handle w a (some r.1))
