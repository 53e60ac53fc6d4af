-- ===== src/Allocation/World/Calls.antt =====
-- The calls of src/Allocation.cpp, and the threads that they leave consistent.
use speakerman.Prelude.{
  ℕ, ◌≡◌, subst, Bool, Bool-cases, inl, inr, Option, none, some, Option-cases, arith,
}
use speakerman.Prelude.Effects.{Effect, returns, throws, ◌>>=◌}
use speakerman.Allocation
use speakerman.Allocation.{Handle, is_null, is_same, default_alloc, belongs_to}
use speakerman.Allocation.World
use speakerman.Allocation.World.{
  World, update, fetch, put_handle, modify, link_handle, unlink_handle, is_above_zero,
  allocate_static, block, construct, free_static, belongs_to_any, not_null_or_throw, same_handle,
}
use speakerman.Allocation.World.Enter.{
  enter-thread, leave-thread, enter-IsConsistent, leave-IsConsistent,
}
use speakerman.Allocation.World.Handles.{
  set_owner-SameThread, disown-SameThread, lock_memory-SameThread, unlock_memory-SameThread,
  reset-SameThread, free_ptr-SameThread, allocate-SameThread,
}
use speakerman.Allocation.World.Threads.{
  IsConsistent, Keeps, self, >>=-eq-returns, returns_inj, fetch-eq, put_handle-IsConsistent,
  modify-IsConsistent,
}

pub Keeps-returns {ℓ} :
    {A : Type ℓ} (get : A → World) (a : A) → IsConsistent (get a) → Keeps get (returns a)
Keeps-returns get a c b e = subst (λ x. IsConsistent (get x)) (returns_inj e) c

pub Keeps-throws {ℓ} : {A : Type ℓ} (get : A → World) → Keeps get throws
Keeps-throws get b e = cc

pub Keeps-bind {ℓ κ} :
    {A : Type ℓ} {B : Type κ} (first : A → World) (get : B → World) (e : Effect A)
    (f : A → Effect B)
    → Keeps first e
    → ((a : A) → IsConsistent (first a) → Keeps get (f a))
    → Keeps get (e >>= f)
Keeps-bind first get e f k more b made =
    let (a, p, q) = >>=-eq-returns e f made in more a (k a p) b q

-- A call that does not change the world goes on with what it gives.
pub Keeps-after {ℓ κ} :
    {A : Type ℓ} {B : Type κ} (get : B → World) (e : Effect A) (f : A → Effect B)
    → ((a : A) → e ≡ returns a → Keeps get (f a))
    → Keeps get (e >>= f)
Keeps-after get e f more b made = let (a, p, q) = >>=-eq-returns e f made in more a p b q

-- A call of one handle.
on_handle {ℓ κ} :
    {A : Type ℓ} {B : Type κ} (get : B → World) (w : World) (a : ℕ) (op : Handle → Effect A)
    (f : A → Effect B)
    → ((h : Handle) (r : A) → w.handles a ≡ some h → op h ≡ returns r → Keeps get (f r))
    → Keeps get (fetch w a >>= λ h. op h >>= f)
on_handle get w a op f more =
    Keeps-after get (fetch w a) (λ h. op h >>= f)
      (λ h at. Keeps-after get (op h) f (λ r made. more h r (fetch-eq w a h at) made))

pub Keeps-handle {ℓ} :
    {A : Type ℓ} (get : A → World) (handle : Option ℕ) (f : ℕ → Effect A)
    → ((a : ℕ) → Keeps get (f a))
    → Keeps get (not_null_or_throw handle f)
Keeps-handle get none f k = Keeps-throws get
Keeps-handle get (some a) f k = k a

module _ (w : World) (c : IsConsistent w) where
  pub set_owner-Keeps : (handle owner : Option ℕ) → Keeps self (World.set_owner w handle owner)
  unfolding World.set_owner
  set_owner-Keeps handle owner = Keeps-handle self handle _ λ a.
      on_handle self w a (Allocation.set_owner (same_handle w owner a) owner) _ λ h h' at made.
        Keeps-returns self _
          (put_handle-IsConsistent w a h h' at (set_owner-SameThread _ owner h h' made) c)

  pub disown-Keeps : (handle owner : Option ℕ) → Keeps self (World.disown w handle owner)
  unfolding World.disown
  disown-Keeps handle owner = Keeps-handle self handle _ λ a.
      on_handle self w a (Allocation.disown (same_handle w owner a) owner) _ λ h h' at made.
        Keeps-returns self _
          (put_handle-IsConsistent w a h h' at (disown-SameThread _ owner h h' made) c)

  pub lock_memory-Keeps :
      (handle : Option ℕ) (result : ℕ) → Keeps (λ r. r.1) (World.lock_memory w handle result)
  unfolding World.lock_memory
  lock_memory-Keeps handle result = Keeps-handle _ handle _ λ a.
      on_handle _ w a (Allocation.lock_memory result) _ λ h r at made.
        Keeps-returns (λ (x : Bool × World). x.1) _
          (put_handle-IsConsistent w a h r.1 at (lock_memory-SameThread result h r made) c)

  pub unlock_memory-Keeps :
      (handle : Option ℕ) (result : ℕ) → Keeps (λ r. r.1) (World.unlock_memory w handle result)
  unfolding World.unlock_memory
  unlock_memory-Keeps handle result = Keeps-handle _ handle _ λ a.
      on_handle _ w a (Allocation.unlock_memory result) _ λ h r at made.
        Keeps-returns (λ (x : Bool × World). x.1) _
          (put_handle-IsConsistent w a h r.1 at (unlock_memory-SameThread result h r made) c)

  abbrev pub reset_world : Option (Bool × World) → World
  reset_world none = w
  reset_world (some r) = r.1

  pub reset-Keeps : (handle owner : Option ℕ) → Keeps reset_world (World.reset w handle owner)
  unfolding World.reset
  reset-Keeps handle owner = Keeps-handle reset_world handle _ λ a.
      on_handle reset_world w a (Allocation.reset (same_handle w owner a) owner) _ λ h r at made.
        elim r
            as (λ o.
              Allocation.reset (same_handle w owner a) owner h ≡ returns o
              → Keeps reset_world (elim o as (λ _. Effect (Option (Bool × World))) [
                | none ↦ returns none
                | some (b, h') ↦ returns (some (b, put_handle w a (some h')))
              ])) [
                | none ↦ λ e. Keeps-returns reset_world none c
                | some (b, h') ↦ λ e.
                    Keeps-returns reset_world (some (b, put_handle w a (some h')))
                      (put_handle-IsConsistent w a h h' at (reset-SameThread _ owner h h' b e) c)
              ]
          made

  pub enter-Keeps : (me : ℕ) (handle : Option ℕ) → Keeps self (World.enter me handle w)
  unfolding World.enter
  enter-Keeps me handle = Keeps-handle self handle _ λ a.
      elim (Bool-cases (is_null (w.thread_handle me))) [
        | inl unused ↦ rw unused (
            on_handle self w a (Allocation.enter me) _ λ h h' at made.
              let (free, entered, is_open) = enter-thread me h h' made in
              Keeps-returns self _
                (enter-IsConsistent w me a h h' c at (ground arith) free entered is_open))
        | inr used ↦ rw used (Keeps-throws self)
      ]

  pub leave-Keeps : (me : ℕ) → Keeps self (World.leave me w)
  unfolding World.leave
  leave-Keeps me = elim (Option-cases (w.thread_handle me)) [
    | inl unused ↦ rw unused (Keeps-throws self)
    | inr (a, used) ↦ rw used (
        on_handle self w a (Allocation.leave me) _ λ h h' at made.
          let (busy, free) = leave-thread me h h' made in
          Keeps-returns self _ (leave-IsConsistent w me a h h' c at used busy free))
  ]

  pub free_static-Keeps : (fuel ptr : ℕ) → Keeps self (free_static fuel ptr w)
  unfolding free_static
  free_static-Keeps fuel ptr = Keeps-after self (belongs_to_any fuel ptr w) _ λ owner _.
      elim owner
        as (λ o. Keeps self (elim o as (λ _. Effect World) [
          | none ↦ returns w
          | some a ↦ modify w a (λ h. (Allocation.free_ptr h ptr).0)
        ])) [
          | none ↦ Keeps-returns self w c
          | some a ↦
              modify-IsConsistent w a (λ h. (Allocation.free_ptr h ptr).0)
                (λ h. free_ptr-SameThread h ptr) c
        ]

  module _ (malloc : ℕ → Option ℕ) (aligned_alloc : ℕ → ℕ → Option ℕ) where
    default-Keeps :
        (size : ℕ) (aligned : Bool)
        → Keeps
            (λ (r : ℕ × World). r.1)
            (default_alloc malloc aligned_alloc size aligned >>= λ p. returns (p, w))
    default-Keeps size aligned =
        Keeps-after _ (default_alloc malloc aligned_alloc size aligned) _
          λ p _. Keeps-returns (λ (r : ℕ × World). r.1) (p, w) c

    pub allocate_static-Keeps :
        (me size : ℕ) (aligned : Bool)
        → Keeps (λ r. r.1) (allocate_static malloc aligned_alloc me size aligned w)
    unfolding allocate_static
    allocate_static-Keeps me size aligned = elim (Bool-cases (is_above_zero (w.disabled me))) [
      | inl disabled ↦ rw disabled (default-Keeps size aligned)
      | inr enabled ↦ elim (Option-cases (w.thread_handle me)) [
        | inl unused ↦ rw enabled (rw unused (default-Keeps size aligned))
        | inr (a, used) ↦ rw enabled (
            rw used (
              on_handle _ w a (λ h. Allocation.allocate malloc aligned_alloc me h size aligned) _
                λ h r at made.
                  Keeps-returns (λ (x : ℕ × World). x.1) _
                    (put_handle-IsConsistent w a h r.1 at
                      (allocate-SameThread malloc aligned_alloc me h size aligned r made) c)))
      ]
    ]
