-- ===== src/Allocation/World/Life.antt =====
-- From the construction of a handle of src/Allocation.cpp to its end.
use speakerman.Prelude.{
  ℕ, ◌≡◌, ◌≢◌, refl, subst, false, Bool-cases, inl, inr, Option, none, some, if◌then◌else◌, ◌==◌,
  arith, Option-cases,
}
use speakerman.Prelude.Effects.{Effect, returns, throws, ◌>>=◌}
use speakerman.Allocation
use speakerman.Allocation.{Handle, is_null, is_same, is_closed}
use speakerman.Allocation.World
use speakerman.Allocation.World.{
  World, update, fetch, put_handle, modify, link_handle, unlink_handle, allocate_static, block,
  construct, free_static, not_null_or_throw,
}
use speakerman.Allocation.World.Handles.{is_closed_in_use, close-SameThread}
use speakerman.Allocation.World.Threads.{
  IsConsistent, Keeps, self, >>=-eq-returns, returns_inj, fetch-eq, put_handle-IsConsistent,
  link_handle-IsConsistent, linked-IsConsistent,
}
use speakerman.Allocation.World.Calls.{
  Keeps-returns, Keeps-bind, Keeps-after, Keeps-handle, free_static-Keeps, allocate_static-Keeps,
}

new-IsConsistent :
    (w : World) (a : ℕ) (h : Handle)
    → w.handles a ≡ none
    → h.thread_id ≡ none
    → IsConsistent w
    → IsConsistent (put_handle w a (some h))
new-IsConsistent w a h fresh unused c = record {
  entered = λ t b e. let (g, p, q) = c.entered t b e in (g, ground arith, q);
  known = λ t b g p q. elim (Bool-cases (b == a)) [
    | inl here ↦ absurd (ground arith)
    | inr away ↦ c.known t b g (ground arith) q
  ];
  at_rest = λ b g p. elim (Bool-cases (b == a)) [
    | inl here ↦ ground arith
    | inr away ↦ c.at_rest b g (ground arith)
  ];
}

end-IsConsistent :
    (w : World) (a : ℕ)
    → ((t : ℕ) → w.thread_handle t ≢ some a)
    → IsConsistent w
    → IsConsistent (put_handle w a none)
end-IsConsistent w a unused c = record {
  entered =
      λ t b e. let (g, p, q) = c.entered t b e in let never = unused t in (g, ground arith, q);
  known = λ t b g p q. c.known t b g (ground arith) q;
  at_rest = λ b g p. c.at_rest b g (ground arith);
}

-- Consistent, and no thread uses this handle.
abbrev IsFree : ℕ → World → Type 0
IsFree a w = IsConsistent w × ((t : ℕ) → w.thread_handle t ≢ some a)

modify-IsFree :
    (a b : ℕ) (w : World) (f : Handle → Handle)
    → ((h : Handle) → (f h).thread_id ≡ h.thread_id)
    → ((h : Handle) → (f h).state ≡ h.state)
    → IsFree a w
    → (w' : World) → modify w b f ≡ returns w'
    → IsFree a w'
unfolding modify
modify-IsFree a b w f same state free w' e =
    let (h, at, made) = >>=-eq-returns (fetch w b) (λ h. returns (put_handle w b (some (f h)))) e in
    let thread = same h in
    let at_state = state h in
    (
      subst IsConsistent (returns_inj made) (
          put_handle-IsConsistent w b h (f h) (fetch-eq w b h at) (thread, λ k. ground arith)
            free.0),
      subst (λ (v : World). (t : ℕ) → v.thread_handle t ≢ some a) (returns_inj made) free.1,
    )

unlink_handle-IsFree :
    (a : ℕ) (w : World) → IsFree a w → (w' : World) → unlink_handle a w ≡ returns w' → IsFree a w'
unfolding unlink_handle
unlink_handle-IsFree a w free w' e =
    let (h, at, e1) = >>=-eq-returns (fetch w a) _ e in
    let (w1, first, e2) = >>=-eq-returns _ _ e1 in
    let (w2, second, third) = >>=-eq-returns _ _ e2 in
    in_front h.prev h.next w2 (behind h.prev h.next w1 (from_start h w1 first) w2 second) third
  where
    from_start :
        (h : Handle) (w1 : World)
        → (if is_null h.prev
            then (if is_same w.linked (some a)
                then returns (record w { linked = h.next })
                else throws)
            else returns w)
          ≡ returns w1
        → IsFree a w1
    from_start h w1 e = elim (Bool-cases (is_null h.prev)) [
      | inl one ↦ elim (Bool-cases (is_same w.linked (some a))) [
        | inl this ↦
            let made : record w { linked = h.next } ≡ w1 = ground arith in
            subst (IsFree a) made (linked-IsConsistent w h.next free.0, free.1)
        | inr other ↦ absurd (ground arith)
      ]
      | inr more ↦ let made : w ≡ w1 = ground arith in subst (IsFree a) made free
    ]

    behind :
        (prev next : Option ℕ) (w1 : World)
        → IsFree a w1
        → (w2 : World)
        → (elim prev as (λ _. Effect World) [
          | none ↦ returns w1
          | some p ↦ modify w1 p (λ q. record q { next = next })
        ])
          ≡ returns w2
        → IsFree a w2
    behind none next w1 f w2 e = subst (IsFree a) (returns_inj e) f
    behind (some p) next w1 f w2 e = modify-IsFree a p w1 _ (λ h. refl) (λ h. refl) f w2 e

    in_front :
        (prev next : Option ℕ) (w2 : World)
        → IsFree a w2
        → (elim next as (λ _. Effect World) [
          | none ↦ returns w2
          | some n ↦ modify w2 n (λ q. record q { prev = prev })
        ])
          ≡ returns w'
        → IsFree a w'
    in_front prev none w2 f e = subst (IsFree a) (returns_inj e) f
    in_front prev (some n) w2 f e = modify-IsFree a n w2 _ (λ h. refl) (λ h. refl) f w' e

closed-thread_id :
    (h h' : Handle) → Allocation.close h ≡ some h' → is_closed_in_use h ≡ false → h.thread_id ≡ none
unfolding Allocation.close
closed-thread_id h h' e rest = ground arith

-- The end of a handle.
abbrev pub freed_world : World → Option World → World
freed_world w none = w
freed_world w (some w') = w'

pub free-Keeps :
    (fuel : ℕ) (handle : Option ℕ) (w : World)
    → IsConsistent w
    → Keeps (freed_world w) (World.free fuel handle w)
unfolding World.free
free-Keeps fuel handle w c =
    Keeps-handle (freed_world w) handle _
      λ a. Keeps-after (freed_world w) (fetch w a) _ λ h at. after_close a h (fetch-eq w a h at)
  where
    after_close :
        (a : ℕ) (h : Handle)
        → w.handles a ≡ some h
        → Keeps (freed_world w) (elim (Allocation.close h) as (λ _. Effect (Option World)) [
          | none ↦ returns none
          | some h' ↦ unlink_handle a (put_handle w a (some h')) >>= λ w1.
              free_static fuel a (put_handle w1 a none) >>= λ w2. returns (some w2)
        ])
    after_close a h at = elim (Option-cases (Allocation.close h)) [
      | inl waits ↦ rw waits (Keeps-returns (freed_world w) none c)
      | inr (h', ends) ↦
          let w0 = put_handle w a (some h') in
          let unused : h.thread_id ≡ none = closed-thread_id h h' ends (c.at_rest a h at) in
          let free : IsFree a w0 = (
            put_handle-IsConsistent w a h h' at (close-SameThread h h' ends) c,
            λ t k. let (g, p, q) = c.entered t a k in absurd (ground arith),
          ) in
          rw ends (
            Keeps-after (freed_world w) (unlink_handle a w0) _ λ w1 made.
              let free1 = unlink_handle-IsFree a w0 free w1 made in
              let c1 = end-IsConsistent w1 a free1.1 free1.0 in
              Keeps-bind self (freed_world w) (free_static fuel a (put_handle w1 a none)) _
                (free_static-Keeps (put_handle w1 a none) c1 fuel a)
                (λ w2 c2. Keeps-returns (freed_world w) (some w2) c2))
    ]

module _ (malloc : ℕ → Option ℕ) (aligned_alloc realloc : ℕ → ℕ → Option ℕ) (size_of me : ℕ) where
  -- The memory for a handle is not in use for another.
  abbrev pub IsFresh : World → Type 0
  IsFresh w =
      (object : ℕ × World)
      → allocate_static malloc aligned_alloc me size_of false w ≡ returns object
      → object.1.handles object.0 ≡ none

  pub construct-Keeps :
      (block_size : ℕ) (w : World)
      → IsFresh w
      → IsConsistent w
      → Keeps (λ r. r.1) (construct malloc aligned_alloc realloc size_of me block_size w)
  unfolding construct
  construct-Keeps block_size w fresh c =
      Keeps-after (λ (r : ℕ × World). r.1) (allocate_static malloc aligned_alloc me size_of false w)
        _
        λ object made.
          let c1 = allocate_static-Keeps w c malloc aligned_alloc me size_of false object made in
          Keeps-after (λ (r : ℕ × World). r.1) (block malloc aligned_alloc realloc block_size) _
            λ memory _.
              Keeps-bind self (λ (r : ℕ × World). r.1) _ _
                (link_handle-IsConsistent object.0 _
                  (new-IsConsistent object.1 object.0 _ (fresh object made) refl c1))
                (λ w2 c2. Keeps-returns (λ (r : ℕ × World). r.1) (object.0, w2) c2)
