-- ===== src/Allocation/World/Enter.antt =====
-- Entering and leaving a handle of src/Allocation.cpp.
use speakerman.Prelude.{ℕ, ◌≡◌, false, Bool-cases, inl, inr, Option, none, some, ◌==◌, arith}
use speakerman.Prelude.Effects.{returns}
use speakerman.Allocation
use speakerman.Allocation.{Handle, is_null, is_same, is_closed}
use speakerman.Allocation.World.{World, update, put_handle}
use speakerman.Allocation.World.Threads.{IsConsistent}

-- What `enter` and `leave` of a handle require, and what they give.
pub enter-thread :
    (me : ℕ) (h h' : Handle)
    → Allocation.enter me h ≡ returns h'
    → (h.thread_id ≡ none) × (h'.thread_id ≡ some me) × (is_closed h'.state ≡ false)
unfolding Allocation.enter
enter-thread me h h' e = ground arith

pub leave-thread :
    (me : ℕ) (h h' : Handle)
    → Allocation.leave me h ≡ returns h'
    → (h.thread_id ≡ some me) × (h'.thread_id ≡ none)
unfolding Allocation.leave
leave-thread me h h' e = ground arith

module _ (w : World) (me a : ℕ) (h h' : Handle) (c : IsConsistent w)
    (at : w.handles a ≡ some h) where
  abbrev with_thread : Option ℕ → World
  with_thread handle = record (put_handle w a (some h')) {
    thread_handle = update w.thread_handle me handle;
  }

  pub enter-IsConsistent :
      w.thread_handle me ≡ none
      → h.thread_id ≡ none
      → h'.thread_id ≡ some me
      → is_closed h'.state ≡ false
      → IsConsistent (with_thread (some a))
  enter-IsConsistent unused free entered is_open = record {
    entered = λ t b e. elim (Bool-cases (t == me)) [
      | inl mine ↦ (h', ground arith, ground arith)
      | inr other ↦ let (g, p, q) = c.entered t b (ground arith) in (g, ground arith, q)
    ];
    known = λ t b g p q. elim (Bool-cases (b == a)) [
      | inl here ↦ ground arith
      | inr away ↦ let old = c.known t b g (ground arith) q in ground arith
    ];
    at_rest = λ b g p. elim (Bool-cases (b == a)) [
      | inl here ↦ ground arith
      | inr away ↦ c.at_rest b g (ground arith)
    ];
  }

  pub leave-IsConsistent :
      w.thread_handle me ≡ some a
      → h.thread_id ≡ some me
      → h'.thread_id ≡ none
      → IsConsistent (with_thread none)
  leave-IsConsistent used busy free = record {
    entered = λ t b e. elim (Bool-cases (t == me)) [
      | inl mine ↦ absurd (ground arith)
      | inr other ↦ let (g, p, q) = c.entered t b (ground arith) in (g, ground arith, q)
    ];
    known = λ t b g p q. elim (Bool-cases (b == a)) [
      | inl here ↦ absurd (ground arith)
      | inr away ↦ let old = c.known t b g (ground arith) q in ground arith
    ];
    at_rest = λ b g p. elim (Bool-cases (b == a)) [
      | inl here ↦ ground arith
      | inr away ↦ c.at_rest b g (ground arith)
    ];
  }
