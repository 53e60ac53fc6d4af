-- ===== src/Transport/Examples.antt =====
-- The theorems on src/include/tdap/Transport.hpp at concrete runs.
use speakerman.Prelude.{ℕ, true, false, List, [], ◌∷◌}
use speakerman.Transport.{
  Event, give_up, release, holding, Transport, assigned, load, capture, enter, assign, constructed,
}

-- A new transport with modified data: the lock-free thread reads once before `getAndSet` gets through. It
-- then holds `data_[0]` again while `getAndSet` has assigned `data_[1]`.
abbrev both_busy : Transport ℕ
both_busy = record (constructed 5 5) {
  data1 = 7;
  reader = holding false false;
  writer = assigned 5;
}

abbrev events : List (Event ℕ)
events = load ∷ give_up ∷ capture ∷ release ∷ capture ∷ enter 7 ∷ load ∷ assign ∷ []

-- A new transport with modified data, after the lock-free thread has asked for them
abbrev asked : Transport ℕ
asked = record (constructed 5 5) { read = true; reader = holding false false }
