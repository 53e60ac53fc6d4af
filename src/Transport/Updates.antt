-- ===== src/Transport/Updates.antt =====
-- Which updates the lock-free thread of src/include/tdap/Transport.hpp gets to see.
use speakerman.Prelude.{◌≡◌, refl, Bool, true, false, not, [], ◌∷◌, Option, some, if◌then◌else◌}
use speakerman.Transport.{
  Reader, loaded, captured, Event, store, idle, holding, outside, Transport, slot_data, set_slot,
  load, capture, release, enter, assign, flip, reader_step, writer_step, step, run, modified,
}

-- The reads that the lock-free thread made gave `w`.
abbrev Saw : Bool → Reader → Type 0
Saw w idle = Unit
Saw w (loaded slot) = slot ≡ w
Saw w (captured seen) = seen ≡ w
Saw w (holding slot seen) = (slot ≡ w) × (seen ≡ w)

module _ {D : Type 0} where
  -- Both threads are outside, and everything that was written has been read.
  abbrev pub settled : Bool → D → D → Option D → Transport D
  settled w a b got = record {
    read = w;
    write = w;
    data0 = a;
    data1 = b;
    reader = idle;
    writer = outside;
    got = got;
  }

  -- What the lock-free thread sees when an update falls between its two reads of `write_`.
  abbrev pub torn : Bool → D → D → D → Option D → Transport D
  torn w a b x got = record (set_slot (not w) x (settled w a b got)) {
    write = not w;
    reader = holding w (not w);
    got = some (if w then a else b);
  }

  -- An update that falls between the two reads of `write_` in `getLockFree` is lost: the lock-free
  -- thread is told that the data are modified while it holds the old ones, and when it asks again
  -- it holds the new ones and is told that they are not modified.
  pub update_lost :
      (w : Bool) (a b x : D) (got : Option D)
      → let t = torn w a b x got in
        let t' : Transport D = record t { read = not w; reader = holding (not w) (not w) } in
        (run (load ∷ enter x ∷ assign ∷ flip ∷ capture ∷ []) (settled w a b got) ≡ some t)
        × (modified (not w) t ≡ true)
        × (slot_data w t ≡ (if w then b else a))
        × (run (release ∷ load ∷ capture ∷ []) t ≡ some t')
        × (modified (not w) t' ≡ false)
        × (slot_data (not w) t' ≡ x)
  unfolding run step reader_step writer_step
  update_lost true a b x got = (refl, refl, refl, refl, refl, refl)
  update_lost false a b x got = (refl, refl, refl, refl, refl, refl)

  -- An update of the slot `w` waits for the lock-free thread; `held` is what the two slots hold.
  record IsPending (w : Bool) (held : D × D) (t : Transport D) : Type 0 where
    writes : t.write ≡ w
    reads : t.read ≡ not w
    outside_ok : t.writer ≡ outside
    saw : Saw w t.reader
    same0 : t.data0 ≡ held.0
    same1 : t.data1 ≡ held.1

  -- The lock-free thread does not yet change the data or release them.
  abbrev pub IsAsking : Event D → Type 0
  IsAsking (store d) = ⊥
  IsAsking release = ⊥
  IsAsking _ = Unit
