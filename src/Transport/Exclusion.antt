-- ===== src/Transport/Exclusion.antt =====
-- The two threads of src/include/tdap/Transport.hpp never work on the same slot.
use speakerman.Prelude.{
  ◌≡◌, ◌⊎◌, inl, inr, refl, Bool, true, false, List, [], ◌∷◌, none, some, arith, Option-cases,
}
use speakerman.Transport.{
  Reader, idle, loaded, captured, holding, Writer, outside, entered, assigned, Transport, Event,
  load, capture, store, release, enter, assign, flip, give_up, reader_step, writer_step, step, run,
}

-- A slot that is not the one that was written last is in use only while the writer has to wait.
abbrev SlotOk : Bool → Bool → Bool → Bool → Type 0
SlotOk read write busy slot = (slot ≡ write) ⊎ ((read ≡ slot) × (busy ≡ false))

abbrev ReaderOk : Bool → Bool → Bool → Reader → Type 0
ReaderOk read write busy idle = Unit
ReaderOk read write busy (loaded slot) = SlotOk read write busy slot
ReaderOk read write busy (captured seen) = (seen ≡ write) ⊎ (seen ≡ read)
ReaderOk read write busy (holding slot seen) =
    SlotOk read write busy slot × ((seen ≡ write) ⊎ (seen ≡ read))

-- The slot that the lock-free thread uses, if it uses one.
abbrev pub Uses : Reader → Bool → Type 0
Uses idle slot = ⊥
Uses (loaded used) slot = used ≡ slot
Uses (captured seen) slot = ⊥
Uses (holding used seen) slot = used ≡ slot

module _ {D : Type 0} where
  abbrev pub is_busy : Writer D → Bool
  is_busy outside = false
  is_busy _ = true

  -- The writer works only while everything that was written has been read.
  pub record IsSound (t : Transport D) : Type 0 where
    pub writer_ok : (is_busy t.writer ≡ false) ⊎ (t.read ≡ t.write)
    pub reader_ok : ReaderOk t.read t.write (is_busy t.writer) t.reader

  reader_step-IsSound :
      (e : Event D) (r : Reader) (t t' : Transport D)
      → t.reader ≡ r
      → ReaderOk t.read t.write (is_busy t.writer) r
      → (is_busy t.writer ≡ false) ⊎ (t.read ≡ t.write)
      → reader_step e r t ≡ some t'
      → IsSound t'
  unfolding reader_step
  reader_step-IsSound load idle t t' er ro wo h = ground arith
  reader_step-IsSound capture idle t t' er ro wo h = ground arith
  reader_step-IsSound load (captured seen) t t' er ro wo h = ground arith
  reader_step-IsSound capture (loaded slot) t t' er ro wo h = ground arith
  reader_step-IsSound (store d) (holding true seen) t t' er ro wo h = ground arith
  reader_step-IsSound (store d) (holding false seen) t t' er ro wo h = ground arith
  reader_step-IsSound release (holding slot seen) t t' er ro wo h = ground arith
  reader_step-IsSound _ _ t t' er ro wo h = cc

  writer_step-IsSound :
      (e : Event D) (w : Writer D) (t t' : Transport D)
      → t.writer ≡ w
      → IsSound t
      → writer_step e w t ≡ some t'
      → IsSound t'
  unfolding writer_step
  writer_step-IsSound (enter set) outside t t' ew s h = ground arith
  writer_step-IsSound assign (entered set) t t' ew s h = ground arith
  writer_step-IsSound flip (assigned get) t t' ew s h = ground arith
  writer_step-IsSound give_up outside t t' ew s h = ground arith
  writer_step-IsSound _ _ t t' ew s h = cc

  step-IsSound : (e : Event D) (t t' : Transport D) → IsSound t → step e t ≡ some t' → IsSound t'
  unfolding step
  step-IsSound e t t' s h = ground (
    arith,
    reader_step-IsSound e t.reader t t' refl s.reader_ok s.writer_ok,
    writer_step-IsSound e t.writer t t' refl s,
  )

  not_some : {t : Transport D} → none ≡ some t → ⊥
  not_some h = cc

  pub run-IsSound :
      (es : List (Event D)) (t t' : Transport D) → IsSound t → run es t ≡ some t' → IsSound t'
  unfolding run
  run-IsSound [] t t' s h = ground arith
  run-IsSound (e ∷ es) t t' s h = elim (Option-cases (step e t)) [
    | inl stuck ↦ absurd (not_some (rw (stuck, run) at h))
    | inr (u, made) ↦ run-IsSound es u t' (step-IsSound e t u s made) (rw (made, run) at h)
  ]
