-- ===== src/JsonReader/Paths/Run.antt =====
-- Going into nested JSON values and out again, with src/JsonCanonicalReader.cc.
use native.Mathlib.Decide.{dec_lt}
use speakerman.Prelude.{
  ℕ, zero, suc, ◌+◌, ◌≤◌, ◌<◌, ◌≡◌, refl, sym, ap, ◌∙◌, List, [], ◌∷◌, ◌++◌, map, length,
  length-append, append-nil, append_assoc, decimal, All, arith,
}
use speakerman.Prelude.Text.{last_digits}
use speakerman.Prelude.Effects.{Effect, returns, ◌>>=◌}
use speakerman.JsonReader.{
  Builder, JsonCanonicalReader, make_builder, make_reader, get_total_string, push_index, pop,
}
use speakerman.JsonReader.Paths.{
  IsAtRest, with_part, with_part-IsAtRest, pop-with_part, Adds, enter_name, enter_name-eq,
}
use speakerman.JsonReader.Paths.Index.{push_index-eq}
use speakerman.JsonReader.Paths.Text.{ended, join, IsPart, trim_after_first-ended}

-- A member of an object or of an array.
pub data Part : Type 0 where
  name : List ℕ → Part
  index : ℕ → Part

abbrev pub part_text : Part → List ℕ
part_text (name n) = n
part_text (index i) = decimal i

-- `'/'`
abbrev pub slash : ℕ
slash = 47

abbrev pub IsValidPart : Part → Type 0
IsValidPart (name n) = IsPart slash n
IsValidPart (index i) = i < 1000

-- The bytes of the path that the parts need, with a little more for each.
abbrev pub room_for : List Part → ℕ
room_for [] = 0
room_for (p ∷ ps) = length (part_text p) + 5 + room_for ps

abbrev with_parts : JsonCanonicalReader → List Part → JsonCanonicalReader
with_parts r [] = r
with_parts r (p ∷ ps) = with_parts (with_part r (part_text p)) ps

decimal-IsPart : (i : ℕ) → i < 1000 → IsPart slash (decimal i)
unfolding decimal last_digits
decimal-IsPart i small = elim (dec_lt i 10) [
  | yes one ↦ ground arith
  | no more ↦ elim (dec_lt i 100) [ yes two ↦ ground arith | no three ↦ ground arith ]
]

module _ (add : ℕ → Builder → Effect Builder) where
  unfoldable pub enter : Part → JsonCanonicalReader → Effect JsonCanonicalReader
  unfolding enter_name push_index
  enter (name n) r = enter_name add n r
  enter (index i) r = push_index add i r

  unfoldable pub enter_all : List Part → JsonCanonicalReader → Effect JsonCanonicalReader
  unfolding enter
  enter_all [] r = returns r
  enter_all (p ∷ ps) r = enter p r >>= enter_all ps

  enter-eq :
      Adds add
      → (p : Part) (r : JsonCanonicalReader) → IsAtRest r
      → IsValidPart p
      → length r.path.text + (length (part_text p) + 5) < r.path.max_length
      → length r.stack < r.depth
      → enter p r ≡ returns (with_part r (part_text p))
  unfolding enter
  enter-eq adds (name n) r rest valid room deep = enter_name-eq add adds n r rest (omega arith) deep
  enter-eq adds (index i) r rest valid room deep =
      push_index-eq add adds i r valid (omega arith) deep

  enter_all-eq :
      Adds add
      → (ps : List Part) (r : JsonCanonicalReader) → IsAtRest r
      → All IsValidPart ps
      → length r.path.text + room_for ps < r.path.max_length
      → length r.stack + length ps ≤ r.depth
      → enter_all ps r ≡ returns (with_parts r ps)
  unfolding enter_all
  enter_all-eq adds [] r rest valid room deep = refl
  enter_all-eq adds (p ∷ ps) r rest valid room deep =
      let r1 = with_part r (part_text p) in
      let size = length-append r.path.text (part_text p ++ 0 ∷ []) in
      let size1 = length-append (part_text p) (0 ∷ []) in
      rw (enter-eq adds p r rest valid.0 (omega arith) (omega arith)) (
        enter_all-eq adds ps r1 (with_part-IsAtRest r (part_text p)) valid.1 (omega arith)
          (omega arith))

-- So many times `popIndex` or `popName`.
unfoldable pub leave_all : ℕ → JsonCanonicalReader → Effect JsonCanonicalReader
unfolding pop
leave_all zero r = returns r
leave_all (suc k) r = leave_all k r >>= pop

leave_all-with_parts :
    (ps : List Part) (r : JsonCanonicalReader)
    → IsAtRest r
    → length r.path.text + room_for ps + 1 < r.path.max_length
    → leave_all (length ps) (with_parts r ps) ≡ returns r
unfolding leave_all
leave_all-with_parts [] r rest room = refl
leave_all-with_parts (p ∷ ps) r rest room =
    let size = length-append r.path.text (part_text p ++ 0 ∷ []) in
    let size1 = length-append (part_text p) (0 ∷ []) in
    rw
      (leave_all-with_parts ps (with_part r (part_text p)) (with_part-IsAtRest r (part_text p))
        (omega arith))
      (pop-with_part (part_text p) r rest (omega arith))

text-with_parts :
    (ps : List Part) (r : JsonCanonicalReader)
    → (with_parts r ps).path.text ≡ r.path.text ++ ended (map part_text ps)
text-with_parts [] r = sym (append-nil r.path.text)
text-with_parts (p ∷ ps) r =
    text-with_parts ps (with_part r (part_text p))
    ∙ append_assoc r.path.text (part_text p ++ 0 ∷ []) (ended (map part_text ps))

part_text-IsPart : (ps : List Part) → All IsValidPart ps → All (IsPart slash) (map part_text ps)
part_text-IsPart [] v = tt
part_text-IsPart (name n ∷ ps) v = (v.0, part_text-IsPart ps v.1)
part_text-IsPart (index i ∷ ps) v = (decimal-IsPart i v.0, part_text-IsPart ps v.1)

-- Into any nested members that the reader has room for, with names that are not empty and have no zero and
-- no slash, and indices below 1000, the path is their names and decimal indices with slashes between; and out of them
-- again, the reader is as it was made.
pub get_total_string-enter_all :
    (add : ℕ → Builder → Effect Builder) (path_length depth : ℕ) (ps : List Part)
    → Adds add
    → All IsValidPart ps
    → 1 < path_length
    → path_length < 1048576
    → room_for ps + 1 < path_length
    → 1 < depth
    → depth < 1024
    → length ps < depth
    → (r : JsonCanonicalReader) × (r' : JsonCanonicalReader) × (make_reader path_length depth
        ≡ returns r)
      × (enter_all add ps r ≡ returns r')
      × (get_total_string slash r'.path ≡ join slash (map part_text ps))
      × (leave_all (length ps) r' ≡ returns r)
unfolding make_reader make_builder get_total_string
get_total_string-enter_all add path_length depth ps adds valid some_length short room some_depth
      shallow deep =
    let r : JsonCanonicalReader = record {
      depth = depth;
      stack = 0 ∷ [];
      path = record { max_length = path_length; text = []; local = 0 };
    } in
    let rest : IsAtRest r = record { below = []; stack_is = refl; local_is = refl } in
    (
      r,
      with_parts r ps,
      ground arith,
      enter_all-eq add adds ps r rest valid (omega arith) (omega arith),
      ap (λ t. get_total_string slash (record r.path { text = t })) (text-with_parts ps r)
          ∙ trim_after_first-ended slash (map part_text ps) (part_text-IsPart ps valid),
      leave_all-with_parts ps r rest (omega arith),
    )
