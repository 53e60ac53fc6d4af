-- ===== src/Stream/Lines.antt =====
-- What `read_line_from_stream` of src/Stream.cpp gives of a stream of bytes.
use speakerman.Prelude.{
  ℕ, zero, suc, ◌+◌, ◌<◌, ◌≡◌, refl, ap, ◌∙◌, true, false, ◌||◌, List, [], ◌∷◌, ◌++◌, ◌==◌, length,
  All, arith,
}
use speakerman.Stream.{
  Result, ok, World, end_of_stream, data_truncated, read_byte, read_line_from,
  read_line_from_stream,
}

-- A stream over bytes.
abbrev pub take_byte : List ℕ → Result × List ℕ
take_byte [] = (end_of_stream, [])
take_byte (c ∷ cs) = (ok c, cs)

-- Not a byte that ends a line.
abbrev pub IsInLine : ℕ → Type 0
IsInLine c = (c == 13 || c == 10) ≡ false

abbrev Outcome : Type 0
Outcome = List ℕ × (Result × World (List ℕ))

abbrev before : ℕ → Outcome → Outcome
before c (line, end) = (c ∷ line, end)

line_step :
    (left i c : ℕ) (rest : List ℕ) (r : Result) (w : World (List ℕ))
    → w.stream ≡ c ∷ rest
    → IsInLine c
    → read_line_from take_byte (suc left) i r w
      ≡ before c (read_line_from take_byte left (i + 1) (ok c) (record w { stream = rest }))
unfolding read_line_from read_byte
line_step left i c rest r w e h = rw e (rw (h, read_line_from) refl)

line_end :
    (left i c : ℕ) (rest : List ℕ) (r : Result) (w : World (List ℕ))
    → w.stream ≡ c ∷ rest
    → (c == 13 || c == 10) ≡ true
    → read_line_from take_byte (suc left) i r w
      ≡ ([], (ok i, record w { stream = rest; last_count = i }))
unfolding read_line_from read_byte
line_end left i c rest r w e h = rw e (rw (h, read_line_from) refl)

line_from :
    (line rest : List ℕ) (left i c : ℕ) (r : Result) (w : World (List ℕ))
    → w.stream ≡ line ++ c ∷ rest
    → All IsInLine line
    → (c == 13 || c == 10) ≡ true
    → length line < left
    → read_line_from take_byte left i r w
      ≡ (line, (ok (i + length line), record w { stream = rest; last_count = i + length line }))
line_from [] rest zero i c r w e h d n = absurd (omega arith)
line_from [] rest (suc left) i c r w e h d n =
    let same : i ≡ i + 0 = omega arith in rw (← same) (line_end left i c rest r w e d)
line_from (x ∷ xs) rest zero i c r w e h d n = absurd (omega arith)
line_from (x ∷ xs) rest (suc left) i c r w e (h, hs) d n =
    let same : i + 1 + length xs ≡ i + suc (length xs) = omega arith in
    line_step left i x (xs ++ c ∷ rest) r w e h
    ∙ ap (before x) (
        line_from xs rest left (i + 1) c (ok x) (record w { stream = xs ++ c ∷ rest }) refl hs d
          (omega arith))
    ∙ rw same refl

-- A line that fits before the terminating zero is read up to its end of line, which is taken from the
-- stream and not stored; the result is the number of bytes.
pub read_line-fits :
    (line rest : List ℕ) (c size : ℕ) (r : Result) (w : World (List ℕ))
    → w.stream ≡ line ++ c ∷ rest
    → All IsInLine line
    → (c == 13 || c == 10) ≡ true
    → length line + 1 < size
    → read_line_from_stream take_byte r size w
      ≡ (line, (ok (length line), record w { stream = rest; last_count = length line }))
unfolding read_line_from_stream
read_line-fits line rest c zero r w e h d n = absurd (omega arith)
read_line-fits line rest c (suc end) r w e h d n =
    let count : 0 + length line ≡ length line = omega arith in
    line_from line rest end 0 c r w e h d (omega arith) ∙ rw count refl

full_line :
    (i x : ℕ) (r : Result) (w : World (List ℕ))
    → r ≡ ok x
    → IsInLine x
    → read_line_from take_byte zero i r w ≡ ([], (data_truncated, record w { last_count = i }))
unfolding read_line_from
full_line i x r w e h = rw e (rw h refl)

truncated_from :
    (line rest : List ℕ) (i x : ℕ) (w : World (List ℕ))
    → w.stream ≡ line ++ rest
    → All IsInLine line
    → IsInLine x
    → read_line_from take_byte (length line) i (ok x) w
      ≡ (line, (data_truncated, record w { stream = rest; last_count = i + length line }))
truncated_from [] rest i x w e h hx =
    let same : i ≡ i + 0 = omega arith in rw (← same, ← e) (full_line i x (ok x) w refl hx)
truncated_from (y ∷ ys) rest i x w e (h, hs) hx =
    let same : i + 1 + length ys ≡ i + suc (length ys) = omega arith in
    line_step (length ys) i y (ys ++ rest) (ok x) w e h
    ∙ ap (before y) (truncated_from ys rest (i + 1) y (record w { stream = ys ++ rest }) refl hs h)
    ∙ rw same refl

-- A line that does not fit is cut: with a buffer of one byte more than `line`, which is not empty, the
-- bytes of `line` are stored, the result says that the data are truncated, and the rest stays in the
-- stream, whatever it is.
pub read_line-truncated :
    (x : ℕ) (line rest : List ℕ) (r : Result) (w : World (List ℕ))
    → w.stream ≡ x ∷ (line ++ rest)
    → All IsInLine (x ∷ line)
    → read_line_from_stream take_byte r (length line + 2) w
      ≡ (x ∷ line, (data_truncated, record w { stream = rest; last_count = length line + 1 }))
unfolding read_line_from_stream
read_line-truncated x line rest r w e (h, hs) =
    let size : length line + 2 ≡ suc (suc (length line)) = omega arith in
    let count : 0 + 1 + length line ≡ length line + 1 = omega arith in
    rw size (
      line_step (length line) 0 x (line ++ rest) r w e h
      ∙ ap (before x)
          (truncated_from line rest (0 + 1) x (record w { stream = line ++ rest }) refl hs h)
      ∙ rw count refl)
