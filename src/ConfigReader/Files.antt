-- ===== src/ConfigReader/Files.antt =====
-- What the reader of src/include/speakerman/utils/Config.hpp makes of whole files of lines with a key
-- and a bare value.
use speakerman.Prelude.{
  take-of_le, ℕ, ◌≤◌, ◌≡◌, refl, sym, ap, ◌∙◌, false, List, [], ◌∷◌, ◌++◌, some, arith, length,
  take, All, append-nil, append_assoc, map,
}
use speakerman.ConfigReader.{
  is_white_space, continue_, success, ParseState, start, Reader, Callback, read_loop, read, at_end,
}
use speakerman.ConfigReader.Invariant.{IsKey}
use speakerman.ConfigReader.Lines.{IsBare, unblanked, at, line_loop}

abbrev pub Entry : Type 0
Entry = List ℕ × List ℕ

-- A callback that keeps each key with its value, and never stops.
abbrev pub recorder : Callback (List Entry)
recorder k v d = (continue_, d ++ (k, v) ∷ [])

-- A file with a line `key=value` for each entry.
unfoldable pub render : List Entry → List ℕ
render [] = []
render ((k, w) ∷ es) = k ++ b'=' ∷ (w ++ 10 ∷ render es)

pub record IsEntry (e : Entry) : Type 0 where
  pub key_ok : IsKey e.0
  pub key_fits : length e.0 ≤ 127
  pub value_ok : All IsBare e.1

-- What the reader makes of an entry.
abbrev pub stored : Entry → Entry
stored (k, w) = (k, take 1023 (unblanked w))

pub read_loop-render :
    (es ds : List Entry) (p : ParseState) (q : ℕ)
    → All IsEntry es
    → let (result, r) = read_loop recorder (render es) (at recorder p q start [] [] ds) in
      (result ≡ success) × (r.user_data ≡ ds ++ map stored es)
unfolding render read_loop at_end
read_loop-render [] ds p q h = (refl, sym (append-nil ds))
read_loop-render ((k, w) ∷ es) ds p q (h, hs) =
    rw (line_loop recorder p q k w (render es) [] ds h.key_ok h.key_fits h.value_ok (omega arith)) (
      rw (← append_assoc ds (stored (k, w) ∷ []) (map stored es))
        (read_loop-render es (ds ++ stored (k, w) ∷ []) p q hs))

-- A file of lines `key=value`, with keys of at most 127 bytes and values that hold no line end,
-- backslash or quote, is read with success. The callback gets every key in order, with the value
-- without its blanks and cut off at 1023 bytes: no value is refused as too long.
pub read-render :
    (es : List Entry) (r : Reader (List Entry))
    → All IsEntry es
    → let (result, r') = read (render es) (some recorder) r in
      (result ≡ success) × (r'.user_data ≡ r.user_data ++ map stored es)
unfolding read
read-render es r h = read_loop-render es r.user_data start 0 h

abbrev IsSolid : ℕ → Type 0
IsSolid c = is_white_space c ≡ false

abbrev pub IsPlain : Entry → Type 0
IsPlain (k, w) = All IsSolid w × (length w ≤ 1023)

unblanked-of_solid : (w : List ℕ) → All IsSolid w → unblanked w ≡ w
unfolding unblanked
unblanked-of_solid [] h = refl
unblanked-of_solid (c ∷ cs) (h, hs) = rw h (ap (◌∷◌ c) (unblanked-of_solid cs hs))

stored-of_plain : (es : List Entry) → All IsPlain es → map stored es ≡ es
stored-of_plain [] h = refl
stored-of_plain ((k, w) ∷ es) ((h, n), hs) =
    rw (unblanked-of_solid w h, take-of_le 1023 w n) (ap (◌∷◌ (k, w)) (stored-of_plain es hs))

-- Entries whose values have no blank and at most 1023 bytes come back as they were written.
pub read-render_plain :
    (es : List Entry) (r : Reader (List Entry))
    → r.user_data ≡ []
    → All IsEntry es
    → All IsPlain es
    → let (result, r') = read (render es) (some recorder) r in
      (result ≡ success) × (r'.user_data ≡ es)
read-render_plain es r e h plain =
    let (done, got) = read-render es r h in (done, got ∙ rw e (stored-of_plain es plain))
