-- ===== src/ConfigReader/Quotes.antt =====
-- Quoted values and keys that are too long in the reader of
-- src/include/speakerman/utils/Config.hpp.
use speakerman.Prelude.{
  ℕ, ◌+◌, ◌≤◌, ◌≡◌, refl, ◌∙◌, true, false, List, [], ◌∷◌, ◌++◌, some, arith, length, take,
  length-append, All, append-nil, append_assoc, map, ◌==◌,
}
use speakerman.ConfigReader.{
  is_white_space, is_comment_start, is_line_delimiter, is_escape, is_quote, is_key_char, success,
  key_too_long, ParseState, start, key_name, start_value, quote, Reader, Callback, dispatch,
  on_start, on_key_name, on_start_value, on_value, read_loop, read,
}
use speakerman.ConfigReader.Invariant.{IsKey}
use speakerman.ConfigReader.Lines.{unblanked, at, key_loop, key_start, assign, line_loop}
use speakerman.ConfigReader.Files.{Entry, recorder, render, IsEntry, stored, read_loop-render}

-- A byte inside quotes of the kind `q`.
pub record IsQuoted (q c : ℕ) : Type 0 where
  pub no_delimiter : is_line_delimiter c ≡ false
  pub no_escape : is_escape c ≡ false
  pub not_closing : (c == q) ≡ false

module _ (p : ParseState) (q : ℕ) where
  quote_loop :
      (cs rest k v : List ℕ) (d : List Entry)
      → All (IsQuoted q) cs
      → length v + length cs ≤ 1023
      → read_loop recorder (cs ++ rest) (at recorder p q quote k v d)
        ≡ read_loop recorder rest (at recorder p q quote k (v ++ cs) d)
  unfolding read_loop dispatch on_value
  quote_loop [] rest k v d h n = rw append-nil
  quote_loop (c ∷ cs) rest k v d (h, hs) n = ground (
    arith,
    h.not_closing,
    quote_loop cs rest k (v ++ c ∷ []) d hs,
    append_assoc v (c ∷ []) cs,
    length-append v (c ∷ []),
  )

  quote_close :
      (rest k v : List ℕ) (d : List Entry)
      → is_quote q ≡ true
      → read_loop recorder (q ∷ rest) (at recorder p q quote k v d)
        ≡ read_loop recorder rest (at recorder p q start [] (q ∷ []) (d ++ (k, v) ∷ []))
  unfolding read_loop dispatch on_value is_quote is_line_delimiter is_escape
  quote_close rest k v d h = ground arith

  line_skip :
      (rest k v : List ℕ) (d : List Entry)
      → read_loop recorder (10 ∷ rest) (at recorder p q start k v d)
        ≡ read_loop recorder rest (at recorder p q start k v d)
  unfolding read_loop dispatch on_start is_comment_start is_line_delimiter
  line_skip rest k v d = refl

quote_open :
    (p : ParseState) (q q' : ℕ) (rest k : List ℕ) (d : List Entry)
    → is_quote q ≡ true
    → read_loop recorder (q ∷ rest) (at recorder p q' start_value k [] d)
      ≡ read_loop recorder rest (at recorder p q quote k [] d)
unfolding read_loop dispatch on_start_value is_quote is_line_delimiter is_escape is_white_space
quote_open p q q' rest k d h = ground arith

-- The line `key=` with the value in quotes `q`.
pub quoted_line : ℕ → Entry → List ℕ → List ℕ
quoted_line q (k, v) rest = k ++ b'=' ∷ q ∷ (v ++ q ∷ 10 ∷ rest)

quoted_line_loop :
    (p : ParseState) (q q' : ℕ) (k v rest : List ℕ) (d : List Entry)
    → is_quote q ≡ true
    → IsKey k
    → length k ≤ 127
    → All (IsQuoted q) v
    → length v ≤ 1023
    → read_loop recorder (quoted_line q (k, v) rest) (at recorder p q' start [] [] d)
      ≡ read_loop recorder rest (at recorder p q start [] (q ∷ []) (d ++ (k, v) ∷ []))
unfolding quoted_line
quoted_line_loop p q q' [] v rest d quoted h n all m = absurd h
quoted_line_loop p q q' (c ∷ cs) v rest d quoted (h, hs) n all m =
    let tail = v ++ q ∷ 10 ∷ rest in
    key_start recorder p q' c (cs ++ b'=' ∷ q ∷ tail) [] d h
    ∙ key_loop recorder p q' cs (b'=' ∷ q ∷ tail) (c ∷ []) [] d hs (omega arith)
    ∙ assign recorder p q' (q ∷ tail) (c ∷ cs) [] d
    ∙ quote_open p q q' tail (c ∷ cs) d quoted
    ∙ quote_loop p q v (q ∷ 10 ∷ rest) (c ∷ cs) [] d all (omega arith)
    ∙ quote_close p q (10 ∷ rest) (c ∷ cs) v d quoted
    ∙ line_skip p q rest [] (q ∷ []) (d ++ (c ∷ cs, v) ∷ [])

-- A quoted value reaches the callback as it stands between the quotes, but its closing quote stays
-- in the buffer: it becomes the first byte of the value on the next line. The lines after that are
-- read as usual.
pub quote_leaks :
    (q : ℕ) (k v k' w : List ℕ) (es : List Entry) (r : Reader (List Entry))
    → r.user_data ≡ []
    → is_quote q ≡ true
    → IsKey k
    → length k ≤ 127
    → All (IsQuoted q) v
    → length v ≤ 1023
    → IsEntry (k', w)
    → All IsEntry es
    → let (result, r') = read (quoted_line q (k, v) (render ((k', w) ∷ es))) (some recorder) r in
      (result ≡ success)
      × (r'.user_data ≡ (k, v) ∷ (k', take 1023 (q ∷ unblanked w)) ∷ map stored es)
unfolding read render
quote_leaks q k v k' w es r e quoted h n all m second others =
    let u = take 1023 (q ∷ unblanked w) in
    rw
      (
        e,
        quoted_line_loop start q 0 k v (render ((k', w) ∷ es)) [] quoted h n all m,
        line_loop recorder start q k' w (render es) (q ∷ []) ((k, v) ∷ []) second.key_ok
            second.key_fits second.value_ok (omega arith),
      )
      (read_loop-render es ((k, v) ∷ (k', u) ∷ []) start q others)

key_full :
    {D : Type 0} (callback : Callback D) (k rest : List ℕ) (c : ℕ) (d : D)
    → length k ≡ 127
    → is_key_char c ≡ true
    → let (result, r') = read_loop callback (c ∷ rest) (at callback start 0 key_name k [] d) in
      (result ≡ key_too_long) × (r'.user_data ≡ d)
unfolding read_loop dispatch on_key_name
key_full callback k rest c d n e = ground arith

-- A key of more than 127 bytes ends the read with KEY_TOO_LONG, and nothing is reported for it.
pub read-key_too_long :
    {D : Type 0} (callback : Callback D) (k rest : List ℕ) (c : ℕ) (r : Reader D)
    → IsKey k
    → length k ≡ 127
    → is_key_char c ≡ true
    → let (result, r') = read (k ++ c ∷ rest) (some callback) r in
      (result ≡ key_too_long) × (r'.user_data ≡ r.user_data)
unfolding read
read-key_too_long callback [] rest c r h n e = absurd h
read-key_too_long callback (x ∷ xs) rest c r (h, hs) n e =
    rw
      (
        key_start callback start 0 x (xs ++ c ∷ rest) [] r.user_data h,
        key_loop callback start 0 xs (c ∷ rest) (x ∷ []) [] r.user_data hs (omega arith),
      )
      (key_full callback (x ∷ xs) rest c r.user_data n e)
