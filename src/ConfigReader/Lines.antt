-- ===== src/ConfigReader/Lines.antt =====
-- What the reader of src/include/speakerman/utils/Config.hpp makes of whole lines.
use speakerman.Prelude.{
  take-of_le, ℕ, zero, suc, ◌+◌, ◌≤◌, ◌≡◌, refl, sym, ap, ◌∙◌, true, false, List, [], ◌∷◌, ◌++◌,
  arith, length, take, length-append, All, if◌then◌else◌, append-nil, append_assoc, ◌==◌,
  Bool-cases, inl, inr,
}
use speakerman.ConfigReader.{
  is_key_start_char, is_key_char, is_white_space, is_line_delimiter, is_escape, is_quote,
  is_comment_start, is_assignment, CallbackResult, continue_, stop, ReadResult, ParseState, start,
  key_name, start_value, Reader, Callback, stopped, dispatch, on_start, on_key_name, on_start_value,
  read_loop,
}
use speakerman.ConfigReader.Invariant.{IsKeyChar, IsKey}

-- A byte that an unquoted value can hold or skip.
pub record IsBare (c : ℕ) : Type 0 where
  pub no_delimiter : is_line_delimiter c ≡ false
  pub no_escape : is_escape c ≡ false
  pub no_quote : is_quote c ≡ false

-- The bytes that are not white space.
unfoldable pub unblanked : List ℕ → List ℕ
unblanked [] = []
unblanked (c ∷ cs) = if is_white_space c then unblanked cs else c ∷ unblanked cs

take-length {ℓ} : {A : Type ℓ} (n : ℕ) (xs ys : List A) → length xs ≡ n → take n (xs ++ ys) ≡ xs
take-length zero [] ys e = refl
take-length (suc n) [] ys e = absurd (omega arith)
take-length zero (x ∷ xs) ys e = absurd (omega arith)
take-length (suc n) (x ∷ xs) ys e = ap (◌∷◌ x) (take-length n xs ys (omega arith))

-- What `addValueChar` leaves when its result is ignored.
abbrev store : ℕ → List ℕ → ℕ → List ℕ
store n v c = if length v == n then v else v ++ c ∷ []

store-take :
    (n : ℕ) (v : List ℕ) (c : ℕ) (xs : List ℕ)
    → length v ≤ n
    → (take n (store n v c ++ xs) ≡ take n (v ++ c ∷ xs)) × (length (store n v c) ≤ n)
store-take n v c xs h = elim (Bool-cases (length v == n)) [
  | inl e ↦
      rw e (take-length n v xs (ground arith) ∙ sym (take-length n v (c ∷ xs) (ground arith)), h)
  | inr e ↦
      rw e (ap (take n) (append_assoc v (c ∷ []) xs), ground (arith, length-append v (c ∷ [])))
]

module _ {D : Type 0} (callback : Callback D) (p : ParseState) (q : ℕ) where
  abbrev pub at : ParseState → List ℕ → List ℕ → D → Reader D
  at s k v d = record {
    key = k;
    value = v;
    state = s;
    pop_state = p;
    quote_char = q;
    user_data = d;
  }

  pub key_loop :
      (cs rest k v : List ℕ) (d : D)
      → All IsKeyChar cs
      → length k + length cs ≤ 127
      → read_loop callback (cs ++ rest) (at key_name k v d)
        ≡ read_loop callback rest (at key_name (k ++ cs) v d)
  unfolding read_loop dispatch on_key_name
  key_loop [] rest k v d h n = rw append-nil
  key_loop (c ∷ cs) rest k v d (h, hs) n = ground (
    arith,
    key_loop cs rest (k ++ c ∷ []) v d hs,
    append_assoc k (c ∷ []) cs,
    length-append k (c ∷ []),
  )

  value_step :
      (c : ℕ) (rest k v : List ℕ) (d : D)
      → IsBare c
      → is_white_space c ≡ false
      → read_loop callback (c ∷ rest) (at start_value k v d)
        ≡ read_loop callback rest (at start_value k (store 1023 v c) d)
  unfolding read_loop dispatch on_start_value
  value_step c rest k v d h w = ground (arith)

  white_step :
      (c : ℕ) (rest k v : List ℕ) (d : D)
      → IsBare c
      → is_white_space c ≡ true
      → read_loop callback (c ∷ rest) (at start_value k v d)
        ≡ read_loop callback rest (at start_value k v d)
  unfolding read_loop dispatch on_start_value
  white_step c rest k v d h w = ground (arith)

  value_loop :
      (cs rest k v : List ℕ) (d : D)
      → All IsBare cs
      → length v ≤ 1023
      → read_loop callback (cs ++ rest) (at start_value k v d)
        ≡ read_loop callback rest (at start_value k (take 1023 (v ++ unblanked cs)) d)
  unfolding unblanked
  value_loop [] rest k v d h n = rw (append-nil, take-of_le 1023 v n)
  value_loop (c ∷ cs) rest k v d (h, hs) n = elim (Bool-cases (is_white_space c)) [
    | inl w ↦ rw (w, white_step c (cs ++ rest) k v d h w) (value_loop cs rest k v d hs n)
    | inr w ↦
        let (shorter, fits) = store-take 1023 v c (unblanked cs) n in
        rw (w, value_step c (cs ++ rest) k v d h w, value_loop cs rest k (store 1023 v c) d hs fits)
          (ap (λ u. read_loop callback rest (at start_value k u d)) shorter)
  ]

  -- The loop after a report.
  abbrev pub after : List ℕ → List ℕ → List ℕ → CallbackResult × D → ReadResult × Reader D
  after rest k v (continue_, d) = read_loop callback rest (at start [] [] d)
  after rest k v (stop, d) = (stopped, at start_value k v d)

  line_end :
      (rest k v : List ℕ) (d : D)
      → read_loop callback (10 ∷ rest) (at start_value k v d) ≡ after rest k v (callback k v d)
  unfolding read_loop dispatch on_start_value is_line_delimiter
  line_end rest k v d = ground (arith)

  pub key_start :
      (c : ℕ) (rest v : List ℕ) (d : D)
      → is_key_start_char c ≡ true
      → read_loop callback (c ∷ rest) (at start [] v d)
        ≡ read_loop callback rest (at key_name (c ∷ []) v d)
  unfolding read_loop dispatch on_start is_key_start_char is_comment_start is_line_delimiter
  key_start c rest v d h = ground (arith)

  pub assign :
      (rest k v : List ℕ) (d : D)
      → read_loop callback (b'=' ∷ rest) (at key_name k v d)
        ≡ read_loop callback rest (at start_value k v d)
  unfolding read_loop dispatch on_key_name is_key_char is_white_space is_assignment
  assign rest k v d = refl

  pub line_loop :
      (k w rest v : List ℕ) (d : D)
      → IsKey k
      → length k ≤ 127
      → All IsBare w
      → length v ≤ 1023
      → let u = take 1023 (v ++ unblanked w) in
        read_loop callback (k ++ b'=' ∷ (w ++ 10 ∷ rest)) (at start [] v d)
        ≡ after rest k u (callback k u d)
  line_loop [] w rest v d h n bare m = absurd h
  line_loop (c ∷ cs) w rest v d (h, hs) n bare m =
      key_start c (cs ++ b'=' ∷ (w ++ 10 ∷ rest)) v d h
      ∙ key_loop cs (b'=' ∷ (w ++ 10 ∷ rest)) (c ∷ []) v d hs (omega arith)
      ∙ assign (w ++ 10 ∷ rest) (c ∷ cs) v d
      ∙ value_loop w (10 ∷ rest) (c ∷ cs) v d bare m
      ∙ line_end rest (c ∷ cs) (take 1023 (v ++ unblanked w)) d
