-- ===== src/Settings/Split.antt =====
-- `actualReadConfig` of src/SpeakermanConfig.cpp against a reading line by line.
use speakerman.Prelude.{
  ℕ, zero, suc, ◌+◌, ◌≤◌, ◌<◌, ◌≡◌, refl, sym, ap, ap₂, ◌∙◌, false, ◌==◌, List, [], ◌∷◌, ◌++◌,
  append-nil, append_assoc, All, if◌then◌else◌, leb, lt→ltb, min, set, arith, length, length-append,
  take, drop,
}
use speakerman.Config.{Effect, returns, throws, undefined, ◌>>=◌}
use speakerman.ConfigReader.{is_line_delimiter}
use speakerman.Settings.{Memory}
use speakerman.Settings.Files.{State, line_length, end_line, read_char, read_chars}

pub bind_assoc {ℓ κ μ} :
    {A : Type ℓ} {B : Type κ} {C : Type μ} (e : Effect A) (f : A → Effect B) (g : B → Effect C)
    → (e >>= f >>= g) ≡ (e >>= λ a. f a >>= g)
bind_assoc (returns a) f g = refl
bind_assoc throws f g = refl
bind_assoc undefined f g = refl

pub bind-same {ℓ κ} :
    {A : Type ℓ} {B : Type κ} (e : Effect A) (f g : A → Effect B)
    → ((a : A) → f a ≡ g a)
    → (e >>= f) ≡ (e >>= g)
bind-same (returns a) f g h = h a
bind-same throws f g h = refl
bind-same undefined f g h = refl

-- The buffer after the bytes of a line were stored, and after the zero was.
abbrev pub fill : List ℕ → Memory → Memory
fill text buf = text ++ drop (length text) buf

abbrev pub line_memory : List ℕ → Memory → Memory
line_memory text buf = text ++ 0 ∷ drop (suc (length text)) buf

set-fill :
    (text buf : List ℕ) (v : ℕ)
    → length text < length buf
    → set (fill text buf) (length text) v ≡ text ++ v ∷ drop (suc (length text)) buf
set-fill [] [] v h = absurd (omega arith)
set-fill [] (b ∷ bs) v h = refl
set-fill (c ∷ cs) [] v h = absurd (omega arith)
set-fill (c ∷ cs) (b ∷ bs) v h = ap (◌∷◌ c) (set-fill cs bs v (omega arith))

drop-empty : (n : ℕ) → drop {A = ℕ} n [] ≡ []
drop-empty zero = refl
drop-empty (suc n) = refl

fill-snoc :
    (text buf : List ℕ) (v : ℕ)
    → text ++ v ∷ drop (suc (length text)) buf ≡ fill (text ++ v ∷ []) buf
fill-snoc [] buf v = refl
fill-snoc (c ∷ cs) [] v =
    ap (◌∷◌ c)
      (fill-snoc cs [] v ∙ ap (λ r. cs ++ v ∷ [] ++ r) (drop-empty (length (cs ++ v ∷ []))))
fill-snoc (c ∷ cs) (b ∷ bs) v = ap (◌∷◌ c) (fill-snoc cs bs v)

set-middle : (xs ys : List ℕ) (n v w : ℕ) → n ≡ length xs → set (xs ++ v ∷ ys) n w ≡ xs ++ w ∷ ys
set-middle xs ys n v w e = rw e (go xs)
  where
    go : (xs : List ℕ) → set (xs ++ v ∷ ys) (length xs) w ≡ xs ++ w ∷ ys
    go [] = refl
    go (x ∷ xs) = ap (◌∷◌ x) (go xs)

abbrev pub NoDelimiters : List ℕ → Type 0
NoDelimiters text = All (λ c. is_line_delimiter c ≡ false) text

module _ {A : Type 0} (read : Memory → A → Effect A) where
  abbrev pub at_pos : Memory → ℕ → A → State A
  at_pos line pos c = record { line = line; line_pos = pos; config = c }

  store_char :
      (c pos : ℕ) (buf : Memory) (a : A)
      → is_line_delimiter c ≡ false
      → pos < 1024
      → read_char read c (at_pos buf pos a) ≡ returns (at_pos (set buf pos c) (pos + 1) a)
  unfolding read_char
  store_char c pos buf a h k = rw (h, lt→ltb pos 1024 k) refl

  -- The bytes of a line are stored one by one.
  pub store_chars :
      (text done more : List ℕ) (buf : Memory) (a : A)
      → NoDelimiters text
      → length done + length text ≤ 1024
      → 1024 < length buf
      → read_chars read (text ++ more) (at_pos (fill done buf) (length done) a)
        ≡ read_chars read more (at_pos (fill (done ++ text) buf) (length (done ++ text)) a)
  unfolding read_chars
  store_chars [] done more buf a h k l = rw (append-nil done) refl
  store_chars (c ∷ text) done more buf a (h, hs) k l =
      let stored = store_char c (length done) (fill done buf) a h (omega arith) in
      let state : at_pos (set (fill done buf) (length done) c) (length done + 1) a
          ≡ at_pos (fill (done ++ c ∷ []) buf) (length (done ++ c ∷ [])) a =
        ap₂ (λ m p. at_pos m p a) (set-fill done buf c (omega arith) ∙ fill-snoc done buf c)
          (sym (length-append done (c ∷ []))) in
      let next =
        store_chars text (done ++ c ∷ []) more buf a hs (omega (arith, length-append done (c ∷ [])))
          l in
      ap (λ e. e >>= read_chars read (text ++ more)) stored
      ∙ ap (read_chars read (text ++ more)) state
      ∙ next
      ∙ ap (λ d. read_chars read more (at_pos (fill d buf) (length d) a))
          (append_assoc done (c ∷ []) text)

  -- The reading of a line that was stored: it is read a second time if it did not fit.
  abbrev pub read_text : List ℕ → Memory → A → Effect A
  read_text text m a =
      read m a >>= λ a'. if leb (length text) line_length then returns a' else read m a'

  -- The lines one after the other, each in the memory that the one before left.
  abbrev pub read_lines : List (List ℕ) → Memory → A → Effect A
  read_lines [] buf a = returns a
  read_lines ([] ∷ ls) buf a = read_lines ls buf a
  read_lines ((c ∷ cs) ∷ ls) buf a =
      let m = line_memory (take line_length (c ∷ cs)) buf in
      read_text (c ∷ cs) m a >>= read_lines ls m

  pub end_line-eq :
      (text : List ℕ) (at pos new_pos : ℕ) (buf : Memory) (a : A)
      → at ≡ length text
      → length text < length buf
      → end_line read at new_pos (at_pos (fill text buf) pos a) ≡ (
          read (line_memory text buf) a >>= λ a'.
          returns (at_pos (line_memory text buf) new_pos a'))
  unfolding end_line
  end_line-eq text at pos new_pos buf a e h = rw (e, set-fill text buf 0 h) refl

  -- A delimiter after characters.
  read_delimiter :
      (line : Memory) (pos : ℕ) (a : A)
      → 0 < pos
      → read_char read 10 (at_pos line pos a) ≡ end_line read (min pos 1024) 0 (at_pos line pos a)
  unfolding read_char is_line_delimiter
  read_delimiter line pos a h = let e : (pos == 0) ≡ false = ground arith in rw e refl

  delimiter_ends :
      (text : List ℕ) (buf : Memory) (a : A)
      → 0 < length text
      → length text ≤ 1024
      → 1024 < length buf
      → read_char read 10 (at_pos (fill text buf) (length text) a)
        ≡ (read (line_memory text buf) a >>= λ a'. returns (at_pos (line_memory text buf) 0 a'))
  delimiter_ends text buf a p h k =
      read_delimiter (fill text buf) (length text) a p
      ∙ end_line-eq text (min (length text) 1024) (length text) 0 buf a (omega arith) (omega arith)

  -- A line that fits, and its delimiter.
  pub short_line :
      (c : ℕ) (cs more : List ℕ) (buf : Memory) (a : A)
      → NoDelimiters (c ∷ cs)
      → length (c ∷ cs) ≤ 1024
      → 1024 < length buf
      → read_chars read ((c ∷ cs) ++ 10 ∷ more) (at_pos buf 0 a) ≡ (
          read (line_memory (c ∷ cs) buf) a >>= λ a'.
          read_chars read more (at_pos (line_memory (c ∷ cs) buf) 0 a'))
  unfolding read_chars
  short_line c cs more buf a h k l =
      store_chars (c ∷ cs) [] (10 ∷ more) buf a h (omega arith) l
      ∙ ap (λ e. e >>= read_chars read more) (delimiter_ends (c ∷ cs) buf a (omega arith) k l)
      ∙ bind_assoc (read (line_memory (c ∷ cs) buf) a)
          (λ a'. returns (at_pos (line_memory (c ∷ cs) buf) 0 a')) (read_chars read more)

  -- What is stored of a line that does not fit, with its delimiter still to come.
  skip_char :
      (c : ℕ) (m : Memory) (a : A)
      → is_line_delimiter c ≡ false
      → read_char read c (at_pos m 1025 a) ≡ returns (at_pos m 1025 a)
  unfolding read_char
  skip_char c m a h = rw h refl

  skip_chars :
      (text more : List ℕ) (m : Memory) (a : A)
      → NoDelimiters text
      → read_chars read (text ++ more) (at_pos m 1025 a) ≡ read_chars read more (at_pos m 1025 a)
  unfolding read_chars
  skip_chars [] more m a h = refl
  skip_chars (c ∷ text) more m a (h, hs) =
      ap (λ e. e >>= read_chars read (text ++ more)) (skip_char c m a h)
      ∙ skip_chars text more m a hs

  full_char :
      (x : ℕ) (text : List ℕ) (buf : Memory) (a : A)
      → is_line_delimiter x ≡ false
      → length text ≡ 1024
      → 1024 < length buf
      → read_char read x (at_pos (fill text buf) 1024 a)
        ≡ (read (line_memory text buf) a >>= λ a'. returns (at_pos (line_memory text buf) 1025 a'))
  unfolding read_char
  full_char x text buf a h e k = rw h (end_line-eq text 1024 1024 1025 buf a (sym e) (omega arith))

  pub long_chars :
      (x : ℕ) (text rest more : List ℕ) (buf : Memory) (a : A)
      → NoDelimiters text
      → NoDelimiters (x ∷ rest)
      → length text ≡ 1024
      → 1024 < length buf
      → read_chars read (text ++ x ∷ (rest ++ more)) (at_pos buf 0 a) ≡ (
          read (line_memory text buf) a >>= λ a'.
          read_chars read more (at_pos (line_memory text buf) 1025 a'))
  unfolding read_chars
  long_chars x text rest more buf a ht (hx, hr) e k =
      let m = line_memory text buf in
      store_chars text [] (x ∷ (rest ++ more)) buf a ht (omega arith) k
      ∙ ap (λ p. read_chars read (x ∷ (rest ++ more)) (at_pos (fill text buf) p a)) e
      ∙ ap (λ f. f >>= read_chars read (rest ++ more)) (full_char x text buf a hx e k)
      ∙ bind_assoc (read m a) (λ a'. returns (at_pos m 1025 a')) (read_chars read (rest ++ more))
      ∙ bind-same (read m a) (λ a'. read_chars read (rest ++ more) (at_pos m 1025 a'))
          (λ a'. read_chars read more (at_pos m 1025 a')) (λ a'. skip_chars rest more m a' hr)

  -- At the end of a line that did not fit it is read again.
  pub read_again :
      (text : List ℕ) (new_pos : ℕ) (buf : Memory) (a : A)
      → length text ≡ 1024
      → end_line read 1024 new_pos (at_pos (line_memory text buf) 1025 a) ≡ (
          read (line_memory text buf) a >>= λ a'.
          returns (at_pos (line_memory text buf) new_pos a'))
  unfolding end_line
  read_again text new_pos buf a e =
      rw (set-middle text (drop (suc (length text)) buf) 1024 0 0 (sym e)) refl

  pub long_delimiter :
      (text more : List ℕ) (buf : Memory) (a : A)
      → length text ≡ 1024
      → read_chars read (10 ∷ more) (at_pos (line_memory text buf) 1025 a) ≡ (
          read (line_memory text buf) a >>= λ a'.
          read_chars read more (at_pos (line_memory text buf) 0 a'))
  unfolding read_chars
  long_delimiter text more buf a e =
      let m = line_memory text buf in
      ap (λ f. f >>= read_chars read more)
        (read_delimiter m 1025 a (omega arith) ∙ read_again text 0 buf a e)
      ∙ bind_assoc (read m a) (λ a'. returns (at_pos m 0 a')) (read_chars read more)
