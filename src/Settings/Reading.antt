-- ===== src/Settings/Reading.antt =====
-- `actualReadConfig` of src/SpeakermanConfig.cpp reads a file line by line.
use speakerman.Prelude.{
  ℕ, ◌≤◌, ◌<◌, ◌≡◌, refl, sym, ap, ◌∙◌, true, false, ◌==◌, List, [], ◌∷◌, ◌++◌, append-nil,
  append_assoc, All, if◌then◌else◌, leb, min, arith, length, take, take-of_le,
}
use native.Mathlib.Decide.{dec_le}
use speakerman.Config.{Effect, returns, ◌>>=◌}
use speakerman.ConfigReader.{is_line_delimiter}
use speakerman.Settings.{Memory}
use speakerman.Settings.Files.{
  State, line_length, end_line, read_char, read_chars, actual_read_config,
}
use speakerman.Settings.Cut.{Cut, cut, memory_size, file_text}
use speakerman.Settings.Split.{
  bind_assoc, bind-same, fill, line_memory, NoDelimiters, at_pos, read_text, read_lines,
  store_chars, end_line-eq, short_line, long_chars, read_again, long_delimiter,
}

module _ {A : Type 0} (read : Memory → A → Effect A) where
  text_short :
      {B : Type 0} (l : List ℕ) (m : Memory) (a : A) (k : A → Effect B)
      → length l ≤ 1024
      → (read_text read l m a >>= k) ≡ (read m a >>= k)
  text_short l m a k h =
      let e : leb (length l) 1024 ≡ true = ground arith in
      rw e (bind_assoc (read m a) (λ a'. returns a') k)

  text_long :
      {B : Type 0} (l : List ℕ) (m : Memory) (a : A) (k : A → Effect B)
      → 1024 < length l
      → (read_text read l m a >>= k) ≡ (read m a >>= λ a'. read m a' >>= k)
  text_long l m a k h =
      let e : leb (length l) 1024 ≡ false = ground arith in
      rw e (bind_assoc (read m a) (λ a'. read m a') k)

  finish : State A → Effect A
  finish s =
      if s.line_pos == 0
      then returns s.config
      else end_line read (min s.line_pos line_length) s.line_pos s >>= λ s'. returns s'.config

  -- The reading of the rest of a file from the start of a line.
  from_here : List ℕ → Memory → A → Effect A
  from_here stream buf a = read_chars read stream (at_pos read buf 0 a) >>= finish

  -- What a line that does not fit does, with any continuation for its end.
  long_then :
      (l more : List ℕ) (ls : List (List ℕ)) (buf : Memory) (a : A)
      → Cut 1024 l
      → 1024 < length buf
      → ((m : Memory) (a' : A) → 1024 < length m → from_here more m a' ≡ read_lines read ls m a')
      → from_here (l ++ 10 ∷ more) buf a ≡ (
          let m = line_memory (take 1024 l) buf in
          read m a >>= λ a'. read m a' >>= read_lines read ls m)
  unfolding from_here
  long_then l more ls buf a cut h k =
      let m = line_memory cut.text buf in
      let text : l ++ 10 ∷ more ≡ cut.text ++ cut.next ∷ (cut.rest ++ 10 ∷ more) =
        ap (λ t. t ++ 10 ∷ more) cut.same
        ∙ append_assoc cut.text (cut.next ∷ cut.rest) (10 ∷ more) in
      let size = cut.size in
      let again = λ (a' : A).
        ap (λ e. e >>= finish) (long_delimiter read cut.text more buf a' cut.size)
        ∙ bind_assoc (read m a') (λ b. read_chars read more (at_pos read m 0 b)) finish
        ∙ bind-same (read m a') (λ b. from_here more m b) (read_lines read ls m)
            (λ b. k m b (omega (arith, memory_size cut.text buf (omega arith)))) in
      ap (λ t. from_here t buf a) text
      ∙ ap (λ e. e >>= finish)
          (long_chars read cut.next cut.text cut.rest (10 ∷ more) buf a cut.plain_front
            cut.plain_back cut.size h)
      ∙ bind_assoc (read m a) (λ a'. read_chars read (10 ∷ more) (at_pos read m 1025 a')) finish
      ∙ bind-same (read m a) (λ a'. read_chars read (10 ∷ more) (at_pos read m 1025 a') >>= finish)
          (λ a'. read m a' >>= read_lines read ls m) again
      ∙ ap
          (λ t.
            let m' = line_memory t buf in read m' a >>= λ a'. read m' a' >>= read_lines read ls m')
          (sym cut.front)

  line_then :
      (l more : List ℕ) (ls : List (List ℕ)) (buf : Memory) (a : A)
      → NoDelimiters l
      → 1024 < length buf
      → ((m : Memory) (a' : A) → 1024 < length m → from_here more m a' ≡ read_lines read ls m a')
      → from_here (l ++ 10 ∷ more) buf a ≡ read_lines read (l ∷ ls) buf a
  unfolding from_here read_chars read_char is_line_delimiter
  line_then [] more ls buf a p h k = k buf a h
  line_then (c ∷ cs) more ls buf a p h k = elim (dec_le (length (c ∷ cs)) 1024) [
    | yes fits ↦
        let m = line_memory (c ∷ cs) buf in
        ap (λ e. e >>= finish) (short_line read c cs more buf a p fits h)
        ∙ bind_assoc (read m a) (λ a'. read_chars read more (at_pos read m 0 a')) finish
        ∙ bind-same (read m a) (λ a'. from_here more m a') (read_lines read ls m)
            (λ a'. k m a' (omega (arith, memory_size (c ∷ cs) buf (omega arith))))
        ∙ sym (text_short (c ∷ cs) m a (read_lines read ls m) fits)
        ∙ ap
            (λ t.
              let m' = line_memory t buf in read_text read (c ∷ cs) m' a >>= read_lines read ls m')
            (sym (take-of_le 1024 (c ∷ cs) fits))
    | no long ↦
        let m = line_memory (take 1024 (c ∷ cs)) buf in
        long_then (c ∷ cs) more ls buf a (cut 1024 (c ∷ cs) (omega arith) p) h k
        ∙ sym (text_long (c ∷ cs) m a (read_lines read ls m) (omega arith))
  ]

  -- The end of the file after characters.
  finish_at :
      (line : Memory) (pos : ℕ) (a : A)
      → 0 < pos
      → finish (at_pos read line pos a)
        ≡ (end_line read (min pos 1024) pos (at_pos read line pos a) >>= λ s. returns s.config)
  unfolding finish
  finish_at line pos a h = let e : (pos == 0) ≡ false = ground arith in rw e refl

  config_of :
      (e : Effect A) (m : Memory) (pos : ℕ)
      → (e >>= (λ a. returns (at_pos read m pos a)) >>= λ s. returns s.config)
        ≡ (e >>= λ a. returns a)
  config_of e m pos = bind_assoc e (λ a. returns (at_pos read m pos a)) (λ s. returns s.config)

  long_last :
      (l : List ℕ) (buf : Memory) (a : A)
      → Cut 1024 l
      → 1024 < length buf
      → from_here l buf a
        ≡ (let m = line_memory (take 1024 l) buf in read m a >>= λ a'. read m a' >>= λ b. returns b)
  unfolding from_here read_chars
  long_last l buf a cut h =
      let m = line_memory cut.text buf in
      let again = λ (a' : A).
        finish_at m 1025 a' (omega arith)
        ∙ ap (λ e. e >>= λ s. returns s.config) (read_again read cut.text 1025 buf a' cut.size)
        ∙ config_of (read m a') m 1025 in
      ap (λ t. from_here t buf a)
        (cut.same ∙ ap (λ r. cut.text ++ cut.next ∷ r) (sym (append-nil cut.rest)))
      ∙ ap (λ e. e >>= finish)
          (long_chars read cut.next cut.text cut.rest [] buf a cut.plain_front cut.plain_back
            cut.size h)
      ∙ bind_assoc (read m a) (λ a'. returns (at_pos read m 1025 a')) finish
      ∙ bind-same (read m a) (λ a'. finish (at_pos read m 1025 a'))
          (λ a'. read m a' >>= λ b. returns b) again
      ∙ ap (λ t. let m' = line_memory t buf in read m' a >>= λ a'. read m' a' >>= λ b. returns b)
          (sym cut.front)

  last_then :
      (l : List ℕ) (buf : Memory) (a : A)
      → NoDelimiters l
      → 1024 < length buf
      → from_here l buf a ≡ read_lines read (l ∷ []) buf a
  unfolding from_here read_chars finish
  last_then [] buf a p h = refl
  last_then (c ∷ cs) buf a p h = elim (dec_le (length (c ∷ cs)) 1024) [
    | yes fits ↦
        let l = c ∷ cs in
        let m = line_memory l buf in
        ap (λ t. from_here t buf a) (sym (append-nil l))
        ∙ ap (λ e. e >>= finish) (store_chars read l [] [] buf a p (omega arith) h)
        ∙ finish_at (fill l buf) (length l) a (omega arith)
        ∙ ap (λ e. e >>= λ s. returns s.config)
            (end_line-eq read l (min (length l) 1024) (length l) (length l) buf a (omega arith)
              (omega arith))
        ∙ config_of (read m a) m (length l)
        ∙ sym (text_short l m a (λ b. returns b) fits)
        ∙ ap (λ t. let m' = line_memory t buf in read_text read l m' a >>= read_lines read [] m')
            (sym (take-of_le 1024 l fits))
    | no long ↦
        let l = c ∷ cs in
        let m = line_memory (take 1024 l) buf in
        long_last l buf a (cut 1024 l (omega arith) p) h
        ∙ sym (text_long l m a (λ b. returns b) (omega arith))
  ]

  whole_file :
      (ls : List (List ℕ)) (last : List ℕ) (buf : Memory) (a : A)
      → All NoDelimiters ls
      → NoDelimiters last
      → 1024 < length buf
      → from_here (file_text ls last) buf a ≡ read_lines read (ls ++ last ∷ []) buf a
  whole_file [] last buf a hs p h = last_then last buf a p h
  whole_file (l ∷ ls) last buf a (hl, hs) p h =
      line_then l (file_text ls last) (ls ++ last ∷ []) buf a hl h
        (λ m a' k. whole_file ls last m a' hs p k)

  -- For lines without delimiters and a buffer with room for 1024 bytes and a zero, reading the file is
  -- reading its lines in turn, each cut after 1024 bytes and ended by a zero: empty lines are left out,
  -- and a line that had to be cut is read a second time.
  pub actual_read_config-lines :
      (ls : List (List ℕ)) (last : List ℕ) (buf : Memory) (a : A)
      → All NoDelimiters ls
      → NoDelimiters last
      → 1024 < length buf
      → actual_read_config read (file_text ls last) buf a ≡ read_lines read (ls ++ last ∷ []) buf a
  unfolding actual_read_config from_here finish
  actual_read_config-lines ls last buf a hs p h = whole_file ls last buf a hs p h

  -- A line that fits, and has characters, is read once.
  pub read_lines-fits :
      (l : List ℕ) (ls : List (List ℕ)) (buf : Memory) (a : A)
      → 0 < length l
      → length l ≤ 1024
      → read_lines read (l ∷ ls) buf a
        ≡ (read (line_memory l buf) a >>= read_lines read ls (line_memory l buf))
  read_lines-fits [] ls buf a h k = absurd (omega arith)
  read_lines-fits (c ∷ cs) ls buf a h k =
      ap (λ t. let m = line_memory t buf in read_text read (c ∷ cs) m a >>= read_lines read ls m)
        (take-of_le 1024 (c ∷ cs) k)
      ∙ text_short (c ∷ cs) (line_memory (c ∷ cs) buf) a
          (read_lines read ls (line_memory (c ∷ cs) buf)) k
