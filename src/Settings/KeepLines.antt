-- ===== src/Settings/KeepLines.antt =====
-- What the reading of a value keeps, the reading of lines, JSON values and files of
-- src/SpeakermanConfig.cpp keeps too.
use speakerman.Prelude.{
  ◌==◌, ltb, min, set, ℕ, ◌+◌, Bool, true, false, List, [], ◌∷◌, if◌then◌else◌, All, Option, none,
  some,
}
use speakerman.Config.{SpeakermanConfig, Effect, returns, ◌>>=◌}
use speakerman.Settings.{Memory}
use speakerman.Settings.Keys.{
  ReaderStatus, success, skip, fault, skip_to_key_start, is, read_key, skip_assignment,
}
use speakerman.Settings.Variables.{Numerals, KeyVariableReader, read_value}
use speakerman.Settings.Lines.{find, select, read_selected, read_line, set_text}
use speakerman.Settings.Files.{
  State, end_line, read_char, read_chars, actual_read_config, line_length,
}
use speakerman.Settings.Bounds.{Ensures, Ensures-bind, Holds}
use speakerman.ConfigReader.{is_line_delimiter}
use speakerman.Settings.Keep.{IsSafe, value-keeps}

module _ (Q : SpeakermanConfig → Type 0) (numerals : Numerals) (runtime : Bool) where
  abbrev SafeFound : ReaderStatus (Option (KeyVariableReader × Memory)) → Type 0
  SafeFound (success none) = Unit
  SafeFound (success (some (r, after))) = IsSafe Q runtime r
  SafeFound skip = Unit
  SafeFound fault = Unit

  -- The reader that `select` or `find` gives is one of the readers.
  select-IsSafe :
      (rs : List KeyVariableReader) (start : Memory) (found : Option (KeyVariableReader × Memory))
      → All (IsSafe Q runtime) rs
      → SafeFound (success found)
      → SafeFound (select rs start found)
  unfolding select read_key
  select-IsSafe [] start found hs h = h
  select-IsSafe (r ∷ rs) start found (k, hs) h =
      elim (read_key r.key start)
        as (λ s. SafeFound (elim s as (λ _. ReaderStatus (Option (KeyVariableReader × Memory))) [
          | success after_key ↦ select rs start (some (r, after_key))
          | skip ↦ select rs start found
          | fault ↦ fault
        ])) [
          | success after_key ↦ select-IsSafe rs start (some (r, after_key)) hs k
          | skip ↦ select-IsSafe rs start found hs h
          | fault ↦ tt
        ]

  find-IsSafe :
      (rs : List KeyVariableReader) (path : Memory)
      → All (IsSafe Q runtime) rs
      → Holds (IsSafe Q runtime) (find rs path)
  unfolding find is
  find-IsSafe [] path hs = tt
  find-IsSafe (r ∷ rs) path (k, hs) =
      elim (is r.key path)
        as (λ b.
          Holds (IsSafe Q runtime)
            (elim b as (λ _. Option KeyVariableReader) [ true ↦ some r | false ↦ find rs path ])) [
              | true ↦ k
              | false ↦ find-IsSafe rs path hs
            ]

  -- The result of a line or of a value keeps `Q`.
  abbrev AlsoKeeps : Effect (Bool × SpeakermanConfig) → Type 0
  AlsoKeeps = Ensures (λ p. Q p.1)

  module _ (rs : List KeyVariableReader) (safe : All (IsSafe Q runtime) rs) where
    assignment-keeps :
        (status : ReaderStatus Memory) (reader : KeyVariableReader) (c : SpeakermanConfig)
        → IsSafe Q runtime reader
        → Q c
        → AlsoKeeps (elim status as (λ _. Effect (Bool × SpeakermanConfig)) [
          | success value_start ↦ read_value numerals reader value_start runtime c
          | skip ↦ returns (false, c)
          | fault ↦ returns (false, c)
        ])
    assignment-keeps (success value_start) reader c h q =
        value-keeps Q numerals runtime reader value_start c h q
    assignment-keeps skip reader c h q = q
    assignment-keeps fault reader c h q = q

    selected-keeps :
        (found : ReaderStatus (Option (KeyVariableReader × Memory))) (c : SpeakermanConfig)
        → SafeFound found
        → Q c
        → AlsoKeeps (read_selected numerals rs found runtime c)
    unfolding read_selected
    selected-keeps (success none) c h q = q
    selected-keeps (success (some (reader, after_key))) c h q =
        assignment-keeps (skip_assignment after_key) reader c h q
    selected-keeps skip c h q = q
    selected-keeps fault c h q = q

    line-keeps :
        (line : Memory) (c : SpeakermanConfig)
        → Q c
        → AlsoKeeps (read_line numerals rs line runtime c)
    unfolding read_line
    line-keeps line c q =
        elim (skip_to_key_start line)
          as (λ s. AlsoKeeps (elim s as (λ _. Effect (Bool × SpeakermanConfig)) [
            | success key_start ↦ read_selected numerals rs (select rs key_start none) runtime c
            | skip ↦ returns (true, c)
            | fault ↦ returns (false, c)
          ])) [
            | success key_start ↦
                selected-keeps (select rs key_start none) c
                  (select-IsSafe rs key_start none safe tt) q
            | skip ↦ q
            | fault ↦ q
          ]

-- What holds of the start and is kept by the reading of lines holds of the end of the file.
module _ {A : Type 0} (P : A → Type 0) (read : Memory → A → Effect A)
    (keeps : (line : Memory) (a : A) → P a → Ensures P (read line a)) where
  end-keeps :
      (at new_pos : ℕ) (s : State A)
      → P s.config
      → Ensures (λ s'. P s'.config) (end_line read at new_pos s)
  unfolding end_line
  end-keeps at new_pos s h =
      Ensures-bind P (λ (s' : State A). P s'.config) (read (set s.line at 0) s.config)
        (λ c. returns (record { line = set s.line at 0; line_pos = new_pos; config = c }))
        (keeps (set s.line at 0) s.config h) (λ a k. k)

  char-keeps : (c : ℕ) (s : State A) → P s.config → Ensures (λ s'. P s'.config) (read_char read c s)
  unfolding read_char
  char-keeps c s h =
      delimiter (is_line_delimiter c) (s.line_pos == 0) (ltb s.line_pos line_length)
        (s.line_pos == line_length)
    where
      delimiter :
          (is_end is_empty has_room is_full : Bool)
          → Ensures
              (λ s'. P s'.config)
              (if is_end
                then if is_empty then returns s else end_line read (min s.line_pos line_length) 0 s
                else if has_room
                then returns
                    (record s { line = set s.line s.line_pos c; line_pos = s.line_pos + 1 })
                else if is_full
                then end_line read line_length (s.line_pos + 1) s
                else returns s)
      delimiter true true r f = h
      delimiter true false r f = end-keeps (min s.line_pos line_length) 0 s h
      delimiter false e true f = h
      delimiter false e false true = end-keeps line_length (s.line_pos + 1) s h
      delimiter false e false false = h

  chars-keep :
      (cs : List ℕ) (s : State A) → P s.config → Ensures (λ s'. P s'.config) (read_chars read cs s)
  unfolding read_chars
  chars-keep [] s h = h
  chars-keep (c ∷ cs) s h =
      Ensures-bind (λ (s' : State A). P s'.config) (λ (s' : State A). P s'.config)
        (read_char read c s) (read_chars read cs) (char-keeps c s h) (λ s' k. chars-keep cs s' k)

  pub file-keeps :
      (stream : List ℕ) (line : Memory) (a : A)
      → P a
      → Ensures P (actual_read_config read stream line a)
  unfolding actual_read_config
  file-keeps stream line a h =
      let s : State A = record { line = line; line_pos = 0; config = a } in
      Ensures-bind (λ (s' : State A). P s'.config) P (read_chars read stream s)
        (λ s.
          if s.line_pos == 0
          then returns s.config
          else end_line read (min s.line_pos line_length) s.line_pos s >>= λ s'. returns s'.config)
        (chars-keep stream s h) (λ s' k. last s' (s'.line_pos == 0) k)
    where
      last :
          (s : State A) (is_empty : Bool)
          → P s.config
          → Ensures P (
              if is_empty
              then returns s.config
              else end_line read (min s.line_pos line_length) s.line_pos s >>= λ s'.
                  returns s'.config)
      last s true k = k
      last s false k =
          Ensures-bind (λ (s' : State A). P s'.config) P
            (end_line read (min s.line_pos line_length) s.line_pos s) (λ s'. returns s'.config)
            (end-keeps (min s.line_pos line_length) s.line_pos s k) (λ s' m. m)

-- Reading a file keeps what its readers keep.
pub readers-keep :
    (Q : SpeakermanConfig → Type 0) (numerals : Numerals) (runtime : Bool)
    (rs : List KeyVariableReader) (safe : All (IsSafe Q runtime) rs) (stream : List ℕ)
    (line : Memory) (c : SpeakermanConfig)
    → Q c
    → Ensures Q (
        actual_read_config
          (λ l a. read_line numerals rs l runtime a >>= λ p. returns p.1)
          stream
          line
          c)
readers-keep Q numerals runtime rs safe stream line c q =
    file-keeps Q (λ l a. read_line numerals rs l runtime a >>= λ p. returns p.1)
      (λ l a h.
        Ensures-bind (λ p. Q p.1) Q (read_line numerals rs l runtime a) (λ p. returns p.1)
          (line-keeps Q numerals runtime rs safe l a h) (λ p k. k))
      stream line c q

-- Setting a value from JSON keeps what the readers keep at runtime.
pub text-keeps :
    (Q : SpeakermanConfig → Type 0) (numerals : Numerals) (rs : List KeyVariableReader)
    (safe : All (IsSafe Q true) rs) (path text : Memory) (c : SpeakermanConfig)
    → Q c
    → Ensures Q (set_text numerals rs path text c)
unfolding set_text
text-keeps Q numerals rs safe path text c q =
    found-keeps (find rs path) (find-IsSafe Q numerals true rs path safe)
  where
    found-keeps :
        (o : Option KeyVariableReader)
        → Holds (IsSafe Q true) o
        → Ensures Q (elim o as (λ _. Effect SpeakermanConfig) [
          | none ↦ returns c
          | some reader ↦ read_value numerals reader text true c >>= λ r. returns r.1
        ])
    found-keeps none h = q
    found-keeps (some reader) h =
        Ensures-bind (λ p. Q p.1) Q (read_value numerals reader text true c) (λ p. returns p.1)
          (value-keeps Q numerals true reader text c h q) (λ p k. k)
