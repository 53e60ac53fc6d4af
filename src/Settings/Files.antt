-- ===== src/Settings/Files.antt =====
-- The reading of a whole file: `actualReadConfig` of src/SpeakermanConfig.cpp, for any function that
-- reads a line.
use speakerman.Prelude.{ℕ, ◌+◌, List, [], ◌∷◌, if◌then◌else◌, ltb, ◌==◌, min, set}
use speakerman.Config.{Effect, returns, ◌>>=◌}
use speakerman.ConfigReader.{is_line_delimiter}
use speakerman.Settings.{Memory}

abbrev pub line_length : ℕ
line_length = 1024

-- The local variables of `actualReadConfig`; `line` is the memory from the buffer on.
pub record State {ℓ} (A : Type ℓ) : Type ℓ where
  pub line : Memory
  pub line_pos : ℕ
  pub config : A

module _ {ℓ} {A : Type ℓ} (read_line : Memory → A → Effect A) where
  -- `line[at] = '\0'`, and the call of `read_line`.
  unfoldable pub end_line : (at new_pos : ℕ) → State A → Effect (State A)
  end_line at new_pos s =
      let line' = set s.line at 0 in
      read_line line' s.config >>= λ config'.
      returns (record { line = line'; line_pos = new_pos; config = config' })

  -- The body of the loop for a character.
  unfoldable pub read_char : ℕ → State A → Effect (State A)
  unfolding end_line
  read_char c s =
      if is_line_delimiter c
      then if s.line_pos == 0 then returns s else end_line (min s.line_pos line_length) 0 s
      else if ltb s.line_pos line_length
      then returns (record s { line = set s.line s.line_pos c; line_pos = s.line_pos + 1 })
      else if s.line_pos == line_length
      then end_line line_length (s.line_pos + 1) s
      else returns s

  unfoldable pub read_chars : List ℕ → State A → Effect (State A)
  unfolding read_char
  read_chars [] s = returns s
  read_chars (c ∷ cs) s = read_char c s >>= λ s'. read_chars cs s'

  -- `actualReadConfig` after `resetStream`, for the bytes of the stream.
  unfoldable pub actual_read_config : List ℕ → Memory → A → Effect A
  unfolding read_chars end_line
  actual_read_config stream line config =
      read_chars stream (record { line = line; line_pos = 0; config = config }) >>= λ s.
      if s.line_pos == 0
      then returns s.config
      else end_line (min s.line_pos line_length) s.line_pos s >>= λ s'. returns s'.config
