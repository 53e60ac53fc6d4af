-- ===== src/Settings/Written.antt =====
-- What src/SpeakermanConfig.cpp writes of counts is read back from a file.
use speakerman.Prelude.{
  ℕ, suc, ◌^◌, ◌≤◌, ◌<◌, ◌≡◌, refl, sym, ap, ◌∙◌, Bool, true, false, not, ◌||◌, List, [], ◌∷◌, ◌++◌,
  append_assoc, ◌-◌, ◌==◌, All, All-append, some, none, arith, codes, decimal, length,
  length-append, get_elem?, drop,
}
use speakerman.Config.{SpeakermanConfig, Effect, returns, ◌>>=◌}
use speakerman.ConfigReader.{is_num, is_line_delimiter}
use speakerman.Settings.{Memory, char_at}
use speakerman.Settings.Values.{ends_value, parse_count}
use speakerman.Settings.Numbers.{parse_count-decimal, decimal_lem, decimal-IsNumber, IsNumber}
use speakerman.Settings.Keys.{success, skip_to_key_start, skip_assignment}
use speakerman.Settings.Variables.{
  Numerals, Field, count, KeyVariableReader, read_typed, read_variable, read_value, write_variable,
  write_line,
}
use speakerman.Settings.Select.{
  distinct_keys, is_valid_key, select-key, key_start-letter, skip_assignment-written,
  valid-NoDelimiters,
}
use speakerman.Settings.Lines.{select, read_selected, read_line, write_readers}
use speakerman.Settings.Files.{actual_read_config}
use speakerman.Settings.Split.{NoDelimiters, line_memory, read_lines}
use speakerman.Settings.Cut.{file_text}
use speakerman.Settings.Reading.{read_lines-fits, actual_read_config-lines}

module _ (numerals : Numerals) (rs : List KeyVariableReader)
    (distinct : distinct_keys rs ≡ true) where
  -- A reader of the list for a count that is set, and can be read back.
  pub record IsWritten (runtime : Bool) (config : SpeakermanConfig) (r : KeyVariableReader)
      : Type 0 where
    pub index : ℕ
    pub is_at : get_elem? rs index ≡ some r
    pub field : Field ℕ
    pub is_count : r.variable ≡ count field
    pub can_change : (not runtime || r.runtime_changeable) ≡ true
    pub in_range : field.get config < 2 ^ 63
    pub fits : length r.key ≤ 1000

  line_of : List ℕ → ℕ → List ℕ
  line_of key n = key ++ (codes " = " ++ decimal n)

  value-read :
      (r : KeyVariableReader) (f : Field ℕ) (n : ℕ) (t : Memory) (runtime : Bool)
      (config : SpeakermanConfig)
      → r.variable ≡ count f
      → (not runtime || r.runtime_changeable) ≡ true
      → n < 2 ^ 63
      → ends_value t ≡ true
      → read_value numerals r (decimal n ++ t) runtime config ≡ returns (true, f.put n config)
  unfolding read_value read_variable read_typed
  value-read r f n t runtime config v c h e =
      let parsed : (parse_count (decimal n ++ t)).0 ≡ some n =
        ap (λ p. p.0) (parse_count-decimal n t h e) in
      rw (c, v, parsed) refl

  digit_first : (n : ℕ) (t : Memory) → is_num (char_at (decimal n ++ t)) ≡ true
  unfolding char_at
  digit_first n t = first (decimal n) (decimal-IsNumber n)
    where
      first : (ds : List ℕ) → IsNumber ds → is_num (char_at (ds ++ t)) ≡ true
      first [] h = elim h [ ]
      first (d ∷ ds) h = h

  read_line-started :
      (line key_start : Memory) (runtime : Bool) (config : SpeakermanConfig)
      → skip_to_key_start line ≡ success key_start
      → read_line numerals rs line runtime config
        ≡ read_selected numerals rs (select rs key_start none) runtime config
  unfolding read_line
  read_line-started line key_start runtime config h = rw (h, read_line) refl

  selected-assigned :
      (r : KeyVariableReader) (after value : Memory) (runtime : Bool) (config : SpeakermanConfig)
      → skip_assignment after ≡ success value
      → read_selected numerals rs (success (some (r, after))) runtime config
        ≡ read_value numerals r value runtime config
  unfolding read_selected
  selected-assigned r after value runtime config h = rw (h, read_selected) refl

  -- The line with the key of a reader for a count and a number sets it.
  pub read_line-count :
      (i : ℕ) (r : KeyVariableReader) (f : Field ℕ) (n : ℕ) (t : Memory) (runtime : Bool)
      (config : SpeakermanConfig)
      → get_elem? rs i ≡ some r
      → r.variable ≡ count f
      → (not runtime || r.runtime_changeable) ≡ true
      → n < 2 ^ 63
      → ends_value t ≡ true
      → read_line numerals rs (r.key ++ (codes " = " ++ (decimal n ++ t))) runtime config
        ≡ returns (true, f.put n config)
  read_line-count i r f n t runtime config at v c h e =
      let value = decimal n ++ t in
      let (selected, valid) = select-key rs i r (61 ∷ 32 ∷ value) none distinct at in
      let start = key_start-letter r.key (codes " = " ++ value) valid in
      let assigned = skip_assignment-written value (digit_first n t) in
      let line = r.key ++ (codes " = " ++ value) in
      read_line-started line line runtime config start
      ∙ ap (λ s. read_selected numerals rs s runtime config) selected
      ∙ selected-assigned r (codes " = " ++ value) value runtime config assigned
      ∙ value-read r f n t runtime config v c h e

  -- The lines of the readers, and the configuration with their values.
  abbrev Written : (runtime : Bool) → SpeakermanConfig → List KeyVariableReader → Type 0
  Written runtime config ws = All (IsWritten runtime config) ws

  abbrev lines_of :
      (runtime : Bool) (config : SpeakermanConfig) (ws : List KeyVariableReader)
      → Written runtime config ws
      → List (List ℕ)
  lines_of runtime config [] h = []
  lines_of runtime config (r ∷ ws) (w, h) =
      line_of r.key (w.field.get config) ∷ lines_of runtime config ws h

  -- Copying the values of the readers from one configuration to another.
  abbrev pub copied :
      (runtime : Bool) (config : SpeakermanConfig) (ws : List KeyVariableReader)
      → All (IsWritten runtime config) ws
      → SpeakermanConfig
      → SpeakermanConfig
  copied runtime config [] h other = other
  copied runtime config (r ∷ ws) (w, h) other =
      copied runtime config ws h (w.field.put (w.field.get config) other)

  -- `read_line` as `actualReadConfig` calls it.
  abbrev pub read_file_line : Bool → Memory → SpeakermanConfig → Effect SpeakermanConfig
  read_file_line runtime line c = read_line numerals rs line runtime c >>= λ r. returns r.1

  line-one_line :
      (key : List ℕ) (n : ℕ)
      → is_valid_key key ≡ true
      → length key ≤ 1000
      → NoDelimiters (line_of key n) × (length (line_of key n) ≤ 1024)
  unfolding line_of is_line_delimiter
  line-one_line key n valid h =
      let (digits, few) = decimal_lem n in
      (
        All-append (λ c. is_line_delimiter c ≡ false) key (codes " = " ++ decimal n)
            (valid-NoDelimiters key valid) (refl, (refl, (refl, digits))),
        omega (arith, length-append key (codes " = " ++ decimal n)),
      )

  line-some : (key : List ℕ) (n : ℕ) → 0 < length (line_of key n)
  unfolding line_of
  line-some key n = omega (arith, length-append key (codes " = " ++ decimal n))

  set-line :
      (unset : Bool) (key value : List ℕ)
      → unset ≡ false
      → write_line unset key value ≡ (key ++ (codes " = " ++ value)) ++ 10 ∷ []
  unfolding write_line
  set-line unset key value h =
      rw (h, write_line)
        (append_assoc (key ++ codes " = ") value (10 ∷ [])
          ∙ append_assoc key (codes " = ") (value ++ 10 ∷ [])
          ∙ sym (append_assoc key (codes " = " ++ value) (10 ∷ [])))

  count-line :
      (f : Field ℕ) (key : List ℕ) (config : SpeakermanConfig)
      → f.get config < 2 ^ 63
      → write_variable numerals (count f) key config ≡ line_of key (f.get config) ++ 10 ∷ []
  unfolding write_variable line_of
  count-line f key config h =
      let unset : (f.get config == 2 ^ 64 - 1) ≡ false = ground arith in
      set-line (f.get config == 2 ^ 64 - 1) key (decimal (f.get config)) unset

  Written-lines :
      (runtime : Bool) (config : SpeakermanConfig) (ws : List KeyVariableReader)
      (h : Written runtime config ws)
      → write_readers numerals config ws ≡ file_text (lines_of runtime config ws h) []
  Written-lines runtime config [] h = refl
  Written-lines runtime config (r ∷ ws) (w, h) =
      let line = line_of r.key (w.field.get config) in
      let rest = write_readers numerals config ws in
      ap (λ v. write_variable numerals v r.key config ++ rest) w.is_count
      ∙ ap (λ l. l ++ rest) (count-line w.field r.key config w.in_range)
      ∙ append_assoc line (10 ∷ []) rest
      ∙ ap (λ t. line ++ 10 ∷ t) (Written-lines runtime config ws h)

  lines-NoDelimiters :
      (runtime : Bool) (config : SpeakermanConfig) (ws : List KeyVariableReader)
      (h : Written runtime config ws)
      → All NoDelimiters (lines_of runtime config ws h)
  lines-NoDelimiters runtime config [] h = tt
  lines-NoDelimiters runtime config (r ∷ ws) (w, h) =
      let valid = (select-key rs w.index r [] none distinct w.is_at).1 in
      (
        (line-one_line r.key (w.field.get config) valid w.fits).0,
        lines-NoDelimiters runtime config ws h,
      )

  -- One line after another sets its variable.
  one_line-read :
      (runtime : Bool) (config : SpeakermanConfig) (r : KeyVariableReader)
      (w : IsWritten runtime config r) (buf : Memory) (other : SpeakermanConfig)
      → read_file_line runtime (line_memory (line_of r.key (w.field.get config)) buf) other
        ≡ returns (w.field.put (w.field.get config) other)
  unfolding line_of ends_value char_at
  one_line-read runtime config r w buf other =
      let n = w.field.get config in
      let t = 0 ∷ drop (suc (length (line_of r.key n))) buf in
      let same : line_of r.key n ++ t ≡ r.key ++ (codes " = " ++ (decimal n ++ t)) =
        append_assoc r.key (codes " = " ++ decimal n) t in
      ap (λ l. read_file_line runtime l other) same
      ∙ ap (λ e. e >>= λ p. returns p.1)
          (read_line-count w.index r w.field n t runtime other w.is_at w.is_count w.can_change
            w.in_range refl)

  lines-read :
      (runtime : Bool) (config : SpeakermanConfig) (ws : List KeyVariableReader)
      (h : Written runtime config ws) (buf : Memory) (other : SpeakermanConfig)
      → read_lines (read_file_line runtime) (lines_of runtime config ws h ++ [] ∷ []) buf other
        ≡ returns (copied runtime config ws h other)
  lines-read runtime config [] h buf other = refl
  lines-read runtime config (r ∷ ws) (w, h) buf other =
      let line = line_of r.key (w.field.get config) in
      let m = line_memory line buf in
      let valid = (select-key rs w.index r [] none distinct w.is_at).1 in
      let (_, few) = line-one_line r.key (w.field.get config) valid w.fits in
      read_lines-fits (read_file_line runtime) line (lines_of runtime config ws h ++ [] ∷ []) buf
        other (line-some r.key (w.field.get config)) few
      ∙ ap
          (λ e.
            e >>= read_lines (read_file_line runtime) (lines_of runtime config ws h ++ [] ∷ []) m)
          (one_line-read runtime config r w buf other)
      ∙ lines-read runtime config ws h m (w.field.put (w.field.get config) other)

  -- A file with what `dump` writes of counts that are set and below 2^63 is read by
  -- `actualReadConfig`, and sets exactly these variables to the values that were written. The keys of
  -- the readers differ, have at most 1000 characters and can be set, and the buffer has room for
  -- 1024 bytes and a zero.
  pub actual_read_config-write_readers :
      (runtime : Bool) (config : SpeakermanConfig) (ws : List KeyVariableReader)
      (written : All (IsWritten runtime config) ws) (buf : Memory) (other : SpeakermanConfig)
      → 1024 < length buf
      → actual_read_config (read_file_line runtime) (write_readers numerals config ws) buf other
        ≡ returns (copied runtime config ws written other)
  actual_read_config-write_readers runtime config ws h buf other k =
      ap (λ t. actual_read_config (read_file_line runtime) t buf other)
        (Written-lines runtime config ws h)
      ∙ actual_read_config-lines (read_file_line runtime) (lines_of runtime config ws h) [] buf
          other (lines-NoDelimiters runtime config ws h) tt k
      ∙ lines-read runtime config ws h buf other
