-- ===== src/ConfigReader.antt =====
-- The reader of configuration files: `config` and `config::Reader` of
-- src/include/speakerman/utils/Config.hpp. A byte is a number below 256; the characters of the
-- tests are ASCII, so it does not matter whether `char` is signed. `key` and `value` are the bytes
-- `key_[0 .. keyLen_)` and `value_[0 .. valueLen_)`.
pub mod Invariant
pub mod Lines
pub mod Files
pub mod Quotes
mod Examples
use speakerman.Prelude.{
  ℕ, Bool, true, false, ◌&&◌, ◌||◌, ◌==◌, leb, if◌then◌else◌, List, [], ◌∷◌, ◌++◌, Option, none,
  some, length,
}

-- `enum class CallbackResult`; `continue_` is CONTINUE.
pub data CallbackResult : Type 0 where
  continue_ stop : CallbackResult

-- `enum class ReadResult`
pub data ReadResult : Type 0 where
  success stopped no_callback key_too_long value_too_long invalid_start_of_line : ReadResult
  invalid_key_character invalid_assignment unexpected_eol unexpected_eof : ReadResult

-- `enum class ParseState`
pub data ParseState : Type 0 where
  start comment key_name assignment start_value value quote esc : ParseState

unfoldable pub get_escaped : ℕ → ℕ
get_escaped c =
    if c == 92
    then 92
    else if c == b'b'
    then 8
    else if c == b'r'
    then 13
    else if c == b'n'
    then 10
    else if c == b't'
    then 9
    else c

unfoldable pub is_white_space : ℕ → Bool
is_white_space c = c == b' ' || c == 9

unfoldable pub is_line_delimiter : ℕ → Bool
is_line_delimiter c = c == 10 || c == 13

unfoldable pub is_assignment : ℕ → Bool
is_assignment c = c == b'=' || c == b':'

unfoldable pub is_comment_start : ℕ → Bool
is_comment_start c = c == b';' || c == b'#'

-- 92 is the backslash
unfoldable pub is_escape : ℕ → Bool
is_escape c = c == 92

-- 34 is the double quote, and 39 the single one
unfoldable pub is_quote : ℕ → Bool
is_quote c = c == 34 || c == 39

unfoldable pub is_alpha : ℕ → Bool
is_alpha c = leb b'A' c && leb c b'Z' || leb b'a' c && leb c b'z'

unfoldable pub is_num : ℕ → Bool
is_num c = leb b'0' c && leb c b'9'

unfoldable pub is_alpha_num : ℕ → Bool
unfolding is_alpha is_num
is_alpha_num c = is_alpha c || is_num c

unfoldable pub is_key_start_char : ℕ → Bool
unfolding is_alpha_num
is_key_start_char c = is_alpha_num c || c == b'_' || c == b'.' || c == b'/'

unfoldable pub is_key_char : ℕ → Bool
unfolding is_key_start_char
is_key_char c = is_key_start_char c || c == b'-' || c == b'[' || c == b']'

abbrev pub max_key_length : ℕ
max_key_length = 127

abbrev pub max_value_length : ℕ
max_value_length = 1023

-- The fields of the reader, the local variables `popState_` and `quote` of `read`, and what the
-- callback keeps behind `void *data`.
pub record Reader {ℓ} (D : Type ℓ) : Type ℓ where
  pub key : List ℕ
  pub value : List ℕ
  pub state : ParseState
  pub pop_state : ParseState
  pub quote_char : ℕ
  pub user_data : D

-- A callback that can change its data. It gets the bytes of the key and of the value without the zero behind
-- them; what it makes of a zero among them is its own.
abbrev pub Callback {ℓ} : Type ℓ → Type ℓ
Callback D = List ℕ → List ℕ → D → CallbackResult × D

-- What one turn of the loop does: go on, or return.
pub data Outcome {ℓ} (D : Type ℓ) : Type ℓ where
  going : Reader D → Outcome D
  returned : ReadResult → Reader D → Outcome D

module _ {ℓ} {D : Type ℓ} where
  unfoldable pub set_start_state : Reader D → Reader D
  set_start_state r = record r { state = ParseState.start; key = []; value = [] }

  unfoldable pub add_key_char : ℕ → Reader D → Bool × Reader D
  add_key_char c r =
      if length r.key == max_key_length
      then (false, r)
      else (true, record r { key = r.key ++ c ∷ [] })

  unfoldable pub add_value_char : ℕ → Reader D → Bool × Reader D
  add_value_char c r =
      if length r.value == max_value_length
      then (false, r)
      else (true, record r { value = r.value ++ c ∷ [] })

  abbrev pub enter : ParseState → Reader D → Reader D
  enter s r = record r { state = s }

module _ {ℓ} {D : Type ℓ} (callback : Callback D) where
  unfoldable pub report_key_value : Reader D → CallbackResult × Reader D
  report_key_value r =
      let (result, d) = callback r.key r.value r.user_data in (result, record r { user_data = d })

  -- `if (reportKeyValue(...) == STOP) return STOPPED; setStartState(); break;`
  unfoldable pub report_line : Reader D → Outcome D
  unfolding report_key_value set_start_state
  report_line r =
      let (result, r') = report_key_value r in
      elim result [ stop ↦ returned stopped r' | continue_ ↦ going (set_start_state r') ]

  unfoldable pub on_start : ℕ → Reader D → Outcome D
  unfolding add_key_char
  on_start c r =
      if is_comment_start c
      then going (enter ParseState.comment r)
      else if is_line_delimiter c
      then going r
      else if is_key_start_char c
      then going (add_key_char c (enter ParseState.key_name r)).1
      else if is_white_space c
      then going r
      else returned invalid_start_of_line r

  unfoldable pub on_comment : ℕ → Reader D → Outcome D
  unfolding set_start_state
  on_comment c r = if is_line_delimiter c then going (set_start_state r) else going r

  unfoldable pub on_key_name : ℕ → Reader D → Outcome D
  unfolding add_key_char
  on_key_name c r =
      if is_key_char c
      then (let (added, r') = add_key_char c r in
          if added then going r' else returned key_too_long r')
      else if is_white_space c
      then going (enter ParseState.assignment r)
      else if is_assignment c
      then going (enter ParseState.start_value r)
      else returned invalid_key_character r

  unfoldable pub on_assignment : ℕ → Reader D → Outcome D
  unfolding report_line
  on_assignment c r =
      if is_assignment c
      then going (enter ParseState.start_value r)
      else if is_line_delimiter c
      then report_line r
      else if is_white_space c
      then going r
      else returned invalid_assignment r

  -- The result of the last `addValueChar` is not looked at, and the state stays START_VALUE.
  unfoldable pub on_start_value : ℕ → Reader D → Outcome D
  unfolding report_line add_value_char
  on_start_value c r =
      if is_line_delimiter c
      then report_line r
      else if is_white_space c
      then going r
      else if is_escape c
      then going (record r { pop_state = ParseState.value; state = ParseState.esc })
      else if is_quote c
      then going (record r { state = ParseState.quote; quote_char = c })
      else going (add_value_char c r).1

  unfoldable pub on_esc : ℕ → Reader D → Outcome D
  unfolding add_value_char get_escaped
  on_esc c r =
      if is_line_delimiter c
      then returned unexpected_eol r
      else (let (added, r') = add_value_char (get_escaped c) r in
          if added then going (enter r'.pop_state r') else returned value_too_long r')

  -- `if (!addValueChar(c)) return VALUE_TOO_LONG; break;`
  unfoldable pub add_or_fail : ℕ → Reader D → Outcome D
  unfolding add_value_char
  add_or_fail c r =
      let (added, r') = add_value_char c r in if added then going r' else returned value_too_long r'

  -- After the report at the closing quote there is no `break`: the quote is then added to the value.
  unfoldable pub on_closing_quote : ℕ → Reader D → Outcome D
  unfolding report_key_value set_start_state add_or_fail
  on_closing_quote c r =
      let (result, r') = report_key_value r in
      elim result [ stop ↦ returned stopped r' | continue_ ↦ add_or_fail c (set_start_state r') ]

  -- The cases VALUE and QUOTE, which share their code.
  unfoldable pub on_value : ℕ → Reader D → Outcome D
  unfolding report_line add_or_fail on_closing_quote
  on_value c r =
      if is_line_delimiter c
      then elim r.state [ quote ↦ returned unexpected_eol r | _ ↦ report_line r ]
      else if is_escape c
      then going (record r { pop_state = r.state; state = ParseState.esc })
      else if c == r.quote_char
      then on_closing_quote c r
      else add_or_fail c r

  -- The switch of the loop.
  unfoldable pub dispatch : ParseState → ℕ → Reader D → Outcome D
  unfolding on_start on_comment on_key_name on_assignment on_start_value on_value on_esc
  dispatch start c r = on_start c r
  dispatch comment c r = on_comment c r
  dispatch key_name c r = on_key_name c r
  dispatch assignment c r = on_assignment c r
  dispatch start_value c r = on_start_value c r
  dispatch value c r = on_value c r
  dispatch quote c r = on_value c r
  dispatch esc c r = on_esc c r

  -- The switch after the loop.
  unfoldable pub at_end : ParseState → Reader D → ReadResult × Reader D
  unfolding report_key_value
  at_end comment r = (success, r)
  at_end start r = (success, r)
  at_end value r =
      let (result, r') = report_key_value r in
      elim result [ stop ↦ (stopped, r') | continue_ ↦ (success, r') ]
  at_end start_value r =
      let (result, r') = report_key_value r in
      elim result [ stop ↦ (stopped, r') | continue_ ↦ (success, r') ]
  at_end _ r = (unexpected_eof, r)

  unfoldable pub read_loop : List ℕ → Reader D → ReadResult × Reader D
  read_loop [] r = at_end r.state r
  read_loop (c ∷ cs) r = elim (dispatch r.state c r) [
    | going r' ↦ read_loop cs r'
    | returned result r' ↦ (result, r')
  ]

-- `Reader::read` over the bytes that the stream gives; a null callback is `none`.
module _ {ℓ} {D : Type ℓ} where
  unfoldable pub read : List ℕ → Option (Callback D) → Reader D → ReadResult × Reader D
  unfolding set_start_state
  read bytes none r = (no_callback, r)
  read bytes (some callback) r =
      read_loop callback bytes
        (record (set_start_state r) { pop_state = ParseState.start; quote_char = 0 })

  -- `Reader::readFile`; `none` is a file that cannot be opened.
  unfoldable pub read_file :
      Option (List ℕ) → Option (Callback D) → Reader D → ReadResult × Reader D
  read_file none callback r = (unexpected_eof, r)
  read_file (some bytes) callback r = read bytes callback r
