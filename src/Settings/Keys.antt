-- ===== src/Settings/Keys.antt =====
-- The keys of lines: `ReaderStatus` and `KeyVariableReader` of src/SpeakermanConfig.cpp.
use speakerman.Prelude.{ℕ, zero, suc, Bool, ◌||◌, List, [], ◌∷◌, if◌then◌else◌, ◌==◌, length, drop}
use speakerman.ConfigReader.{is_white_space, is_comment_start, is_alpha}
use speakerman.Settings.{Memory, char_at, char_from}
use speakerman.Settings.Values.{starts_with}

-- `enum class ReaderStatus`, with the pointer that is set on success.
pub data ReaderStatus {ℓ} (A : Type ℓ) : Type ℓ where
  success : A → ReaderStatus A
  skip fault : ReaderStatus A

-- The loop of `skip_to_key_start`, with `left` rounds to go.
unfoldable pub skip_from : (left : ℕ) → Memory → ReaderStatus Memory
skip_from zero start = fault
skip_from (suc left) [] = fault
skip_from (suc left) (c ∷ start) =
    if c == 0
    then fault
    else if is_comment_start c
    then skip
    else if is_alpha c
    then success (c ∷ start)
    else if is_white_space c
    then skip_from left start
    else fault

unfoldable pub skip_to_key_start : Memory → ReaderStatus Memory
skip_to_key_start line = if char_at line == 0 then skip else skip_from 1025 line

-- `KeyVariableReader::is`, of which only the success matters.
unfoldable pub is : (key : List ℕ) → Memory → Bool
is key start = starts_with key start

unfoldable pub read_key : (key : List ℕ) → Memory → ReaderStatus Memory
read_key key start =
    if starts_with key start
    then if is_white_space (char_from start (length key)) || char_from start (length key) == b'='
      then success (drop (length key) start)
      else skip
    else skip

unfoldable pub skip_white : Memory → Memory
skip_white [] = []
skip_white (c ∷ cs) = if is_white_space c then skip_white cs else c ∷ cs

unfoldable pub skip_assignment : Memory → ReaderStatus Memory
skip_assignment start =
    let rd = skip_white start in
    let value = skip_white (drop 1 rd) in
    if char_at rd == b'=' then if char_at value == 0 then fault else success value else fault
