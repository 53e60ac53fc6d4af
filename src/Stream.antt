-- ===== src/Stream.antt =====
-- Streams of bytes: src/include/speakerman/Stream.hpp and src/Stream.cpp. A stream is any state with
-- the virtual function `write` or `read`. A text is the list of its bytes before the memory that
-- follows, of which the source looks at one zero byte.
pub mod Json
pub mod Lines
mod Examples
use speakerman.Prelude.{
  ℕ, zero, suc, ◌+◌, ◌-◌, ◌/◌, ◌%◌, Bool, true, false, ◌||◌, ◌&&◌, List, [], ◌∷◌, ◌==◌, ltb,
  if◌then◌else◌, get_or, codes, length, min,
}

-- An `int` that is a byte, a count or an error: `error n` is the number `-1 - n`.
pub data Result : Type 0 where
  ok : ℕ → Result
  error : ℕ → Result

-- `stream_result::END_OF_STREAM` and `stream_result::DATA_TRUNCATED`
abbrev pub end_of_stream : Result
end_of_stream = Result.error 0

abbrev pub data_truncated : Result
data_truncated = Result.error 5

-- A stream, and the variables `last_result` and `last_count` of the thread.
pub record World {ℓ} (Q : Type ℓ) : Type ℓ where
  pub stream : Q
  pub last_result : Result
  pub last_count : ℕ

module _ {ℓ} {Q : Type ℓ} where
  abbrev pub set_last_operation_count : ℕ → World Q → World Q
  set_last_operation_count count w = record w { last_count = count }

  abbrev pub set_stream_result : Result → World Q → World Q
  set_stream_result result w = record w { last_result = result }

  -- How `read_from_stream` and `write_to_stream` end, with `r` the result of the last call.
  unfoldable pub finish : (l : ℕ) → Result → World Q → Result × World Q
  finish l (ok r) w = (ok l, set_last_operation_count l w)
  finish l (error e) w =
      if e == 0
      then (ok l, set_last_operation_count l w)
      else (error e, set_stream_result (error e) (set_last_operation_count l w))

-- The numbers `c / 16` and `c % 16` of a byte as `char`, which is signed, are not positive from 128
-- on. `stray n` is what the source reads `n` bytes before the digits.
unfoldable pub digit : ℕ → ℕ
digit n = if ltb n 10 then b'0' + n else 87 + n

unfoldable pub digit_before : (ℕ → ℕ) → ℕ → ℕ
digit_before stray n = if n == 0 then b'0' else stray n

-- The bytes that `write_json_string_to_stream` writes for a byte; 34, 92 and 47 are the double quote,
-- the backslash and the slash.
unfoldable pub escape : (ℕ → ℕ) → ℕ → List ℕ
unfolding digit digit_before
escape stray c =
    if c == 34 || c == 92 || c == 47
    then 92 ∷ c ∷ []
    else if c == 8
    then 92 ∷ b'b' ∷ []
    else if c == 12
    then 92 ∷ b'f' ∷ []
    else if c == 10
    then 92 ∷ b'n' ∷ []
    else if c == 13
    then 92 ∷ b'r' ∷ []
    else if c == 9
    then 92 ∷ b't' ∷ []
    else if ltb c 32
    then 92 ∷ b'u' ∷ b'0' ∷ b'0' ∷ digit (c / 16) ∷ digit (c % 16) ∷ []
    else if ltb c 128
    then c ∷ []
    else 92
      ∷ b'u'
      ∷ b'0'
      ∷ b'0'
      ∷ digit_before stray ((256 - c) / 16)
      ∷ digit_before stray ((256 - c) % 16)
      ∷ []

-- The length that `write_string` and `write_json_string` find.
unfoldable pub bounded_length : ℕ → List ℕ → ℕ
bounded_length zero cs = 0
bounded_length (suc left) [] = 0
bounded_length (suc left) (c ∷ cs) =
    let rest = bounded_length left cs in if c == 0 then 0 else rest + 1

module _ {ℓ} {Q : Type ℓ} (write : ℕ → Q → Result × Q) where
  unfoldable pub write_byte : ℕ → World Q → Result × World Q
  write_byte c w = let (r, q) = write c w.stream in (r, record w { stream = q })

  -- `r = r >= 0 ? stream.write(...) : r`, for one byte after another.
  unfoldable pub write_bytes : Result → List ℕ → World Q → Result × World Q
  unfolding write_byte
  write_bytes r [] w = (r, w)
  write_bytes (error e) (c ∷ cs) w = (error e, w)
  write_bytes (ok n) (c ∷ cs) w = let (r, w') = write_byte c w in write_bytes r cs w'

  -- The loop of `write_to_stream`, with `r` the result of the last call, and the rest.
  unfoldable pub write_from : (i : ℕ) → Result → List ℕ → World Q → Result × World Q
  unfolding write_byte
  write_from i r [] w = finish i r w
  write_from i r (c ∷ cs) w =
      let (r', w') = write_byte c w in
      elim r' [ error e ↦ finish i (error e) w' | ok n ↦ write_from (i + 1) (ok n) cs w' ]

  -- `write_to_stream` of the `length` bytes from `buff + offs` on; `r` is not initialised.
  unfoldable pub write_to_stream : Result → List ℕ → World Q → Result × World Q
  write_to_stream r bytes w = write_from 0 r bytes w

  -- The loop of `write_string_to_stream` from index `i` on, and the rest.
  unfoldable pub write_string_from : (left i : ℕ) → List ℕ → World Q → Result × World Q
  unfolding write_byte
  write_string_from zero i [] w = (ok i, w)
  write_string_from zero i (c ∷ cs) w = if c == 0 then (ok i, w) else (data_truncated, w)
  write_string_from (suc left) i [] w = (ok i, set_last_operation_count i w)
  write_string_from (suc left) i (c ∷ cs) w =
      if c == 0
      then (ok i, set_last_operation_count i w)
      else (let (r, w') = write_byte c w in
          elim r [
            | error e ↦ (error e, set_last_operation_count i w')
            | ok n ↦ write_string_from left (i + 1) cs w'
          ])

  unfoldable pub write_string_to_stream : List ℕ → ℕ → World Q → Result × World Q
  write_string_to_stream buff length w = write_string_from length 0 buff w

  -- The loop of `write_json_string_to_stream`, and the rest.
  unfoldable pub write_json_from : (ℕ → ℕ) → (left i : ℕ) → List ℕ → World Q → Result × World Q
  unfolding write_bytes escape
  write_json_from stray zero i [] w = (ok i, w)
  write_json_from stray zero i (c ∷ cs) w = if c == 0 then (ok i, w) else (data_truncated, w)
  write_json_from stray (suc left) i [] w = (ok i, set_last_operation_count i w)
  write_json_from stray (suc left) i (c ∷ cs) w =
      if c == 0
      then (ok i, set_last_operation_count i w)
      else (let (r, w') = write_bytes (ok 0) (escape stray c) w in
          elim r [
            | error e ↦ (error e, set_last_operation_count i w')
            | ok n ↦ write_json_from stray left (i + 1) cs w'
          ])

  -- `output_stream::write_string` and `output_stream::write_json_string` of a string that is not null
  unfoldable pub write_string : List ℕ → World Q → Result × World Q
  write_string string w = write_string_to_stream string (bounded_length 1048576 string) w

  unfoldable pub write_json_string : (ℕ → ℕ) → List ℕ → World Q → Result × World Q
  write_json_string stray string w =
      write_json_from stray (bounded_length 1048576 string) 0 string w

module _ {ℓ} {Q : Type ℓ} (read : Q → Result × Q) where
  unfoldable pub read_byte : World Q → Result × World Q
  read_byte w = let (r, q) = read w.stream in (r, record w { stream = q })

  -- The loop of `read_from_stream` with `left` bytes to go, and the rest; the bytes that were read come
  -- first.
  unfoldable pub read_from : (left i : ℕ) → Result → World Q → List ℕ × (Result × World Q)
  unfolding read_byte
  read_from zero i r w = ([], finish i r w)
  read_from (suc left) i r w =
      let (r', w') = read_byte w in
      elim r' [
        | error e ↦ ([], finish i (error e) w')
        | ok c ↦ (let (bytes, end) = read_from left (i + 1) (ok c) w' in (c ∷ bytes, end))
      ]

  -- The loop of `read_line_from_stream`, and the rest: the bytes of the line come first; 13 and 10 are
  -- '\r' and '\n'.
  unfoldable pub read_line_from : (left i : ℕ) → Result → World Q → List ℕ × (Result × World Q)
  unfolding read_byte
  read_line_from zero i r w = (
    [],
    (
      elim r [ error e ↦ error e | ok c ↦ if c == 13 || c == 10 then ok i else data_truncated ],
      set_last_operation_count i w,
    ),
  )
  read_line_from (suc left) i r w =
      let (r', w') = read_byte w in
      elim r' [
        | error e ↦ ([], (error e, set_last_operation_count i w'))
        | ok c ↦ elim (c == 13 || c == 10) [
          | true ↦ ([], (ok i, set_last_operation_count i w'))
          | false ↦ (let (line, end) = read_line_from left (i + 1) (ok c) w' in (c ∷ line, end))
        ]
      ]

  -- `read_line_from_stream`; `r` is not initialised.
  unfoldable pub read_line_from_stream : Result → ℕ → World Q → List ℕ × (Result × World Q)
  read_line_from_stream r zero w = ([], (ok 0, w))
  read_line_from_stream r (suc end) w = read_line_from end 0 r w
