-- ===== src/Stream/Json.antt =====
-- Reading back what `write_json_string` of src/Stream.cpp writes.
use speakerman.Prelude.{
  Option, none, some, leb, ◌&&◌, ◌||◌, ℕ, zero, suc, ◌+◌, ◌-◌, ◌*◌, ◌≤◌, ◌<◌, ◌≡◌, refl, ap, ◌∙◌,
  true, false, List, [], ◌∷◌, ◌++◌, ◌==◌, ltb, if◌then◌else◌, length, All, arith, append_assoc,
  append-nil,
}
use speakerman.Stream.{
  Result, ok, error, World, digit, escape, write_byte, write_bytes, write_json_from, bounded_length,
  write_json_string,
}

-- Where a reader of a JSON string stands: outside an escape, behind a backslash, or in front of `k` more
-- hexadecimal digits.
pub data Mode : Type 0 where
  plain slash : Mode
  unicode : (k value : ℕ) → Mode

hex_value : ℕ → Option ℕ
hex_value c =
    if leb 48 c && leb c 57
    then some (c - 48)
    else if leb 97 c && leb c 102
    then some (c - 87)
    else if leb 65 c && leb c 70
    then some (c - 55)
    else none

-- The byte for the letter behind a backslash.
unescaped : ℕ → Option ℕ
unescaped c =
    if c == 34 || c == 92 || c == 47
    then some c
    else if c == b'b'
    then some 8
    else if c == b'f'
    then some 12
    else if c == b'n'
    then some 10
    else if c == b'r'
    then some 13
    else if c == b't'
    then some 9
    else none

-- A byte in front of the string that was read; what is behind the string stays.
abbrev push : ℕ → Option (List ℕ × List ℕ) → Option (List ℕ × List ℕ)
push c none = none
push c (some (string, rest)) = some (c ∷ string, rest)

abbrev push_some : Option ℕ → Option (List ℕ × List ℕ) → Option (List ℕ × List ℕ)
push_some none read = none
push_some (some c) read = push c read

-- A reader of a JSON string of ASCII characters behind its first quote, up to its last one: the string, and
-- what is behind it. It refuses control characters, escapes that JSON does not have, bytes and numbers above
-- 127, and a string without an end.
pub decode : Mode → List ℕ → Option (List ℕ × List ℕ)
unfolding hex_value unescaped
decode _ [] = none
decode plain (c ∷ cs) = elim (c == 34) [
  | true ↦ some ([], cs)
  | false ↦ elim (c == 92) [
    | true ↦ decode slash cs
    | false ↦ if leb 32 c && ltb c 128 then push c (decode plain cs) else none
  ]
]
decode slash (c ∷ cs) = elim (c == b'u') [
  | true ↦ decode (unicode 4 0) cs
  | false ↦ push_some (unescaped c) (decode plain cs)
]
decode (unicode k v) (c ∷ cs) = elim (hex_value c) [
  | none ↦ none
  | some d ↦ elim (k == 1) [
    | true ↦ if ltb (16 * v + d) 128 then push (16 * v + d) (decode plain cs) else none
    | false ↦ decode (unicode (k - 1) (16 * v + d)) cs
  ]
]

abbrev pub IsAscii : ℕ → Type 0
IsAscii c = (0 < c) × (c < 128)

decode-escape :
    (stray : ℕ → ℕ) (c : ℕ) (rest : List ℕ)
    → IsAscii c
    → decode plain (escape stray c ++ rest) ≡ push c (decode plain rest)
unfolding decode escape digit hex_value unescaped
decode-escape stray c rest h = ground arith

abbrev escaped : (ℕ → ℕ) → List ℕ → List ℕ
escaped stray [] = []
escaped stray (c ∷ cs) = escape stray c ++ escaped stray cs

decode-escaped :
    (stray : ℕ → ℕ) (cs rest : List ℕ)
    → All IsAscii cs
    → decode plain (escaped stray cs ++ 34 ∷ rest) ≡ some (cs, rest)
unfolding decode
decode-escaped stray [] rest h = refl
decode-escaped stray (c ∷ cs) rest (h, hs) =
    rw
      (
        append_assoc (escape stray c) (escaped stray cs) (34 ∷ rest),
        decode-escape stray c (escaped stray cs ++ 34 ∷ rest) h,
        decode-escaped stray cs rest hs,
      )
      refl

-- A stream that keeps what is written.
abbrev pub keep : ℕ → List ℕ → Result × List ℕ
keep c out = (ok c, out ++ c ∷ [])

abbrev last : ℕ → List ℕ → ℕ
last n [] = n
last n (c ∷ cs) = last c cs

write_bytes-keep :
    (n : ℕ) (cs : List ℕ) (w : World (List ℕ))
    → write_bytes keep (ok n) cs w ≡ (ok (last n cs), record w { stream = w.stream ++ cs })
unfolding write_bytes write_byte
write_bytes-keep n [] w = rw (append-nil w.stream) refl
write_bytes-keep n (c ∷ cs) w =
    rw (← append_assoc w.stream (c ∷ []) cs)
      (write_bytes-keep c cs (record w { stream = w.stream ++ c ∷ [] }))

write_json_from-cons :
    (stray : ℕ → ℕ) (left i c : ℕ) (cs : List ℕ) (w : World (List ℕ))
    → (c == 0) ≡ false
    → write_json_from keep stray (suc left) i (c ∷ cs) w
      ≡ write_json_from keep stray left
          (i + 1)
          cs
          (record w { stream = w.stream ++ escape stray c })
unfolding write_json_from
write_json_from-cons stray left i c cs w e = rw e (
    ap
      (λ (p : Result × World (List ℕ)). elim p.0 [
        | error n ↦ (error n, record p.1 { last_count = i })
        | ok n ↦ write_json_from keep stray left (i + 1) cs p.1
      ])
      (write_bytes-keep 0 (escape stray c) w))

write_json_from-keep :
    (stray : ℕ → ℕ) (i : ℕ) (cs : List ℕ) (w : World (List ℕ))
    → All IsAscii cs
    → write_json_from keep stray (length cs) i cs w
      ≡ (ok (i + length cs), record w { stream = w.stream ++ escaped stray cs })
unfolding write_json_from
write_json_from-keep stray i [] w h =
    let e : i ≡ i + 0 = omega arith in rw (append-nil w.stream, ← e) refl
write_json_from-keep stray i (c ∷ cs) w (h, hs) =
    let e : i + 1 + length cs ≡ i + suc (length cs) = omega arith in
    write_json_from-cons stray (length cs) i c cs w (ground arith)
    ∙ write_json_from-keep stray (i + 1) cs (record w { stream = w.stream ++ escape stray c }) hs
    ∙ rw (e, append_assoc w.stream (escape stray c) (escaped stray cs)) refl

bounded_length-eq :
    (n : ℕ) (cs : List ℕ) → All IsAscii cs → length cs ≤ n → bounded_length n cs ≡ length cs
unfolding bounded_length
bounded_length-eq zero [] h k = refl
bounded_length-eq zero (c ∷ cs) h k = absurd (omega arith)
bounded_length-eq (suc n) [] h k = refl
bounded_length-eq (suc n) (c ∷ cs) (h, hs) k = ground (arith, bounded_length-eq n cs hs)

-- A string of at most 1048576 ASCII bytes, none of them zero, is written to an empty stream that takes
-- everything with the string's length as the result. A reader of JSON strings gets the string back from what
-- was written with a quote behind it, and finds what is behind this quote.
pub write_json_string-decode :
    (stray : ℕ → ℕ) (string rest : List ℕ) (w : World (List ℕ))
    → All IsAscii string
    → length string ≤ 1048576
    → w.stream ≡ []
    → let (result, w') = write_json_string keep stray string w in
      (result ≡ ok (length string)) × (decode plain (w'.stream ++ 34 ∷ rest) ≡ some (string, rest))
unfolding write_json_string
write_json_string-decode stray string rest w h k e =
    rw (bounded_length-eq 1048576 string h k, write_json_from-keep stray 0 string w h, e)
      (ap ok (omega arith), decode-escaped stray string rest h)
