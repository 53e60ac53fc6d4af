-- ===== src/Stream/Examples.antt =====
-- The theorems on src/Stream.cpp at concrete texts.
use speakerman.Prelude.{some, ◌++◌, ℕ, ◌≡◌, refl, List, [], ◌∷◌, arith}
use speakerman.Stream.{ok, World, write_json_string}
use speakerman.Stream.Json.{plain, decode, keep, write_json_string-decode}

abbrev over : List ℕ → World (List ℕ)
over bytes = record { stream = bytes; last_result = ok 0; last_count = 0 }

-- A quote, a letter, a line end and the control character 1.
abbrev odd_text : List ℕ
odd_text = 34 ∷ 97 ∷ 10 ∷ 1 ∷ []

write_json_string-decode_example :
    let (result, w') = write_json_string keep (λ n. 0) odd_text (over []) in
    (result ≡ ok 4) × (decode plain (w'.stream ++ 34 ∷ 44 ∷ []) ≡ some (odd_text, 44 ∷ []))
write_json_string-decode_example =
    write_json_string-decode (λ n. 0) odd_text (44 ∷ []) (over [])
      (
        (omega arith, omega arith),
        (
          (omega arith, omega arith),
          ((omega arith, omega arith), ((omega arith, omega arith), tt)),
        ),
      )
      (omega arith) refl
