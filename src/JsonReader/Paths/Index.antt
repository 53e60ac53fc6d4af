-- ===== src/JsonReader/Paths/Index.antt =====
-- Indices in the paths of src/JsonCanonicalReader.cc.
use speakerman.Prelude.{
  ℕ, ◌+◌, ◌/◌, ◌%◌, ◌≤◌, ◌<◌, ◌≡◌, sym, ap, ◌∙◌, Bool, true, false, List, [], ◌∷◌, ◌++◌, leb,
  length, length-append, append-nil, append_assoc, decimal, arith,
}
use native.Mathlib.Decide.{dec_lt}
use speakerman.Prelude.Text.{last_digits}
use speakerman.Prelude.Effects.{Effect, returns}
use speakerman.JsonReader.{Builder, JsonCanonicalReader, push_start, push_index, add_if}
use speakerman.JsonReader.Paths.{with_part, Adds, add_char-eq, push_start-eq}

abbrev digit_if : Bool → ℕ → List ℕ
digit_if true c = c ∷ []
digit_if false c = []

-- The digits that `pushIndex` adds.
abbrev digits : ℕ → List ℕ
digits index =
    digit_if (leb 100 index) ((48 + index / 100) % 256)
    ++ (digit_if (leb 10 index) (48 + index % 100 / 10) ++ (48 + index % 10) ∷ [])

digits-eq-decimal : (index : ℕ) → index < 1000 → digits index ≡ decimal index
unfolding decimal last_digits
digits-eq-decimal index small = elim (dec_lt index 10) [
  | yes one ↦ ground arith
  | no more ↦ elim (dec_lt index 100) [ yes two ↦ ground arith | no three ↦ ground arith ]
]

module _ (add : ℕ → Builder → Effect Builder) (adds : Adds add) where
  add_if-eq :
      (b : Bool) (c : ℕ) (p : Builder)
      → length p.text < p.max_length
      → add_if add b c p ≡ returns (record p { text = p.text ++ digit_if b c })
  add_if-eq true c p room = add_char-eq add adds c p room
  add_if-eq false c p room = ap (λ t. returns (record p { text = t })) (sym (append-nil p.text))

  length-digit_if : (b : Bool) (c : ℕ) → length (digit_if b c) ≤ 1
  length-digit_if true c = omega arith
  length-digit_if false c = omega arith

  -- An index below 1000 adds its decimal digits.
  pub push_index-eq :
      (index : ℕ) (r : JsonCanonicalReader)
      → index < 1000
      → length r.path.text + 5 < r.path.max_length
      → length r.stack < r.depth
      → push_index add index r ≡ returns (with_part r (decimal index))
  unfolding push_index
  push_index-eq index r small room deep =
      let p = r.path in
      let shallow : leb r.depth (length r.stack) ≡ false = ground arith in
      let d1 = digit_if (leb 100 index) ((48 + index / 100) % 256) in
      let d2 = digit_if (leb 10 index) (48 + index % 100 / 10) in
      let d3 = (48 + index % 10) ∷ [] in
      let short1 = length-digit_if (leb 100 index) ((48 + index / 100) % 256) in
      let short2 = length-digit_if (leb 10 index) (48 + index % 100 / 10) in
      let size1 = length-append p.text d1 in
      let size2 = length-append (p.text ++ d1) d2 in
      let size3 = length-append d1 (d2 ++ d3) in
      let size4 = length-append d2 d3 in
      let first = add_if-eq (leb 100 index) ((48 + index / 100) % 256) p (omega arith) in
      let p1 = record p { text = p.text ++ d1 } in
      let second = add_if-eq (leb 10 index) (48 + index % 100 / 10) p1 (omega arith) in
      let p2 = record p { text = p.text ++ d1 ++ d2 } in
      let third = add_char-eq add adds (48 + index % 10) p2 (omega arith) in
      let same : p.text ++ d1 ++ d2 ++ d3 ≡ p.text ++ digits index =
        append_assoc (p.text ++ d1) d2 d3 ∙ append_assoc p.text d1 (d2 ++ d3) in
      rw shallow (
        rw first (
          rw second (
            rw third (
              ap (λ t. push_start (record r { path = record p { text = t } })) same
              ∙ push_start-eq r (digits index) (omega arith)
              ∙ ap (λ d. returns (with_part r d)) (digits-eq-decimal index small)))))
