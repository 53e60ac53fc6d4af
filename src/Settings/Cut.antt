-- ===== src/Settings/Cut.antt =====
-- The texts of files, and lines that are longer than the buffer of `actualReadConfig` of
-- src/SpeakermanConfig.cpp.
use speakerman.Prelude.{
  ℕ, zero, suc, ◌<◌, ◌≡◌, refl, ap, ◌∙◌, List, [], ◌∷◌, ◌++◌, arith, length, length-append,
  length-drop, take, drop,
}
use speakerman.Settings.Split.{line_memory, NoDelimiters}

-- The bytes of lines with their delimiters, and of a last line without one.
abbrev pub file_text : List (List ℕ) → (last : List ℕ) → List ℕ
file_text [] last = last
file_text (l ∷ ls) last = l ++ 10 ∷ file_text ls last

-- A line cut after the first bytes.
pub record Cut (n : ℕ) (l : List ℕ) : Type 0 where
  pub text : List ℕ
  pub next : ℕ
  pub rest : List ℕ
  pub same : l ≡ text ++ next ∷ rest
  pub front : take n l ≡ text
  pub size : length text ≡ n
  pub plain_front : NoDelimiters text
  pub plain_back : NoDelimiters (next ∷ rest)

pub cut : (n : ℕ) (l : List ℕ) → n < length l → NoDelimiters l → Cut n l
cut n [] h p = absurd (omega arith)
cut zero (c ∷ cs) h p = record {
  text = [];
  next = c;
  rest = cs;
  same = refl;
  front = refl;
  size = refl;
  plain_front = tt;
  plain_back = p;
}
cut (suc n) (c ∷ cs) h (p, ps) =
    let k = cut n cs (omega arith) ps in
    record {
      text = c ∷ k.text;
      next = k.next;
      rest = k.rest;
      same = ap (◌∷◌ c) k.same;
      front = ap (◌∷◌ c) k.front;
      size = ap suc k.size;
      plain_front = (p, k.plain_front);
      plain_back = k.plain_back;
    }

pub memory_size :
    (text buf : List ℕ) → length text < length buf → length (line_memory text buf) ≡ length buf
memory_size text buf h =
    length-append text (0 ∷ drop (suc (length text)) buf)
    ∙ omega (arith, length-drop (suc (length text)) buf)
