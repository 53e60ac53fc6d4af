-- ===== src/JsonReader/Paths.antt =====
-- The paths that src/JsonCanonicalReader.cc gives.
pub mod Text
pub mod Index
pub mod Run
use speakerman.Prelude.{
  ℕ, zero, suc, ◌+◌, ◌-◌, ◌/◌, ◌%◌, ◌≤◌, ◌<◌, ◌≡◌, ◌≢◌, refl, sym, ap, ap₂, ◌∙◌, subst, Bool, true,
  false, ◌&&◌, List, [], ◌∷◌, ◌++◌, if◌then◌else◌, ltb, leb, ◌==◌, length, length-append, take,
  drop, take-of_le, append-nil, append_assoc, All, arith,
}
use speakerman.Prelude.Effects.{Effect, returns, throws, ◌>>=◌}
use speakerman.JsonReader.{
  Builder, add_char, get_at, set_local, get_total_string, JsonCanonicalReader, push_start,
  starts_with, push_name, push_index, pop,
}

-- The path is at the start of a name: the last entry of the stack, the local start and the text agree.
pub record IsAtRest (r : JsonCanonicalReader) : Type 0 where
  pub below : List ℕ
  pub stack_is : r.stack ≡ length r.path.text ∷ below
  pub local_is : r.path.local ≡ length r.path.text

-- The reader after a name or an index.
abbrev pub with_part : JsonCanonicalReader → List ℕ → JsonCanonicalReader
with_part r part =
    let text = r.path.text ++ (part ++ 0 ∷ []) in
    record r {
      stack = length text ∷ r.stack;
      path = record r.path { text = text; local = length text };
    }

pub with_part-IsAtRest : (r : JsonCanonicalReader) (part : List ℕ) → IsAtRest (with_part r part)
with_part-IsAtRest r part = record { below = r.stack; stack_is = refl; local_is = refl }

take-append {ℓ} : {A : Type ℓ} (xs ys : List A) → take (length xs) (xs ++ ys) ≡ xs
take-append [] ys = refl
take-append (x ∷ xs) ys = ap (λ l. x ∷ l) (take-append xs ys)

drop-append {ℓ} : {A : Type ℓ} (xs ys : List A) → drop (length xs) (xs ++ ys) ≡ ys
drop-append [] ys = refl
drop-append (x ∷ xs) ys = drop-append xs ys

starts_with_self : (xs : List ℕ) → starts_with xs xs ≡ true
unfolding starts_with
starts_with_self [] = refl
starts_with_self (x ∷ xs) = let k = starts_with_self xs in ground arith

-- The end of a push, when a part was added to the text.
pub push_start-eq :
    (r : JsonCanonicalReader) (part : List ℕ)
    → length r.path.text + length part + 2 < r.path.max_length
    → push_start (record r { path = record r.path { text = r.path.text ++ part } })
      ≡ returns (with_part r part)
unfolding push_start set_local
push_start-eq r part room =
    let text = r.path.text ++ part in
    let all = r.path.text ++ (part ++ 0 ∷ []) in
    let same : text ++ 0 ∷ [] ≡ all = append_assoc r.path.text part (0 ∷ []) in
    let size : length text ≡ length r.path.text + length part = length-append r.path.text part in
    let more : length (text ++ 0 ∷ []) ≡ length text + 1 =
      omega (arith, length-append text (0 ∷ [])) in
    let taken : take (length text + 1) (text ++ 0 ∷ []) ≡ all =
      take-of_le (length text + 1) (text ++ 0 ∷ []) (omega arith) ∙ same in
    let end : length text + 1 ≡ length all = sym more ∙ ap length same in
    let fits : ltb (length text + 1 + 1) r.path.max_length ≡ true = ground arith in
    rw fits (
      ap₂
        (λ t n.
          returns
            (record r { stack = length t ∷ r.stack; path = record r.path { text = t; local = n } }))
        taken end)

pop-eq :
    (r : JsonCanonicalReader) (top start : ℕ) (others : List ℕ)
    → r.stack ≡ top ∷ start ∷ others
    → start + 1 < r.path.max_length
    → pop r
      ≡ returns (record r {
        stack = start ∷ others;
        path = record r.path { text = take start (r.path.text ++ 0 ∷ []); local = start };
      })
unfolding pop set_local
pop-eq r top start others e room =
    let fits : ltb (start + 1) r.path.max_length ≡ true = ground arith in rw (e, pop) (rw fits refl)

-- What is popped is the reader before the part.
pub pop-with_part :
    (part : List ℕ) (r : JsonCanonicalReader)
    → IsAtRest r
    → length r.path.text + 1 < r.path.max_length
    → pop (with_part r part) ≡ returns r
pop-with_part part r rest room =
    let size = length r.path.text in
    let text = r.path.text ++ (part ++ 0 ∷ []) in
    let popped =
      pop-eq (with_part r part) (length text) size rest.below
        (ap (λ l. length text ∷ l) rest.stack_is) room in
    let taken : take size (text ++ 0 ∷ []) ≡ r.path.text =
      ap (take size) (append_assoc r.path.text (part ++ 0 ∷ []) (0 ∷ []))
      ∙ take-append r.path.text ((part ++ 0 ∷ []) ++ 0 ∷ []) in
    popped
    ∙ ap₂
        (λ t n.
          returns
            (record r { stack = size ∷ rest.below; path = record r.path { text = t; local = n } }))
        taken (sym rest.local_is)
    ∙ ap (λ l. returns (record r { stack = l })) (sym rest.stack_is)

-- A name: its bytes are added, and it is pushed.
module _ (add : ℕ → Builder → Effect Builder) where
  -- What is relied on of `add`: it adds a byte if there is room.
  abbrev pub Adds : Type 0
  Adds = (c : ℕ) (b : Builder) → length b.text < b.max_length → add c b ≡ returns (add_char c b).1

  unfoldable pub add_all : List ℕ → Builder → Effect Builder
  add_all [] b = returns b
  add_all (c ∷ cs) b = add c b >>= add_all cs

  unfoldable pub enter_name : List ℕ → JsonCanonicalReader → Effect JsonCanonicalReader
  unfolding add_all push_name
  enter_name name r = add_all name r.path >>= λ path. push_name name (record r { path = path })

  pub add_char-eq :
      Adds
      → (c : ℕ) (b : Builder) → length b.text < b.max_length
      → add c b ≡ returns (record b { text = b.text ++ c ∷ [] })
  unfolding add_char
  add_char-eq adds c b room =
      let fits : ltb (length b.text) b.max_length ≡ true = ground arith in
      adds c b room ∙ rw (fits, add_char) refl

  add_all-eq :
      Adds
      → (cs : List ℕ) (b : Builder) → length b.text + length cs ≤ b.max_length
      → add_all cs b ≡ returns (record b { text = b.text ++ cs })
  unfolding add_all
  add_all-eq adds [] b room = ap (λ t. returns (record b { text = t })) (sym (append-nil b.text))
  add_all-eq adds (c ∷ cs) b room = rw (add_char-eq adds c b (omega arith)) (
      add_all-eq adds cs (record b { text = b.text ++ c ∷ [] })
        (omega (arith, length-append b.text (c ∷ [])))
      ∙ ap (λ t. returns (record b { text = t })) (append_assoc b.text (c ∷ []) cs))

  pub enter_name-eq :
      Adds
      → (name : List ℕ) (r : JsonCanonicalReader) → IsAtRest r
      → length r.path.text + length name + 2 < r.path.max_length
      → length r.stack < r.depth
      → enter_name name r ≡ returns (with_part r name)
  unfolding enter_name push_name
  enter_name-eq adds name r rest room deep =
      let made = add_all-eq adds name r.path (omega arith) in
      let local : drop r.path.local (r.path.text ++ name) ≡ name =
        ap (λ n. drop n (r.path.text ++ name)) rest.local_is ∙ drop-append r.path.text name in
      let named : starts_with (drop r.path.local (r.path.text ++ name)) name ≡ true =
        ap (λ l. starts_with l name) local ∙ starts_with_self name in
      let shallow : leb r.depth (length r.stack) ≡ false = ground arith in
      rw made (rw named (rw shallow (push_start-eq r name room)))
