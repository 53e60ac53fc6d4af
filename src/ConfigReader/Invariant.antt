-- ===== src/ConfigReader/Invariant.antt =====
-- What holds of the reader of src/include/speakerman/utils/Config.hpp at every byte: the lengths of
-- its two buffers, and the form of the keys that it hands to the callback.
use speakerman.Prelude.{
  ◌⊎◌, inl, inr, ℕ, ◌≤◌, ◌≡◌, refl, true, List, [], ◌∷◌, ◌++◌, some, arith, length, length-append,
  All, All-append,
}
use speakerman.ConfigReader.{
  is_key_start_char, is_key_char, ReadResult, ParseState, start, comment, key_name, assignment,
  start_value, value, quote, esc, Reader, Callback, Outcome, going, returned, on_start, on_comment,
  on_key_name, on_assignment, on_start_value, on_value, on_esc, report_line, dispatch, at_end,
  read_loop, read, set_start_state, get_escaped,
}

abbrev pub IsKeyChar : ℕ → Type 0
IsKeyChar c = is_key_char c ≡ true

-- A key begins with a start character, and goes on with key characters.
abbrev pub IsKey : List ℕ → Type 0
IsKey [] = ⊥
IsKey (c ∷ cs) = (is_key_start_char c ≡ true) × All IsKeyChar cs

IsKey-append : (k : List ℕ) (c : ℕ) → IsKey k → is_key_char c ≡ true → IsKey (k ++ c ∷ [])
IsKey-append [] c h e = absurd h
IsKey-append (x ∷ xs) c (s, all) e = (s, All-append IsKeyChar xs (c ∷ []) all (e, tt))

-- The states that an escape goes back to.
abbrev Resumes : ParseState → Type 0
Resumes value = Unit
Resumes quote = Unit
Resumes _ = ⊥

-- What the key is in each state; `p` is the state to go back to.
abbrev HasKey : (s p : ParseState) → List ℕ → Type 0
HasKey start p k = k ≡ []
HasKey comment p k = k ≡ []
HasKey esc p k = IsKey k × Resumes p
HasKey _ p k = IsKey k

module _ {ℓ} {D : Type ℓ} (callback : Callback D) (P : D → Type 0) where
  -- The callback keeps `P`, if it is called with a key and a value that fit.
  abbrev pub Keeps : Type ℓ
  Keeps =
      (k v : List ℕ) (d : D)
      → IsKey k
      → length k ≤ 127
      → length v ≤ 1023
      → P d
      → P (callback k v d).1

  record IsWithin (r : Reader D) : Type 0 where
    key_fits : length r.key ≤ 127
    value_fits : length r.value ≤ 1023
    holds : P r.user_data

  abbrev IsFine : Outcome D → Type 0
  IsFine (going r) = IsWithin r × HasKey r.state r.pop_state r.key
  IsFine (returned _ r) = IsWithin r

  module _ (keep : Keeps) (c : ℕ) (r : Reader D) (w : IsWithin r) where
    report_line-IsFine : IsKey r.key → IsFine (report_line callback r)
    unfolding report_line
    report_line-IsFine k = ground (arith, keep r.key r.value r.user_data k)

    on_start-IsFine : r.state ≡ start → r.key ≡ [] → IsFine (on_start callback c r)
    unfolding on_start is_key_char
    on_start-IsFine e k = ground (arith)

    on_comment-IsFine : r.state ≡ comment → r.key ≡ [] → IsFine (on_comment callback c r)
    unfolding on_comment
    on_comment-IsFine e k = ground (arith)

    on_key_name-IsFine : r.state ≡ key_name → IsKey r.key → IsFine (on_key_name callback c r)
    unfolding on_key_name
    on_key_name-IsFine e k = ground (arith, IsKey-append r.key c k, length-append r.key (c ∷ []))

    on_assignment-IsFine : r.state ≡ assignment → IsKey r.key → IsFine (on_assignment callback c r)
    unfolding on_assignment
    on_assignment-IsFine e k = ground (arith, keep r.key r.value r.user_data k)

    on_start_value-IsFine :
        r.state ≡ start_value → IsKey r.key → IsFine (on_start_value callback c r)
    unfolding on_start_value
    on_start_value-IsFine e k =
        ground (arith, keep r.key r.value r.user_data k, length-append r.value (c ∷ []))

    on_value-IsFine :
        (r.state ≡ value) ⊎ (r.state ≡ quote) → IsKey r.key → IsFine (on_value callback c r)
    unfolding on_value
    on_value-IsFine (inl e) k =
        ground (arith, keep r.key r.value r.user_data k, length-append r.value (c ∷ []))
    on_value-IsFine (inr e) k =
        ground (arith, keep r.key r.value r.user_data k, length-append r.value (c ∷ []))

    on_esc-IsFine : IsKey r.key → Resumes r.pop_state → IsFine (on_esc callback c r)
    unfolding on_esc
    on_esc-IsFine k p = ground (arith, length-append r.value (get_escaped c ∷ []))

    dispatch-IsFine :
        (s : ParseState)
        → r.state ≡ s
        → HasKey s r.pop_state r.key
        → IsFine (dispatch callback s c r)
    unfolding dispatch
    dispatch-IsFine start e k = on_start-IsFine e k
    dispatch-IsFine comment e k = on_comment-IsFine e k
    dispatch-IsFine key_name e k = on_key_name-IsFine e k
    dispatch-IsFine assignment e k = on_assignment-IsFine e k
    dispatch-IsFine start_value e k = on_start_value-IsFine e k
    dispatch-IsFine value e k = on_value-IsFine (inl e) k
    dispatch-IsFine quote e k = on_value-IsFine (inr e) k
    dispatch-IsFine esc e k = on_esc-IsFine k.0 k.1

  module _ (keep : Keeps) where
    at_end-IsWithin :
        (s : ParseState) (r : Reader D)
        → IsWithin r
        → HasKey s r.pop_state r.key
        → IsWithin (at_end callback s r).1
    unfolding at_end
    at_end-IsWithin start r w k = w
    at_end-IsWithin comment r w k = w
    at_end-IsWithin value r w k = ground (arith, keep r.key r.value r.user_data k)
    at_end-IsWithin start_value r w k = ground (arith, keep r.key r.value r.user_data k)
    at_end-IsWithin _ r w k = w

    read_loop-IsWithin :
        (bytes : List ℕ) (r : Reader D)
        → IsWithin r
        → HasKey r.state r.pop_state r.key
        → IsWithin (read_loop callback bytes r).1
    unfolding read_loop
    read_loop-IsWithin [] r w k = at_end-IsWithin r.state r w k
    read_loop-IsWithin (c ∷ cs) r w k =
        go (dispatch callback r.state c r) (dispatch-IsFine keep c r w r.state refl k)
          (read_loop-IsWithin cs)
      where
        go :
            (o : Outcome D)
            → IsFine o
            → ((r' : Reader D)
                → IsWithin r'
                → HasKey r'.state r'.pop_state r'.key
                → IsWithin (read_loop callback cs r').1)
            → IsWithin
                (elim o as (λ _. ReadResult × Reader D) [
                  | going r' ↦ read_loop callback cs r'
                  | returned x r' ↦ (x, r')
                ]).1
        go (going r') (w', k') rest = rest r' w' k'
        go (returned x r') w' rest = w'

    -- Whatever the bytes, `read` stores at most 127 key bytes and 1023 value bytes, so that the
    -- terminating zeros fit too, and every key that it hands to the callback is a key start
    -- character followed by key characters: what such calls keep, `read` keeps.
    pub read_inv :
        (bytes : List ℕ) (r : Reader D)
        → P r.user_data
        → let r' = (read bytes (some callback) r).1 in
          (length r'.key ≤ 127) × (length r'.value ≤ 1023) × P r'.user_data
    unfolding read
    read_inv bytes r p =
        let r' : Reader D = record (set_start_state r) { pop_state = start; quote_char = 0 } in
        let w = read_loop-IsWithin bytes r' (ground arith) refl in
        (w.key_fits, w.value_fits, w.holds)
