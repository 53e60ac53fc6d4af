-- ===== src/Average/Delay.antt =====
-- What the window of src/include/tdap/TrueFloatingPointWindowAverage.hpp takes out of an average, when the ring
-- lies within the array.
use speakerman.Prelude.{
  ℕ, suc, ◌+◌, ◌-◌, ◌≤◌, ◌<◌, ◌≡◌, ◌≢◌, refl, ◌∙◌, List, [], ◌∷◌, some, if◌then◌else◌, ltb, leb,
  length, length-set, get_elem?, get_elem?-set_self, get_elem?-set_ne, set, arith,
}
use speakerman.Prelude.Effects.{Effect, returns, ◌>>=◌}
use speakerman.Peak.{read_at}
use speakerman.Average.Limits.{read_at-some}
use speakerman.Average.{
  History, Window, MovingAverage, set_next_ptr, get_history_value, write, add_to_window, add_input,
}
use speakerman.Peak.Arrays.{read_at-Returns, write_at-eq}

-- The steps that place `q` takes to place `p` in a ring whose last place is `last`.
abbrev pub ahead : (last q p : ℕ) → ℕ
ahead last q p = if leb p q then q - p else q + suc last - p

module _ {S : Type 0} where
  -- The ring of the history lies within its array, and both places in the ring.
  pub record IsInside (m : MovingAverage S) : Type 0 where
    pub fits : m.history.optimized < length m.history.samples
    pub writes : m.history.write_ptr ≤ m.history.optimized
    pub reads : m.window.read_ptr ≤ m.history.optimized

  -- The number of inputs between an input and its leaving the window.
  unfoldable pub age : History S → Window S → ℕ
  age h w =
      if ltb h.write_ptr w.read_ptr
      then w.read_ptr - h.write_ptr
      else w.read_ptr + suc h.optimized - h.write_ptr

  next-inside : (h : History S) (q : ℕ) → q ≤ h.optimized → set_next_ptr h q ≤ h.optimized
  unfolding set_next_ptr
  next-inside h q inside = ground arith

  next-ahead :
      (h : History S) (q p k : ℕ)
      → q ≤ h.optimized
      → p ≤ h.optimized
      → suc k ≤ ahead h.optimized q p
      → ahead h.optimized q p ≡ suc (ahead h.optimized (set_next_ptr h q) p)
  unfolding set_next_ptr
  next-ahead h q p k q_in p_in some_way = ground arith

  next-age :
      (h : History S) (w : Window S)
      → h.write_ptr ≤ h.optimized
      → w.read_ptr ≤ h.optimized
      → age h w ≡ suc (ahead h.optimized (set_next_ptr h w.read_ptr) h.write_ptr)
  unfolding set_next_ptr age
  next-age h w writes reads = ground arith

  next-full :
      (h : History S) (q : ℕ)
      → q ≤ h.optimized
      → ahead h.optimized (set_next_ptr h q) q ≡ h.optimized
  unfolding set_next_ptr
  next-full h q inside = ground arith

  age-bound :
      (h : History S) (w : Window S)
      → h.write_ptr ≤ h.optimized
      → w.read_ptr ≤ h.optimized
      → age h w ≤ suc h.optimized
  unfolding age
  age-bound h w writes reads = ground arith

  module _ (next_average : (window_samples : ℕ) → (average input history : S) → S) where
    -- `addInput`, when the window reads `old`
    abbrev after : (input old : S) → MovingAverage S → MovingAverage S
    after input old m = record {
      history = record m.history {
        samples = set m.history.samples m.history.write_ptr input;
        write_ptr = set_next_ptr m.history m.history.write_ptr;
      };
      window = record m.window {
        average = next_average m.window.window_samples m.window.average input old;
        read_ptr = set_next_ptr m.history m.window.read_ptr;
      };
    }

    add_input-eq :
        (input old : S) (m : MovingAverage S)
        → IsInside m
        → read_at m.history.samples m.window.read_ptr ≡ returns old
        → add_input next_average input m ≡ returns (after input old m)
    unfolding add_input add_to_window get_history_value write
    add_input-eq input old m inside reads =
        let fits = inside.fits in
        let writes = inside.writes in
        rw reads (rw (write_at-eq m.history.samples m.history.write_ptr input (omega arith)) refl)

    after-IsInside :
        (input old : S) (m : MovingAverage S) → IsInside m → IsInside (after input old m)
    after-IsInside input old m inside =
        let fits = inside.fits in
        record {
          fits = omega (arith, length-set m.history.samples m.history.write_ptr input);
          writes = next-inside m.history m.history.write_ptr inside.writes;
          reads = next-inside m.history m.window.read_ptr inside.reads;
        }

    -- A list of inputs
    abbrev pub add_inputs : List S → MovingAverage S → Effect (MovingAverage S)
    add_inputs [] m = returns m
    add_inputs (x ∷ xs) m = add_input next_average x m >>= add_inputs xs

    kept :
        (xs : List S) (m : MovingAverage S) (p : ℕ) (a : S)
        → IsInside m
        → p ≤ m.history.optimized
        → get_elem? m.history.samples p ≡ some a
        → ahead m.history.optimized m.window.read_ptr p ≡ length xs
        → length xs ≤ ahead m.history.optimized m.history.write_ptr p
        → (m' : MovingAverage S) × (add_inputs xs m ≡ returns m')
          × IsInside m'
          × (read_at m'.history.samples m'.window.read_ptr ≡ returns a)
    kept [] m p a inside p_in held near far =
        let reads = inside.reads in
        let here : m.window.read_ptr ≡ p = ground arith in
        (m, refl, inside, rw here (read_at-some m.history.samples p a held))
    kept (x ∷ xs) m p a inside p_in held near far =
        let reads = inside.reads in
        let fits = inside.fits in
        let (old, read, _) = read_at-Returns m.history.samples m.window.read_ptr (omega arith) in
        let elsewhere : m.history.write_ptr ≢ p = λ e. ground arith in
        let near' =
          next-ahead m.history m.window.read_ptr p (length xs) inside.reads p_in (omega arith) in
        let far' = next-ahead m.history m.history.write_ptr p (length xs) inside.writes p_in far in
        let (m', made, inside', at) =
          kept xs (after x old m) p a (after-IsInside x old m inside) p_in
            (get_elem?-set_ne m.history.samples x elsewhere ∙ held) (omega (arith, near'))
            (omega (arith, far')) in
        (m', rw (add_input-eq x old m inside read) made, inside', at)

    -- The window of an average whose ring lies within the array takes out an input after as many inputs as
    -- its age: `xs` are the inputs between.
    pub add_inputs-delayed :
        (m : MovingAverage S) (a b : S) (xs : List S)
        → IsInside m
        → age m.history m.window ≡ suc (length xs)
        → (m' : MovingAverage S) × (add_inputs (a ∷ xs) m ≡ returns m')
          × ((add_input next_average b m' >>= λ m2. returns m2.window.average)
              ≡ returns (next_average m'.window.window_samples m'.window.average b a))
    add_inputs-delayed m a b xs inside old_enough =
        let fits = inside.fits in
        let reads = inside.reads in
        let writes = inside.writes in
        let (old, read, _) = read_at-Returns m.history.samples m.window.read_ptr (omega arith) in
        let turn = next-age m.history m.window writes reads in
        let full = next-full m.history m.history.write_ptr writes in
        let bound = age-bound m.history m.window writes reads in
        let (m', made, inside', at) =
          kept xs (after a old m) m.history.write_ptr a (after-IsInside a old m inside) writes
            (get_elem?-set_self m.history.samples m.history.write_ptr a (omega arith))
            (omega (arith, turn)) (omega (arith, full, bound)) in
        (m', rw (add_input-eq a old m inside read) made, rw (add_input-eq b a m' inside' at) refl)
