-- ===== src/Peak/Arrays.antt =====
-- The arrays of `PeakMemory` of src/include/tdap/PeakDetection.hpp, and when its data are valid.
use speakerman.Prelude.{
  ℕ, zero, suc, ◌*◌, ◌≤◌, ◌<◌, ◌≡◌, ◌⊎◌, refl, sym, ap, ◌∙◌, subst, List, [], ◌∷◌, none, some,
  lt→ltb, arith, length, set, get_elem?, inl, inr,
}
use speakerman.Prelude.Effects.{Effect, returns, ◌>>=◌}
use speakerman.Peak.{Window, Data, read_at, write_at}
use speakerman.Peak.Turns.{turn}

-- The effect returns, with this of the result.
abbrev pub Returns {ℓ} : {A : Type ℓ} → (A → Type 0) → Effect A → Type ℓ
Returns {A = A} P e = (a : A) × (e ≡ returns a) × P a

pub Returns-bind {ℓ κ} :
    {A : Type ℓ} {B : Type κ} (P : A → Type 0) (Q : B → Type 0) (e : Effect A) (f : A → Effect B)
    → Returns P e
    → ((a : A) → P a → Returns Q (f a))
    → Returns Q (e >>= f)
Returns-bind P Q e f (a, made, p) k = let (b, m, q) = k a p in (b, rw made m, q)

found {ℓ} : {A : Type ℓ} (xs : List A) (i : ℕ) → i < length xs → (x : A) × (get_elem? xs i ≡ some x)
found [] i h = absurd (omega arith)
found (x ∷ xs) zero h = (x, refl)
found (x ∷ xs) (suc i) h = found xs i (omega arith)

pub read_at-Returns :
    {A : Type 0} (xs : List A) (i : ℕ)
    → i < length xs
    → Returns (λ x. get_elem? xs i ≡ some x) (read_at xs i)
unfolding read_at
read_at-Returns xs i h = let (x, e) = found xs i h in (x, rw (e, read_at) refl, e)

pub write_at-eq {ℓ} :
    {A : Type ℓ} (xs : List A) (i : ℕ) (x : A)
    → i < length xs
    → write_at xs i x ≡ returns (set xs i x)
unfolding write_at
write_at-eq xs i x h = rw (lt→ltb i (length xs) h) refl

-- An element after one was set.
get_elem?-set_cases :
    {A : Type 0} (xs : List A) (j i : ℕ) (v u : A)
    → get_elem? (set xs j v) i ≡ some u
    → ((i ≡ j) × (u ≡ v)) ⊎ (get_elem? xs i ≡ some u)
get_elem?-set_cases [] j i v u e = inr e
get_elem?-set_cases {A = A} (x ∷ xs) zero zero v u e =
    inl (refl, sym (ap (λ o. elim o as (λ _. A) [ none ↦ v | some y ↦ y ]) e))
get_elem?-set_cases (x ∷ xs) zero (suc i) v u e = inr e
get_elem?-set_cases (x ∷ xs) (suc j) zero v u e = inr e
get_elem?-set_cases (x ∷ xs) (suc j) (suc i) v u e = elim (get_elem?-set_cases xs j i v u e) [
  | inl p ↦ inl (ap suc p.0, p.1)
  | inr q ↦ inr q
]

-- The windows lie one behind the other in the samples.
abbrev pub IsLaid : {S : Type 0} → (count size : ℕ) → List (Window S) → Type 0
IsLaid {S = S} count size windows =
    (i : ℕ) (w : Window S) → i < count → get_elem? windows i ≡ some w → w.offset ≡ i * size

-- A window is at a sample.
abbrev pub StartsAt : {S : Type 0} → List (Window S) → (i start : ℕ) → Type 0
StartsAt {S = S} windows i start =
    (w : Window S) → get_elem? windows i ≡ some w → w.start_at ≡ start

-- Changing a window without its place.
pub set-IsLaid :
    {S : Type 0} (count size j : ℕ) (ws : List (Window S)) (w v : Window S)
    → get_elem? ws j ≡ some w
    → v.offset ≡ w.offset
    → IsLaid count size ws
    → IsLaid count size (set ws j v)
set-IsLaid count size j ws w v at same laid i u h e = elim (get_elem?-set_cases ws j i v u e) [
  | inl p ↦
      ap (λ x. x.offset) p.1
      ∙ same
      ∙ laid j w (subst (λ k. k < count) p.0 h) at
      ∙ ap (λ k. k * size) (sym p.0)
  | inr q ↦ laid i u h q
]

pub set-StartsAt :
    {S : Type 0} (ws : List (Window S)) (j i start : ℕ) (v : Window S)
    → v.start_at ≡ start
    → StartsAt ws i start
    → StartsAt (set ws j v) i start
set-StartsAt ws j i start v same old u e = elim (get_elem?-set_cases ws j i v u e) [
  | inl p ↦ ap (λ x. x.start_at) p.1 ∙ same
  | inr q ↦ old u q
]

-- The arrays are large enough, and the windows can be used from the recent one on.
pub record IsReady {S : Type 0} (d : Data S) : Type 0 where
  pub two_windows : 2 ≤ d.window_count
  pub some_size : 1 ≤ d.window_size
  pub samples_fit : d.window_count * d.window_size ≤ length d.samples
  pub windows_fit : d.window_count ≤ length d.windows
  pub laid : IsLaid d.window_count d.window_size d.windows
  pub recent_fits : d.recent_window < d.window_count
  pub oldest_next : d.oldest_window ≡ turn d.window_count d.recent_window

-- The recent and the oldest window are at the same sample.
pub record IsValid {S : Type 0} (d : Data S) : Type 0 where
  pub ready : IsReady d
  pub in_window_fits : d.in_window < d.window_size
  pub recent_at : StartsAt d.windows d.recent_window d.in_window
  pub oldest_at : StartsAt d.windows d.oldest_window d.in_window
