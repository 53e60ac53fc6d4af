-- ===== src/Peak/Turns.antt =====
-- How the windows of `PeakMemory` of src/include/tdap/PeakDetection.hpp follow one another.
use native.Mathlib.Nat.{mod-eq_of_lt, mod_self}
use native.Mathlib.Decide.{dec_lt, dec_le}
use speakerman.Prelude.{ℕ, zero, suc, ◌+◌, ◌-◌, ◌%◌, ◌≤◌, ◌<◌, ◌≡◌, ◌≢◌, ap, ◌∙◌, arith}

-- The window after a window.
abbrev pub turn : (n p : ℕ) → ℕ
turn n p = (p + 1) % n

pub turn-up : (n p : ℕ) → p + 1 < n → turn n p ≡ p + 1
turn-up n p h = mod-eq_of_lt h

pub turn-end : (n p : ℕ) → 1 ≤ n → p + 1 ≡ n → turn n p ≡ 0
turn-end n p k h = ap (λ m. m % n) h ∙ mod_self n

-- After a number of windows.
abbrev pub turns : (n k p : ℕ) → ℕ
turns n zero p = p
turns n (suc k) p = turns n k (turn n p)

pub turn-lt : (n p : ℕ) → p < n → turn n p < n
turn-lt n p h = elim (dec_lt (p + 1) n) [
  | yes below ↦ let e = turn-up n p below in omega arith
  | no last ↦ let e = turn-end n p (omega arith) (omega arith) in omega arith
]

pub turn_other : (n p : ℕ) → 2 ≤ n → p < n → turn n p ≢ p
turn_other n p k h same = elim (dec_lt (p + 1) n) [
  | yes below ↦ let e = turn-up n p below in omega arith
  | no last ↦ let e = turn-end n p (omega arith) (omega arith) in omega arith
]

turns-up : (n k p : ℕ) → p + k < n → turns n k p ≡ p + k
turns-up n zero p h = omega arith
turns-up n (suc k) p h =
    ap (turns n k) (turn-up n p (omega arith)) ∙ turns-up n k (p + 1) (omega arith) ∙ omega arith

-- Past the last window.
turns-wrap :
    (m n p r : ℕ) → (p + m) + 1 ≡ n → r < n → (k : ℕ) × (k ≤ (m + 1) + r) × (turns n k p ≡ r)
turns-wrap zero n p r h l = (
  suc r,
  omega arith,
  ap (turns n r) (turn-end n p (omega arith) (omega arith))
      ∙ turns-up n r 0 (omega arith)
      ∙ omega arith,
)
turns-wrap (suc m) n p r h l =
    let (k, few, e) = turns-wrap m n (p + 1) r (omega arith) l in
    (suc k, omega arith, ap (turns n k) (turn-up n p (omega arith)) ∙ e)

-- Every window is reached from every other one within one round.
pub turns-reach : (n p r : ℕ) → p < n → r < n → (k : ℕ) × (k ≤ n) × (turns n k p ≡ r)
turns-reach n p r h l = elim (dec_le p r) [
  | yes before ↦ (r - p, omega arith, turns-up n (r - p) p (omega arith) ∙ omega arith)
  | no after ↦
      let (k, few, e) = turns-wrap ((n - p) - 1) n p r (omega arith) l in (k, omega arith, e)
]
