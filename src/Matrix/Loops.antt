-- ===== src/Matrix/Loops.antt =====
-- What the loops of src/MatrixConfig.cc leave of the weights, where each turn changes other weights.
use native.Mathlib.Decide.{dec_lt}
use speakerman.Prelude.{
  ℕ, zero, suc, ◌+◌, ◌*◌, ◌≤◌, ◌<◌, ◌≡◌, ◌⊎◌, inl, inr, refl, ap, ◌∙◌, Bool, true, false, ◌&&◌,
  List, [], ◌∷◌, ◌==◌, if◌then◌else◌, length, get_or, set, length-set, arith, Option, none, some,
}
use speakerman.Double.{Double, quiet_nan}
use speakerman.Matrix.{MatrixConfig, loop}

abbrev pub at : MatrixConfig → ℕ → ℕ → Double
at w pc lc = get_or w (8 * pc + lc) quiet_nan

get_or-set_same : (xs : List ℕ) (i v d : ℕ) → i < length xs → get_or (set xs i v) i d ≡ v
get_or-set_same [] i v d h = absurd (omega arith)
get_or-set_same (x ∷ xs) zero v d h = refl
get_or-set_same (x ∷ xs) (suc i) v d h = get_or-set_same xs i v d (omega arith)

get_or-set_other :
    (xs : List ℕ) (i j v d : ℕ) → (i < j) ⊎ (j < i) → get_or (set xs i v) j d ≡ get_or xs j d
get_or-set_other [] i j v d h = refl
get_or-set_other (x ∷ xs) zero zero v d h = absurd (omega arith)
get_or-set_other (x ∷ xs) zero (suc j) v d h = refl
get_or-set_other (x ∷ xs) (suc i) zero v d h = refl
get_or-set_other (x ∷ xs) (suc i) (suc j) v d h = get_or-set_other xs i j v d (omega arith)

-- A computation that gives an array with its size, and with `f` of the weights in place of the weights.
pub record Gives (o : Option MatrixConfig) (w : MatrixConfig) (f : ℕ → ℕ → Double → Double)
    : Type 0 where
  pub result : MatrixConfig
  pub made : o ≡ some result
  pub size : length result ≡ 64
  pub weights : (p l : ℕ) → p < 8 → l < 8 → at result p l ≡ f p l (at w p l)

-- Setting one weight.
pub set-Gives :
    (w : MatrixConfig) (pc lc : ℕ) (f : ℕ → ℕ → Double → Double)
    → length w ≡ 64
    → pc < 8
    → lc < 8
    → Gives
        (some (set w (8 * pc + lc) (f pc lc (at w pc lc))))
        w
        (λ p l v. if p == pc && l == lc then f p l v else v)
set-Gives w pc lc f e hp hl = record {
  result = set w (8 * pc + lc) (f pc lc (at w pc lc));
  made = refl;
  size = length-set w (8 * pc + lc) (f pc lc (at w pc lc)) ∙ e;
  weights = λ p l kp kl. elim (dec_lt (8 * p + l) (8 * pc + lc)) [
    | yes below ↦
        let other : (p == pc && l == lc) ≡ false = ground arith in
        rw other (
          get_or-set_other w (8 * pc + lc) (8 * p + l) (f pc lc (at w pc lc)) quiet_nan (inr below))
    | no over ↦ elim (dec_lt (8 * pc + lc) (8 * p + l)) [
      | yes above ↦
          let other : (p == pc && l == lc) ≡ false = ground arith in
          rw other (
            get_or-set_other w (8 * pc + lc) (8 * p + l) (f pc lc (at w pc lc)) quiet_nan
              (inl above))
      | no under ↦
          let same_p : p ≡ pc = omega arith in
          let same_l : l ≡ lc = omega arith in
          let here : (pc == pc && lc == lc) ≡ true = ground arith in
          rw (same_p, same_l, here)
            (get_or-set_same w (8 * pc + lc) (f pc lc (at w pc lc)) quiet_nan (omega arith))
    ]
  ];
}

pub Gives-of :
    (o o' : Option MatrixConfig) (w : MatrixConfig) (f : ℕ → ℕ → Double → Double)
    → o ≡ o'
    → Gives o' w f
    → Gives o w f
Gives-of o o' w f e g = record {
  result = g.result;
  made = e ∙ g.made;
  size = g.size;
  weights = g.weights;
}

pub same-Gives :
    (o : Option MatrixConfig) (w : MatrixConfig) (f g : ℕ → ℕ → Double → Double)
    → Gives o w f
    → ((p l : ℕ) → p < 8 → l < 8 → (v : Double) → f p l v ≡ g p l v)
    → Gives o w g
same-Gives o w f g a e = record {
  result = a.result;
  made = a.made;
  size = a.size;
  weights = λ p l kp kl. a.weights p l kp kl ∙ e p l kp kl (at w p l);
}

pub loop-cons :
    (left i : ℕ) (body : ℕ → MatrixConfig → Option MatrixConfig) (w u : MatrixConfig)
    → body i w ≡ some u
    → loop (suc left) i body w ≡ loop left (i + 1) body u
unfolding loop
loop-cons left i body w u e = rw (e, loop) refl

-- A loop of computations that each change other weights.
pub loop-Gives :
    (left i : ℕ) (body : ℕ → MatrixConfig → Option MatrixConfig) (w : MatrixConfig)
    (hit : ℕ → ℕ → ℕ → Bool) (f : ℕ → ℕ → Double → Double)
    → length w ≡ 64
    → ((k : ℕ)
        → i ≤ k
        → k < i + left
        → (u : MatrixConfig) → length u ≡ 64
        → Gives (body k u) u (λ p l v. if hit k p l then f p l v else v))
    → (now : ℕ → ℕ → ℕ → ℕ → Bool) → ((m j p l : ℕ) → now zero j p l ≡ false)
    → ((m j p l : ℕ)
        → (now (suc m) j p l ≡ true)
            × (((hit j p l ≡ true) × (now m (j + 1) p l ≡ false))
                ⊎ ((hit j p l ≡ false) × (now m (j + 1) p l ≡ true)))
          ⊎ ((now (suc m) j p l ≡ false) × (hit j p l ≡ false) × (now m (j + 1) p l ≡ false)))
    → Gives (loop left i body w) w (λ p l v. if now left i p l then f p l v else v)
unfolding loop
loop-Gives zero i body w hit f e each now stop step = record {
  result = w;
  made = refl;
  size = e;
  weights = λ p l kp kl. rw (stop 0 i p l) refl;
}
loop-Gives (suc left) i body w hit f e each now stop step =
    let first = each i (omega arith) (omega arith) w e in
    let rest =
      loop-Gives left (i + 1) body first.result hit f first.size
        (λ k h h'. each k (omega arith) (omega arith)) now stop step in
    record {
      result = rest.result;
      made = loop-cons left i body w first.result first.made ∙ rest.made;
      size = rest.size;
      weights = λ p l kp kl.
          let a = rest.weights p l kp kl in
          let b = first.weights p l kp kl in
          elim (step left i p l) [
            | inl (yes_now, inl (h, n)) ↦ a ∙ rw (n, b, h, yes_now) refl
            | inl (yes_now, inr (h, n)) ↦ a ∙ rw (n, b, h, yes_now) refl
            | inr (no_now, h, n) ↦ a ∙ rw (n, b, h, no_now) refl
          ];
    }

pub compose-Gives :
    (o : Option MatrixConfig) (next : MatrixConfig → Option MatrixConfig) (w : MatrixConfig)
    (f g : ℕ → ℕ → Double → Double)
    → Gives o w f
    → ((u : MatrixConfig) → length u ≡ 64 → Gives (next u) u g)
    → Gives (elim o [ none ↦ none | some u ↦ next u ]) w (λ p l v. g p l (f p l v))
compose-Gives o next w f g first each =
    let u = first.result in
    let second = each u first.size in
    record {
      result = second.result;
      made = rw first.made second.made;
      size = second.size;
      weights = λ p l kp kl. second.weights p l kp kl ∙ ap (g p l) (first.weights p l kp kl);
    }
