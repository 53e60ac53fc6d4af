-- ===== src/Allocation/World/Threads.antt =====
-- Each thread uses at most one handle of src/Allocation.cpp, and each handle at most one thread.
use speakerman.Prelude.{
  ℕ, ◌≡◌, refl, sym, ap, ◌∙◌, subst, Bool, false, Bool-cases, inl, inr, Option, none, some, ◌==◌,
  ==_iff,
}
use speakerman.Prelude.Effects.{Effect, returns, throws, undefined, ◌>>=◌}
use speakerman.Allocation.{Handle}
use speakerman.Allocation.World.Handles.{SameThread, is_closed_in_use}
use speakerman.Allocation.World.{World, fetch, put_handle, modify, link_handle}

-- What a call that returns was made of.
pub >>=-eq-returns {ℓ κ} :
    {A : Type ℓ} {B : Type κ} (e : Effect A) (f : A → Effect B) {b : B}
    → (e >>= f) ≡ returns b
    → (a : A) × (e ≡ returns a) × (f a ≡ returns b)
>>=-eq-returns (returns a) f h = (a, refl, h)
>>=-eq-returns throws f h = cc
>>=-eq-returns undefined f h = cc

pub fetch-eq : (w : World) (a : ℕ) (h : Handle) → fetch w a ≡ returns h → w.handles a ≡ some h
unfolding fetch
fetch-eq w a h e = found (w.handles a) e
  where
    found :
        (o : Option Handle)
        → (elim o as (λ _. Effect Handle) [ none ↦ undefined | some g ↦ returns g ]) ≡ returns h
        → o ≡ some h
    found none e = cc
    found (some g) e = cc

-- The handle that a thread uses knows the thread, and the thread that uses a handle knows the handle.
pub record IsConsistent (w : World) : Type 0 where
  pub entered :
      (t a : ℕ)
      → w.thread_handle t ≡ some a
      → (h : Handle) × (w.handles a ≡ some h) × (h.thread_id ≡ some t)
  pub known :
      (t a : ℕ) (h : Handle)
      → w.handles a ≡ some h
      → h.thread_id ≡ some t
      → w.thread_handle t ≡ some a
  pub at_rest : (a : ℕ) (h : Handle) → w.handles a ≡ some h → is_closed_in_use h ≡ false

-- Changing a handle, but not its thread.
pub put_handle-IsConsistent :
    (w : World) (a : ℕ) (h h' : Handle)
    → w.handles a ≡ some h
    → SameThread h h'
    → IsConsistent w
    → IsConsistent (put_handle w a (some h'))
put_handle-IsConsistent w a h h' at same c = record {
  entered = λ t b e.
      let (g, p, q) = c.entered t b e in
      elim (Bool-cases (b == a)) [
        | inl here ↦
            let at' : some h ≡ some g = sym at ∙ ap w.handles (sym ((==_iff b a).0 here)) ∙ p in
            (
              h',
              rw here refl,
              same.0
                  ∙ ap (λ o. elim o as (λ _. Option ℕ) [ none ↦ none | some x ↦ x.thread_id ]) at'
                  ∙ q,
            )
        | inr away ↦ (g, rw away p, q)
      ];
  known = λ t b g p q. elim (Bool-cases (b == a)) [
    | inl here ↦
        let this : some h' ≡ some g = sym (rw here refl) ∙ p in
        let is : b ≡ a = (==_iff b a).0 here in
        c.known t b h (ap w.handles is ∙ at) (
          sym same.0
          ∙ ap (λ o. elim o as (λ _. Option ℕ) [ none ↦ none | some x ↦ x.thread_id ]) this
          ∙ q)
    | inr away ↦ c.known t b g (rw away at p) q
  ];
  at_rest = λ b g p. elim (Bool-cases (b == a)) [
    | inl here ↦
        let this : some h' ≡ some g = sym (rw here refl) ∙ p in
        ap (λ o. elim o as (λ _. Bool) [ none ↦ false | some x ↦ is_closed_in_use x ]) (sym this)
        ∙ same.1 (c.at_rest a h at)
    | inr away ↦ c.at_rest b g (rw away at p)
  ];
}

pub returns_inj {ℓ} : {A : Type ℓ} {a b : A} → ◌≡◌ {A = Effect A} (returns a) (returns b) → a ≡ b
returns_inj e = cc

-- A call keeps the threads consistent if it returns.
abbrev pub Keeps {ℓ} : {A : Type ℓ} → (A → World) → Effect A → Type ℓ
Keeps {A = A} get e = (a : A) → e ≡ returns a → IsConsistent (get a)

abbrev pub self : World → World
self w = w

pub modify-IsConsistent :
    (w : World) (a : ℕ) (f : Handle → Handle)
    → ((h : Handle) → SameThread h (f h))
    → IsConsistent w
    → Keeps self (modify w a f)
unfolding modify
modify-IsConsistent w a f same c w' e =
    let (h, at, made) = >>=-eq-returns (fetch w a) (λ h. returns (put_handle w a (some (f h)))) e in
    subst IsConsistent (returns_inj made)
      (put_handle-IsConsistent w a h (f h) (fetch-eq w a h at) (same h) c)

-- The list of handles has no part in it.
pub linked-IsConsistent :
    (w : World) (l : Option ℕ) → IsConsistent w → IsConsistent (record w { linked = l })
linked-IsConsistent w l c = record { entered = c.entered; known = c.known; at_rest = c.at_rest }

pub link_handle-IsConsistent : (me : ℕ) (w : World) → IsConsistent w → Keeps self (link_handle me w)
unfolding link_handle
link_handle-IsConsistent me w c w' e = at_head w.linked e
  where
    w0 : World
    w0 = record w { linked = some me }

    c0 : IsConsistent w0
    c0 = linked-IsConsistent w (some me) c

    at_head :
        (o : Option ℕ)
        → (elim o as (λ _. Effect World) [
          | none ↦ modify w0 me (λ h. record h { prev = none; next = none })
          | some walk ↦ modify w0 walk (λ h. record h { prev = some me }) >>= λ w1.
              modify w1 me (λ h. record h { next = some walk; prev = none })
        ])
          ≡ returns w'
        → IsConsistent w'
    at_head none e = modify-IsConsistent w0 me _ (λ h. (refl, λ k. k)) c0 w' e
    at_head (some walk) e =
        let (w1, first, second) = >>=-eq-returns (modify w0 walk _) _ e in
        modify-IsConsistent w1 me _ (λ h. (refl, λ k. k))
          (modify-IsConsistent w0 walk _ (λ h. (refl, λ k. k)) c0 w1 first) w' second
