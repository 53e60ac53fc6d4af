-- ===== src/Delay/Single.antt =====
-- A delay of one channel: `Delay` of src/include/tdap/Delay.hpp.
use speakerman.Prelude.{
  ℕ, ◌+◌, ◌-◌, ◌/◌, ◌<◌, ◌≡◌, refl, Bool, ◌&&◌, List, [], ◌∷◌, length, get_or, set, replicate,
  length-replicate, length-set, ltb, leb, if◌then◌else◌, Option, none, some, arith, ap₂,
}
use speakerman.Count.{max_count}

pub record Delay {ℓ} (S : Type ℓ) : Type ℓ where
  pub buffer : List S
  pub read : ℕ
  pub write : ℕ
  pub delay : ℕ

unfoldable pub valid_max_delay : ℕ → ℕ → Bool
valid_max_delay size max_delay = ltb 1 max_delay && ltb max_delay (max_count size / 2)

module _ {ℓ} {S : Type ℓ} (null : S) where
  -- The constructor; `none` is an exception.
  unfoldable pub create : ℕ → ℕ → Option (Delay S)
  unfolding valid_max_delay
  create size max_delay =
      if valid_max_delay size max_delay
      then some (record { buffer = replicate (1 + max_delay) null; read = 0; write = 0; delay = 0 })
      else none

  -- `setDelay`
  unfoldable pub set_delay : ℕ → Delay S → Option (Delay S)
  set_delay new_delay d =
      if leb new_delay (length d.buffer - 1)
      then some (record d { buffer = replicate (length d.buffer) null; read = 0; write = d.delay })
      else none

  -- `setAndGet`
  unfoldable pub set_and_get : S → Delay S → S × Delay S
  set_and_get value d =
      let buffer' = set d.buffer d.write value in
      (
        get_or buffer' d.read null,
        record d {
          buffer = buffer';
          write = if ltb d.delay (d.write + 1) then 0 else d.write + 1;
          read = if ltb d.delay (d.read + 1) then 0 else d.read + 1;
        },
      )

-- A call of one of the two operations.
pub data Call {ℓ} (S : Type ℓ) : Type ℓ where
  delayed : ℕ → Call S
  sample : S → Call S

-- The samples that a sequence of calls gives, where an exception of `setDelay` is caught.
unfoldable pub outputs {ℓ} : {S : Type ℓ} → S → List (Call S) → Delay S → List S
outputs null [] d = []
outputs null (delayed n ∷ calls) d =
    outputs null calls (elim (set_delay null n d) [ none ↦ d | some d' ↦ d' ])
outputs null (sample v ∷ calls) d =
    let (out, d') = set_and_get null v d in out ∷ outputs null calls d'

-- The samples of the calls.
abbrev pub inputs {ℓ} : {S : Type ℓ} → List (Call S) → List S
inputs [] = []
inputs (delayed n ∷ calls) = inputs calls
inputs (sample v ∷ calls) = v ∷ inputs calls

module _ {S : Type 0} (null : S) where
  -- No delay is in effect.
  record IsImmediate (d : Delay S) : Type 0 where
    at_start : (d.delay ≡ 0) × (d.read ≡ 0) × (d.write ≡ 0)
    has_room : 0 < length d.buffer

  get_or-set_first : (xs : List S) (v : S) → 0 < length xs → get_or (set xs 0 v) 0 null ≡ v
  get_or-set_first [] v h = absurd (omega arith)
  get_or-set_first (x ∷ xs) v h = refl

  set_and_get-IsImmediate :
      (v : S) (d : Delay S)
      → IsImmediate d
      → let (out, d') = set_and_get null v d in (out ≡ v) × IsImmediate d'
  unfolding set_and_get
  set_and_get-IsImmediate v d i =
      let (none_set, reads, writes) = i.at_start in
      (
        rw (reads, writes) (get_or-set_first d.buffer v i.has_room),
        record {
          at_start = (none_set, rw (reads, none_set) refl, rw (writes, none_set) refl);
          has_room = rw (length-set d.buffer d.write v) i.has_room;
        },
      )

  set_delay-IsImmediate :
      (n : ℕ) (d : Delay S)
      → IsImmediate d
      → IsImmediate (elim (set_delay null n d) as (λ _. Delay S) [ none ↦ d | some d' ↦ d' ])
  unfolding set_delay
  set_delay-IsImmediate n d i = ground (arith, length-replicate (length d.buffer) null)

  outputs-IsImmediate :
      (calls : List (Call S)) (d : Delay S) → IsImmediate d → outputs null calls d ≡ inputs calls
  unfolding outputs
  outputs-IsImmediate [] d i = refl
  outputs-IsImmediate (delayed n ∷ calls) d i =
      outputs-IsImmediate calls
        (elim (set_delay null n d) as (λ _. Delay S) [ none ↦ d | some d' ↦ d' ])
        (set_delay-IsImmediate n d i)
  outputs-IsImmediate (sample v ∷ calls) d i =
      let (e, i') = set_and_get-IsImmediate v d i in
      ap₂ (◌∷◌) e (outputs-IsImmediate calls (set_and_get null v d).1 i')

  create-IsImmediate :
      (size max_delay : ℕ) (d : Delay S) → create null size max_delay ≡ some d → IsImmediate d
  unfolding create
  create-IsImmediate size max_delay d e = ground (arith, length-replicate (1 + max_delay) null)

  -- A new delay never delays: `setDelay` does not store its argument, so that every sample comes back
  -- at once, whatever calls of `setDelay` stand before it.
  pub outputs-immediate :
      (size max_delay : ℕ) (d : Delay S) (calls : List (Call S))
      → create null size max_delay ≡ some d
      → outputs null calls d ≡ inputs calls
  outputs-immediate size max_delay d calls e =
      outputs-IsImmediate calls d (create-IsImmediate size max_delay d e)
