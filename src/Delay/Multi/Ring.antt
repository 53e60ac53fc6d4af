-- ===== src/Delay/Multi/Ring.antt =====
-- What a `MultiChannelDelay` of src/include/tdap/Delay.hpp gives when every channel gets a sample
-- before each `next`: the samples of as many frames before.
use native.Mathlib.Nat.{mod-eq_of_lt}
use native.Mathlib.Decide.{dec_lt}
use speakerman.Prelude.{
  ℕ, zero, suc, ◌+◌, ◌^◌, ◌≤◌, ◌<◌, ◌≡◌, ◌⊎◌, refl, ◌∙◌, List, [], ◌∷◌, length, get_or, set,
  replicate, length-set, arith,
}
use speakerman.Count.{add_size}
use speakerman.Delay.Multi.{MultiChannelDelay, set_and_get, next}

module _ {S : Type 0} where
  get_or-set_same : (xs : List S) (i : ℕ) (v d : S) → i < length xs → get_or (set xs i v) i d ≡ v
  get_or-set_same [] i v d h = absurd (omega arith)
  get_or-set_same (x ∷ xs) zero v d h = refl
  get_or-set_same (x ∷ xs) (suc i) v d h = get_or-set_same xs i v d (omega arith)

  get_or-set_other :
      (xs : List S) (i j : ℕ) (v d : S)
      → (i < j) ⊎ (j < i)
      → get_or (set xs i v) j d ≡ get_or xs j d
  get_or-set_other [] i j v d h = refl
  get_or-set_other (x ∷ xs) zero zero v d h = absurd (omega arith)
  get_or-set_other (x ∷ xs) zero (suc j) v d h = refl
  get_or-set_other (x ∷ xs) (suc i) zero v d h = refl
  get_or-set_other (x ∷ xs) (suc i) (suc j) v d h = get_or-set_other xs i j v d (omega arith)

  pub get_or-replicate : (n j : ℕ) (d : S) → get_or (replicate n d) j d ≡ d
  get_or-replicate zero j d = refl
  get_or-replicate (suc n) zero d = refl
  get_or-replicate (suc n) (suc j) d = get_or-replicate n j d

module _ {S : Type 0} (null : S) where
  -- The first `m` channels get their samples.
  abbrev pub put_channels : ℕ → (ℕ → S) → MultiChannelDelay S → MultiChannelDelay S
  put_channels zero f t = t
  put_channels (suc m) f t = (set_and_get null m (f m) (put_channels m f t)).1

  -- After `n` frames of samples for `c` channels.
  abbrev pub after : (c : ℕ) → (ℕ → ℕ → S) → ℕ → MultiChannelDelay S → MultiChannelDelay S
  after c input zero t = t
  after c input (suc n) t = next (put_channels c (input n) (after c input n t))

  -- The sample of channel `k` in frame `n`.
  abbrev pub output : (c : ℕ) → (ℕ → ℕ → S) → ℕ → ℕ → MultiChannelDelay S → S
  output c input n k t =
      (set_and_get null k (input n k) (put_channels k (input n) (after c input n t))).0

  -- Everything but the buffer.
  pub record Same (t u : MultiChannelDelay S) : Type 0 where
    pub same_read : u.read ≡ t.read
    pub same_write : u.write ≡ t.write
    pub same_channels : u.channels ≡ t.channels
    pub same_end : u.end ≡ t.end
    pub same_size : length u.buffer ≡ length t.buffer

  pub put_channels-Same :
      (m : ℕ) (f : ℕ → S) (t : MultiChannelDelay S) → Same t (put_channels m f t)
  unfolding set_and_get
  put_channels-Same zero f t = record {
    same_read = refl;
    same_write = refl;
    same_channels = refl;
    same_end = refl;
    same_size = refl;
  }
  put_channels-Same (suc m) f t =
      let u = put_channels m f t in
      let s = put_channels-Same m f t in
      record {
        same_read = s.same_read;
        same_write = s.same_write;
        same_channels = s.same_channels;
        same_end = s.same_end;
        same_size = length-set u.buffer (add_size u.write m) (f m) ∙ s.same_size;
      }

  pub put-outside :
      (m j : ℕ) (f : ℕ → S) (t : MultiChannelDelay S)
      → t.write + m < 2 ^ 64
      → (j < t.write) ⊎ (t.write + m ≤ j)
      → get_or (put_channels m f t).buffer j null ≡ get_or t.buffer j null
  unfolding set_and_get
  put-outside zero j f t fits h = refl
  put-outside (suc m) j f t fits h =
      let u = put_channels m f t in
      let s = put_channels-Same m f t in
      let at : add_size u.write m ≡ t.write + m = rw s.same_write (mod-eq_of_lt (omega arith)) in
      rw at (get_or-set_other u.buffer (t.write + m) j (f m) null (omega arith))
      ∙ put-outside m j f t (omega arith) (omega arith)

  pub put-inside :
      (m k : ℕ) (f : ℕ → S) (t : MultiChannelDelay S)
      → t.write + m ≤ length t.buffer
      → length t.buffer < 2 ^ 64
      → k < m
      → get_or (put_channels m f t).buffer (t.write + k) null ≡ f k
  unfolding set_and_get
  put-inside zero k f t room fits h = absurd (omega arith)
  put-inside (suc m) k f t room fits h =
      let u = put_channels m f t in
      let s = put_channels-Same m f t in
      let size = s.same_size in
      let at : add_size u.write m ≡ t.write + m = rw s.same_write (mod-eq_of_lt (omega arith)) in
      elim (dec_lt k m) [
        | yes before ↦
            rw at (get_or-set_other u.buffer (t.write + m) (t.write + k) (f m) null (omega arith))
            ∙ put-inside m k f t (omega arith) fits before
        | no here ↦
            let same : k ≡ m = omega arith in
            rw (same, at) (get_or-set_same u.buffer (t.write + m) (f m) null (omega arith))
      ]
