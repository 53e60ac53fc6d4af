-- ===== src/Delay/Multi.antt =====
-- A delay of several channels: `MultiChannelDelay` of src/include/tdap/Delay.hpp. The arithmetic is
-- that of a 64-bit `size_t`.
pub mod Ring
pub mod Frames
use speakerman.Prelude.{
  ℕ, zero, suc, ◌+◌, ◌*◌, ◌%◌, ◌^◌, ◌<◌, ◌≡◌, Bool, not, ◌&&◌, ◌||◌, ◌==◌, List, length, get_or,
  set, replicate, ltb, if◌then◌else◌, Option, none, some, arith, length-replicate, sym, refl, ◌∙◌,
}
use native.Mathlib.Nat.{mod-eq_of_lt, mul-le-mul_right}
use speakerman.Count.{add_size, mul_size, is_valid_sum, product}

pub record MultiChannelDelay {ℓ} (S : Type ℓ) : Type ℓ where
  pub max_channels : ℕ
  pub max_delay : ℕ
  pub buffer : List S
  pub read : ℕ
  pub write : ℕ
  pub channels : ℕ
  pub delay : ℕ
  pub end : ℕ

-- Whether `getValidMaxChannels` returns its first argument, or throws.
unfoldable pub valid_max_channels : (size max_channels max_delay : ℕ) → Bool
valid_max_channels size max_channels max_delay =
    not (max_delay == 0)
    && is_valid_sum size max_delay 1
    && ltb 0 (product size max_channels max_delay)

module _ {ℓ} {S : Type ℓ} (null : S) where
  unfoldable pub set_metrics : (channels delay : ℕ) → MultiChannelDelay S → MultiChannelDelay S
  set_metrics channels delay d = record d {
    buffer = replicate (length d.buffer) null;
    channels = channels;
    delay = delay;
    read = 0;
    write = mul_size channels delay;
    end = mul_size channels (add_size delay 1);
  }

  -- The constructor; `none` is an exception.
  unfoldable pub create : (size max_channels max_delay : ℕ) → Option (MultiChannelDelay S)
  create size max_channels max_delay =
      if valid_max_channels size max_channels max_delay
      then some (
          set_metrics max_channels 0 (record {
            max_channels = max_channels;
            max_delay = max_delay;
            buffer = replicate (mul_size max_channels (add_size max_delay 1)) null;
            read = 0;
            write = 0;
            channels = 0;
            delay = 0;
            end = 0;
          }))
      else none

  unfoldable pub set_channels : ℕ → MultiChannelDelay S → Option (MultiChannelDelay S)
  set_channels channels d =
      if channels == 0 || ltb d.max_channels channels
      then none
      else some (set_metrics channels d.delay d)

  unfoldable pub set_delay : ℕ → MultiChannelDelay S → Option (MultiChannelDelay S)
  set_delay delay d = if ltb d.max_delay delay then none else some (set_metrics d.channels delay d)

  -- `setAndGet`
  unfoldable pub set_and_get : (channel : ℕ) → S → MultiChannelDelay S → S × MultiChannelDelay S
  set_and_get channel value d =
      let buffer' = set d.buffer (add_size d.write channel) value in
      (get_or buffer' (add_size d.read channel) null, record d { buffer = buffer' })

module _ {ℓ} {S : Type ℓ} where
  unfoldable pub next : MultiChannelDelay S → MultiChannelDelay S
  next d =
      let write' = add_size d.write d.channels in
      let read' = add_size d.read d.channels in
      record d {
        write = if ltb d.end write' then 0 else write';
        read = if ltb d.end read' then 0 else read';
      }

-- The products and sums that stay in range.
module _ (channels delay : ℕ) (pos : 0 < channels) (fits : channels * (delay + 1) < 2 ^ 64) where
  mul-exact : mul_size channels delay ≡ channels * delay
  mul-exact = mod-eq_of_lt (omega arith)

  add-exact : add_size delay 1 ≡ delay + 1
  add-exact = mod-eq_of_lt (omega (arith, mul-le-mul_right (delay + 1) pos))

  end-exact : mul_size channels (add_size delay 1) ≡ channels * (delay + 1)
  end-exact = rw add-exact (mod-eq_of_lt fits)

  step-exact : add_size (channels * delay) channels ≡ channels * (delay + 1)
  step-exact =
      let e : channels * delay + channels ≡ channels * (delay + 1) = omega arith in
      rw e (mod-eq_of_lt fits)

module _ {S : Type 0} (null : S) where
  created :
      (size max_channels max_delay : ℕ) (d : MultiChannelDelay S)
      → create null size max_channels max_delay ≡ some d
      → (d.channels ≡ max_channels)
        × (length d.buffer ≡ mul_size max_channels (add_size max_delay 1))
  unfolding create set_metrics
  created size mc md d made = ground (
    arith,
    length-replicate (mul_size mc (add_size md 1)) null,
    length-replicate (length (replicate (mul_size mc (add_size md 1)) null)) null,
  )

  delayed-eq :
      (delay : ℕ) (d d' : MultiChannelDelay S)
      → set_delay null delay d ≡ some d'
      → d' ≡ set_metrics null d.channels delay d
  unfolding set_delay
  delayed-eq delay d d' done = ground arith

  end-reached :
      (mc md : ℕ) (d : MultiChannelDelay S)
      → 0 < mc
      → mc * (md + 1) < 2 ^ 64
      → (next (set_metrics null mc md d)).write ≡ mc * (md + 1)
  unfolding set_metrics next
  end-reached mc md d pos fits =
      rw (mul-exact mc md pos fits, end-exact mc md pos fits, step-exact mc md pos fits)
        (ground arith)

  length-next : (d : MultiChannelDelay S) → length (next d).buffer ≡ length d.buffer
  unfolding next
  length-next d = refl

  length-metrics :
      (mc md : ℕ) (d : MultiChannelDelay S)
      → length (set_metrics null mc md d).buffer ≡ length d.buffer
  unfolding set_metrics
  length-metrics mc md d = length-replicate (length d.buffer) null

  -- With all channels and the maximum delay, which `setDelay` accepts, the first `next` moves the write
  -- position to the end of the buffer: the next sample is written out of range.
  pub next-overruns :
      (size max_channels max_delay : ℕ) (d d' : MultiChannelDelay S)
      → 0 < max_channels
      → max_channels * (max_delay + 1) < 2 ^ 64
      → create null size max_channels max_delay ≡ some d
      → set_delay null max_delay d ≡ some d'
      → (next d').write ≡ length (next d').buffer
  unfolding next set_metrics
  next-overruns size mc md d d' pos fits made done =
      let (channels, room) = created size mc md d made in
      rw (delayed-eq md d d' done, channels, end-reached mc md d pos fits)
        (sym (
          length-next (set_metrics null mc md d)
          ∙ length-metrics mc md d
          ∙ room
          ∙ end-exact mc md pos fits))
