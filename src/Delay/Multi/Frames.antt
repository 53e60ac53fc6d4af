-- ===== src/Delay/Multi/Frames.antt =====
-- A `MultiChannelDelay` of src/include/tdap/Delay.hpp delays every channel by the delay that was set.
-- It uses `delay + 2` slots of a sample for each channel.
use native.Mathlib.Decide.{dec_lt}
use native.Mathlib.Nat.{mod-eq_of_lt, mul-le-mul_left, mul-le-mul_right}
use speakerman.Prelude.{
  ℕ, zero, suc, ◌+◌, ◌-◌, ◌*◌, ◌^◌, ◌≤◌, ◌<◌, ◌≡◌, ◌⊎◌, inl, inr, refl, sym, ◌∙◌, ap, length,
  get_or, length-replicate, ltb, if◌then◌else◌, arith, true, false,
}
use speakerman.Count.{add_size}
use speakerman.Delay.Multi.{MultiChannelDelay, set_metrics, set_and_get, next}
use speakerman.Delay.Multi.Ring.{
  put_channels, put_channels-Same, put-outside, put-inside, after, output, get_or-replicate,
}

module _ {S : Type 0} (null : S) (c d : ℕ) (input : ℕ → ℕ → S) (pos : 0 < c) where
  -- The input, `d` frames later.
  pub stream : ℕ → ℕ → S
  stream m k = if ltb m d then null else input (m - d) k

  -- The slot after a slot.
  following : ℕ → ℕ
  following s = if ltb s (d + 1) then s + 1 else 0

  -- Slot `s` is slot `r + i` of the ring.
  abbrev At : (s r i : ℕ) → Type 0
  At s r i = (s ≡ r + i) ⊎ (s + (d + 2) ≡ r + i)

  -- Frame `n` is next, the read position stands at slot `r`, the write position at slot `w`, and the
  -- slots from `r` on hold the frames to come.
  record Window (n r w : ℕ) (t : MultiChannelDelay S) : Type 0 where
    r_ok : r < d + 2
    w_ok : w < d + 2
    ahead : At w r d
    read_at : t.read ≡ c * r
    write_at : t.write ≡ c * w
    channels_ok : t.channels ≡ c
    end_at : t.end ≡ c * (d + 1)
    room : c * (d + 2) ≤ length t.buffer
    fits : length t.buffer < 2 ^ 64
    held :
        (i s k : ℕ)
        → i < d
        → k < c
        → s < d + 2
        → At s r i
        → get_or t.buffer (c * s + k) null ≡ stream (n + i) k

  slot_fits : (s : ℕ) → s < d + 2 → c * s + c ≤ c * (d + 2)
  slot_fits s h = omega (arith, mul-le-mul_left c h)

  apart : (s w k : ℕ) → k < c → (s < w) ⊎ (w < s) → (c * s + k < c * w) ⊎ (c * w + c ≤ c * s + k)
  apart s w k h (inl below) = inl (omega (arith, mul-le-mul_left c below))
  apart s w k h (inr above) = inr (omega (arith, mul-le-mul_left c above))

  advance :
      (s : ℕ)
      → s < d + 2
      → c * (d + 2) < 2 ^ 64
      → (if ltb (c * (d + 1)) (add_size (c * s) c) then 0 else add_size (c * s) c) ≡ c * following s
  unfolding following
  advance s h fits =
      let exact : add_size (c * s) c ≡ c * s + c = mod-eq_of_lt (omega (arith, slot_fits s h)) in
      let next_slot : c * s + c ≡ c * (s + 1) = omega arith in
      let e : add_size (c * s) c ≡ c * (s + 1) = exact ∙ next_slot in
      rw e (elim (dec_lt s (d + 1)) [
        | yes below ↦ ground (arith, mul-le-mul_left c below)
        | no last ↦ let s_last : s ≡ d + 1 = omega arith in rw s_last (ground arith)
      ])

  following_ok : (s : ℕ) → s < d + 2 → following s < d + 2
  unfolding following
  following_ok s h = ground arith

  following_ahead : (r w : ℕ) → r < d + 2 → w < d + 2 → At w r d → At (following w) (following r) d
  unfolding following
  following_ahead r w hr hw a = ground arith

  back : (s r i : ℕ) → r < d + 2 → s < d + 2 → i < d → At s (following r) i → At s r (i + 1)
  unfolding following
  back s r i hr hs hi a = ground arith

  slots_apart :
      (r w s i : ℕ)
      → w < d + 2
      → s < d + 2
      → At w r d
      → At s r (i + 1)
      → i + 1 < d
      → (s < w) ⊎ (w < s)
  slots_apart r w s i hw hs aw a below = ground arith

  same_slot : (r w s i : ℕ) → w < d + 2 → s < d + 2 → At w r d → At s r (i + 1) → i + 1 ≡ d → s ≡ w
  same_slot r w s i hw hs aw a last = ground arith

  stream_now : (n k : ℕ) → stream (n + d) k ≡ input n k
  unfolding stream
  stream_now n k =
      let e : (n + d) - d ≡ n = omega arith in
      let late : ltb (n + d) d ≡ false = ground arith in rw (late, e) refl

  -- What the slots hold after the samples of frame `n` were written.
  held_next :
      (n r w : ℕ) (t : MultiChannelDelay S)
      → Window n r w t
      → (i s k : ℕ) → i < d
      → k < c
      → s < d + 2
      → At s r (i + 1)
      → get_or (put_channels null c (input n) t).buffer (c * s + k) null ≡ stream (n + 1 + i) k
  held_next n r w t o i s k hi hk hs a =
      let writes = o.write_at in
      let room = o.room in
      let fits = o.fits in
      let slot = slot_fits w o.w_ok in
      elim (dec_lt (i + 1) d) [
        | yes below ↦
            let same : n + 1 + i ≡ n + (i + 1) = omega arith in
            let far = apart s w k hk (slots_apart r w s i o.w_ok hs o.ahead a below) in
            put-outside null c (c * s + k) (input n) t (omega arith) (rw writes far)
            ∙ o.held (i + 1) s k below hk hs a
            ∙ ap (λ m. stream m k) (sym same)
        | no over ↦
            let last : n + d ≡ n + 1 + i = omega arith in
            let e = same_slot r w s i o.w_ok hs o.ahead a (omega arith) in
            rw (e, ← writes) (put-inside null c k (input n) t (omega arith) fits hk)
            ∙ sym (stream_now n k)
            ∙ ap (λ m. stream m k) last
      ]

  step-Window :
      (n r w : ℕ) (t : MultiChannelDelay S)
      → Window n r w t
      → Window (n + 1) (following r) (following w) (next (put_channels null c (input n) t))
  unfolding next
  step-Window n r w t o =
      let u = put_channels null c (input n) t in
      let s = put_channels-Same null c (input n) t in
      let room = o.room in
      let fits = o.fits in
      let size = s.same_size in
      record {
        r_ok = following_ok r o.r_ok;
        w_ok = following_ok w o.w_ok;
        ahead = following_ahead r w o.r_ok o.w_ok o.ahead;
        read_at =
            rw (s.same_read, s.same_channels, s.same_end, o.read_at, o.channels_ok, o.end_at)
              (advance r o.r_ok (omega arith));
        write_at =
            rw (s.same_write, s.same_channels, s.same_end, o.write_at, o.channels_ok, o.end_at)
              (advance w o.w_ok (omega arith));
        channels_ok = s.same_channels ∙ o.channels_ok;
        end_at = s.same_end ∙ o.end_at;
        room = omega arith;
        fits = omega arith;
        held = λ i j k hi hk hj a. held_next n r w t o i j k hi hk hj (back j r i o.r_ok hj hi a);
      }

  slots : ℕ → ℕ → ℕ
  slots start zero = start
  slots start (suc n) = following (slots start n)

  first-Window :
      (t : MultiChannelDelay S)
      → c * (d + 2) ≤ length t.buffer
      → length t.buffer < 2 ^ 64
      → Window 0 0 d (set_metrics null c d t)
  unfolding set_metrics stream
  first-Window t room fits =
      let size = length-replicate (length t.buffer) null in
      let small : d + 1 ≤ c * (d + 1) = omega (arith, mul-le-mul_right (d + 1) pos) in
      let one_more : add_size d 1 ≡ d + 1 = mod-eq_of_lt (omega arith) in
      record {
        r_ok = omega arith;
        w_ok = omega arith;
        ahead = inl (omega arith);
        read_at = omega arith;
        write_at = mod-eq_of_lt (omega arith);
        channels_ok = refl;
        end_at = rw one_more (mod-eq_of_lt (omega arith));
        room = omega arith;
        fits = omega arith;
        held = λ i s k hi hk hs a.
            let early : ltb (0 + i) d ≡ true = ground arith in
            get_or-replicate (length t.buffer) (c * s + k) null ∙ rw early refl;
      }

  after-Window :
      (n : ℕ) (t : MultiChannelDelay S)
      → Window 0 0 d t
      → Window n (slots 0 n) (slots d n) (after null c input n t)
  unfolding slots
  after-Window zero t o = o
  after-Window (suc n) t o =
      let e : n + 1 ≡ suc n = omega arith in
      rw (← e) (step-Window n (slots 0 n) (slots d n) (after null c input n t) (after-Window n t o))

  Window-output :
      (n r w k : ℕ) (t : MultiChannelDelay S)
      → Window n r w t
      → k < c
      → (set_and_get null k (input n k) (put_channels null k (input n) t)).0 ≡ stream n k
  unfolding set_and_get
  Window-output n r w k t o h =
      let s = put_channels-Same null k (input n) t in
      let reads = o.read_at in
      let writes = o.write_at in
      let room = o.room in
      let fits = o.fits in
      let slot_w = slot_fits w o.w_ok in
      let slot_r = slot_fits r o.r_ok in
      let at : add_size (put_channels null k (input n) t).read k ≡ c * r + k =
        rw (s.same_read, reads) (mod-eq_of_lt (omega arith)) in
      let here : n + 0 ≡ n = omega arith in
      rw at (elim (dec_lt 0 d) [
        | yes delayed ↦
            put-outside null (suc k) (c * r + k) (input n) t (omega arith)
              (other (apart r w k h (away r w o.r_ok o.w_ok o.ahead delayed)) writes h)
            ∙ o.held 0 r k delayed h o.r_ok (inl (omega arith))
            ∙ ap (λ m. stream m k) here
        | no direct ↦
            let none : d ≡ 0 = omega arith in
            let together : r ≡ w = same_place r w o.r_ok o.w_ok o.ahead none in
            let now : n + d ≡ n = omega arith in
            rw (together, ← writes)
              (put-inside null (suc k) k (input n) t (omega arith) fits (omega arith))
            ∙ sym (stream_now n k)
            ∙ ap (λ m. stream m k) now
      ])
    where
      away : (r w : ℕ) → r < d + 2 → w < d + 2 → At w r d → 0 < d → (r < w) ⊎ (w < r)
      away r w hr hw a h = ground arith

      same_place : (r w : ℕ) → r < d + 2 → w < d + 2 → At w r d → d ≡ 0 → r ≡ w
      same_place r w hr hw a h = ground arith

      other :
          {j v : ℕ} → (j < c * w) ⊎ (c * w + c ≤ j) → v ≡ c * w → k < c → (j < v) ⊎ (v + suc k ≤ j)
      other a e h = ground arith

  -- After the delay and the channels were set, with room for `delay + 2` slots of a sample for each
  -- channel, every channel gets silence for as many frames as the delay, and then its own samples,
  -- exactly that much later.
  pub output-delayed :
      (t : MultiChannelDelay S) (n k : ℕ)
      → c * (d + 2) ≤ length t.buffer
      → length t.buffer < 2 ^ 64
      → k < c
      → output null c input n k (set_metrics null c d t)
        ≡ (if ltb n d then null else input (n - d) k)
  unfolding stream
  output-delayed t n k room fits h =
      Window-output n (slots 0 n) (slots d n) k (after null c input n (set_metrics null c d t))
        (after-Window n (set_metrics null c d t) (first-Window t room fits)) h
