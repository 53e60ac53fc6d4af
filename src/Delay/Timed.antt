-- ===== src/Delay/Timed.antt =====
-- A delay for each of several channels: `MultiChannelAndTimeDelay` of src/include/tdap/Delay.hpp. The
-- arithmetic is that of a 64-bit `size_t`. `entries` is the whole array of `maxChannels_` entries, of
-- which the first `channels` are in use.
use native.Mathlib.Nat.{
  mod-eq_of_lt, mod-lt, add-mod_right, mul-le-mul_right, mod-mod_of_dvd, dvd-mul_right,
  mul-add-mod_self_right, add_comm,
}
use speakerman.Prelude.{
  ℕ, zero, suc, ◌+◌, ◌*◌, ◌%◌, ◌^◌, ◌<◌, ◌≤◌, ◌≡◌, ◌∙◌, ◌||◌, ◌==◌, List, [], ◌∷◌, length, get_or,
  set, replicate, ltb, if◌then◌else◌, Option, none, some, arith,
}
use speakerman.Count.{add_size, mul_size}
use speakerman.Delay.Multi.{valid_max_channels}

pub record Entry : Type 0 where
  pub read : ℕ
  pub write : ℕ
  pub delay : ℕ
  pub end : ℕ

-- `Entry::setDelay`
unfoldable pub set_entry : (channels channel delay : ℕ) → Entry → Entry
set_entry channels channel delay e = record {
  read = channel;
  write = add_size channel (mul_size delay channels);
  end = mul_size channels (add_size delay 1);
  delay = delay;
}

-- `Entry::init` and `Entry::reset`
abbrev pub init_entry : (channels channel : ℕ) → Entry → Entry
init_entry channels channel e = set_entry channels channel 0 e

abbrev pub reset_entry : (channels channel : ℕ) → Entry → Entry
reset_entry channels channel e = set_entry channels channel e.delay e

-- `Entry::next`
unfoldable pub next_entry : ℕ → Entry → Entry
next_entry channels e = record e {
  read = add_size e.read channels % e.end;
  write = add_size e.write channels % e.end;
}

pub record TimedDelay {ℓ} (S : Type ℓ) : Type ℓ where
  pub max_channels : ℕ
  pub max_delay : ℕ
  pub channels : ℕ
  pub delay : ℕ
  pub buffer : List S
  pub entries : List Entry

-- A change of the entries from `first` on that are among the first `channels`, from channel `i` on.
unfoldable pub each_entry : (i first channels : ℕ) → (ℕ → Entry → Entry) → List Entry → List Entry
each_entry i first channels f [] = []
each_entry i first channels f (e ∷ es) =
    (if ltb i first || ltb channels (i + 1) then e else f i e)
    ∷ each_entry (i + 1) first channels f es

abbrev pub blank_entry : Entry
blank_entry = record { read = 0; write = 0; delay = 0; end = 0 }

module _ {ℓ} {S : Type ℓ} (null : S) where
  -- The constructor; `none` is an exception, and `delay_` is not initialised: it is an argument.
  unfoldable pub create : (size max_channels max_delay delay : ℕ) → Option (TimedDelay S)
  create size max_channels max_delay delay =
      if valid_max_channels size max_channels max_delay
      then some (record {
        max_channels = max_channels;
        max_delay = max_delay;
        channels = max_channels;
        delay = delay;
        buffer = replicate (mul_size max_channels (add_size max_delay 1)) null;
        entries =
            each_entry 0 0 max_channels (init_entry max_channels)
              (replicate max_channels blank_entry);
      })
      else none

  -- `setMetrics`; its loop starts at a variable that is not initialised: it is the argument `first`.
  unfoldable pub set_metrics : (first channels : ℕ) → TimedDelay S → TimedDelay S
  set_metrics first channels d = record d {
    buffer = replicate (length d.buffer) null;
    channels = channels;
    entries = each_entry 0 first channels (reset_entry channels) d.entries;
  }

  unfoldable pub set_channels : (first channels : ℕ) → TimedDelay S → Option (TimedDelay S)
  set_channels first channels d =
      if channels == 0 || ltb d.max_channels channels
      then none
      else some (set_metrics first channels d)

  -- `setAndGet`
  unfoldable pub set_and_get : (channel : ℕ) → S → TimedDelay S → S × TimedDelay S
  set_and_get channel value d =
      let e = get_or d.entries channel blank_entry in
      let buffer' = set d.buffer e.write value in
      (get_or buffer' e.read null, record d { buffer = buffer' })

module _ {ℓ} {S : Type ℓ} where
  unfoldable pub set_delay : (channel delay : ℕ) → TimedDelay S → Option (TimedDelay S)
  set_delay channel delay d =
      if ltb d.max_delay delay
      then none
      else some (record d {
        entries =
            set d.entries channel
              (set_entry d.channels channel delay (get_or d.entries channel blank_entry));
        delay = delay;
      })

  unfoldable pub next : TimedDelay S → TimedDelay S
  next d = record d {
    entries = each_entry 0 0 d.channels (λ channel. next_entry d.channels) d.entries;
  }

-- An entry after `n` calls of `next`.
abbrev pub entry_after : ℕ → ℕ → Entry → Entry
entry_after c zero e = e
entry_after c (suc n) e = next_entry c (entry_after c n e)

-- The positions lie in the first `size` samples, in the column of the channel, and the delay of the
-- entry is kept.
pub record IsInColumn (c channel size : ℕ) (e : Entry) : Type 0 where
  pub read_fits : e.read < size
  pub write_fits : e.write < size
  pub read_column : e.read % c ≡ channel
  pub write_column : e.write % c ≡ channel
  pub end_at : e.end ≡ size

column_step :
    (c d x : ℕ)
    → 0 < c
    → x < c * (d + 1)
    → c * (d + 1) + c < 2 ^ 64
    → (add_size x c % (c * (d + 1)) < c * (d + 1)) × (add_size x c % (c * (d + 1)) % c ≡ x % c)
column_step c d x pos h fits =
    let exact : add_size x c ≡ x + c = mod-eq_of_lt (omega arith) in
    rw exact (
      mod-lt (x + c) (omega arith),
      mod-mod_of_dvd c (x + c) (dvd-mul_right c (d + 1)) ∙ add-mod_right x c,
    )

first_column :
    (c channel d : ℕ) (e : Entry)
    → channel < c
    → c * (d + 1) + c < 2 ^ 64
    → IsInColumn c channel (c * (d + 1)) (set_entry c channel d e)
unfolding set_entry
first_column c channel d e h fits =
    let pos : 0 < c = omega arith in
    let room : c ≤ c * (d + 1) = omega arith in
    let small : d + 1 ≤ c * (d + 1) = omega (arith, mul-le-mul_right (d + 1) pos) in
    let plain : mul_size d c ≡ d * c = mod-eq_of_lt (omega arith) in
    let starts : add_size channel (d * c) ≡ d * c + channel =
      mod-eq_of_lt (omega arith) ∙ add_comm channel (d * c) in
    let one_more : add_size d 1 ≡ d + 1 = mod-eq_of_lt (omega arith) in
    record {
      read_fits = omega arith;
      write_fits = rw (plain, starts) (omega arith);
      read_column = mod-eq_of_lt h;
      write_column = rw (plain, starts) (mul-add-mod_self_right d c channel ∙ mod-eq_of_lt h);
      end_at = rw one_more (mod-eq_of_lt (omega arith));
    }

next_column :
    (c channel d : ℕ) (e : Entry)
    → channel < c
    → c * (d + 1) + c < 2 ^ 64
    → IsInColumn c channel (c * (d + 1)) e
    → IsInColumn c channel (c * (d + 1)) (next_entry c e)
unfolding next_entry
next_column c channel d e h fits i =
    let pos : 0 < c = omega arith in
    let (read_in, read_same) = column_step c d e.read pos i.read_fits fits in
    let (write_in, write_same) = column_step c d e.write pos i.write_fits fits in
    record {
      read_fits = rw i.end_at read_in;
      write_fits = rw i.end_at write_in;
      read_column = rw i.end_at (read_same ∙ i.read_column);
      write_column = rw i.end_at (write_same ∙ i.write_column);
      end_at = i.end_at;
    }

-- After `Entry::setDelay` for one of `c` channels and any number of calls of `next`, both positions of
-- the entry lie among the first `c * (delay + 1)` samples, and their numbers modulo `c` are that of the
-- channel.
pub entry_after-IsInColumn :
    (c channel d n : ℕ) (e : Entry)
    → channel < c
    → c * (d + 1) + c < 2 ^ 64
    → IsInColumn c channel (c * (d + 1)) (entry_after c n (set_entry c channel d e))
entry_after-IsInColumn c channel d zero e h fits = first_column c channel d e h fits
entry_after-IsInColumn c channel d (suc n) e h fits =
    next_column c channel d (entry_after c n (set_entry c channel d e)) h fits
      (entry_after-IsInColumn c channel d n e h fits)
