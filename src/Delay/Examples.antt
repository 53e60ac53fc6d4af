-- ===== src/Delay/Examples.antt =====
-- The theorems on src/include/tdap/Delay.hpp at concrete delays.
use speakerman.Prelude.{ℕ, ◌+◌, ◌*◌, ◌≡◌, refl, replicate, some, arith}
use speakerman.Delay.Timed.{IsInColumn, set_entry, entry_after, blank_entry, entry_after-IsInColumn}
use speakerman.Delay.Single.{Delay, create}
use speakerman.Delay.Multi
use speakerman.Delay.Multi.{MultiChannelDelay, set_metrics, next, next-overruns}
use speakerman.Delay.Multi.Ring.{output}
use speakerman.Delay.Multi.Frames.{output-delayed}

abbrev single : Delay ℕ
single = record { buffer = replicate 101 0; read = 0; write = 0; delay = 0 }

created : create 0 4 100 ≡ some single
unfolding create
created = refl

abbrev stereo : MultiChannelDelay ℕ
stereo = record {
  max_channels = 2;
  max_delay = 3;
  buffer = replicate 8 0;
  read = 0;
  write = 0;
  channels = 2;
  delay = 0;
  end = 2;
}

abbrev full : MultiChannelDelay ℕ
full = record stereo { write = 6; delay = 3; end = 8 }

stereo_created : Multi.create 0 4 2 3 ≡ some stereo
unfolding Multi.create Multi.valid_max_channels Multi.set_metrics speakerman.Count.is_valid_sum
    speakerman.Count.product
stereo_created = refl

full_delay : Multi.set_delay 0 3 stereo ≡ some full
unfolding Multi.set_delay Multi.set_metrics
full_delay = refl

-- Channel `k` gets the sample `10 * n + k` in frame `n`.
abbrev ramp : ℕ → ℕ → ℕ
ramp n k = 10 * n + k

output-delayed_example : output 0 2 ramp 5 1 (set_metrics 0 2 2 stereo) ≡ 31
output-delayed_example =
    output-delayed 0 2 2 ramp (omega arith) stereo 5 1 (omega arith) (omega arith) (omega arith)

-- The second of two channels with a delay of three frames, after five calls of `next`.
entry_after-IsInColumn_example : IsInColumn 2 1 8 (entry_after 2 5 (set_entry 2 1 3 blank_entry))
entry_after-IsInColumn_example =
    entry_after-IsInColumn 2 1 3 5 blank_entry (omega arith) (omega arith)
