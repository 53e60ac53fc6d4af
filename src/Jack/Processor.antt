-- ===== src/Jack/Processor.antt =====
-- The processor of a client of JACK: src/JackProcessor.cpp and
-- src/include/speakerman/jack/JackProcessor.hpp. What the virtual functions and JACK give is an argument.
use speakerman.Prelude.{
  ℕ, ◌+◌, ◌%◌, ◌^◌, ◌≡◌, ◌≢◌, ap, Bool, true, false, not, ◌&&◌, ◌||◌, some, if◌then◌else◌, ◌==◌,
  arith,
}
use speakerman.Prelude.Effects.{Effect, returns, throws, undefined, ◌>>=◌}
use speakerman.Jack.{ProcessingMetrics, Client, merge_with_update, on_buffer_size_change}

-- What `ports_` points to: nothing, ports, or ports that were deleted.
pub data PortsPointer : Type 0 where
  null live deleted : PortsPointer

-- The members of `JackProcessor`, and of its `ProcessingStatistics` the whole numbers.
pub record JackProcessor : Type 0 where
  pub ports : PortsPointer
  pub metrics : ProcessingMetrics
  pub running : Bool
  pub cycles : ℕ
  pub total_samples : ℕ
  pub total_micros : ℕ
  pub sample_rate : ℕ
  pub needs_sample_rate : Bool
  pub needs_buffer_size : Bool

-- `updateFrame`, less the averages
unfoldable pub update_frame : (frames micros : ℕ) → JackProcessor → JackProcessor
update_frame frames micros p = record p {
  total_samples = (p.total_samples + frames) % 2 ^ 64;
  cycles = (p.cycles + 1) % 2 ^ 64;
  total_micros = (p.total_micros + micros) % 2 ^ 64;
}

-- `setSampleRate`
unfoldable pub set_sample_rate : (rate : ℕ) → JackProcessor → JackProcessor
set_sample_rate rate p = record p {
  cycles = 0;
  total_samples = 0;
  total_micros = 0;
  sample_rate = if rate == 0 then 48000 else rate;
}

-- `realtimeProcessWrapper`; `result` is what `process` gives. The flag `running_` is set before and after.
unfoldable pub realtime_process :
    (frames micros : ℕ) → (result : Bool) → JackProcessor → Effect (ℕ × JackProcessor)
unfolding update_frame
realtime_process frames micros result p =
    if p.running then returns (0, p) else elim p.ports as (λ _. Effect (ℕ × JackProcessor)) [
      | null ↦ returns (0, p)
      | live ↦ returns (if result then 0 else 1, update_frame frames micros p)
      | deleted ↦ undefined
    ]

-- `ensurePorts`; `registered` is false if a function of JACK fails.
unfoldable pub ensure_ports : (registered : Bool) → JackProcessor → Effect JackProcessor
ensure_ports registered p = elim p.ports as (λ _. Effect JackProcessor) [
  | null ↦ if registered then returns (record p { ports = live }) else throws
  | live ↦ returns p
  | deleted ↦ returns p
]

-- `unsafeResetState`, the end of `reset`
unfoldable pub unsafe_reset_state : JackProcessor → Effect JackProcessor
unsafe_reset_state p =
    let p1 = record p { running = true; metrics = record { sample_rate = 0; buffer_size = 0 } } in
    elim p.ports as (λ _. Effect JackProcessor) [
      | null ↦ returns p1
      | live ↦ returns (record p1 { ports = deleted })
      | deleted ↦ undefined
    ]

-- The destructor.
unfoldable pub destroy : JackProcessor → Effect JackProcessor
destroy p = elim p.ports as (λ _. Effect JackProcessor) [
  | null ↦ returns p
  | live ↦ returns (record p { ports = null })
  | deleted ↦ undefined
]

-- `onActivate`: if `onPortsEnabled` is called.
unfoldable pub on_activate : JackProcessor → Effect Bool
on_activate p = elim p.ports as (λ _. Effect Bool) [
  | null ↦ returns false
  | live ↦ returns true
  | deleted ↦ undefined
]

-- A metric that is not needed, or that is known and new.
abbrev pub is_condition_met : (needs : Bool) → (update metric : ℕ) → Bool
is_condition_met needs update metric = not needs || (not (update == 0) && not (update == metric))

-- `updateMetrics`; `accepts` is `onMetricsUpdate` of the processor.
unfoldable pub update_metrics :
    (accepts : ProcessingMetrics → Bool) (registered : Bool)
    → ProcessingMetrics
    → JackProcessor
    → Effect (Bool × JackProcessor)
unfolding ensure_ports set_sample_rate
update_metrics accepts registered update p =
    let relevant : ProcessingMetrics = record {
      sample_rate = if p.needs_sample_rate then update.sample_rate else 0;
      buffer_size = if p.needs_buffer_size then update.buffer_size else 0;
    } in
    if is_condition_met p.needs_sample_rate update.sample_rate p.metrics.sample_rate
      && is_condition_met p.needs_buffer_size update.buffer_size p.metrics.buffer_size
    then (if accepts relevant
        then ((if (p.metrics.sample_rate == 0) && (p.metrics.buffer_size == 0)
              then ensure_ports registered p
              else returns p)
            >>= λ p1. returns (
              true,
              set_sample_rate relevant.sample_rate
                  (record p1 { metrics = relevant; running = false }),
            ))
        else returns (false, p))
    else returns (true, p)

-- If the processor needs the rate and the size, and has a rate, then a change of only the size changes
-- nothing in the processor, but the client takes the new size.
pub on_buffer_size_change-update_metrics :
    (accepts : ProcessingMetrics → Bool) (registered : Bool) (p : JackProcessor) (c : Client)
    (number size : ℕ)
    → p.needs_sample_rate ≡ true
    → p.needs_buffer_size ≡ true
    → p.metrics ≡ c.metrics
    → c.processor ≡ some number
    → size ≢ 0
    → (update_metrics accepts registered
          (merge_with_update (record { sample_rate = 0; buffer_size = size }) c.metrics)
          p
        ≡ returns (true, p))
      × (on_buffer_size_change (λ _ _. some true) size c
          ≡ returns (
            0,
            record c {
              metrics = record { sample_rate = c.metrics.sample_rate; buffer_size = size };
            },
          ))
unfolding update_metrics merge_with_update on_buffer_size_change
on_buffer_size_change-update_metrics accepts registered p c number size rate buffer same has
      some_size =
    let rates : p.metrics.sample_rate ≡ c.metrics.sample_rate = ap (λ m. m.sample_rate) same in
    (ground arith, ground arith)

-- After the ports of a processor were deleted by `reset`, the processor still has their address: to
-- destroy the processor, to reset it again, to activate it, or to run it when its metrics were updated,
-- uses the ports that were deleted.
pub unsafe_reset_state-deleted :
    (accepts : ProcessingMetrics → Bool) (registered : Bool) (p : JackProcessor)
    (m : ProcessingMetrics) (frames micros : ℕ) (result : Bool)
    → p.ports ≡ live
    → (accepts (record {
      sample_rate = if p.needs_sample_rate then m.sample_rate else 0;
      buffer_size = if p.needs_buffer_size then m.buffer_size else 0;
    })
        ≡ true)
    → m.sample_rate ≢ 0
    → m.buffer_size ≢ 0
    → ((unsafe_reset_state p >>= destroy) ≡ undefined)
      × ((unsafe_reset_state p >>= unsafe_reset_state) ≡ undefined)
      × ((unsafe_reset_state p >>= on_activate) ≡ undefined)
      × ((unsafe_reset_state p >>= λ p1. update_metrics accepts registered m p1 >>= λ u.
            realtime_process frames micros result u.1)
          ≡ undefined)
unfolding unsafe_reset_state destroy on_activate update_metrics realtime_process
unsafe_reset_state-deleted accepts registered p m frames micros result is ok rate buffer =
    (ground arith, ground arith, ground arith, ground arith)
