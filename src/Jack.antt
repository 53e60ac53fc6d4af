-- ===== src/Jack.antt =====
-- The client of the JACK server: src/JackClient.cpp and src/include/speakerman/jack/JackClient.hpp. What the
-- functions of JACK give is an argument. Each part that holds the mutex is one step; the thread that waits
-- for the end of the client, and the calls of `setProcessor` and `awaitClose`, have more than one.
pub mod Processor
pub mod Steps
pub mod Xruns
pub mod Retry
mod Examples
use Prim.Native.String.{String}
use speakerman.Prelude.{
  ℕ, ◌+◌, ◌-◌, ◌*◌, ◌/◌, ◌<◌, Bool, true, false, Option, none, some, if◌then◌else◌, ltb, ◌==◌, max,
  min,
}
use speakerman.Prelude.Effects.{Effect, returns, throws, undefined, ◌>>=◌}

-- `ClientState`; `none_state` is `NONE`, and `opened` is `OPEN`.
pub data ClientState : Type 0 where
  none_state closed opened configured active shutting_down : ClientState

-- `client_state_defined`
abbrev pub client_state_defined : ClientState → Bool
client_state_defined none_state = false
client_state_defined closed = true
client_state_defined opened = true
client_state_defined configured = true
client_state_defined active = true
client_state_defined shutting_down = true

-- `client_state_is_shutdown_state`
abbrev pub is_shutdown_state : ClientState → Bool
is_shutdown_state none_state = false
is_shutdown_state closed = true
is_shutdown_state opened = false
is_shutdown_state configured = false
is_shutdown_state active = false
is_shutdown_state shutting_down = true

-- `ShutDownInfo`
pub record ShutDownInfo : Type 0 where
  pub status : ℕ
  pub reason : Option String
  pub is_set : Bool

abbrev pub with_reason : String → ShutDownInfo
with_reason text = record { status = 0; reason = some text; is_set = true }

-- `ProcessingMetrics`
pub record ProcessingMetrics : Type 0 where
  pub sample_rate : ℕ
  pub buffer_size : ℕ

unfoldable pub merge_with_update : (update metrics : ProcessingMetrics) → ProcessingMetrics
merge_with_update update metrics = record {
  sample_rate = if update.sample_rate == 0 then metrics.sample_rate else update.sample_rate;
  buffer_size = if update.buffer_size == 0 then metrics.buffer_size else update.buffer_size;
}

-- The members of `JackClient`. `closes` counts the calls of `jack_client_close`.
pub record Client : Type 0 where
  pub state : ClientState
  pub closer_running : Bool
  pub has_client : Bool
  pub shutdown_info : ShutDownInfo
  pub processor : Option ℕ
  pub metrics : ProcessingMetrics
  pub x_runs : ℕ
  pub last_xrun_cycle : ℕ
  pub closes : ℕ

-- `notifyShutdownUnsafe`
unfoldable pub notify_shutdown_unsafe : ShutDownInfo → Client → Bool × Client
notify_shutdown_unsafe info c =
    if is_shutdown_state c.state
    then (false, c)
    else (true, record c { shutdown_info = info; state = shutting_down })

-- `onShutdown`
unfoldable pub on_shutdown : ShutDownInfo → Client → Client
unfolding notify_shutdown_unsafe
on_shutdown info c = (notify_shutdown_unsafe info c).1

abbrev pub is_closed : ClientState → Bool
is_closed none_state = false
is_closed closed = true
is_closed opened = false
is_closed configured = false
is_closed active = false
is_closed shutting_down = false

-- `closeUnsafe`
unfoldable pub close_unsafe : Client → Client
close_unsafe c = if is_closed c.state then c else record c {
  has_client = false;
  closes = if c.has_client then c.closes + 1 else c.closes;
  processor = none;
  metrics = record { sample_rate = 0; buffer_size = 0 };
  state = closed;
}

-- The loop of `awaitShutdownAndCloseUnsafe`, and what follows it: `none` if it waits.
unfoldable pub await_shutdown_and_close : Client → Option Client
unfolding close_unsafe
await_shutdown_and_close c = if is_shutdown_state c.state then some (close_unsafe c) else none

-- `setProcessor` up to the functions of JACK, and after them if they succeeded or failed.
unfoldable pub set_processor_start : (processor : ℕ) → Client → Effect Client
set_processor_start processor c = elim c.state [
  | opened ↦ returns (record c { processor = some processor })
  | _ ↦ throws
]

unfoldable pub set_processor_end : Client → Client
set_processor_end c = record c { state = configured }

unfoldable pub set_processor_failed : Client → Client
set_processor_failed c = record c { processor = none }

-- `setActive`; `result` is what `jack_activate` gives. `onActivate` is a call of the processor.
unfoldable pub set_active : (result : ℕ) → Client → Effect Client
set_active result c = elim c.state [
  | configured ↦
      if result == 0
      then elim c.processor as (λ _. Effect Client) [
        | none ↦ undefined
        | some p ↦ returns (record c { state = active })
      ]
      else throws
  | _ ↦ throws
]

-- The test at the start of `awaitClose`.
unfoldable pub await_close_start : Client → Effect Client
await_close_start c = elim c.state [ active ↦ returns c | _ ↦ throws ]

-- `close`, up to the wait for the thread that closes: its information, and if it waits.
unfoldable pub close : Client → (ShutDownInfo × Bool) × Client
unfolding notify_shutdown_unsafe close_unsafe
close c =
    let notified = notify_shutdown_unsafe (with_reason "Explicit close") c in
    if notified.0
    then (let closed_client = close_unsafe notified.1 in
        ((closed_client.shutdown_info, closed_client.closer_running), closed_client))
    else ((with_reason "Already closing", false), c)

-- `onMetricsUpdate`; `update_metrics` is that of the processor, `none` if it throws.
unfoldable pub on_metrics_update :
    (update_metrics : ℕ → ProcessingMetrics → Option Bool)
    → ProcessingMetrics
    → Client
    → Effect (ℕ × Client)
unfolding merge_with_update
on_metrics_update update_metrics m c = elim c.processor as (λ _. Effect (ℕ × Client)) [
  | none ↦ undefined
  | some p ↦
      let update = merge_with_update m c.metrics in
      elim (update_metrics p update) as (λ _. Effect (ℕ × Client)) [
        | none ↦ returns (1, c)
        | some done ↦ returns (if done then (0, record c { metrics = update }) else (1, c))
      ]
]

-- `onSampleRateChange` and `onBufferSizeChange`
unfoldable pub on_sample_rate_change :
    (ℕ → ProcessingMetrics → Option Bool) → (rate : ℕ) → Client → Effect (ℕ × Client)
unfolding on_metrics_update
on_sample_rate_change f rate = on_metrics_update f (record { sample_rate = rate; buffer_size = 0 })

unfoldable pub on_buffer_size_change :
    (ℕ → ProcessingMetrics → Option Bool) → (size : ℕ) → Client → Effect (ℕ × Client)
unfolding on_metrics_update
on_buffer_size_change f size = on_metrics_update f (record { sample_rate = 0; buffer_size = size })

abbrev pub xruns_for_measurement : ℕ
xruns_for_measurement = 200

abbrev pub max_one_out_of : ℕ
max_one_out_of = 50

-- `onXRun` when the processor has run so many cycles.
unfoldable pub on_xrun : (cycles : ℕ) → Client → ℕ × Client
unfolding on_shutdown
on_xrun cycles c = elim c.processor as (λ _. ℕ × Client) [
  | none ↦ (0, c)
  | some p ↦
      let first = if c.x_runs == 0 then cycles else c.last_xrun_cycle in
      let c1 = record c { last_xrun_cycle = first; x_runs = c.x_runs + 1 } in
      let since = max xruns_for_measurement (cycles - first) in
      if ltb c1.x_runs xruns_for_measurement
      then (0, c1)
      else if xruns_for_measurement * max_one_out_of / since == 0
      then (0, record c1 { x_runs = 0 })
      else (1, on_shutdown (with_reason "XRUN occured!") c1)
]
