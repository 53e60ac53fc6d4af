-- ===== src/Jack/Steps.antt =====
-- The threads that use a client of src/JackClient.cpp, in any order.
use speakerman.Prelude.{
  ℕ, ◌+◌, ◌≤◌, ◌<◌, ◌-◌, ◌≡◌, ◌⊎◌, refl, Bool, true, false, Option, none, some, if◌then◌else◌, inl,
  inr, arith,
}
use speakerman.Prelude.Effects.{returns}
use speakerman.Jack.{
  ClientState, none_state, closed, opened, configured, active, shutting_down, ShutDownInfo,
  ProcessingMetrics, Client, on_shutdown, await_shutdown_and_close, set_processor_start,
  set_processor_end, set_processor_failed, set_active, await_close_start, close, on_metrics_update,
  on_xrun,
}

-- The thread of `awaitShutDownAndClose`: it has not run, it waits, or it has ended.
pub data Closer : Type 0 where
  starting waiting ended : Closer

-- The client with the threads: `constructed` after the end of the constructor, `configuring` the number of
-- threads between the parts of `setProcessor`, and `awaiting` the number that wait in `awaitClose`.
pub record Threads : Type 0 where
  pub client : Client
  pub closer : Closer
  pub constructed : Bool
  pub configuring : ℕ
  pub awaiting : ℕ

-- `awaitShutDownAndClose` when it starts or wakes up.
unfoldable pub await_shut_down_and_close : Threads → Threads
unfolding await_shutdown_and_close
await_shut_down_and_close t = elim (await_shutdown_and_close t.client) as (λ _. Threads) [
  | none ↦ record t { client = record t.client { closer_running = true }; closer = waiting }
  | some c ↦ record t { client = record c { closer_running = false }; closer = ended }
]

-- The end of the constructor of `JackClient`.
unfoldable pub end_constructor : Threads → Threads
end_constructor t = record t { client = record t.client { state = opened }; constructed = true }

-- The start of the constructor.
abbrev pub new_client : Threads
new_client = record {
  client = record {
    state = closed;
    closer_running = false;
    has_client = true;
    shutdown_info = record { status = 0; reason = none; is_set = false };
    processor = none;
    metrics = record { sample_rate = 0; buffer_size = 0 };
    x_runs = 0;
    last_xrun_cycle = 0;
    closes = 0;
  };
  closer = starting;
  constructed = false;
  configuring = 0;
  awaiting = 0;
}

-- A step of one thread.
pub data Step (t : Threads) : Threads → Type 0 where
  ends_constructor : t.constructed ≡ false → Step t (end_constructor t)
  starts_closer : t.closer ≡ starting → Step t (await_shut_down_and_close t)
  wakes_closer : t.closer ≡ waiting → Step t (await_shut_down_and_close t)
  shuts_down :
      (info : ShutDownInfo)
      → t.constructed ≡ true
      → Step t (record t { client = on_shutdown info t.client })
  starts_processor :
      (processor : ℕ) (c : Client)
      → t.constructed ≡ true
      → set_processor_start processor t.client ≡ returns c
      → Step t (record t { client = c; configuring = t.configuring + 1 })
  ends_processor :
      t.constructed ≡ true
      → 0 < t.configuring
      → Step t (record t { client = set_processor_end t.client; configuring = t.configuring - 1 })
  fails_processor :
      t.constructed ≡ true
      → 0 < t.configuring
      → Step t
          (record t { client = set_processor_failed t.client; configuring = t.configuring - 1 })
  activates :
      (result : ℕ) (c : Client)
      → t.constructed ≡ true
      → set_active result t.client ≡ returns c
      → Step t (record t { client = c })
  starts_await :
      (c : Client)
      → t.constructed ≡ true
      → await_close_start t.client ≡ returns c
      → Step t (record t { client = c; awaiting = t.awaiting + 1 })
  ends_await :
      (c : Client)
      → t.constructed ≡ true
      → 0 < t.awaiting
      → await_shutdown_and_close t.client ≡ some c
      → Step t (record t { client = c; awaiting = t.awaiting - 1 })
  closes : t.constructed ≡ true → Step t (record t { client = (close t.client).1 })
  updates_metrics :
      (f : ℕ → ProcessingMetrics → Option Bool) (m : ProcessingMetrics) (r : ℕ) (c : Client)
      → t.constructed ≡ true
      → on_metrics_update f m t.client ≡ returns (r, c)
      → Step t (record t { client = c })
  has_xrun :
      (cycles : ℕ)
      → t.constructed ≡ true
      → Step t (record t { client = (on_xrun cycles t.client).1 })

pub data Reach : Threads → Type 0 where
  here : Reach new_client
  next : {t u : Threads} → Reach t → Step t u → Reach u

-- The client of JACK is there, or it was closed once.
abbrev pub IsClosedOnce : Client → Type 0
IsClosedOnce c = (if c.has_client then c.closes + 1 else c.closes) ≡ 1

Step-IsClosedOnce : {t u : Threads} → Step t u → IsClosedOnce t.client → IsClosedOnce u.client
unfolding end_constructor await_shut_down_and_close on_shutdown set_processor_start
    set_processor_end set_processor_failed set_active await_close_start close on_metrics_update
    on_xrun
Step-IsClosedOnce (ends_constructor k) v = v
Step-IsClosedOnce (starts_closer k) v = ground arith
Step-IsClosedOnce (wakes_closer k) v = ground arith
Step-IsClosedOnce (shuts_down info k) v = ground arith
Step-IsClosedOnce (starts_processor p c k e) v = ground arith
Step-IsClosedOnce (ends_processor k l) v = ground arith
Step-IsClosedOnce (fails_processor k l) v = ground arith
Step-IsClosedOnce (activates result c k e) v = ground arith
Step-IsClosedOnce (starts_await c k e) v = ground arith
Step-IsClosedOnce (ends_await c k l e) v = ground arith
Step-IsClosedOnce (closes k) v = ground arith
Step-IsClosedOnce (updates_metrics f m r c k e) v = ground arith
Step-IsClosedOnce (has_xrun cycles k) v = ground arith

-- In any order of the steps of the threads from the constructor on, the client of JACK is closed at
-- most once: until then the client has it, and after that it has not.
pub Reach-IsClosedOnce : {t : Threads} → Reach t → IsClosedOnce t.client
Reach-IsClosedOnce here = refl
Reach-IsClosedOnce (next r s) = Step-IsClosedOnce s (Reach-IsClosedOnce r)

-- How far a client has come.
abbrev pub rank : ClientState → ℕ
rank none_state = 0
rank opened = 1
rank configured = 2
rank active = 3
rank shutting_down = 4
rank closed = 5

-- After the constructor, no step takes the state of the client back, from open to configured, active,
-- shutting down and closed, but the last part of `setProcessor`, which makes it configured whatever it
-- was.
pub Step-rank :
    {t u : Threads}
    → t.constructed ≡ true
    → Step t u
    → (rank t.client.state ≤ rank u.client.state)
      ⊎ ((0 < t.configuring) × (u.client.state ≡ configured))
unfolding end_constructor await_shut_down_and_close on_shutdown set_processor_start
    set_processor_end set_processor_failed set_active await_close_start close on_metrics_update
    on_xrun
Step-rank {t} k (ends_constructor l) = absurd (ground arith)
Step-rank {t} k (starts_closer l) = inl (ground arith)
Step-rank {t} k (wakes_closer l) = inl (ground arith)
Step-rank {t} k (shuts_down info l) = inl (ground arith)
Step-rank {t} k (starts_processor p c l e) = inl (ground arith)
Step-rank {t} k (ends_processor l m) = inr (m, refl)
Step-rank {t} k (fails_processor l m) = inl (ground arith)
Step-rank {t} k (activates result c l e) = inl (ground arith)
Step-rank {t} k (starts_await c l e) = inl (ground arith)
Step-rank {t} k (ends_await c l m e) = inl (ground arith)
Step-rank {t} k (closes l) = inl (ground arith)
Step-rank {t} k (updates_metrics f m r c l e) = inl (ground arith)
Step-rank {t} k (has_xrun cycles l) = inl (ground arith)

-- If the thread that waits for the end starts before the constructor has set the state, then it ends
-- at once: when the client is shut down later, nothing has closed it and the thread does not wait.
pub starts_closer-early :
    (t : Threads) (info : ShutDownInfo)
    → t.client.state ≡ closed
    → let early = end_constructor (await_shut_down_and_close t) in
      let down = on_shutdown info early.client in
      (early.closer ≡ ended)
      × (early.client.state ≡ opened)
      × (down.state ≡ shutting_down)
      × (down.has_client ≡ t.client.has_client)
unfolding on_shutdown await_shut_down_and_close end_constructor
starts_closer-early t info s = ground arith
