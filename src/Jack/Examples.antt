-- ===== src/Jack/Examples.antt =====
-- Runs of src/JackClient.cpp and src/JackProcessor.cpp.
use speakerman.Prelude.{
  ◌-◌, ◌≤◌, ◌<◌, ◌≡◌, ◌⊎◌, refl, true, false, some, [], ◌∷◌, ◌++◌, replicate, leb, if◌then◌else◌,
  arith,
}
use speakerman.Jack.{
  opened, configured, active, shutting_down, with_reason, ProcessingMetrics, Client, on_shutdown,
  set_processor_start, set_processor_end,
}
use speakerman.Jack.Steps.{
  waiting, Threads, new_client, end_constructor, await_shut_down_and_close, Step, ends_constructor,
  starts_closer, starts_processor, ends_processor, shuts_down, wakes_closer, Reach, here, next,
  IsClosedOnce, rank, Reach-IsClosedOnce, Step-rank,
}
use speakerman.Jack.Xruns.{on_xruns, on_xruns_lem}
use speakerman.Jack.Processor.{JackProcessor, live}

-- After the constructor, with the thread that waits.
abbrev opened_threads : Threads
opened_threads = record new_client {
  client = record new_client.client { state = opened; closer_running = true };
  closer = waiting;
  constructed = true;
}

-- A thread is in `setProcessor`.
abbrev configuring_threads : Threads
configuring_threads = record opened_threads {
  client = record opened_threads.client { processor = some 7 };
  configuring = 1;
}

opened_threads-Reach : Reach opened_threads
unfolding end_constructor await_shut_down_and_close
opened_threads-Reach = next (next here (ends_constructor refl)) (starts_closer refl)

configuring_threads-Reach : Reach configuring_threads
unfolding set_processor_start
configuring_threads-Reach =
    next opened_threads-Reach (starts_processor 7 configuring_threads.client refl refl)

Reach-IsClosedOnce_example :
    IsClosedOnce
      (await_shut_down_and_close (record configuring_threads {
        client = on_shutdown (with_reason "jack_on_shutdown") configuring_threads.client;
      })).client
Reach-IsClosedOnce_example = Reach-IsClosedOnce (
    next (next configuring_threads-Reach (shuts_down (with_reason "jack_on_shutdown") refl))
      (wakes_closer refl))

abbrev configured_threads : Threads
configured_threads = record configuring_threads {
  client = record configuring_threads.client { state = configured };
  configuring = 0;
}

configures : Step configuring_threads configured_threads
unfolding set_processor_end
configures = ends_processor refl (ground arith)

Step-rank_example :
    (rank configuring_threads.client.state ≤ rank configured_threads.client.state)
    ⊎ ((0 < configuring_threads.configuring) × (configured_threads.client.state ≡ configured))
Step-rank_example = Step-rank refl configures

abbrev active_client : Client
active_client = record opened_threads.client {
  state = active;
  processor = some 7;
  metrics = record { sample_rate = 48000; buffer_size = 256 };
}

on_xruns_lem_example :
    (on_xruns (100 ∷ (replicate 198 500 ++ 9000 ∷ [])) active_client).state
    ≡ (if leb (9000 - 100) 10000 then shutting_down else active)
on_xruns_lem_example = on_xruns_lem active_client 7 100 9000 (replicate 198 500) refl refl refl refl

abbrev processor : JackProcessor
processor = record {
  ports = live;
  metrics = record { sample_rate = 48000; buffer_size = 256 };
  running = false;
  cycles = 0;
  total_samples = 0;
  total_micros = 0;
  sample_rate = 48000;
  needs_sample_rate = true;
  needs_buffer_size = true;
}

abbrev new_metrics : ProcessingMetrics
new_metrics = record { sample_rate = 44100; buffer_size = 512 }
