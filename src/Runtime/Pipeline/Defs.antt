-- ===== src/Runtime/Pipeline/Defs.antt =====
-- worker_pipeline.cpp: the state that `state_mutex_` guards, with the place each worker thread is
-- at, and the critical sections, each of which is one step. The packet processor is the caller's:
-- a step says whether its call returned or threw.
use driveflow_runtime.Prelude.{
  ℕ, suc, ◌+◌, ◌-◌, min, max, Bool, true, false, not, List, [], ◌∷◌, ◌++◌, leb, ◌==◌, if◌then◌else◌,
  length, set, get_or, replicate,
}
use driveflow_runtime.Prelude.Result.{Result, ok, throws, invalid_argument}
use driveflow_runtime.Runtime.Received.{ReceivedPacket, increment}

pub record WorkerPipelineConfig : Type 0 where
  pub worker_count : ℕ
  pub queue_capacity : ℕ

pub data SubmitResult : Type 0 where
  accepted queue_full stopped : SubmitResult

pub record WorkerPipelineMetrics : Type 0 where
  pub packets_submitted : ℕ
  pub packets_processed : ℕ
  pub packets_dropped_queue_full : ℕ
  pub packets_rejected_stopped : ℕ
  pub handler_failures : ℕ
  pub queue_high_watermark : ℕ

-- Where a worker stands in `worker_loop`: at the wait, in the packet processor, or returned.
pub data Worker : Type 0 where
  waiting : Worker
  running : ReceivedPacket → Worker
  returned : Worker

-- `WorkerPipeline::Impl`
pub record WorkerPipeline : Type 0 where
  pub config : WorkerPipelineConfig
  pub queue : List ReceivedPacket
  pub workers : List Worker
  pub metrics : WorkerPipelineMetrics
  pub accepting : Bool
  pub stop_requested : Bool
  -- `work_available_`: which threads sleep at its wait, and the notifications of one thread that
  -- none of them has taken yet
  pub asleep : List Bool
  pub signals : ℕ

unfoldable pub validate_config : WorkerPipelineConfig → Result WorkerPipelineConfig
validate_config config =
    if config.worker_count == 0
    then throws (invalid_argument "worker count must be greater than zero")
    else if config.queue_capacity == 0
    then throws (invalid_argument "worker queue capacity must be greater than zero")
    else ok config

abbrev pub start_pipeline : WorkerPipelineConfig → WorkerPipeline
start_pipeline config = record {
  config = config;
  queue = [];
  workers = replicate config.worker_count waiting;
  metrics = record {
    packets_submitted = 0;
    packets_processed = 0;
    packets_dropped_queue_full = 0;
    packets_rejected_stopped = 0;
    handler_failures = 0;
    queue_high_watermark = 0;
  };
  accepting = true;
  stop_requested = false;
  asleep = replicate config.worker_count false;
  signals = 0;
}

-- The constructor where every thread can be made; Pipeline/Create has the others. `has_processor` is the
-- test of the `std::function`.
unfoldable pub make_pipeline : WorkerPipelineConfig → Bool → Result WorkerPipeline
unfolding validate_config
make_pipeline config has_processor = elim (validate_config config) [
  | throws e ↦ throws e
  | ok checked ↦
      (if has_processor
        then ok (start_pipeline checked)
        else throws (invalid_argument "packet processor must not be empty"))
]

abbrev count_asleep : List Bool → ℕ
count_asleep [] = 0
count_asleep (true ∷ rest) = suc (count_asleep rest)
count_asleep (false ∷ rest) = count_asleep rest

-- `work_available_.notify_one()`: one of the threads that sleep may take it, and it is lost where
-- none sleeps.
unfoldable pub notify_one : WorkerPipeline → WorkerPipeline
notify_one p = record p { signals = min (p.signals + 1) (count_asleep p.asleep) }

-- `work_available_.notify_all()`
unfoldable pub notify_all : WorkerPipeline → WorkerPipeline
notify_all p = record p { asleep = replicate (length p.asleep) false; signals = 0 }

unfoldable pub try_submit : WorkerPipeline → ReceivedPacket → WorkerPipeline × SubmitResult
unfolding notify_one
try_submit p packet =
    if not p.accepting
    then (
      record p {
        metrics = record p.metrics {
          packets_rejected_stopped = increment p.metrics.packets_rejected_stopped;
        };
      },
      stopped,
    )
    else if leb p.config.queue_capacity (length p.queue)
    then (
      record p {
        metrics = record p.metrics {
          packets_dropped_queue_full = increment p.metrics.packets_dropped_queue_full;
        };
      },
      queue_full,
    )
    else (
      notify_one (record p {
        queue = p.queue ++ packet ∷ [];
        metrics = record p.metrics {
          packets_submitted = increment p.metrics.packets_submitted;
          queue_high_watermark =
              max p.metrics.queue_high_watermark (length (p.queue ++ packet ∷ []));
        };
      }),
      accepted,
    )

unfoldable pub request_stop : WorkerPipeline → WorkerPipeline
unfolding notify_all
request_stop p = notify_all (record p { accepting = false; stop_requested = true })

-- The critical section at the head of `worker_loop`, for the worker at `i`, which is awake. Where
-- the queue is empty and no stop is requested it goes to sleep.
unfoldable pub worker_wake : WorkerPipeline → ℕ → WorkerPipeline
worker_wake p i = elim p.queue [
  | [] ↦
      (if p.stop_requested
        then record p { workers = set p.workers i returned }
        else record p { asleep = set p.asleep i true })
  | packet ∷ rest ↦ record p { queue = rest; workers = set p.workers i (running packet) }
]

-- The worker at `i` at its wait: asleep it can only take a notification, awake it looks at the queue.
unfoldable pub worker_wait : WorkerPipeline → ℕ → WorkerPipeline
unfolding worker_wake
worker_wait p i =
    if not (get_or p.asleep i false)
    then worker_wake p i
    else if p.signals == 0
    then p
    else record p { asleep = set p.asleep i false; signals = p.signals - 1 }

-- A wakeup without a notification, which a condition variable may have.
unfoldable pub wake_spuriously : WorkerPipeline → ℕ → WorkerPipeline
wake_spuriously p i = record p { asleep = set p.asleep i false }

-- The worker at `i` returns from the processor, or catches what it threw, and counts it.
unfoldable pub worker_finish : WorkerPipeline → ℕ → Bool → WorkerPipeline
worker_finish p i threw = record p {
  workers = set p.workers i waiting;
  metrics =
      if threw
      then record p.metrics { handler_failures = increment p.metrics.handler_failures }
      else record p.metrics { packets_processed = increment p.metrics.packets_processed };
}
