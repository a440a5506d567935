-- ===== src/Runtime/Tests/Workers.antt =====
-- A run of the worker pipeline: one packet is submitted, taken and processed, then a stop.
use driveflow_runtime.Prelude.{
  ℕ, zero, suc, ◌+◌, ◌%◌, ◌^◌, ◌≡◌, ◌<◌, refl, true, false, none, some, ◌==◌, if◌then◌else◌, [],
  ◌∷◌, ◌++◌, arith, length, get_or,
}
use driveflow_runtime.Prelude.Result.{ok, Exception, system_error}
use driveflow_runtime.Protocol.Packet.{gnss}
use driveflow_runtime.Runtime.Received.{ReceivedPacket}
use driveflow_runtime.Runtime.Pipeline.{
  WorkerPipelineConfig, WorkerPipeline, returned, validate_config, make_pipeline, start_pipeline,
  try_submit, request_stop, notify_one, notify_all, worker_wait, worker_wake, worker_finish,
}
use driveflow_runtime.Runtime.Pipeline.Run.{
  IsValid, Run, start, submitted, stopping, took, found_none, finished,
}
use driveflow_runtime.Runtime.Pipeline.Invariant.{Run-IsValid}
use driveflow_runtime.Runtime.Pipeline.Drain.{Run-fifo, Run-drained}
use driveflow_runtime.Runtime.Pipeline.Create.{
  Threads, Creation, unwound, join_workers, create_workers, construct,
}
use driveflow_runtime.Runtime.Pipeline.Created.{Creates, construct-Creates}
use driveflow_runtime.Runtime.Tests.Streams.{received}

abbrev config : WorkerPipelineConfig
config = record { worker_count = 1; queue_capacity = 1 }

abbrev job : ReceivedPacket
job = received 1 7 gnss []

abbrev idle_pipeline : WorkerPipeline
idle_pipeline = start_pipeline config

abbrev loaded : WorkerPipeline
loaded = (try_submit idle_pipeline job).0

abbrev stopped_pipeline : WorkerPipeline
stopped_pipeline = request_stop (worker_finish (worker_wake loaded 0) 0 false)

abbrev finished_pipeline : WorkerPipeline
finished_pipeline = worker_wake stopped_pipeline 0

idle-Run : Run config [] [] idle_pipeline
unfolding make_pipeline validate_config
idle-Run = start refl

loaded-Run : Run config (job ∷ []) [] loaded
unfolding try_submit notify_one
loaded-Run = submitted job idle-Run refl

stopped-Run : Run config (job ∷ []) (job ∷ []) stopped_pipeline
unfolding try_submit notify_one worker_wake
stopped-Run = stopping (
    finished 0 job false (took 0 job [] loaded-Run (omega arith) refl refl refl) (omega arith) refl)

finished-Run : Run config (job ∷ []) (job ∷ []) finished_pipeline
unfolding try_submit notify_one worker_wake worker_finish request_stop notify_all
finished-Run = found_none 0 stopped-Run (omega arith) refl refl refl

finished-AllReturned :
    (i : ℕ)
    → i < length finished_pipeline.workers
    → get_or finished_pipeline.workers i returned ≡ returned
unfolding try_submit notify_one worker_wake worker_finish request_stop notify_all
finished-AllReturned zero lt = refl
finished-AllReturned (suc i) lt = refl

Run-IsValid_example : IsValid finished_pipeline
Run-IsValid_example = Run-IsValid config (job ∷ []) (job ∷ []) finished_pipeline finished-Run

Run-fifo_example : job ∷ [] ≡ [] ++ loaded.queue
Run-fifo_example = Run-fifo config (job ∷ []) [] loaded loaded-Run

Run-drained_example :
    (finished_pipeline.stop_requested ≡ true)
    × (job ∷ [] ≡ job ∷ [])
    × (finished_pipeline.metrics.packets_submitted
        ≡ (finished_pipeline.metrics.packets_processed + finished_pipeline.metrics.handler_failures)
          % 2 ^ 64)
Run-drained_example =
    Run-drained config (job ∷ []) (job ∷ []) finished_pipeline finished-Run finished-AllReturned

-- Three threads, of which the second cannot be made.
abbrev three : WorkerPipelineConfig
three = record { worker_count = 3; queue_capacity = 1 }

abbrev no_thread : Exception
no_thread = system_error "Resource temporarily unavailable"

abbrev threads : Threads
threads = record {
  reserve = λ n. none;
  thread = λ i. if i == 1 then some no_thread else none;
  slept = λ n. true ∷ [];
}

-- The first thread slept, was woken and has returned.
abbrev second_fails : Creation
second_fails =
    unwound
      (record (start_pipeline three) {
        workers = returned ∷ [];
        asleep = false ∷ [];
        accepting = false;
        stop_requested = true;
      })
      no_thread

second_failed : construct threads three true ≡ ok second_fails
unfolding construct validate_config create_workers join_workers request_stop notify_all worker_wait
    worker_wake
second_failed = refl

construct-Creates_example : Creates threads three second_fails
construct-Creates_example = construct-Creates threads three second_fails second_failed
