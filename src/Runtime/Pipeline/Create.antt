-- ===== src/Runtime/Pipeline/Create.antt =====
-- worker_pipeline.cpp: the constructor, where the creation of a thread may fail.
use driveflow_runtime.Prelude.{
  ℕ, zero, suc, Bool, false, Option, none, some, List, [], ◌∷◌, ◌++◌, length, if◌then◌else◌,
}
use driveflow_runtime.Prelude.Result.{Result, ok, throws, Exception, invalid_argument}
use driveflow_runtime.Runtime.Pipeline.Defs.{
  WorkerPipelineConfig, WorkerPipeline, waiting, validate_config, start_pipeline, request_stop,
  worker_wait,
}

-- What the system makes of the threads: what reserving room for so many throws, what the constructor
-- of each std::thread throws, and, where one throws, which of the `n` threads before it sleep.
pub record Threads : Type 0 where
  pub reserve : ℕ → Option Exception
  pub thread : ℕ → Option Exception
  pub slept : ℕ → List Bool

-- What the loop that creates the threads comes to: the object, or the exception of a thread that
-- could not be made, with the object that the `catch` leaves.
pub data Creation : Type 0 where
  created : WorkerPipeline → Creation
  unwound : WorkerPipeline → Exception → Creation

-- `join_workers`, where nothing is queued: each of the first `n` threads is waited for in turn, and
-- comes to the head of its loop, if it is awake.
unfoldable pub join_workers : ℕ → WorkerPipeline → WorkerPipeline
join_workers zero p = p
join_workers (suc n) p = worker_wait (join_workers n p) n

-- The loop, with `left` threads to make.
unfoldable pub create_workers : Threads → ℕ → WorkerPipeline → Creation
unfolding join_workers
create_workers threads zero p = created p
create_workers threads (suc left) p =
    let made = length p.workers in
    elim (threads.thread made) [
      | some e ↦
          unwound (join_workers made (request_stop (record p { asleep = threads.slept made }))) e
      | none ↦
          create_workers threads left
            (record p { workers = p.workers ++ waiting ∷ []; asleep = p.asleep ++ false ∷ [] })
    ]

-- The constructor.
unfoldable pub construct : Threads → WorkerPipelineConfig → Bool → Result Creation
unfolding create_workers
construct threads config has_processor = elim (validate_config config) [
  | throws e ↦ throws e
  | ok checked ↦
      (if has_processor
        then (elim (threads.reserve checked.worker_count) [
          | some e ↦ throws e
          | none ↦ ok (
              create_workers threads checked.worker_count
                (record (start_pipeline checked) { workers = []; asleep = [] }))
        ])
        else throws (invalid_argument "packet processor must not be empty"))
]

-- The object, where the constructor makes one.
unfoldable pub kept : Result Creation → Result WorkerPipeline
kept (throws e) = throws e
kept (ok (created p)) = ok p
kept (ok (unwound p e)) = throws e
