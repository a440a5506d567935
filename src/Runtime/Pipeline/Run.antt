-- ===== src/Runtime/Pipeline/Run.antt =====
-- worker_pipeline.cpp: every run of the pipeline, its clients and its workers interleaved in any
-- order, and what holds in all of them.
use driveflow_runtime.Prelude.{
  ℕ, zero, suc, ◌+◌, ◌%◌, ◌^◌, ◌≤◌, ◌<◌, ◌≡◌, ◌≢◌, Bool, true, false, not, List, [], ◌∷◌, ◌++◌,
  arith, length, get_or, set,
}
use driveflow_runtime.Prelude.Result.{ok}
use driveflow_runtime.Runtime.Received.{ReceivedPacket}
use driveflow_runtime.Runtime.Pipeline.Defs.{
  WorkerPipelineConfig, WorkerPipeline, Worker, waiting, running, returned, SubmitResult, accepted,
  make_pipeline, try_submit, request_stop, worker_wake, worker_wait, wake_spuriously, worker_finish,
}

-- `Run config taken_in taken_out p`: a run of a pipeline that was made of `config` leads to `p`;
-- `taken_in` are the packets that `try_submit` accepted, in order, and `taken_out` the packets
-- that workers took, in order.
pub data Run (config : WorkerPipelineConfig)
    : List ReceivedPacket → List ReceivedPacket → WorkerPipeline → Type 0 where
  start : {p : WorkerPipeline} → make_pipeline config true ≡ ok p → Run config [] [] p
  submitted :
      {ins outs : List ReceivedPacket} {p q : WorkerPipeline} (packet : ReceivedPacket)
      → Run config ins outs p
      → try_submit p packet ≡ (q, accepted)
      → Run config (ins ++ packet ∷ []) outs q
  refused :
      {ins outs : List ReceivedPacket} {p q : WorkerPipeline} {r : SubmitResult}
      (packet : ReceivedPacket)
      → Run config ins outs p
      → try_submit p packet ≡ (q, r)
      → r ≢ accepted
      → Run config ins outs q
  stopping :
      {ins outs : List ReceivedPacket} {p : WorkerPipeline}
      → Run config ins outs p
      → Run config ins outs (request_stop p)
  took :
      {ins outs : List ReceivedPacket} {p : WorkerPipeline} (i : ℕ) (packet : ReceivedPacket)
      (rest : List ReceivedPacket)
      → Run config ins outs p
      → i < length p.workers
      → get_or p.asleep i false ≡ false
      → get_or p.workers i returned ≡ waiting
      → p.queue ≡ packet ∷ rest
      → Run config ins (outs ++ packet ∷ []) (worker_wake p i)
  found_none :
      {ins outs : List ReceivedPacket} {p : WorkerPipeline} (i : ℕ)
      → Run config ins outs p
      → i < length p.workers
      → get_or p.asleep i false ≡ false
      → get_or p.workers i returned ≡ waiting
      → p.queue ≡ []
      → Run config ins outs (worker_wake p i)
  finished :
      {ins outs : List ReceivedPacket} {p : WorkerPipeline} (i : ℕ) (packet : ReceivedPacket)
      (threw : Bool)
      → Run config ins outs p
      → i < length p.workers
      → get_or p.workers i returned ≡ running packet
      → Run config ins outs (worker_finish p i threw)
  notified :
      {ins outs : List ReceivedPacket} {p : WorkerPipeline} (i : ℕ)
      → Run config ins outs p
      → get_or p.asleep i false ≡ true
      → Run config ins outs (worker_wait p i)
  woken :
      {ins outs : List ReceivedPacket} {p : WorkerPipeline} (i : ℕ)
      → Run config ins outs p
      → Run config ins outs (wake_spuriously p i)

abbrev pub in_flight : Worker → ℕ
in_flight waiting = 0
in_flight (running packet) = 1
in_flight returned = 0

unfoldable pub count_in_flight : List Worker → ℕ
count_in_flight [] = 0
count_in_flight (w ∷ rest) = in_flight w + count_in_flight rest

pub count_in_flight-set :
    (ws : List Worker) (i : ℕ) (w : Worker)
    → i < length ws
    → count_in_flight (set ws i w) + in_flight (get_or ws i returned)
      ≡ count_in_flight ws + in_flight w
unfolding count_in_flight
count_in_flight-set [] i w lt = absurd (omega arith)
count_in_flight-set (x ∷ rest) zero w lt = omega arith
count_in_flight-set (x ∷ rest) (suc i) w lt =
    let ih = count_in_flight-set rest i w (omega arith) in omega arith

-- What holds of the state of a pipeline.
pub record IsValid (p : WorkerPipeline) : Type 0 where
  pub workers : length p.workers ≡ p.config.worker_count
  pub some_worker : 1 ≤ p.config.worker_count
  pub bounded : p.metrics.queue_high_watermark ≤ p.config.queue_capacity
  pub watermark : length p.queue ≤ p.metrics.queue_high_watermark
  pub accounted :
      p.metrics.packets_submitted
      ≡ (p.metrics.packets_processed
          + p.metrics.handler_failures
          + count_in_flight p.workers
          + length p.queue)
        % 2 ^ 64
  pub awake : (i : ℕ) → p.stop_requested ≡ true → get_or p.asleep i false ≡ false
  pub closed : p.accepting ≡ not p.stop_requested
  pub drained :
      (i : ℕ)
      → i < length p.workers
      → get_or p.workers i returned ≡ returned
      → (p.stop_requested ≡ true) × (p.queue ≡ [])
