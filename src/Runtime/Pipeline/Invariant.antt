-- ===== src/Runtime/Pipeline/Invariant.antt =====
-- worker_pipeline.cpp: the state of the pipeline stays valid in every run.
use driveflow_runtime.Prelude.{sym, ap, subst, List}
use driveflow_runtime.Runtime.Received.{ReceivedPacket}
use driveflow_runtime.Runtime.Pipeline.Defs.{WorkerPipelineConfig, WorkerPipeline, SubmitResult}
use driveflow_runtime.Runtime.Pipeline.Run.{
  IsValid, Run, start, submitted, refused, stopping, took, found_none, finished, notified, woken,
}
use driveflow_runtime.Runtime.Pipeline.Steps.{
  make_pipeline-start, start-IsValid, try_submit-IsValid, request_stop-IsValid,
  worker_finish-IsValid, worker_wake-took, took-IsValid, found_none-IsValid, notified-IsValid,
  wake_spuriously-IsValid,
}

-- In every run of the pipeline, however its clients and workers are interleaved: the queue never
-- exceeds its capacity nor the high-water mark, the packets submitted are those processed, those
-- that failed, those in flight and those queued (up to 2 ^ 64), nothing is accepted once a stop is
-- requested, and a worker that has returned leaves a stopped pipeline with an empty queue.
pub Run-IsValid :
    (config : WorkerPipelineConfig) (ins outs : List ReceivedPacket) (p : WorkerPipeline)
    → Run config ins outs p
    → IsValid p
Run-IsValid config ins outs p (start e) =
    let (same, pos) = make_pipeline-start config p e in
    subst IsValid same (start-IsValid config pos)
Run-IsValid config ins outs p (submitted {ins = ins'} {p = before} packet run e) =
    subst IsValid (ap (λ (x : WorkerPipeline × SubmitResult). x.0) e)
      (try_submit-IsValid before packet (Run-IsValid config ins' outs before run))
Run-IsValid config ins outs p (refused {p = before} packet run e ne) =
    subst IsValid (ap (λ (x : WorkerPipeline × SubmitResult). x.0) e)
      (try_submit-IsValid before packet (Run-IsValid config ins outs before run))
Run-IsValid config ins outs p (stopping {p = before} run) =
    request_stop-IsValid before (Run-IsValid config ins outs before run)
Run-IsValid config ins outs p (took {outs = outs'} {p = before} i packet rest run lt up e q) =
    subst IsValid (sym (worker_wake-took before i packet rest q))
      (took-IsValid before i packet rest (Run-IsValid config ins outs' before run) lt e q)
Run-IsValid config ins outs p (found_none {p = before} i run lt up e q) =
    found_none-IsValid before i (Run-IsValid config ins outs before run) lt e q
Run-IsValid config ins outs p (finished {p = before} i packet threw run lt e) =
    worker_finish-IsValid before i packet threw (Run-IsValid config ins outs before run) lt e
Run-IsValid config ins outs p (notified {p = before} i run sleeping) =
    notified-IsValid before i sleeping (Run-IsValid config ins outs before run)
Run-IsValid config ins outs p (woken {p = before} i run) =
    wake_spuriously-IsValid before i (Run-IsValid config ins outs before run)
