-- ===== src/Runtime/Pipeline/Drain.antt =====
-- worker_pipeline.cpp: the order of the queue, and the state that `stop` waits for.
use driveflow_runtime.Prelude.{
  ℕ, suc, ◌+◌, ◌%◌, ◌^◌, ◌<◌, ◌≡◌, ◌≢◌, refl, sym, ap, ◌∙◌, inl, inr, Bool, Bool-cases, true, false,
  ◌==◌, List, [], ◌∷◌, ◌++◌, arith, length, get_or,
}
use mathlib.Core.List.{append_assoc, append-nil}
use driveflow_runtime.Runtime.Received.{ReceivedPacket}
use driveflow_runtime.Runtime.Pipeline.Defs.{
  WorkerPipelineConfig, WorkerPipeline, Worker, waiting, running, returned, SubmitResult, accepted,
  try_submit, request_stop, worker_wake, worker_wait, wake_spuriously, notify_one, notify_all,
  worker_finish,
}
use driveflow_runtime.Runtime.Pipeline.Run.{
  count_in_flight, Run, start, submitted, refused, stopping, took, found_none, finished, notified,
  woken,
}
use driveflow_runtime.Runtime.Pipeline.Steps.{
  worker_wake-took, worker_wake-none, worker_wait-asleep, make_pipeline-start,
}
use driveflow_runtime.Runtime.Pipeline.Invariant.{Run-IsValid}

accepted-queue :
    (p q : WorkerPipeline) (packet : ReceivedPacket)
    → try_submit p packet ≡ (q, accepted)
    → q.queue ≡ p.queue ++ packet ∷ []
unfolding try_submit notify_one
accepted-queue p q packet e = ground arith

refused-queue :
    (p q : WorkerPipeline) (packet : ReceivedPacket) (r : SubmitResult)
    → try_submit p packet ≡ (q, r)
    → r ≢ accepted
    → q.queue ≡ p.queue
unfolding try_submit notify_one
refused-queue p q packet r e ne = ground arith

found_none-queue : (p : WorkerPipeline) (i : ℕ) → p.queue ≡ [] → (worker_wake p i).queue ≡ p.queue
found_none-queue p i q =
    ap (λ (x : WorkerPipeline). x.queue) (worker_wake-none p i q)
    ∙ (elim (Bool-cases p.stop_requested) [ inl s ↦ rw s | inr s ↦ rw s ])

took-queue :
    (p : WorkerPipeline) (i : ℕ) (packet : ReceivedPacket) (rest : List ReceivedPacket)
    → p.queue ≡ packet ∷ rest
    → p.queue ≡ packet ∷ (worker_wake p i).queue
took-queue p i packet rest q =
    q ∙ ap (λ (x : WorkerPipeline). packet ∷ x.queue) (sym (worker_wake-took p i packet rest q))

stopping-queue : (p : WorkerPipeline) → (request_stop p).queue ≡ p.queue
unfolding request_stop notify_all
stopping-queue p = refl

finished-queue :
    (p : WorkerPipeline) (i : ℕ) (threw : Bool) → (worker_finish p i threw).queue ≡ p.queue
unfolding worker_finish
finished-queue p i threw = refl

notified-queue :
    (p : WorkerPipeline) (i : ℕ)
    → get_or p.asleep i false ≡ true
    → (worker_wait p i).queue ≡ p.queue
notified-queue p i e =
    ap (λ (x : WorkerPipeline). x.queue) (worker_wait-asleep p i e)
    ∙ (elim (Bool-cases (p.signals == 0)) [ inl s ↦ rw s refl | inr s ↦ rw s refl ])

woken-queue : (p : WorkerPipeline) (i : ℕ) → (wake_spuriously p i).queue ≡ p.queue
unfolding wake_spuriously
woken-queue p i = refl

-- The queue is first in, first out: in every run the packets that workers took, followed by those
-- in the queue, are the packets accepted, in the order in which they were accepted.
pub Run-fifo :
    (config : WorkerPipelineConfig) (ins outs : List ReceivedPacket) (p : WorkerPipeline)
    → Run config ins outs p
    → ins ≡ outs ++ p.queue
Run-fifo config ins outs p (start e) =
    ap (λ (x : WorkerPipeline). x.queue) (make_pipeline-start config p e).0
Run-fifo config ins outs p (submitted {ins = ins'} {p = before} packet run e) =
    ap (λ (x : List ReceivedPacket). x ++ packet ∷ []) (Run-fifo config ins' outs before run)
    ∙ append_assoc outs before.queue (packet ∷ [])
    ∙ ap (λ (x : List ReceivedPacket). outs ++ x) (sym (accepted-queue before p packet e))
Run-fifo config ins outs p (refused {p = before} {r = r} packet run e ne) =
    Run-fifo config ins outs before run
    ∙ ap (λ (x : List ReceivedPacket). outs ++ x) (sym (refused-queue before p packet r e ne))
Run-fifo config ins outs p (stopping {p = before} run) =
    Run-fifo config ins outs before run
    ∙ ap (λ (x : List ReceivedPacket). outs ++ x) (sym (stopping-queue before))
Run-fifo config ins outs p (took {outs = outs'} {p = before} i packet rest run lt up e q) =
    Run-fifo config ins outs' before run
    ∙ ap (λ (x : List ReceivedPacket). outs' ++ x) (took-queue before i packet rest q)
    ∙ sym (append_assoc outs' (packet ∷ []) (worker_wake before i).queue)
Run-fifo config ins outs p (found_none {p = before} i run lt up e q) =
    Run-fifo config ins outs before run
    ∙ ap (λ (x : List ReceivedPacket). outs ++ x) (sym (found_none-queue before i q))
Run-fifo config ins outs p (finished {p = before} i packet threw run lt e) =
    Run-fifo config ins outs before run
    ∙ ap (λ (x : List ReceivedPacket). outs ++ x) (sym (finished-queue before i threw))
Run-fifo config ins outs p (notified {p = before} i run sleeping) =
    Run-fifo config ins outs before run
    ∙ ap (λ (x : List ReceivedPacket). outs ++ x) (sym (notified-queue before i sleeping))
Run-fifo config ins outs p (woken {p = before} i run) =
    Run-fifo config ins outs before run
    ∙ ap (λ (x : List ReceivedPacket). outs ++ x) (sym (woken-queue before i))

-- Every worker has returned: what `join_workers` waits for.
abbrev pub AllReturned : WorkerPipeline → Type 0
AllReturned p = (i : ℕ) → i < length p.workers → get_or p.workers i returned ≡ returned

pub count_in_flight-returned :
    (ws : List Worker)
    → ((i : ℕ) → i < length ws → get_or ws i returned ≡ returned)
    → count_in_flight ws ≡ 0
unfolding count_in_flight
count_in_flight-returned [] h = refl
count_in_flight-returned (waiting ∷ rest) h = absurd (ground (arith, h 0 (omega arith)))
count_in_flight-returned (running p ∷ rest) h = absurd (ground (arith, h 0 (omega arith)))
count_in_flight-returned (returned ∷ rest) h =
    omega (arith, count_in_flight-returned rest (λ i lt. h (suc i) (omega (arith, lt))))

-- When `stop` has joined all workers, the pipeline has been told to stop, every packet accepted
-- was taken by a worker, in the order of acceptance, and the packets submitted are those processed
-- and those that failed (up to 2 ^ 64).
pub Run-drained :
    (config : WorkerPipelineConfig) (ins outs : List ReceivedPacket) (p : WorkerPipeline)
    → Run config ins outs p
    → AllReturned p
    → (p.stop_requested ≡ true)
      × (ins ≡ outs)
      × (p.metrics.packets_submitted
          ≡ (p.metrics.packets_processed + p.metrics.handler_failures) % 2 ^ 64)
Run-drained config ins outs p run all =
    let v = Run-IsValid config ins outs p run in
    let (stop, none) =
      v.drained 0 (omega (arith, v.workers, v.some_worker))
        (all 0 (omega (arith, v.workers, v.some_worker))) in
    (
      stop,
      Run-fifo config ins outs p run
          ∙ ap (λ (x : List ReceivedPacket). outs ++ x) none
          ∙ append-nil outs,
      omega (arith, v.accounted, count_in_flight-returned p.workers all, ap length none),
    )
