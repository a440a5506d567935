-- ===== src/Runtime/Loop/Joins.antt =====
-- runtime.cpp: `pipeline.stop()` ends in a run, since each step of a worker thread brings the end
-- nearer.
use driveflow_runtime.Prelude.{
  ℕ, zero, suc, ◌+◌, ◌*◌, ◌≤◌, ◌<◌, ◌≡◌, ◌≢◌, ◌⊎◌, refl, sym, ap, ◌∙◌, inl, inr, Bool, true, false,
  Option, List, [], ◌∷◌, arith, length, get_or, set, if◌then◌else◌,
}
use driveflow_runtime.Prelude.Result.{Result, ok, throws, Exception}
use driveflow_runtime.Net.{ReceivedDatagram}
use driveflow_runtime.Protocol.Sensor.{
  SensorPayloadError, no_error, unknown_message_type, size_mismatch, non_finite_number,
  value_out_of_range,
}
use driveflow_runtime.Runtime.Received.{ReceivedPacket}
use driveflow_runtime.Runtime.Samples.{SensorSample, process}
use driveflow_runtime.Runtime.Pipeline.{
  WorkerPipeline, Worker, waiting, running, returned, worker_wait, worker_finish,
}
use driveflow_runtime.Runtime.Pipeline.Steps.{worker_wake-took, worker_wake-none, worker_wait-awake}
use driveflow_runtime.Runtime.Config.{RuntimeConfig}
use driveflow_runtime.Runtime.Loop.State.{RuntimeState, Phase, begun, rejecting, done, phase_after}
use driveflow_runtime.Runtime.Loop.Steps.{Run, thread_step, worker_step_at, process_step}
use driveflow_runtime.Runtime.Loop.Phases.{length-is_settled, set-same}
use driveflow_runtime.Runtime.Loop.Complete.{Run-IsSound}

-- The steps that a worker in the packet processor has left, with the one at the wait.
abbrev phase_left : Phase → ℕ
phase_left begun = 4
phase_left rejecting = 3
phase_left (done threw) = 2

abbrev left_of : Worker → Phase → ℕ
left_of waiting phase = 1
left_of (running packet) phase = phase_left phase
left_of returned phase = 0

unfoldable pub threads_left : List Worker → List Phase → ℕ
threads_left [] phases = 0
threads_left (w ∷ workers) [] = left_of w begun + threads_left workers []
threads_left (w ∷ workers) (p ∷ phases) = left_of w p + threads_left workers phases

threads_left-set :
    (ws : List Worker) (ps : List Phase) (i : ℕ) (w : Worker) (p : Phase)
    → i < length ws
    → length ps ≡ length ws
    → threads_left (set ws i w) (set ps i p) + left_of (get_or ws i returned) (get_or ps i begun)
      ≡ threads_left ws ps + left_of w p
unfolding threads_left
threads_left-set [] ps i w p lt same = absurd (omega arith)
threads_left-set (x ∷ ws) [] i w p lt same = absurd (omega arith)
threads_left-set (x ∷ ws) (y ∷ ps) zero w p lt same = omega arith
threads_left-set (x ∷ ws) (y ∷ ps) (suc i) w p lt same =
    let ih = threads_left-set ws ps i w p (omega arith) (omega arith) in omega arith

left_of-running : (packet : ReceivedPacket) (p : Phase) → left_of (running packet) p ≤ 4
left_of-running packet begun = omega arith
left_of-running packet rejecting = omega arith
left_of-running packet (done threw) = omega arith

phase_after-left : (outcome : Result SensorPayloadError) → phase_left (phase_after outcome) ≤ 3
unfolding phase_after
phase_after-left (throws e) = omega arith
phase_after-left (ok no_error) = omega arith
phase_after-left (ok unknown_message_type) = omega arith
phase_after-left (ok size_mismatch) = omega arith
phase_after-left (ok non_finite_number) = omega arith
phase_after-left (ok value_out_of_range) = omega arith

-- A change of the worker alone.
threads_left-worker :
    (ws : List Worker) (ps : List Phase) (i : ℕ) (w : Worker)
    → i < length ws
    → length ps ≡ length ws
    → threads_left (set ws i w) ps + left_of (get_or ws i returned) (get_or ps i begun)
      ≡ threads_left ws ps + left_of w (get_or ps i begun)
threads_left-worker ws ps i w lt same =
    ap (λ l. threads_left (set ws i w) l + left_of (get_or ws i returned) (get_or ps i begun))
      (sym (set-same begun ps i))
    ∙ threads_left-set ws ps i w (get_or ps i begun) lt same

-- A change of the phase alone.
threads_left-phase :
    (ws : List Worker) (ps : List Phase) (i : ℕ) (p : Phase)
    → i < length ws
    → length ps ≡ length ws
    → threads_left ws (set ps i p) + left_of (get_or ws i returned) (get_or ps i begun)
      ≡ threads_left ws ps + left_of (get_or ws i returned) p
threads_left-phase ws ps i p lt same =
    ap (λ l. threads_left l (set ps i p) + left_of (get_or ws i returned) (get_or ps i begun))
      (sym (set-same returned ws i))
    ∙ threads_left-set ws ps i (get_or ws i returned) p lt same

abbrev pipeline_left : WorkerPipeline → List Phase → ℕ
pipeline_left p phases = threads_left p.workers phases + 4 * length p.queue

queue-cases :
    (xs : List ReceivedPacket)
    → (xs ≡ [])
      ⊎ ((packet : ReceivedPacket) × ((rest : List ReceivedPacket) × (xs ≡ packet ∷ rest)))
queue-cases [] = inl refl
queue-cases (packet ∷ rest) = inr (packet, (rest, refl))

wake-left :
    (p : WorkerPipeline) (phases : List Phase) (i : ℕ)
    → p.stop_requested ≡ true
    → i < length p.workers
    → length phases ≡ length p.workers
    → get_or p.asleep i false ≡ false
    → get_or p.workers i returned ≡ waiting
    → pipeline_left (worker_wait p i) phases < pipeline_left p phases
wake-left p phases i stop lt same up e = elim (queue-cases p.queue) [
  | inl q ↦ omega (
    arith,
    ap (λ r. pipeline_left r phases)
        (worker_wait-awake p i up
          ∙ worker_wake-none p i q
          ∙ ap
              (λ (b : Bool).
                if b
                then record p { workers = set p.workers i returned }
                else record p { asleep = set p.asleep i true })
              stop),
    threads_left-worker p.workers phases i returned lt same,
    ap (λ w. left_of w (get_or phases i begun)) e,
    ap length q,
  )
  | inr (packet, (rest, q)) ↦ omega (
    arith,
    ap (λ r. pipeline_left r phases)
        (worker_wait-awake p i up ∙ worker_wake-took p i packet rest q),
    threads_left-worker p.workers phases i (running packet) lt same,
    left_of-running packet (get_or phases i begun),
    ap (λ w. left_of w (get_or phases i begun)) e,
    ap length q,
  )
]

module _ (Kernel : Type 0) (receive : Kernel → ℕ → Kernel × Result (Option (ReceivedDatagram × ℕ)))
    (handler : SensorSample → Option Exception) where
  abbrev State : Type 0
  State = RuntimeState Kernel receive handler

  -- The steps that are left: four for each packet in the queue, up to four for each worker in the
  -- packet processor and one for each worker at the wait.
  abbrev pub steps_left : State → ℕ
  steps_left st = pipeline_left st.pipeline st.phases

  abbrev Sized : State → Type 0
  Sized st = length st.phases ≡ length st.pipeline.workers

  process_step-left :
      (phase : Phase) (i : ℕ) (packet : ReceivedPacket) (st : State)
      → i < length st.pipeline.workers
      → Sized st
      → get_or st.pipeline.workers i returned ≡ running packet
      → get_or st.phases i begun ≡ phase
      → steps_left (process_step Kernel receive handler phase i packet st) < steps_left st
  unfolding process_step worker_finish
  process_step-left begun i packet st lt same e at =
      let outcome = (process handler st.sample_metrics packet).outcome in
      let next = phase_after outcome in
      omega (
        arith,
        threads_left-phase st.pipeline.workers st.phases i next lt same,
        phase_after-left outcome,
        ap (λ w. left_of w begun) e,
        ap (λ w. left_of w next) e,
        ap (λ p. left_of (get_or st.pipeline.workers i returned) p) at,
      )
  process_step-left rejecting i packet st lt same e at = omega (
    arith,
    threads_left-phase st.pipeline.workers st.phases i (done false) lt same,
    ap (λ w. left_of w rejecting) e,
    ap (λ w. left_of w (done false)) e,
    ap (λ p. left_of (get_or st.pipeline.workers i returned) p) at,
  )
  process_step-left (done threw) i packet st lt same e at = omega (
    arith,
    threads_left-set st.pipeline.workers st.phases i waiting begun lt same,
    ap (λ w. left_of w (done threw)) e,
    ap (λ p. left_of (get_or st.pipeline.workers i returned) p) at,
  )

  worker_step-left :
      (worker : Worker) (i : ℕ) (st : State)
      → get_or st.pipeline.workers i returned ≡ worker
      → worker ≢ returned
      → get_or st.pipeline.asleep i false ≡ false
      → st.pipeline.stop_requested ≡ true
      → i < length st.pipeline.workers
      → Sized st
      → steps_left (worker_step_at Kernel receive handler worker i st) < steps_left st
  unfolding worker_step_at
  worker_step-left waiting i st e ne up stop lt same =
      wake-left st.pipeline st.phases i stop lt same up e
  worker_step-left (running packet) i st e ne up stop lt same =
      process_step-left (get_or st.phases i begun) i packet st lt same e refl
  worker_step-left returned i st e ne up stop lt same = absurd (ne refl)

  -- The join ends: in every state of a run in which a stop of the pipeline was requested, which the
  -- main thread does before it waits for the workers, a step of any worker thread that has not
  -- returned, whatever the handler does, takes at least one from the steps that are left.
  pub thread_step-steps_left :
      (config : RuntimeConfig) (st : State) (i : ℕ)
      → Run Kernel receive handler config st
      → st.pipeline.stop_requested ≡ true
      → i < length st.pipeline.workers
      → get_or st.pipeline.workers i returned ≢ returned
      → steps_left (thread_step Kernel receive handler i st) < steps_left st
  thread_step-steps_left config st i run stop lt ne =
      let sound = Run-IsSound Kernel receive handler config st run in
      worker_step-left (get_or st.pipeline.workers i returned) i st refl ne
        (sound.pipeline.awake i stop) stop lt
        (length-is_settled st.pipeline.workers st.phases sound.settled)
