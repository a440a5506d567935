-- ===== src/Runtime/Loop/Joined.antt =====
-- runtime.cpp: `pipeline.stop()` at the end of a run returns, with every worker thread joined.
use driveflow_runtime.Prelude.{
  ℕ, zero, suc, ◌≤◌, ◌<◌, ◌≡◌, ◌≢◌, ◌⊎◌, refl, ap, ◌∙◌, inl, inr, true, false, Option, List, [],
  ◌∷◌, arith, length, get_or,
}
use driveflow_runtime.Prelude.Result.{Result, Exception}
use driveflow_runtime.Net.{ReceivedDatagram}
use driveflow_runtime.Runtime.Received.{ReceivedPacket}
use driveflow_runtime.Runtime.Samples.{SensorSample}
use driveflow_runtime.Runtime.Pipeline.{Worker, waiting, running, returned}
use driveflow_runtime.Runtime.Pipeline.Drain.{AllReturned}
use driveflow_runtime.Runtime.Config.{RuntimeConfig}
use driveflow_runtime.Runtime.Loop.State.{RuntimeState, Phase, begun, rejecting, done}
use driveflow_runtime.Runtime.Loop.Steps.{
  Run, thread_stepped, thread_step, worker_step_at, process_step,
}
use driveflow_runtime.Runtime.Loop.Invariant.{is_ending}
use driveflow_runtime.Runtime.Loop.Complete.{Run-IsSound}
use driveflow_runtime.Runtime.Loop.Joins.{steps_left, thread_step-steps_left}

-- A worker that has not returned.
abbrev Working : List Worker → Type 0
Working ws = (i : ℕ) × ((i < length ws) × (get_or ws i returned ≢ returned))

abbrev Idle : List Worker → Type 0
Idle ws = (i : ℕ) → i < length ws → get_or ws i returned ≡ returned

Working-cons : (w : Worker) (ws : List Worker) → Working ws → Working (w ∷ ws)
Working-cons w ws (i, (lt, ne)) = (suc i, (omega (arith, lt), ne))

Idle-cons : (w : Worker) (ws : List Worker) → w ≡ returned → Idle ws → Idle (w ∷ ws)
Idle-cons w ws e idle zero lt = e
Idle-cons w ws e idle (suc i) lt = idle i (omega (arith, lt))

Working-cases : (ws : List Worker) → Working ws ⊎ Idle ws
Working-cases [] = inr (λ i lt. absurd (omega (arith, lt)))
Working-cases (waiting ∷ ws) = inl (zero, (omega arith, λ e. ground (arith, e)))
Working-cases (running packet ∷ ws) = inl (zero, (omega arith, λ e. ground (arith, e)))
Working-cases (returned ∷ ws) = elim (Working-cases ws) [
  | inl working ↦ inl (Working-cons returned ws working)
  | inr idle ↦ inr (Idle-cons returned ws refl idle)
]

module _ (Kernel : Type 0) (receive : Kernel → ℕ → Kernel × Result (Option (ReceivedDatagram × ℕ)))
    (handler : SensorSample → Option Exception) where
  abbrev State : Type 0
  State = RuntimeState Kernel receive handler

  abbrev left : State → ℕ
  left st = steps_left Kernel receive handler st

  abbrev go : ℕ → State → State
  go i st = thread_step Kernel receive handler i st

  -- Steps of the worker threads at these places, one after another.
  unfoldable pub thread_steps : List ℕ → State → State
  thread_steps [] st = st
  thread_steps (i ∷ order) st = thread_steps order (go i st)

  -- Each step is of a thread that has not returned.
  unfoldable pub AllWork : List ℕ → State → Type 0
  AllWork [] st = Unit
  AllWork (i ∷ order) st =
      (i < length st.pipeline.workers)
      × (get_or st.pipeline.workers i returned ≢ returned)
      × AllWork order (go i st)

  -- The join of the workers ends in this state, whichever thread steps first.
  pub record Joins (config : RuntimeConfig) (st : State) : Type 0 where
    -- an order of steps after which all have returned, and the main thread has not moved
    pub order : List ℕ
    pub reached : Run Kernel receive handler config (thread_steps order st)
    pub all : AllReturned (thread_steps order st).pipeline
    pub main : (thread_steps order st).main ≡ st.main
    -- no thread sleeps at the condition variable, where nothing would notify it any more
    pub awake : (i : ℕ) → get_or st.pipeline.asleep i false ≡ false
    -- no order of steps is longer than the count of the steps left
    pub bounded : (o : List ℕ) → AllWork o st → length o ≤ left st

  process_step-main :
      (phase : Phase) (i : ℕ) (packet : ReceivedPacket) (st : State)
      → (process_step Kernel receive handler phase i packet st).main ≡ st.main
  unfolding process_step
  process_step-main begun i packet st = refl
  process_step-main rejecting i packet st = refl
  process_step-main (done threw) i packet st = refl

  pub worker_step_at-main :
      (w : Worker) (i : ℕ) (st : State)
      → (worker_step_at Kernel receive handler w i st).main ≡ st.main
  unfolding worker_step_at
  worker_step_at-main waiting i st = refl
  worker_step_at-main (running packet) i st =
      process_step-main (get_or st.phases i begun) i packet st
  worker_step_at-main returned i st = refl

  module _ (config : RuntimeConfig) where
    abbrev Reached : State → Type 0
    Reached st = Run Kernel receive handler config st × (is_ending st.main ≡ true)

    step-Reached :
        (st : State) (i : ℕ) → Reached st → i < length st.pipeline.workers → Reached (go i st)
    step-Reached st i (run, e) lt = (
      thread_stepped i lt run,
      ap is_ending (worker_step_at-main (get_or st.pipeline.workers i returned) i st) ∙ e,
    )

    step-fewer :
        (st : State) (i : ℕ)
        → Reached st
        → i < length st.pipeline.workers
        → get_or st.pipeline.workers i returned ≢ returned
        → left (go i st) < left st
    step-fewer st i (run, e) lt ne =
        thread_step-steps_left Kernel receive handler config st i run
          ((Run-IsSound Kernel receive handler config st run).ending ∙ e) lt ne

    all_awake : (st : State) → Reached st → (i : ℕ) → get_or st.pipeline.asleep i false ≡ false
    all_awake st (run, e) i =
        let sound = Run-IsSound Kernel receive handler config st run in
        sound.pipeline.awake i (sound.ending ∙ e)

    steps-bounded : (st : State) (o : List ℕ) → Reached st → AllWork o st → length o ≤ left st
    unfolding AllWork
    steps-bounded st [] reached work = omega arith
    steps-bounded st (i ∷ o) reached (lt, ne, work) =
        let fewer = step-fewer st i reached lt ne in
        let rest = steps-bounded (go i st) o (step-Reached st i reached lt) work in
        omega (arith, fewer, rest)

    join_within : (n : ℕ) (st : State) → Reached st → left st < n → Joins config st
    unfolding thread_steps
    join_within zero st reached lt = absurd (omega (arith, lt))
    join_within (suc n) st reached lt = elim (Working-cases st.pipeline.workers) [
      | inr idle ↦ record {
        order = [];
        reached = reached.0;
        all = idle;
        main = refl;
        awake = all_awake st reached;
        bounded = λ o work. steps-bounded st o reached work;
      }
      | inl (i, (within, ne)) ↦
          let fewer = step-fewer st i reached within ne in
          let rest =
            join_within n (go i st) (step-Reached st i reached within) (omega (arith, fewer, lt)) in
          record {
            order = i ∷ rest.order;
            reached = rest.reached;
            all = rest.all;
            main = rest.main ∙ worker_step_at-main (get_or st.pipeline.workers i returned) i st;
            awake = all_awake st reached;
            bounded = λ o work. steps-bounded st o reached work;
          }
    ]

    -- The join of the workers at the end of a run terminates: in every state of a run in which the
    -- main thread waits for the workers, after a return or an exception, whatever the handler does,
    -- no worker thread sleeps at the condition variable, the worker threads have an order of steps
    -- after which all have returned and the main thread is where it was, and no sequence of steps of
    -- threads that have not returned is longer than the count of the steps left.
    pub Run-Joins :
        (st : State)
        → Run Kernel receive handler config st
        → is_ending st.main ≡ true
        → Joins config st
    Run-Joins st run e = join_within (suc (left st)) st (run, e) (omega arith)
