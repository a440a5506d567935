-- ===== src/Runtime/Loop/Stopped.antt =====
-- runtime.cpp: once the predicate `stop_requested` holds, `Runtime::run` comes to its end.
use driveflow_runtime.Prelude.{
  ℕ, zero, suc, ◌-◌, ◌≤◌, ◌≡◌, refl, sym, ap, subst, inl, inr, Bool-cases, ltb, true, Option, List,
  [], ◌∷◌, arith, length, get_or,
}
use driveflow_runtime.Prelude.Result.{Result, Exception}
use driveflow_runtime.Net.{ReceivedDatagram}
use driveflow_runtime.Runtime.Received.{ReceivedPacket}
use driveflow_runtime.Runtime.Samples.{SensorSample}
use driveflow_runtime.Runtime.Pipeline.{
  WorkerPipeline, Worker, returned, SubmitResult, queue_full, accepted,
}
use driveflow_runtime.Runtime.Receiver.{EpollWait}
use driveflow_runtime.Runtime.Config.{RuntimeConfig}
use driveflow_runtime.Runtime.Loop.State.{
  RuntimeState, Main, looping, handing, submitting, dropping, leaving, joining, unwinding,
}
use driveflow_runtime.Runtime.Loop.Steps.{
  Run, main_stepped, thread_stepped, thread_woken, wake_thread, main_step, main_step_at,
  thread_step, worker_step_at, after_submit,
}
use driveflow_runtime.Runtime.Loop.Invariant.{is_ending}
use driveflow_runtime.Runtime.Loop.Joined.{Joins, Run-Joins, worker_step_at-main}

-- A step of a thread while the predicate holds, with what `epoll_wait` would answer, or a wakeup
-- without a notification.
pub data Move : Type 0 where
  main_moves : EpollWait → Move
  worker_moves worker_wakes : ℕ → Move

abbrev pub count_main : List Move → ℕ
count_main [] = 0
count_main (main_moves answer ∷ moves) = suc (count_main moves)
count_main (worker_moves i ∷ moves) = count_main moves
count_main (worker_wakes i ∷ moves) = count_main moves

-- The steps of the main thread before it waits for the workers.
abbrev steps_before : Main → ℕ
steps_before looping = 2
steps_before (handing packets) = 3
steps_before (submitting packet rest) = 5
steps_before (dropping packet rest) = 4
steps_before leaving = 1
steps_before joining = 0
steps_before (unwinding e) = 0

steps_before-none : (place : Main) → steps_before place ≤ 0 → is_ending place ≡ true
steps_before-none looping none_left = absurd (omega (arith, none_left))
steps_before-none (handing packets) none_left = absurd (omega (arith, none_left))
steps_before-none (submitting packet rest) none_left = absurd (omega (arith, none_left))
steps_before-none (dropping packet rest) none_left = absurd (omega (arith, none_left))
steps_before-none leaving none_left = absurd (omega (arith, none_left))
steps_before-none joining none_left = refl
steps_before-none (unwinding e) none_left = refl

steps_before-most : (place : Main) → steps_before place ≤ 5
steps_before-most looping = omega arith
steps_before-most (handing packets) = omega arith
steps_before-most (submitting packet rest) = omega arith
steps_before-most (dropping packet rest) = omega arith
steps_before-most leaving = omega arith
steps_before-most joining = omega arith
steps_before-most (unwinding e) = omega arith

get_or-outside : (ws : List Worker) (i : ℕ) → length ws ≤ i → get_or ws i returned ≡ returned
get_or-outside [] i over = refl
get_or-outside (w ∷ ws) zero over = absurd (omega (arith, over))
get_or-outside (w ∷ ws) (suc i) over = get_or-outside ws i (omega (arith, over))

module _ (Kernel : Type 0) (receive : Kernel → ℕ → Kernel × Result (Option (ReceivedDatagram × ℕ)))
    (handler : SensorSample → Option Exception) where
  abbrev State : Type 0
  State = RuntimeState Kernel receive handler

  abbrev pub move : Move → State → State
  move (main_moves answer) st = main_step Kernel receive handler true answer st
  move (worker_moves i) st = thread_step Kernel receive handler i st
  move (worker_wakes i) st = wake_thread Kernel receive handler i st

  unfoldable pub move_all : List Move → State → State
  move_all [] st = st
  move_all (m ∷ moves) st = move_all moves (move m st)

  after_submit-steps_before :
      (st : State) (packet : ReceivedPacket) (rest : List ReceivedPacket)
      (pipeline : WorkerPipeline) (result : SubmitResult)
      → steps_before (after_submit Kernel receive handler st packet rest pipeline result).main ≤ 4
  unfolding after_submit
  after_submit-steps_before st packet rest pipeline queue_full = omega arith
  after_submit-steps_before st packet rest pipeline accepted = omega arith
  after_submit-steps_before st packet rest pipeline SubmitResult.stopped = omega arith

  main_step-steps_before :
      (place : Main) (answer : EpollWait) (st : State)
      → st.main ≡ place
      → steps_before (main_step_at Kernel receive handler place true answer st).main
        ≤ steps_before place - 1
  unfolding main_step_at
  main_step-steps_before looping answer st e = omega arith
  main_step-steps_before (handing []) answer st e = omega arith
  main_step-steps_before (handing (packet ∷ rest)) answer st e = omega arith
  main_step-steps_before (submitting packet rest) answer st e =
      after_submit-steps_before st packet rest _ _
  main_step-steps_before (dropping packet rest) answer st e = omega arith
  main_step-steps_before leaving answer st e = omega arith
  main_step-steps_before joining answer st e = omega (arith, ap steps_before e)
  main_step-steps_before (unwinding x) answer st e = omega (arith, ap steps_before e)

  module _ (config : RuntimeConfig) where
    abbrev Reached : State → Type 0
    Reached st = Run Kernel receive handler config st

    worker-Reached : (i : ℕ) (st : State) → Reached st → Reached (move (worker_moves i) st)
    unfolding worker_step_at
    worker-Reached i st run = elim (Bool-cases (ltb i (length st.pipeline.workers))) [
      | inl inside ↦ thread_stepped i (ground (arith, inside)) run
      | inr outside ↦
          subst (λ w. Reached (worker_step_at Kernel receive handler w i st))
            (sym (get_or-outside st.pipeline.workers i (ground (arith, outside)))) run
    ]

    moves-ended :
        (moves : List Move) (st : State)
        → Reached st
        → steps_before st.main ≤ count_main moves
        → Reached (move_all moves st) × (is_ending (move_all moves st).main ≡ true)
    unfolding move_all
    moves-ended [] st run few = (run, steps_before-none st.main few)
    moves-ended (main_moves answer ∷ moves) st run few =
        moves-ended moves (move (main_moves answer) st) (main_stepped true answer run)
          (omega (arith, few, main_step-steps_before st.main answer st refl))
    moves-ended (worker_moves i ∷ moves) st run few =
        moves-ended moves (move (worker_moves i) st) (worker-Reached i st run) (
          omega (
            arith,
            few,
            ap steps_before (
                worker_step_at-main Kernel receive handler (get_or st.pipeline.workers i returned) i
                  st),
          ))
    moves-ended (worker_wakes i ∷ moves) st run few =
        moves-ended moves (move (worker_wakes i) st) (thread_woken i run) few

    -- A run can be stopped: from any of its states, while the predicate `stop_requested` holds, the
    -- main thread is out of the loop after at most five steps of its own, in whatever order they
    -- are taken with those of the worker threads, and whatever the sockets would give; it then
    -- waits for the workers, none of which sleeps any more, and this wait ends.
    pub Run-move_all :
        (st : State) (moves : List Move)
        → Run Kernel receive handler config st
        → 5 ≤ count_main moves
        → (is_ending (move_all moves st).main ≡ true)
          × Joins Kernel receive handler config (move_all moves st)
    Run-move_all st moves run enough =
        let most = steps_before-most st.main in
        let (run', ending) = moves-ended moves st run (omega (arith, enough, most)) in
        (ending, Run-Joins Kernel receive handler config (move_all moves st) run' ending)
