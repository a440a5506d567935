-- ===== src/Runtime/Loop/Started.antt =====
-- runtime.cpp: the parts of a run are made, and its configuration stays.
use driveflow_runtime.Prelude.{
  ℕ, ◌≡◌, ◌≢◌, refl, ◌∙◌, inl, inr, Bool, Bool-cases, true, ◌||◌, Option, List, [], ◌∷◌, arith,
}
use driveflow_runtime.Prelude.Result.{Result, ok, throws, Exception, Result-cases}
use driveflow_runtime.Net.{ReceivedDatagram}
use driveflow_runtime.Runtime.Received.{ReceivedPacket}
use driveflow_runtime.Runtime.Tracker.{make_tracker}
use driveflow_runtime.Runtime.Health.{make_monitor}
use driveflow_runtime.Runtime.Samples.{SensorSample}
use driveflow_runtime.Runtime.Pipeline.{
  WorkerPipeline, Worker, waiting, running, SubmitResult, queue_full, accepted,
}
use driveflow_runtime.Runtime.Pipeline.Create.{Threads, construct, kept}
use driveflow_runtime.Runtime.Pipeline.Created.{Refused, construct-Refused}
use driveflow_runtime.Runtime.Receiver.{EpollReceiver, EpollWait}
use driveflow_runtime.Runtime.Receiver.Setup.{poll_within}
use driveflow_runtime.Runtime.Config.{RuntimeConfig}
use driveflow_runtime.Runtime.Loop.Defs.{validate_config}
use driveflow_runtime.Runtime.Loop.State.{
  RuntimeState, start_state, Main, looping, handing, submitting, dropping, leaving, joining,
  unwinding, limit_reached, Phase, begun, rejecting, done,
}
use driveflow_runtime.Runtime.Loop.Steps.{
  Run, start, main_stepped, thread_stepped, thread_woken, main_step_at, worker_step_at,
  poll_packets, after_poll, after_submit, process_step,
}
use driveflow_runtime.Runtime.Loop.Accepted.{IsRunnable}

module _ (Kernel : Type 0) (receive : Kernel → ℕ → Kernel × Result (Option (ReceivedDatagram × ℕ)))
    (handler : SensorSample → Option Exception) where
  -- The run begins with this receiver and this kernel.
  unfoldable pub StartsFrom :
      EpollReceiver
      → Kernel
      → {config : RuntimeConfig} {st : RuntimeState Kernel receive handler}
      → Run Kernel receive handler config st
      → Type 0
  StartsFrom receiver kernel (start threads r k e) = (r ≡ receiver) × (k ≡ kernel)
  StartsFrom receiver kernel (main_stepped stop answer run) = StartsFrom receiver kernel run
  StartsFrom receiver kernel (thread_stepped i lt run) = StartsFrom receiver kernel run
  StartsFrom receiver kernel (thread_woken i run) = StartsFrom receiver kernel run

  monitor_made :
      (config : RuntimeConfig) (e : Exception)
      → IsRunnable config
      → make_monitor config.health ≢ throws e
  unfolding make_monitor make_tracker validate_config
  monitor_made config e r = λ failed. ground (arith, failed, r.monitor, r.runtime)

  -- `Runtime::run` throws before its loop, of a configuration that passed the checks, only where the
  -- system refuses the pipeline its threads.
  pub start_state-Refused :
      (threads : Threads) (config : RuntimeConfig) (receiver : EpollReceiver) (kernel : Kernel)
      (e : Exception)
      → IsRunnable config
      → start_state Kernel receive handler true true threads config receiver kernel ≡ throws e
      → Refused threads config.pipeline e
  unfolding start_state
  start_state-Refused threads config receiver kernel e r failed =
      elim (Result-cases (make_monitor config.health)) [
        | inr (x, bad) ↦ absurd (monitor_made config x r bad)
        | inl (m, monitor) ↦ elim (Result-cases (kept (construct threads config.pipeline true))) [
          | inr (x, bad) ↦
              construct-Refused threads config.pipeline e r.pipeline
                (bad ∙ ground (arith, failed, monitor, bad))
          | inl (p, pipeline) ↦ absurd (ground (arith, failed, monitor, pipeline))
        ]
      ]

  after_submit-config :
      (st : RuntimeState Kernel receive handler) (packet : ReceivedPacket)
      (rest : List ReceivedPacket) (pipeline : WorkerPipeline) (result : SubmitResult)
      → (after_submit Kernel receive handler st packet rest pipeline result).config ≡ st.config
  unfolding after_submit
  after_submit-config st packet rest pipeline queue_full = refl
  after_submit-config st packet rest pipeline accepted = refl
  after_submit-config st packet rest pipeline SubmitResult.stopped = refl

  after_poll-config :
      (st : RuntimeState Kernel receive handler) (polled : Result (List ReceivedPacket))
      → (after_poll Kernel receive handler st polled).config ≡ st.config
  unfolding after_poll
  after_poll-config st (ok packets) = refl
  after_poll-config st (throws e) = refl

  main_step-config :
      (place : Main) (stop : Bool) (answer : EpollWait) (st : RuntimeState Kernel receive handler)
      → (main_step_at Kernel receive handler place stop answer st).config ≡ st.config
  unfolding main_step_at poll_packets
  main_step-config looping stop answer st =
      elim (Bool-cases (stop || limit_reached st.config.packet_count st.packets_received)) [
        | inl out ↦ rw (out, main_step_at) refl
        | inr on ↦
            rw (on, main_step_at)
              (let polled =
                  poll_within Kernel receive st.config.poll_timeout st.receiver answer st.kernel in
                after_poll-config
                  (record st {
                    receiver = record st.receiver { metrics = polled.metrics };
                    kernel = polled.kernel;
                  })
                  polled.packets)
      ]
  main_step-config (handing []) stop answer st = refl
  main_step-config (handing (packet ∷ rest)) stop answer st =
      elim (Bool-cases (stop || limit_reached st.config.packet_count st.packets_received)) [
        | inl out ↦ rw (out, main_step_at) refl
        | inr on ↦ rw (on, main_step_at) refl
      ]
  main_step-config (submitting packet rest) stop answer st = after_submit-config st packet rest _ _
  main_step-config (dropping packet rest) stop answer st = refl
  main_step-config leaving stop answer st = refl
  main_step-config joining stop answer st = refl
  main_step-config (unwinding e) stop answer st = refl

  process_step-config :
      (phase : Phase) (i : ℕ) (packet : ReceivedPacket) (st : RuntimeState Kernel receive handler)
      → (process_step Kernel receive handler phase i packet st).config ≡ st.config
  unfolding process_step
  process_step-config begun i packet st = refl
  process_step-config rejecting i packet st = refl
  process_step-config (done threw) i packet st = refl

  thread_step-config :
      (worker : Worker) (i : ℕ) (st : RuntimeState Kernel receive handler)
      → (worker_step_at Kernel receive handler worker i st).config ≡ st.config
  unfolding worker_step_at
  thread_step-config waiting i st = refl
  thread_step-config (running packet) i st = process_step-config _ i packet st
  thread_step-config Worker.returned i st = refl

  pub Run-config :
      (config : RuntimeConfig) (st : RuntimeState Kernel receive handler)
      → Run Kernel receive handler config st
      → st.config ≡ config
  unfolding start_state
  Run-config config st (start threads receiver kernel e) =
      elim (Result-cases (make_monitor config.health)) [
        | inr (x, bad) ↦ absurd (ground (arith, e, bad))
        | inl (m, monitor) ↦ elim (Result-cases (kept (construct threads config.pipeline true))) [
          | inr (x, bad) ↦ absurd (ground (arith, e, monitor, bad))
          | inl (p, pipeline) ↦ ground (arith, e, monitor, pipeline)
        ]
      ]
  Run-config config st (main_stepped {st = before} stop answer run) =
      main_step-config before.main stop answer before ∙ Run-config config before run
  Run-config config st (thread_stepped {st = before} i lt run) =
      thread_step-config _ i before ∙ Run-config config before run
  Run-config config st (thread_woken {st = before} i run) = Run-config config before run
