-- ===== src/Runtime/Loop/Sources.antt =====
-- runtime.cpp: the health monitor of a run, which only its own calls change.
use driveflow_runtime.Prelude.{
  ℕ, ◌≡◌, subst, inl, inr, Bool, Bool-cases, true, ◌||◌, Option, List, [], ◌∷◌, arith,
}
use driveflow_runtime.Prelude.Result.{Result, ok, throws, Exception, Result-cases}
use driveflow_runtime.Net.{ReceivedDatagram}
use driveflow_runtime.Runtime.Received.{ReceivedPacket}
use driveflow_runtime.Runtime.Health.{payload_rejected, queue_dropped, make_monitor}
use driveflow_runtime.Runtime.Health.Events.{
  packet_observed, issue_observed, handle, IsCoherent, handle-IsCoherent, make_monitor-IsCoherent,
}
use driveflow_runtime.Runtime.Samples.{SensorSample}
use driveflow_runtime.Runtime.Pipeline.{
  WorkerPipeline, Worker, waiting, running, SubmitResult, queue_full, accepted,
}
use driveflow_runtime.Runtime.Pipeline.Create.{construct, kept}
use driveflow_runtime.Runtime.Receiver.{EpollWait}
use driveflow_runtime.Runtime.Receiver.Setup.{poll_within}
use driveflow_runtime.Runtime.Config.{RuntimeConfig}
use driveflow_runtime.Runtime.Loop.State.{
  RuntimeState, start_state, Main, looping, handing, submitting, dropping, leaving, joining,
  unwinding, limit_reached, Phase, begun, rejecting, done,
}
use driveflow_runtime.Runtime.Loop.Steps.{
  Run, start, main_stepped, thread_stepped, thread_woken, main_step_at, worker_step_at,
  poll_packets, after_poll, after_submit, process_step,
}

module _ (Kernel : Type 0) (receive : Kernel → ℕ → Kernel × Result (Option (ReceivedDatagram × ℕ)))
    (handler : SensorSample → Option Exception) where
  abbrev State : Type 0
  State = RuntimeState Kernel receive handler

  after_submit-IsCoherent :
      (st : State) (packet : ReceivedPacket) (rest : List ReceivedPacket)
      (pipeline : WorkerPipeline) (result : SubmitResult)
      → IsCoherent st.health_monitor
      → IsCoherent
          (after_submit Kernel receive handler st packet rest pipeline result).health_monitor
  unfolding after_submit
  after_submit-IsCoherent st packet rest pipeline queue_full c = c
  after_submit-IsCoherent st packet rest pipeline accepted c = c
  after_submit-IsCoherent st packet rest pipeline SubmitResult.stopped c = c

  after_poll-IsCoherent :
      (st : State) (polled : Result (List ReceivedPacket))
      → IsCoherent st.health_monitor
      → IsCoherent (after_poll Kernel receive handler st polled).health_monitor
  unfolding after_poll
  after_poll-IsCoherent st (ok packets) c = c
  after_poll-IsCoherent st (throws e) c = c

  main_step-IsCoherent :
      (place : Main) (stop : Bool) (answer : EpollWait) (st : State)
      → IsCoherent st.health_monitor
      → IsCoherent (main_step_at Kernel receive handler place stop answer st).health_monitor
  unfolding main_step_at poll_packets handle
  main_step-IsCoherent looping stop answer st c =
      elim (Bool-cases (stop || limit_reached st.config.packet_count st.packets_received)) [
        | inl out ↦ rw (out, main_step_at) c
        | inr on ↦
            rw (on, main_step_at)
              (let polled =
                  poll_within Kernel receive st.config.poll_timeout st.receiver answer st.kernel in
                after_poll-IsCoherent
                  (record st {
                    receiver = record st.receiver { metrics = polled.metrics };
                    kernel = polled.kernel;
                  })
                  polled.packets c)
      ]
  main_step-IsCoherent (handing []) stop answer st c = c
  main_step-IsCoherent (handing (packet ∷ rest)) stop answer st c =
      elim (Bool-cases (stop || limit_reached st.config.packet_count st.packets_received)) [
        | inl out ↦ rw (out, main_step_at) c
        | inr on ↦
            rw (on, main_step_at) (handle-IsCoherent st.health_monitor (packet_observed packet) c)
      ]
  main_step-IsCoherent (submitting packet rest) stop answer st c =
      after_submit-IsCoherent st packet rest _ _ c
  main_step-IsCoherent (dropping packet rest) stop answer st c =
      handle-IsCoherent st.health_monitor (issue_observed packet queue_dropped) c
  main_step-IsCoherent leaving stop answer st c = c
  main_step-IsCoherent joining stop answer st c = c
  main_step-IsCoherent (unwinding e) stop answer st c = c

  process_step-IsCoherent :
      (phase : Phase) (i : ℕ) (packet : ReceivedPacket) (st : State)
      → IsCoherent st.health_monitor
      → IsCoherent (process_step Kernel receive handler phase i packet st).health_monitor
  unfolding process_step handle
  process_step-IsCoherent begun i packet st c = c
  process_step-IsCoherent rejecting i packet st c =
      handle-IsCoherent st.health_monitor (issue_observed packet payload_rejected) c
  process_step-IsCoherent (done threw) i packet st c = c

  worker_step-IsCoherent :
      (worker : Worker) (i : ℕ) (st : State)
      → IsCoherent st.health_monitor
      → IsCoherent (worker_step_at Kernel receive handler worker i st).health_monitor
  unfolding worker_step_at
  worker_step-IsCoherent waiting i st c = c
  worker_step-IsCoherent (running packet) i st c = process_step-IsCoherent _ i packet st c
  worker_step-IsCoherent Worker.returned i st c = c

  -- In every state of a run the monitor knows the sources that its tracker knows, each once and
  -- with a consistent record.
  pub Run-IsCoherent :
      (config : RuntimeConfig) (st : State)
      → Run Kernel receive handler config st
      → IsCoherent st.health_monitor
  unfolding start_state
  Run-IsCoherent config st (start threads receiver kernel e) =
      elim (Result-cases (make_monitor config.health)) [
        | inr (x, bad) ↦ absurd (ground (arith, e, bad))
        | inl (m, monitor) ↦ elim (Result-cases (kept (construct threads config.pipeline true))) [
          | inr (x, bad) ↦ absurd (ground (arith, e, monitor, bad))
          | inl (p, pipeline) ↦
              let same : m ≡ st.health_monitor = ground (arith, e, monitor, pipeline) in
              subst IsCoherent same (make_monitor-IsCoherent config.health m monitor)
        ]
      ]
  Run-IsCoherent config st (main_stepped {st = before} stop answer run) =
      main_step-IsCoherent before.main stop answer before (Run-IsCoherent config before run)
  Run-IsCoherent config st (thread_stepped {st = before} i lt run) =
      worker_step-IsCoherent _ i before (Run-IsCoherent config before run)
  Run-IsCoherent config st (thread_woken {st = before} i run) = Run-IsCoherent config before run
