-- ===== src/Runtime/Loop/Complete.antt =====
-- runtime.cpp: what a run promises in every state, and of the summary it returns.
use driveflow_runtime.Prelude.{
  ℕ, ◌+◌, ◌%◌, ◌^◌, ◌≤◌, ◌≡◌, refl, ap, subst, ◌∙◌, true, Option, arith, length, replicate,
}
use driveflow_runtime.Prelude.Result.{Result, ok, throws, Exception, ◌>>=◌}
use driveflow_runtime.Net.{ReceivedDatagram}
use driveflow_runtime.Runtime.Health.{SourceHealthMonitor, SourceHealthMonitorConfig, make_monitor}
use driveflow_runtime.Runtime.Health
use driveflow_runtime.Runtime.Health.Table.{InStep, tracked, monitored}
use driveflow_runtime.Runtime.Tracker.{make_tracker}
use driveflow_runtime.Runtime.Samples.{SensorSample, no_metrics}
use driveflow_runtime.Runtime.Samples.Counts
use driveflow_runtime.Runtime.Pipeline.{WorkerPipeline, start_pipeline}
use driveflow_runtime.Runtime.Pipeline.Create.{Threads, construct, kept}
use driveflow_runtime.Runtime.Pipeline.Created.{construct-kept}
use driveflow_runtime.Runtime.Pipeline.Drain.{AllReturned, count_in_flight-returned}
use driveflow_runtime.Runtime.Pipeline.Steps.{start-IsValid}
use driveflow_runtime.Runtime.Receiver.{EpollReceiver}
use driveflow_runtime.Runtime.Config.{RuntimeConfig}
use driveflow_runtime.Runtime.Loop.State.{looping, joining, begun, RuntimeState, start_state}
use driveflow_runtime.Runtime.Loop.Steps.{
  summarize, Run, start, main_stepped, thread_stepped, thread_woken,
}
use driveflow_runtime.Runtime.Loop.Phases.{
  count_examined-begun, start-is_settled, count_examined-returned,
}
use driveflow_runtime.Runtime.Loop.Invariant.{is_within, reporting, in_hand, IsSound}
use driveflow_runtime.Runtime.Loop.Main.{main_step-IsSound}
use driveflow_runtime.Runtime.Loop.Threads.{thread_step-IsSound, wake_thread-IsSound}

make_monitor-InStep :
    (config : SourceHealthMonitorConfig) (m : SourceHealthMonitor)
    → make_monitor config ≡ ok m
    → InStep m
unfolding make_monitor Health.validate_config make_tracker tracked monitored
make_monitor-InStep config m e = ground (arith, e)

is_within-start : (count : Option ℕ) → is_within count (0 + 0) ≡ true
is_within-start count = ground arith

module _ (Kernel : Type 0) (receive : Kernel → ℕ → Kernel × Result (Option (ReceivedDatagram × ℕ)))
    (handler : SensorSample → Option Exception) where
  -- The first state, of the parts made.
  made :
      RuntimeConfig
      → EpollReceiver
      → Kernel
      → SourceHealthMonitor
      → WorkerPipeline
      → RuntimeState Kernel receive handler
  made config receiver kernel m p = record {
    config = config;
    receiver = receiver;
    kernel = kernel;
    health_monitor = m;
    sample_metrics = no_metrics;
    pipeline = p;
    packets_received = 0;
    main = looping;
    phases = replicate config.pipeline.worker_count begun;
  }

  made-IsSound :
      (config : RuntimeConfig) (receiver : EpollReceiver) (kernel : Kernel)
      (m : SourceHealthMonitor)
      → InStep m
      → 1 ≤ config.pipeline.worker_count
      → IsSound Kernel receive handler
          (made config receiver kernel m (start_pipeline config.pipeline))
  unfolding made
  made-IsSound config receiver kernel m in_step positive = record {
    pipeline = start-IsValid config.pipeline positive;
    monitor = in_step;
    samples = record { examined = refl; decoded = refl };
    ending = refl;
    none_stopped = refl;
    counted = refl;
    fits = omega arith;
    within = is_within-start config.packet_count;
    settled = start-is_settled config.pipeline.worker_count;
    examined = omega (arith, count_examined-begun config.pipeline.worker_count);
  }

  started-IsSound :
      (config : RuntimeConfig) (receiver : EpollReceiver) (kernel : Kernel)
      (st : RuntimeState Kernel receive handler) (threads : Threads)
      (mm : Result SourceHealthMonitor) (pp : Result WorkerPipeline)
      → make_monitor config.health ≡ mm
      → kept (construct threads config.pipeline true) ≡ pp
      → (mm >>= λ m. pp >>= λ p. ok (made config receiver kernel m p)) ≡ ok st
      → IsSound Kernel receive handler st
  started-IsSound config receiver kernel st threads (ok m) (ok p) em ep e =
      let (same, positive) = construct-kept threads config.pipeline p ep in
      subst (IsSound Kernel receive handler) (ap (λ r. elim r [ ok x ↦ x | throws x ↦ st ]) e) (
        subst (λ q. IsSound Kernel receive handler (made config receiver kernel m q)) same
          (made-IsSound config receiver kernel m (make_monitor-InStep config.health m em) positive))
  started-IsSound config receiver kernel st threads (throws x) pp em ep e = cc
  started-IsSound config receiver kernel st threads (ok m) (throws x) em ep e = cc

  pub Run-IsSound :
      (config : RuntimeConfig) (st : RuntimeState Kernel receive handler)
      → Run Kernel receive handler config st
      → IsSound Kernel receive handler st
  unfolding start_state made
  Run-IsSound config st (start threads receiver kernel e) =
      started-IsSound config receiver kernel st threads (make_monitor config.health)
        (kept (construct threads config.pipeline true)) refl refl e
  Run-IsSound config st (main_stepped {st = before} stop answer run) =
      main_step-IsSound Kernel receive handler stop answer before (Run-IsSound config before run)
  Run-IsSound config st (thread_stepped {st = before} i lt run) =
      thread_step-IsSound Kernel receive handler i before (Run-IsSound config before run) lt
  Run-IsSound config st (thread_woken {st = before} i run) =
      wake_thread-IsSound Kernel receive handler i before (Run-IsSound config before run)

  -- When a run has left its loop and all workers have returned, whatever the threads, the sockets,
  -- the stop predicate and the handler did: the packets counted as received are those that the
  -- sample processor examined and those dropped at a full queue (up to 2 ^ 64), none was refused by
  -- a stopped pipeline, they are no more than the packet count, the counters of the samples agree,
  -- and the monitor reports on the sources that the tracker tracks.
  pub Run-summarize :
      (config : RuntimeConfig) (st : RuntimeState Kernel receive handler) (now : ℕ)
      → Run Kernel receive handler config st
      → st.main ≡ joining
      → AllReturned st.pipeline
      → ((summarize Kernel receive handler st now).packets_received
          ≡ ((summarize Kernel receive handler st now).sample_metrics.packets_examined
              + (summarize Kernel receive handler st
                  now).pipeline_metrics.packets_dropped_queue_full)
            % 2 ^ 64)
        × ((summarize Kernel receive handler st now).pipeline_metrics.packets_rejected_stopped ≡ 0)
        × (is_within st.config.packet_count
              (summarize Kernel receive handler st now).packets_received
            ≡ true)
        × Counts.IsValid (summarize Kernel receive handler st now).sample_metrics
        × InStep st.health_monitor
  unfolding summarize
  Run-summarize config st now run e all =
      let s = Run-IsSound config st run in
      let v = s.pipeline in
      let all_counted : st.packets_received ≡ st.packets_received + in_hand st.main =
        omega (arith, ap in_hand e) in
      let idle =
        v.drained 0 (omega (arith, v.workers, v.some_worker))
          (all 0 (omega (arith, v.workers, v.some_worker))) in
      (
        omega (
          arith,
          s.fits,
          s.counted,
          ap reporting e,
          v.accounted,
          count_in_flight-returned st.pipeline.workers all,
          ap length idle.1,
          s.examined,
          count_examined-returned st.pipeline.workers st.phases s.settled all,
        ),
        s.none_stopped,
        ap (is_within st.config.packet_count) all_counted ∙ s.within,
        s.samples,
        s.monitor,
      )
