-- ===== src/Programs/Runtime/Outcome.antt =====
-- apps/runtime_main.cpp: how the program ends on a command line that it accepts.
use driveflow_runtime.Prelude.{ℕ, ◌+◌, ◌%◌, ◌^◌, ◌≡◌, Bool, true, Option, List, []}
use driveflow_runtime.Prelude.Result.{Result, ok, throws, Exception}
use driveflow_runtime.Net.{Text, ReceivedDatagram}
use driveflow_runtime.Net.Socket.{System}
use driveflow_runtime.Runtime.Samples.Counts
use driveflow_runtime.Runtime.Pipeline.Create.{Threads}
use driveflow_runtime.Runtime.Pipeline.Created.{Refused}
use driveflow_runtime.Runtime.Pipeline.Drain.{AllReturned}
use driveflow_runtime.Runtime.Receiver.{EpollReceiver}
use driveflow_runtime.Runtime.Receiver.Create.{Created, create_receiver}
use driveflow_runtime.Runtime.Config.{RuntimeConfig}
use driveflow_runtime.Runtime.Loop.State.{RuntimeState, RuntimeSummary, unwinding}
use driveflow_runtime.Runtime.Loop.Steps.{Run}
use driveflow_runtime.Runtime.Loop.Started.{StartsFrom}
use driveflow_runtime.Runtime.Health.Order.{Ascending}
use driveflow_runtime.Runtime.Loop.Invariant.{is_within}
use driveflow_runtime.Programs.Runtime.Defs.{
  RuntimeExit, main_end, runtime_failed, no_handler, MainEnds,
}

module _ (Kernel : Type 0) (receive : Kernel → ℕ → Kernel × Result (Option (ReceivedDatagram × ℕ)))
    (kernel : Kernel) (system : System) (is_ipv4_address : Text → Bool) (argv : List Text)
    (s : system.State) (config : RuntimeConfig) where
  -- How the program ends.
  pub data Verdict : RuntimeExit → Type 0 where
    -- a call of the system failed as the sockets were made
    no_receiver :
        (e : Exception)
        → (create_receiver system config.receiver s).0 ≡ throws e
        → Verdict (runtime_failed [] e)
    -- the system refused the pipeline room for its threads, or one of them
    not_started :
        (receiver : EpollReceiver) (threads : Threads) (e : Exception)
        → Refused threads config.pipeline e
        → Verdict (main_end receiver.listeners (throws e))
    -- a poll threw, and the workers returned
    poll_threw :
        (receiver : EpollReceiver) (e : Exception) (st : RuntimeState Kernel receive no_handler)
        → (run : Run Kernel receive no_handler config st)
        → StartsFrom Kernel receive no_handler receiver kernel run
        → st.main ≡ unwinding e
        → AllReturned st.pipeline
        → Verdict (main_end receiver.listeners (throws e))
    -- the summary is printed, and its numbers agree
    reported :
        (receiver : EpollReceiver) (summary : RuntimeSummary)
        → summary.packets_received
          ≡ (summary.sample_metrics.packets_examined
              + summary.pipeline_metrics.packets_dropped_queue_full)
            % 2 ^ 64
        → summary.pipeline_metrics.packets_rejected_stopped ≡ 0
        → is_within config.packet_count summary.packets_received ≡ true
        → Counts.IsValid summary.sample_metrics
        → Ascending summary.source_health
        → Verdict (main_end receiver.listeners (ok summary))

  abbrev Ends : RuntimeExit → Type 0
  Ends exit = MainEnds Kernel receive kernel system is_ipv4_address true argv s exit

  abbrev throwing : Exception → Result EpollReceiver
  throwing e = throws e
