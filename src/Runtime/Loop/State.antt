-- ===== src/Runtime/Loop/State.antt =====
-- runtime.cpp: the state of `Runtime::run`, with the places of the thread that runs it and of the
-- worker threads.
use Prim.Native.String.{String}
use driveflow_runtime.Prelude.{
  ℕ, Bool, true, false, Option, none, some, List, leb, if◌then◌else◌, replicate,
}
use driveflow_runtime.Prelude.Result.{Result, ok, throws, Exception, invalid_argument, ◌>>=◌, ◌>>◌}
use driveflow_runtime.Net.{ReceivedDatagram}
use driveflow_runtime.Protocol.Sensor.{
  SensorPayloadError, no_error, unknown_message_type, size_mismatch, non_finite_number,
  value_out_of_range,
}
use driveflow_runtime.Runtime.Received.{ReceivedPacket}
use driveflow_runtime.Runtime.Tracker.{SensorStreamMetrics}
use driveflow_runtime.Runtime.Health.{SourceHealthMonitor, SourceHealthSnapshot, make_monitor}
use driveflow_runtime.Runtime.Samples.{SensorSample, SensorSampleProcessorMetrics, no_metrics}
use driveflow_runtime.Runtime.Pipeline.{WorkerPipeline, WorkerPipelineMetrics}
use driveflow_runtime.Runtime.Pipeline.Create.{Threads, construct, kept}
use driveflow_runtime.Runtime.Receiver.{EpollReceiver, ReceiverMetrics}
use driveflow_runtime.Runtime.Config.{RuntimeConfig}

-- Where the thread that runs `Runtime::run` stands.
pub data Main : Type 0 where
  -- at the condition of the `while`
  looping : Main
  -- at the head of the `for`, with these packets to go
  handing : List ReceivedPacket → Main
  -- before `try_submit`
  submitting : ReceivedPacket → List ReceivedPacket → Main
  -- before `observe_issue`, the queue being full
  dropping : ReceivedPacket → List ReceivedPacket → Main
  -- before `pipeline.stop()`
  leaving : Main
  -- in `join_workers`, to return
  joining : Main
  -- in `join_workers` as the pipeline is destroyed, with an exception of the receiver's
  unwinding : Exception → Main

-- Where a worker stands in the packet processor of `Runtime::run`: before `sample_processor.process`,
-- before `observe_issue`, or at the end, having thrown or not.
pub data Phase : Type 0 where
  begun rejecting : Phase
  done : Bool → Phase

unfoldable pub phase_after : Result SensorPayloadError → Phase
phase_after (throws e) = done true
phase_after (ok no_error) = done false
phase_after (ok unknown_message_type) = rejecting
phase_after (ok size_mismatch) = rejecting
phase_after (ok non_finite_number) = rejecting
phase_after (ok value_out_of_range) = rejecting

abbrev pub require : Bool → String → Result (Unit {0})
require present message = if present then ok tt else throws (invalid_argument message)

-- `limit_reached`
unfoldable pub limit_reached : Option ℕ → ℕ → Bool
limit_reached none packets_received = false
limit_reached (some n) packets_received = leb n packets_received

pub record RuntimeSummary : Type 0 where
  pub packets_received : ℕ
  pub receiver_metrics : ReceiverMetrics
  pub stream_metrics : SensorStreamMetrics
  pub pipeline_metrics : WorkerPipelineMetrics
  pub sample_metrics : SensorSampleProcessorMetrics
  pub source_health : List SourceHealthSnapshot

module _ (Kernel : Type 0) (receive : Kernel → ℕ → Kernel × Result (Option (ReceivedDatagram × ℕ)))
    (handler : SensorSample → Option Exception) where
  -- The variables of `run`, and the place of each thread.
  pub record RuntimeState : Type 0 where
    pub config : RuntimeConfig
    pub receiver : EpollReceiver
    pub kernel : Kernel
    pub health_monitor : SourceHealthMonitor
    pub sample_metrics : SensorSampleProcessorMetrics
    pub pipeline : WorkerPipeline
    pub packets_received : ℕ
    pub main : Main
    pub phases : List Phase

  -- The head of `run`; `has_predicate` and `has_handler` are the tests of the two functions.
  unfoldable pub start_state :
      Bool → Bool → Threads → RuntimeConfig → EpollReceiver → Kernel → Result RuntimeState
  start_state has_predicate has_handler threads config receiver kernel = do
    require has_predicate "runtime stop predicate must not be empty"
    require has_handler "runtime sample handler must not be empty"
    health_monitor ← make_monitor config.health
    pipeline ← kept (construct threads config.pipeline true)
    ok (record {
      config = config;
      receiver = receiver;
      kernel = kernel;
      health_monitor = health_monitor;
      sample_metrics = no_metrics;
      pipeline = pipeline;
      packets_received = 0;
      main = looping;
      phases = replicate config.pipeline.worker_count begun;
    })
