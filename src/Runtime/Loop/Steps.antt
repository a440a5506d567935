-- ===== src/Runtime/Loop/Steps.antt =====
-- runtime.cpp: the steps of the thread that runs `Runtime::run` and of the worker threads, in any
-- order. A step takes in what happens outside the program: the answer of the stop predicate, the
-- result of epoll_wait and what the sockets give.
use driveflow_runtime.Prelude.{
  ℕ, ◌<◌, ◌≡◌, Bool, true, false, ◌||◌, Option, List, [], ◌∷◌, if◌then◌else◌, get_or, set, length,
}
use driveflow_runtime.Prelude.Result.{Result, ok, throws, Exception}
use driveflow_runtime.Net.{ReceivedDatagram}
use driveflow_runtime.Runtime.Received.{ReceivedPacket, increment}
use driveflow_runtime.Runtime.Health.{
  payload_rejected, queue_dropped, observe_packet, observe_issue, report,
}
use driveflow_runtime.Runtime.Samples.{SensorSample, process}
use driveflow_runtime.Runtime.Pipeline.{
  WorkerPipeline, Worker, waiting, running, returned, SubmitResult, accepted, queue_full,
  try_submit, request_stop, worker_wait, wake_spuriously, worker_finish,
}
use driveflow_runtime.Runtime.Pipeline.Create.{Threads}
use driveflow_runtime.Runtime.Receiver.{EpollReceiver, EpollWait}
use driveflow_runtime.Runtime.Receiver.Setup.{poll_within}
use driveflow_runtime.Runtime.Config.{RuntimeConfig}
use driveflow_runtime.Runtime.Loop.State.{
  Main, looping, handing, submitting, dropping, leaving, joining, unwinding, Phase, begun,
  rejecting, done, phase_after, limit_reached, RuntimeSummary, RuntimeState, start_state,
}

module _ (Kernel : Type 0) (receive : Kernel → ℕ → Kernel × Result (Option (ReceivedDatagram × ℕ)))
    (handler : SensorSample → Option Exception) where
  abbrev State : Type 0
  State = RuntimeState Kernel receive handler

  -- What a poll leads to.
  unfoldable pub after_poll : State → Result (List ReceivedPacket) → State
  after_poll st (ok packets) = record st { main = handing packets }
  after_poll st (throws e) = record st { pipeline = request_stop st.pipeline; main = unwinding e }

  unfoldable pub poll_packets : EpollWait → State → State
  unfolding after_poll
  poll_packets answer st =
      let polled = poll_within Kernel receive st.config.poll_timeout st.receiver answer st.kernel in
      after_poll
        (record st {
          receiver = record st.receiver { metrics = polled.metrics };
          kernel = polled.kernel;
        })
        polled.packets

  -- `pipeline.try_submit`, and `++packets_received` where nothing is to be reported before it.
  unfoldable pub after_submit :
      State → ReceivedPacket → List ReceivedPacket → WorkerPipeline → SubmitResult → State
  after_submit st packet rest pipeline queue_full = record st {
    pipeline = pipeline;
    main = dropping packet rest;
  }
  after_submit st packet rest pipeline accepted = record st {
    pipeline = pipeline;
    main = handing rest;
    packets_received = increment st.packets_received;
  }
  after_submit st packet rest pipeline SubmitResult.stopped = record st {
    pipeline = pipeline;
    main = handing rest;
    packets_received = increment st.packets_received;
  }

  -- A step of the thread that runs `run`.
  unfoldable pub main_step_at : Main → Bool → EpollWait → State → State
  unfolding poll_packets after_submit limit_reached
  main_step_at looping stop answer st =
      if stop || limit_reached st.config.packet_count st.packets_received
      then record st { main = leaving }
      else poll_packets answer st
  main_step_at (handing []) stop answer st = record st { main = looping }
  main_step_at (handing (packet ∷ rest)) stop answer st =
      if stop || limit_reached st.config.packet_count st.packets_received
      then record st { main = looping }
      else record st {
        health_monitor = (observe_packet st.health_monitor packet).0;
        main = submitting packet rest;
      }
  main_step_at (submitting packet rest) stop answer st =
      after_submit st packet rest (try_submit st.pipeline packet).0
        (try_submit st.pipeline packet).1
  main_step_at (dropping packet rest) stop answer st = record st {
    health_monitor = observe_issue st.health_monitor packet queue_dropped;
    packets_received = increment st.packets_received;
    main = handing rest;
  }
  main_step_at leaving stop answer st = record st {
    pipeline = request_stop st.pipeline;
    main = joining;
  }
  main_step_at joining stop answer st = st
  main_step_at (unwinding e) stop answer st = st

  abbrev pub main_step : Bool → EpollWait → State → State
  main_step stop answer st = main_step_at st.main stop answer st

  -- A step of the packet processor of the worker at `i`, or the end of it.
  unfoldable pub process_step : Phase → ℕ → ReceivedPacket → State → State
  unfolding phase_after
  process_step begun i packet st =
      let processed = process handler st.sample_metrics packet in
      record st {
        sample_metrics = processed.metrics;
        phases = set st.phases i (phase_after processed.outcome);
      }
  process_step rejecting i packet st = record st {
    health_monitor = observe_issue st.health_monitor packet payload_rejected;
    phases = set st.phases i (done false);
  }
  process_step (done threw) i packet st = record st {
    pipeline = worker_finish st.pipeline i threw;
    phases = set st.phases i begun;
  }

  unfoldable pub worker_step_at : Worker → ℕ → State → State
  unfolding process_step
  worker_step_at waiting i st = record st { pipeline = worker_wait st.pipeline i }
  worker_step_at (running packet) i st = process_step (get_or st.phases i begun) i packet st
  worker_step_at returned i st = st

  -- A step of the worker thread at `i`.
  abbrev pub thread_step : ℕ → State → State
  thread_step i st = worker_step_at (get_or st.pipeline.workers i returned) i st

  -- The thread at `i` wakes without a notification.
  abbrev pub wake_thread : ℕ → State → State
  wake_thread i st = record st { pipeline = wake_spuriously st.pipeline i }

  -- What follows the loop, once `stop` has joined the workers; `now` is the time read before it.
  unfoldable pub summarize : State → ℕ → RuntimeSummary
  summarize st now =
      let health_report = report st.health_monitor now in
      record {
        packets_received = st.packets_received;
        receiver_metrics = st.receiver.metrics;
        stream_metrics = health_report.stream_metrics;
        pipeline_metrics = st.pipeline.metrics;
        sample_metrics = st.sample_metrics;
        source_health = health_report.sources;
      }

  -- The states of a run: of a configuration that was checked, by steps of the threads in any order.
  pub data Run (config : RuntimeConfig) : State → Type 0 where
    start :
        {st : State} (threads : Threads) (receiver : EpollReceiver) (kernel : Kernel)
        → start_state Kernel receive handler true true threads config receiver kernel ≡ ok st
        → Run config st
    main_stepped :
        {st : State} (stop : Bool) (answer : EpollWait)
        → Run config st
        → Run config (main_step stop answer st)
    thread_stepped :
        {st : State} (i : ℕ)
        → i < length st.pipeline.workers
        → Run config st
        → Run config (thread_step i st)
    thread_woken : {st : State} (i : ℕ) → Run config st → Run config (wake_thread i st)
