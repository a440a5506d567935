-- ===== src/Runtime/Loop/Invariant.antt =====
-- runtime.cpp: what holds in every state of a run, whatever the threads, the sockets and the handler
-- do.
use driveflow_runtime.Prelude.{
  ℕ, ◌+◌, ◌%◌, ◌^◌, ◌<◌, ◌≡◌, refl, sym, ap, ◌∙◌, Bool, true, false, Option, none, some, List, ◌∷◌,
  arith, leb,
}
use driveflow_runtime.Prelude.Result.{Result, ok, throws, Exception}
use driveflow_runtime.Net.{ReceivedDatagram}
use driveflow_runtime.Runtime.Received.{ReceivedPacket, increment}
use driveflow_runtime.Runtime.Health.{observe_packet, observe_issue, queue_dropped}
use driveflow_runtime.Runtime.Health.Table.{InStep, observe_packet-InStep, observe_issue-InStep}
use driveflow_runtime.Runtime.Samples.{SensorSample}
use driveflow_runtime.Runtime.Samples.Counts
use driveflow_runtime.Runtime.Samples.Counts.{process-IsValid}
use driveflow_runtime.Runtime.Pipeline.{request_stop}
use driveflow_runtime.Runtime.Pipeline.Run
use driveflow_runtime.Runtime.Pipeline.Steps.{request_stop-IsValid}
use driveflow_runtime.Runtime.Receiver.{EpollWait}
use driveflow_runtime.Runtime.Receiver.Setup.{poll_within}
use driveflow_runtime.Runtime.Loop.State.{
  Main, looping, handing, submitting, dropping, leaving, joining, unwinding, limit_reached,
  RuntimeState,
}
use driveflow_runtime.Runtime.Loop.Steps.{after_poll, poll_packets}
use driveflow_runtime.Runtime.Loop.Phases.{count_examined, is_settled}

abbrev pub is_ending : Main → Bool
is_ending looping = false
is_ending (handing packets) = false
is_ending (submitting packet rest) = false
is_ending (dropping packet rest) = false
is_ending leaving = false
is_ending joining = true
is_ending (unwinding e) = true

-- A packet that `try_submit` has refused and `packets_received` not yet counted.
abbrev pub reporting : Main → ℕ
reporting looping = 0
reporting (handing packets) = 0
reporting (submitting packet rest) = 0
reporting (dropping packet rest) = 1
reporting leaving = 0
reporting joining = 0
reporting (unwinding e) = 0

-- A packet that was taken on and `packets_received` has not yet counted.
abbrev pub in_hand : Main → ℕ
in_hand looping = 0
in_hand (handing packets) = 0
in_hand (submitting packet rest) = 1
in_hand (dropping packet rest) = 1
in_hand leaving = 0
in_hand joining = 0
in_hand (unwinding e) = 0

abbrev pub is_within : Option ℕ → ℕ → Bool
is_within none packets_received = true
is_within (some n) packets_received = leb packets_received n

module _ (Kernel : Type 0) (receive : Kernel → ℕ → Kernel × Result (Option (ReceivedDatagram × ℕ)))
    (handler : SensorSample → Option Exception) where
  -- What holds of the state of a run.
  pub record IsSound (st : RuntimeState Kernel receive handler) : Type 0 where
    pub pipeline : Run.IsValid st.pipeline
    pub monitor : InStep st.health_monitor
    pub samples : Counts.IsValid st.sample_metrics
    pub ending : st.pipeline.stop_requested ≡ is_ending st.main
    pub none_stopped : st.pipeline.metrics.packets_rejected_stopped ≡ 0
    pub counted :
        (st.packets_received + reporting st.main) % 2 ^ 64
        ≡ (st.pipeline.metrics.packets_submitted + st.pipeline.metrics.packets_dropped_queue_full)
          % 2 ^ 64
    pub fits : st.packets_received < 2 ^ 64
    pub within : is_within st.config.packet_count (st.packets_received + in_hand st.main) ≡ true
    pub settled : is_settled st.pipeline.workers st.phases ≡ true
    pub examined :
        st.sample_metrics.packets_examined % 2 ^ 64
        ≡ (st.pipeline.metrics.packets_processed
            + st.pipeline.metrics.handler_failures
            + count_examined st.phases)
          % 2 ^ 64

  -- A step of the main thread that touches no other state.
  pub moved-IsSound :
      (st : RuntimeState Kernel receive handler) (m m' : Main)
      → IsSound st
      → st.main ≡ m
      → is_ending m ≡ is_ending m'
      → reporting m ≡ reporting m'
      → in_hand m ≡ in_hand m'
      → IsSound (record st { main = m' })
  moved-IsSound st m m' s e ending reports hand = record {
    pipeline = s.pipeline;
    monitor = s.monitor;
    samples = s.samples;
    ending = s.ending ∙ ap is_ending e ∙ ending;
    none_stopped = s.none_stopped;
    counted = omega (arith, s.counted, ap reporting e, reports);
    fits = s.fits;
    within =
        ap (λ n. is_within st.config.packet_count (st.packets_received + n))
          (sym hand ∙ sym (ap in_hand e))
        ∙ s.within;
    settled = s.settled;
    examined = s.examined;
  }

  pub stopped-IsSound :
      (st : RuntimeState Kernel receive handler) (m m' : Main)
      → IsSound st
      → st.main ≡ m
      → is_ending m' ≡ true
      → reporting m ≡ reporting m'
      → in_hand m ≡ in_hand m'
      → IsSound (record st { pipeline = request_stop st.pipeline; main = m' })
  unfolding request_stop
  stopped-IsSound st m m' s e ending reports hand = record {
    pipeline = request_stop-IsValid st.pipeline s.pipeline;
    monitor = s.monitor;
    samples = s.samples;
    ending = sym ending;
    none_stopped = s.none_stopped;
    counted = omega (arith, s.counted, ap reporting e, reports);
    fits = s.fits;
    within =
        ap (λ n. is_within st.config.packet_count (st.packets_received + n))
          (sym hand ∙ sym (ap in_hand e))
        ∙ s.within;
    settled = s.settled;
    examined = s.examined;
  }

  after_poll-IsSound :
      (st : RuntimeState Kernel receive handler) (packets : Result (List ReceivedPacket))
      → IsSound st
      → st.main ≡ looping
      → IsSound (after_poll Kernel receive handler st packets)
  unfolding after_poll
  after_poll-IsSound st (ok packets) s e =
      moved-IsSound st looping (handing packets) s e refl refl refl
  after_poll-IsSound st (throws x) s e = stopped-IsSound st looping (unwinding x) s e refl refl refl

  pub poll_packets-IsSound :
      (answer : EpollWait) (st : RuntimeState Kernel receive handler)
      → IsSound st
      → st.main ≡ looping
      → IsSound (poll_packets Kernel receive handler answer st)
  unfolding poll_packets
  poll_packets-IsSound answer st s e =
      let polled = poll_within Kernel receive st.config.poll_timeout st.receiver answer st.kernel in
      after_poll-IsSound
        (record st {
          receiver = record st.receiver { metrics = polled.metrics };
          kernel = polled.kernel;
        })
        polled.packets
        (record {
          pipeline = s.pipeline;
          monitor = s.monitor;
          samples = s.samples;
          ending = s.ending;
          none_stopped = s.none_stopped;
          counted = s.counted;
          fits = s.fits;
          within = s.within;
          settled = s.settled;
          examined = s.examined;
        })
        e

  -- A packet is taken on only below the limit.
  below_limit :
      (st : RuntimeState Kernel receive handler)
      → limit_reached st.config.packet_count st.packets_received ≡ false
      → is_within st.config.packet_count (st.packets_received + 1) ≡ true
  unfolding limit_reached
  below_limit st e = ground (arith, e)

  pub observed-IsSound :
      (st : RuntimeState Kernel receive handler) (packet : ReceivedPacket)
      (rest : List ReceivedPacket)
      → IsSound st
      → st.main ≡ handing (packet ∷ rest)
      → limit_reached st.config.packet_count st.packets_received ≡ false
      → IsSound (record st {
        health_monitor = (observe_packet st.health_monitor packet).0;
        main = submitting packet rest;
      })
  observed-IsSound st packet rest s e below = record {
    pipeline = s.pipeline;
    monitor = observe_packet-InStep st.health_monitor packet s.monitor;
    samples = s.samples;
    ending = s.ending ∙ ap is_ending e;
    none_stopped = s.none_stopped;
    counted = omega (arith, s.counted, ap reporting e);
    fits = s.fits;
    within = below_limit st below;
    settled = s.settled;
    examined = s.examined;
  }

  pub dropped-IsSound :
      (st : RuntimeState Kernel receive handler) (packet : ReceivedPacket)
      (rest : List ReceivedPacket)
      → IsSound st
      → st.main ≡ dropping packet rest
      → IsSound (record st {
        health_monitor = observe_issue st.health_monitor packet queue_dropped;
        packets_received = increment st.packets_received;
        main = handing rest;
      })
  dropped-IsSound st packet rest s e = record {
    pipeline = s.pipeline;
    monitor = observe_issue-InStep st.health_monitor packet queue_dropped s.monitor;
    samples = s.samples;
    ending = s.ending ∙ ap is_ending e;
    none_stopped = s.none_stopped;
    counted = omega (arith, s.counted, ap reporting e);
    fits = omega arith;
    within = ground (arith, s.within, ap in_hand e);
    settled = s.settled;
    examined = s.examined;
  }
