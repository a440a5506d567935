-- ===== src/Runtime/Loop/Threads.antt =====
-- runtime.cpp: each step of a worker thread keeps what holds of the state of a run.
use driveflow_runtime.Prelude.{
  ◌==◌, ◌-◌, ℕ, ◌<◌, ◌≡◌, refl, sym, ap, subst, ◌∙◌, inl, inr, ◌⊎◌, Bool, Bool-cases, true, false,
  ◌||◌, Option, List, [], ◌∷◌, arith, length, get_or, set,
}
use driveflow_runtime.Prelude.Result.{Result, Exception}
use driveflow_runtime.Net.{ReceivedDatagram}
use driveflow_runtime.Protocol.Sensor.{SensorPayloadError}
use driveflow_runtime.Runtime.Received.{ReceivedPacket, increment}
use driveflow_runtime.Runtime.Health.{payload_rejected}
use driveflow_runtime.Runtime.Health.Table.{observe_issue-InStep}
use driveflow_runtime.Runtime.Samples.{
  SensorSample, SensorSampleProcessorMetrics, process, process_decoded, count_type,
}
use driveflow_runtime.Runtime.Samples.Counts.{process-IsValid}
use driveflow_runtime.Runtime.Pipeline.{
  Worker, waiting, running, returned, worker_wake, worker_wait, wake_spuriously, worker_finish,
}
use driveflow_runtime.Runtime.Pipeline.Run
use driveflow_runtime.Runtime.Pipeline.Steps.{
  worker_finish-IsValid, took-IsValid, found_none-IsValid, worker_wake-took, worker_wake-none,
  worker_wait-asleep, worker_wait-awake, woken-IsValid,
}
use driveflow_runtime.Runtime.Loop.State.{Phase, begun, rejecting, done, phase_after, RuntimeState}
use driveflow_runtime.Runtime.Loop.Steps.{wake_thread, process_step, worker_step_at, thread_step}
use driveflow_runtime.Runtime.Loop.Phases.{
  is_running, examined_in, count_examined-set, is_begun, is_settled, length-is_settled,
  get_or-is_settled, set-is_settled, set-same,
}
use driveflow_runtime.Runtime.Loop.Invariant.{IsSound}

process-examined :
    (handler : SensorSample → Option Exception) (m : SensorSampleProcessorMetrics)
    (p : ReceivedPacket)
    → (process handler m p).metrics.packets_examined ≡ increment m.packets_examined
unfolding process process_decoded count_type
process-examined handler m p = ground arith

phase_after-examined : (outcome : Result SensorPayloadError) → examined_in (phase_after outcome) ≡ 1
unfolding phase_after
phase_after-examined outcome = ground arith

module _ (Kernel : Type 0) (receive : Kernel → ℕ → Kernel × Result (Option (ReceivedDatagram × ℕ)))
    (handler : SensorSample → Option Exception) where
  abbrev Sound : RuntimeState Kernel receive handler → Type 0
  Sound st = IsSound Kernel receive handler st

  took-IsSound :
      (st : RuntimeState Kernel receive handler) (i : ℕ) (queue : List ReceivedPacket)
      → Sound st
      → i < length st.pipeline.workers
      → get_or st.pipeline.workers i returned ≡ waiting
      → st.pipeline.queue ≡ queue
      → Sound (record st { pipeline = worker_wake st.pipeline i })
  took-IsSound st i (packet ∷ rest) s lt e q =
      subst (λ p. Sound (record st { pipeline = p }))
        (sym (worker_wake-took st.pipeline i packet rest q))
        (record {
          pipeline = took-IsValid st.pipeline i packet rest s.pipeline lt e q;
          monitor = s.monitor;
          samples = s.samples;
          ending = s.ending;
          none_stopped = s.none_stopped;
          counted = s.counted;
          fits = s.fits;
          within = s.within;
          settled =
              ap (λ ps. is_settled (set st.pipeline.workers i (running packet)) ps)
                (sym (set-same begun st.phases i))
              ∙ set-is_settled st.pipeline.workers st.phases i (running packet)
                  (get_or st.phases i begun) s.settled refl;
          examined = s.examined;
        })
  took-IsSound st i [] s lt e q = elim (Bool-cases st.pipeline.stop_requested) [
    | inl stop ↦
        let left : worker_wake st.pipeline i
            ≡ record st.pipeline { workers = set st.pipeline.workers i returned } =
          worker_wake-none st.pipeline i q ∙ rw stop refl in
        subst (λ p. Sound (record st { pipeline = p })) (sym left)
          (record {
            pipeline = subst Run.IsValid left (found_none-IsValid st.pipeline i s.pipeline lt e q);
            monitor = s.monitor;
            samples = s.samples;
            ending = s.ending;
            none_stopped = s.none_stopped;
            counted = s.counted;
            fits = s.fits;
            within = s.within;
            settled =
                ap (λ ps. is_settled (set st.pipeline.workers i returned) ps)
                  (sym (set-same begun st.phases i))
                ∙ set-is_settled st.pipeline.workers st.phases i returned (get_or st.phases i begun)
                    s.settled
                    (ap (λ w. is_running w || is_begun (get_or st.phases i begun)) (sym e)
                      ∙ get_or-is_settled st.pipeline.workers st.phases i s.settled);
            examined = s.examined;
          })
    | inr on ↦
        let same : worker_wake st.pipeline i
            ≡ record st.pipeline { asleep = set st.pipeline.asleep i true } =
          worker_wake-none st.pipeline i q ∙ rw on refl in
        subst (λ p. Sound (record st { pipeline = p })) (sym same)
          (record {
            pipeline = subst Run.IsValid same (found_none-IsValid st.pipeline i s.pipeline lt e q);
            monitor = s.monitor;
            samples = s.samples;
            ending = s.ending;
            none_stopped = s.none_stopped;
            counted = s.counted;
            fits = s.fits;
            within = s.within;
            settled = s.settled;
            examined = s.examined;
          })
  ]

  -- A thread is woken, whatever becomes of the notifications.
  woken-IsSound :
      (st : RuntimeState Kernel receive handler) (i signals : ℕ)
      → Sound st
      → Sound (record st {
        pipeline = record st.pipeline {
          asleep = set st.pipeline.asleep i false;
          signals = signals;
        };
      })
  woken-IsSound st i signals s = record {
    pipeline = woken-IsValid st.pipeline i signals s.pipeline;
    monitor = s.monitor;
    samples = s.samples;
    ending = s.ending;
    none_stopped = s.none_stopped;
    counted = s.counted;
    fits = s.fits;
    within = s.within;
    settled = s.settled;
    examined = s.examined;
  }

  pub wake_thread-IsSound :
      (i : ℕ) (st : RuntimeState Kernel receive handler)
      → Sound st
      → Sound (wake_thread Kernel receive handler i st)
  unfolding wake_spuriously
  wake_thread-IsSound i st s = woken-IsSound st i st.pipeline.signals s

  -- A worker at its wait, asleep or awake.
  waited-IsSound :
      (i : ℕ) (st : RuntimeState Kernel receive handler)
      → Sound st
      → i < length st.pipeline.workers
      → get_or st.pipeline.workers i returned ≡ waiting
      → Sound (record st { pipeline = worker_wait st.pipeline i })
  waited-IsSound i st s lt e = elim (Bool-cases (get_or st.pipeline.asleep i false)) [
    | inl sleeping ↦
        subst (λ p. Sound (record st { pipeline = p }))
          (sym (worker_wait-asleep st.pipeline i sleeping))
          (elim (Bool-cases (st.pipeline.signals == 0)) [
            | inl none_left ↦ rw none_left s
            | inr some_left ↦ rw some_left (woken-IsSound st i (st.pipeline.signals - 1) s)
          ])
    | inr up ↦
        subst (λ p. Sound (record st { pipeline = p })) (sym (worker_wait-awake st.pipeline i up))
          (took-IsSound st i st.pipeline.queue s lt e refl)
  ]

  -- A phase of a running worker changes.
  phased-is_settled :
      (st : RuntimeState Kernel receive handler) (i : ℕ) (packet : ReceivedPacket) (p : Phase)
      → Sound st
      → get_or st.pipeline.workers i returned ≡ running packet
      → is_settled st.pipeline.workers (set st.phases i p) ≡ true
  phased-is_settled st i packet p s e =
      ap (λ ws. is_settled ws (set st.phases i p)) (sym (set-same returned st.pipeline.workers i))
      ∙ set-is_settled st.pipeline.workers st.phases i (get_or st.pipeline.workers i returned) p
          s.settled (ap (λ w. is_running w || is_begun p) e)

  finished-IsSound :
      (st : RuntimeState Kernel receive handler) (i : ℕ) (packet : ReceivedPacket) (threw : Bool)
      → Sound st
      → i < length st.pipeline.workers
      → get_or st.pipeline.workers i returned ≡ running packet
      → get_or st.phases i begun ≡ done threw
      → (threw ≡ true) ⊎ (threw ≡ false)
      → Sound (record st {
        pipeline = worker_finish st.pipeline i threw;
        phases = set st.phases i begun;
      })
  unfolding worker_finish
  finished-IsSound st i packet threw s lt e h c = record {
    pipeline = worker_finish-IsValid st.pipeline i packet threw s.pipeline lt e;
    monitor = s.monitor;
    samples = s.samples;
    ending = s.ending;
    none_stopped = ground (arith, s.none_stopped, c);
    counted = ground (arith, s.counted, c);
    fits = s.fits;
    within = s.within;
    settled = set-is_settled st.pipeline.workers st.phases i waiting begun s.settled refl;
    examined = ground (
      arith,
      s.examined,
      count_examined-set st.phases i begun
          (omega (arith, lt, length-is_settled st.pipeline.workers st.phases s.settled)),
      ap examined_in h,
      c,
    );
  }

  process_step-IsSound :
      (phase : Phase) (i : ℕ) (packet : ReceivedPacket) (st : RuntimeState Kernel receive handler)
      → Sound st
      → i < length st.pipeline.workers
      → get_or st.pipeline.workers i returned ≡ running packet
      → get_or st.phases i begun ≡ phase
      → Sound (process_step Kernel receive handler phase i packet st)
  unfolding process_step
  process_step-IsSound begun i packet st s lt e h =
      let outcome = (process handler st.sample_metrics packet).outcome in
      record {
        pipeline = s.pipeline;
        monitor = s.monitor;
        samples = process-IsValid handler st.sample_metrics packet s.samples;
        ending = s.ending;
        none_stopped = s.none_stopped;
        counted = s.counted;
        fits = s.fits;
        within = s.within;
        settled = phased-is_settled st i packet (phase_after outcome) s e;
        examined = omega (
          arith,
          s.examined,
          process-examined handler st.sample_metrics packet,
          count_examined-set st.phases i (phase_after outcome)
              (omega (arith, lt, length-is_settled st.pipeline.workers st.phases s.settled)),
          ap examined_in h,
          phase_after-examined outcome,
        );
      }
  process_step-IsSound rejecting i packet st s lt e h = record {
    pipeline = s.pipeline;
    monitor = observe_issue-InStep st.health_monitor packet payload_rejected s.monitor;
    samples = s.samples;
    ending = s.ending;
    none_stopped = s.none_stopped;
    counted = s.counted;
    fits = s.fits;
    within = s.within;
    settled = phased-is_settled st i packet (done false) s e;
    examined = omega (
      arith,
      s.examined,
      count_examined-set st.phases i (done false)
          (omega (arith, lt, length-is_settled st.pipeline.workers st.phases s.settled)),
      ap examined_in h,
    );
  }
  process_step-IsSound (done threw) i packet st s lt e h =
      finished-IsSound st i packet threw s lt e h (Bool-cases threw)

  worker_step_at-IsSound :
      (w : Worker) (i : ℕ) (st : RuntimeState Kernel receive handler)
      → Sound st
      → i < length st.pipeline.workers
      → get_or st.pipeline.workers i returned ≡ w
      → Sound (worker_step_at Kernel receive handler w i st)
  unfolding worker_step_at
  worker_step_at-IsSound waiting i st s lt e = waited-IsSound i st s lt e
  worker_step_at-IsSound (running packet) i st s lt e =
      process_step-IsSound (get_or st.phases i begun) i packet st s lt e refl
  worker_step_at-IsSound returned i st s lt e = s

  pub thread_step-IsSound :
      (i : ℕ) (st : RuntimeState Kernel receive handler)
      → Sound st
      → i < length st.pipeline.workers
      → Sound (thread_step Kernel receive handler i st)
  thread_step-IsSound i st s lt =
      worker_step_at-IsSound (get_or st.pipeline.workers i returned) i st s lt refl
