-- ===== src/Runtime/Loop/Main.antt =====
-- runtime.cpp: each step of the main thread keeps what holds of the state of a run.
use driveflow_runtime.Prelude.{
  ℕ, ◌+◌, ◌≡◌, refl, sym, ap, subst, ◌∙◌, inl, inr, Bool, Bool-cases, true, not, ◌||◌, Option, List,
  [], ◌∷◌, ◌++◌, arith, max, length, leb,
}
use driveflow_runtime.Prelude.Result.{Result, Exception}
use driveflow_runtime.Net.{ReceivedDatagram}
use driveflow_runtime.Runtime.Received.{ReceivedPacket, increment}
use driveflow_runtime.Runtime.Samples.{SensorSample}
use driveflow_runtime.Runtime.Pipeline.{accepted, queue_full, try_submit, notify_one}
use driveflow_runtime.Runtime.Pipeline.Run
use driveflow_runtime.Runtime.Pipeline.Steps.{try_submit-IsValid}
use driveflow_runtime.Runtime.Receiver.{EpollWait}
use driveflow_runtime.Runtime.Loop.State.{
  Main, looping, handing, submitting, dropping, leaving, joining, unwinding, limit_reached,
  RuntimeState,
}
use driveflow_runtime.Runtime.Loop.Steps.{after_submit, main_step_at, main_step}
use driveflow_runtime.Runtime.Loop.Invariant.{
  is_ending, reporting, in_hand, is_within, IsSound, moved-IsSound, stopped-IsSound,
  poll_packets-IsSound, observed-IsSound, dropped-IsSound,
}

module _ (Kernel : Type 0) (receive : Kernel → ℕ → Kernel × Result (Option (ReceivedDatagram × ℕ)))
    (handler : SensorSample → Option Exception) where
  abbrev State : Type 0
  State = RuntimeState Kernel receive handler

  abbrev Sound : State → Type 0
  Sound st = IsSound Kernel receive handler st

  submitted-IsSound :
      (st : State) (packet : ReceivedPacket) (rest : List ReceivedPacket)
      → Sound st
      → st.main ≡ submitting packet rest
      → Sound (
          after_submit Kernel receive handler st packet rest
            (try_submit st.pipeline packet).0
            (try_submit st.pipeline packet).1)
  unfolding after_submit try_submit notify_one
  submitted-IsSound st packet rest s e =
      let open_yet : st.pipeline.accepting ≡ true =
        s.pipeline.closed ∙ ap not (s.ending ∙ ap is_ending e) in
      let valid = try_submit-IsValid st.pipeline packet s.pipeline in
      elim (Bool-cases (leb st.pipeline.config.queue_capacity (length st.pipeline.queue))) [
        | inl full ↦
            let refused : try_submit st.pipeline packet ≡ (
              record st.pipeline {
                metrics = record st.pipeline.metrics {
                  packets_dropped_queue_full =
                      increment st.pipeline.metrics.packets_dropped_queue_full;
                };
              },
              queue_full,
            ) =
              rw (open_yet, full) refl in
            subst (λ r. Sound (after_submit Kernel receive handler st packet rest r.0 r.1))
              (sym refused)
              (record {
                pipeline = subst Run.IsValid (ap (λ r. r.0) refused) valid;
                monitor = s.monitor;
                samples = s.samples;
                ending = s.ending ∙ ap is_ending e;
                none_stopped = s.none_stopped;
                counted = omega (arith, s.counted, ap reporting e);
                fits = s.fits;
                within =
                    ap (λ m. is_within st.config.packet_count (st.packets_received + in_hand m))
                      (sym e)
                    ∙ s.within;
                settled = s.settled;
                examined = s.examined;
              })
        | inr room ↦
            let taken : try_submit st.pipeline packet ≡ (
              notify_one (record st.pipeline {
                queue = st.pipeline.queue ++ packet ∷ [];
                metrics = record st.pipeline.metrics {
                  packets_submitted = increment st.pipeline.metrics.packets_submitted;
                  queue_high_watermark =
                      max st.pipeline.metrics.queue_high_watermark
                        (length (st.pipeline.queue ++ packet ∷ []));
                };
              }),
              accepted,
            ) =
              rw (open_yet, room) refl in
            subst (λ r. Sound (after_submit Kernel receive handler st packet rest r.0 r.1))
              (sym taken)
              (record {
                pipeline = subst Run.IsValid (ap (λ r. r.0) taken) valid;
                monitor = s.monitor;
                samples = s.samples;
                ending = s.ending ∙ ap is_ending e;
                none_stopped = s.none_stopped;
                counted = omega (arith, s.counted, ap reporting e);
                fits = omega arith;
                within = ground (arith, s.within, ap in_hand e);
                settled = s.settled;
                examined = s.examined;
              })
      ]

  main_step_at-IsSound :
      (m : Main) (stop : Bool) (answer : EpollWait) (st : State)
      → Sound st
      → st.main ≡ m
      → Sound (main_step_at Kernel receive handler m stop answer st)
  unfolding main_step_at
  main_step_at-IsSound looping stop answer st s e =
      elim (Bool-cases (stop || limit_reached st.config.packet_count st.packets_received)) [
        | inl out ↦
            rw out (moved-IsSound Kernel receive handler st looping leaving s e refl refl refl)
        | inr on ↦ rw on (poll_packets-IsSound Kernel receive handler answer st s e)
      ]
  main_step_at-IsSound (handing []) stop answer st s e =
      moved-IsSound Kernel receive handler st (handing []) looping s e refl refl refl
  main_step_at-IsSound (handing (packet ∷ rest)) stop answer st s e =
      elim (Bool-cases (stop || limit_reached st.config.packet_count st.packets_received)) [
        | inl out ↦ rw out (
            moved-IsSound Kernel receive handler st (handing (packet ∷ rest)) looping s e refl refl
              refl)
        | inr on ↦
            rw on (observed-IsSound Kernel receive handler st packet rest s e (ground (arith, on)))
      ]
  main_step_at-IsSound (submitting packet rest) stop answer st s e =
      submitted-IsSound st packet rest s e
  main_step_at-IsSound (dropping packet rest) stop answer st s e =
      dropped-IsSound Kernel receive handler st packet rest s e
  main_step_at-IsSound leaving stop answer st s e =
      stopped-IsSound Kernel receive handler st leaving joining s e refl refl refl
  main_step_at-IsSound joining stop answer st s e = s
  main_step_at-IsSound (unwinding x) stop answer st s e = s

  pub main_step-IsSound :
      (stop : Bool) (answer : EpollWait) (st : State)
      → Sound st
      → Sound (main_step Kernel receive handler stop answer st)
  main_step-IsSound stop answer st s = main_step_at-IsSound st.main stop answer st s refl
