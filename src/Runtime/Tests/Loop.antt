-- ===== src/Runtime/Tests/Loop.antt =====
-- A run of the runtime: one packet is received, handed to the worker and processed, and then a stop
-- is asked for.
use driveflow_runtime.Prelude.{
  ℕ, zero, suc, ◌+◌, ◌%◌, ◌^◌, ◌≡◌, ◌<◌, refl, subst, length, Bool, true, false, Option, none, some,
  List, [], ◌∷◌, arith,
}
use driveflow_runtime.Prelude.Result.{Result, ok, Exception}
use driveflow_runtime.Net.{Ipv4Endpoint, ReceivedDatagram}
use driveflow_runtime.Protocol.Sensor.{decode_sensor_payload, decode_gnss}
use driveflow_runtime.Protocol.Tests.{datagram, sample_packet, datagram-accepted}
use driveflow_runtime.Runtime.Received.{ReceivedPacket}
use driveflow_runtime.Runtime.Samples.{SensorSample, process}
use driveflow_runtime.Runtime.Samples.Counts
use driveflow_runtime.Runtime.Tracker
use driveflow_runtime.Runtime.Tracker.{make_tracker}
use driveflow_runtime.Runtime.Samples
use driveflow_runtime.Runtime.Health
use driveflow_runtime.Runtime.Health.{make_monitor}
use driveflow_runtime.Runtime.Pipeline
use driveflow_runtime.Runtime.Health.Table.{InStep}
use driveflow_runtime.Runtime.Pipeline.{
  Worker, waiting, running, returned, make_pipeline, start_pipeline, try_submit, worker_wake,
  worker_finish, request_stop, notify_one, notify_all, worker_wait,
}
use driveflow_runtime.Runtime.Pipeline.Drain.{AllReturned}
use driveflow_runtime.Runtime.Pipeline.Create.{Threads, construct, create_workers, kept}
use driveflow_runtime.Runtime.Receiver.{EpollReceiver, EpollWait, ready, poll}
use driveflow_runtime.Runtime.Receiver.Setup.{poll_within, check_timeout}
use driveflow_runtime.Runtime.Config.{RuntimeConfig, default_config}
use driveflow_runtime.Runtime.Loop.State.{
  RuntimeState, start_state, looping, handing, joining, begun,
}
use driveflow_runtime.Runtime.Loop.Steps.{
  main_step, main_step_at, thread_step, worker_step_at, summarize, Run, start, main_stepped,
  thread_stepped,
}
use driveflow_runtime.Runtime.Loop.Invariant.{is_within, is_ending}
use driveflow_runtime.Runtime.Loop.Started.{StartsFrom}
use driveflow_runtime.Runtime.Loop.Complete.{Run-summarize}
use driveflow_runtime.Runtime.Loop.Joined.{Joins, Run-Joins}
use driveflow_runtime.Runtime.Loop.Stopped.{Move, main_moves, worker_moves, move_all, Run-move_all}

abbrev here : Ipv4Endpoint
here = record { address = []; port = 9000 }

-- The kernel is the number of datagrams that wait.
abbrev pub receive : ℕ → ℕ → ℕ × Result (Option (ReceivedDatagram × ℕ))
receive zero listener = (zero, ok none)
receive (suc k) listener = (k, ok (some (record { bytes = datagram; source = here }, 5)))

abbrev pub handler : SensorSample → Option Exception
handler sample = none

abbrev pub config : RuntimeConfig
config = record default_config { pipeline = record { worker_count = 1; queue_capacity = 1 } }

abbrev pub receiver : EpollReceiver
receiver = record {
  max_datagrams_per_listener_per_poll = 64;
  listeners = here ∷ [];
  metrics = record {
    epoll_wakeups = 0;
    datagrams_received = 0;
    packets_accepted = 0;
    packets_rejected = 0;
  };
}

abbrev State : Type 0
State = RuntimeState ℕ receive handler

abbrev answer : EpollWait
answer = ready (record { readable = true; listener_index = 0 } ∷ [])

abbrev main_go : Bool → State → State
main_go stop st = main_step ℕ receive handler stop answer st

abbrev worker_go : State → State
worker_go st = thread_step ℕ receive handler 0 st

abbrev state_of : Result State → State → State
state_of (Result.ok st) other = st
state_of (Result.throws e) other = other

abbrev first : State
first = record {
  config = config;
  receiver = receiver;
  kernel = 1;
  health_monitor = record {
    config = config.health;
    stream_tracker = record { max_sources = 256; sources = []; metrics = Tracker.no_metrics };
    sources = [];
  };
  sample_metrics = Samples.no_metrics;
  pipeline = start_pipeline config.pipeline;
  packets_received = 0;
  main = looping;
  phases = begun ∷ [];
}

-- Every thread can be made.
abbrev threads : Threads
threads = record { reserve = λ n. none; thread = λ i. none; slept = λ n. [] }

first_started : start_state ℕ receive handler true true threads config receiver 1 ≡ ok first
unfolding start_state make_monitor Health.validate_config make_tracker construct create_workers kept
    Pipeline.validate_config
first_started = refl

abbrev the_packet : ReceivedPacket
the_packet = record {
  packet = sample_packet;
  source = here;
  listener = here;
  receive_timestamp_ns = 5;
}

-- A poll that gave the packet.
abbrev handed : State
handed = record first {
  kernel = 0;
  receiver = record receiver {
    metrics = record {
      epoll_wakeups = 1;
      datagrams_received = 1;
      packets_accepted = 1;
      packets_rejected = 0;
    };
  };
  main = handing (the_packet ∷ []);
}

first_polled : main_go false first ≡ handed
unfolding main_step_at poll_within check_timeout poll
first_polled = rw (poll, datagram-accepted) refl

-- Observed and submitted.
abbrev submitted : State
submitted = main_go false (main_go false handed)

-- Taken, examined and counted.
abbrev processed : State
processed = worker_go (worker_go (worker_go (worker_go submitted)))

-- The worker sleeps, and the stop wakes it as the main thread leaves the loop.
abbrev stopped : State
stopped = main_go true (main_go true (main_go false (worker_go processed)))

abbrev pub last : State
last = worker_go stopped

abbrev Reached : State → Type 0
Reached st = (run : Run ℕ receive handler config st) × StartsFrom ℕ receive handler receiver 1 run

handed-Reached : Reached handed
unfolding StartsFrom
handed-Reached =
    subst Reached first_polled
      (main_stepped false answer (start threads receiver 1 first_started), (refl, refl))

by_main : (stop : Bool) (st : State) → Reached st → Reached (main_go stop st)
unfolding StartsFrom
by_main stop st reached = (main_stepped stop answer reached.0, reached.1)

by_worker : (st : State) → 0 < length st.pipeline.workers → Reached st → Reached (worker_go st)
unfolding StartsFrom
by_worker st lt reached = (thread_stepped 0 lt reached.0, reached.1)

one : 0 < 1
one = omega arith

stopped-Reached : Reached stopped
unfolding main_step_at worker_step_at try_submit notify_one worker_wait worker_wake process
    decode_sensor_payload decode_gnss request_stop notify_all worker_finish
stopped-Reached = by_main true _ (
    by_main true _ (
      by_main false _ (
        by_worker _ one (
          by_worker _ one (
            by_worker _ one (
              by_worker _ one
                (by_worker _ one (by_main false _ (by_main false _ handed-Reached)))))))))

stopped-one : 0 < length stopped.pipeline.workers
unfolding main_step_at worker_step_at try_submit notify_one worker_wait worker_wake process
    decode_sensor_payload decode_gnss request_stop notify_all worker_finish
stopped-one = omega arith

pub last-Reached : Reached last
last-Reached = by_worker stopped stopped-one stopped-Reached

pub last_joining : last.main ≡ joining
unfolding main_step_at worker_step_at try_submit notify_one worker_wait worker_wake process
    decode_sensor_payload decode_gnss request_stop notify_all worker_finish
last_joining = refl

pub last_returned : AllReturned last.pipeline
unfolding main_step_at worker_step_at try_submit notify_one worker_wait worker_wake process
    decode_sensor_payload decode_gnss request_stop notify_all worker_finish
last_returned zero lt = refl
last_returned (suc i) lt = absurd (omega (arith, lt))

last_examined : last.sample_metrics.packets_examined ≡ 1
unfolding main_step_at worker_step_at try_submit notify_one worker_wait worker_wake process
    decode_sensor_payload decode_gnss request_stop notify_all worker_finish
last_examined = refl

Run-summarize_example :
    ((summarize ℕ receive handler last 9).packets_received
      ≡ ((summarize ℕ receive handler last 9).sample_metrics.packets_examined
          + (summarize ℕ receive handler last 9).pipeline_metrics.packets_dropped_queue_full)
        % 2 ^ 64)
    × ((summarize ℕ receive handler last 9).pipeline_metrics.packets_rejected_stopped ≡ 0)
    × (is_within last.config.packet_count (summarize ℕ receive handler last 9).packets_received
        ≡ true)
    × Counts.IsValid (summarize ℕ receive handler last 9).sample_metrics
    × InStep last.health_monitor
Run-summarize_example =
    Run-summarize ℕ receive handler config last 9 last-Reached.0 last_joining last_returned

stopped-ending : is_ending stopped.main ≡ true
unfolding main_step_at worker_step_at try_submit notify_one worker_wait worker_wake process
    decode_sensor_payload decode_gnss request_stop notify_all worker_finish
stopped-ending = refl

Run-Joins_example : Joins ℕ receive handler config stopped
Run-Joins_example = Run-Joins ℕ receive handler config stopped stopped-Reached.0 stopped-ending

-- The main thread with a packet in hand, and a stop.
abbrev moves : List Move
moves =
    main_moves answer
    ∷ worker_moves 0
    ∷ main_moves answer
    ∷ main_moves answer
    ∷ worker_moves 1
    ∷ main_moves answer
    ∷ main_moves answer
    ∷ []

Run-move_all_example :
    (is_ending (move_all ℕ receive handler moves handed).main ≡ true)
    × Joins ℕ receive handler config (move_all ℕ receive handler moves handed)
Run-move_all_example =
    Run-move_all ℕ receive handler config handed moves handed-Reached.0 (omega arith)
