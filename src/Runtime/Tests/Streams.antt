-- ===== src/Runtime/Tests/Streams.antt =====
-- Runs of the stream tracker and of the sample processor.
use driveflow_runtime.Prelude.{ℕ, ◌≡◌, refl, map, List, [], ◌∷◌, arith, length}
use driveflow_runtime.Prelude.Result.{ok}
use driveflow_runtime.Net.{endpoint_eq, text_eq}
use driveflow_runtime.Protocol.Packet.{MessageType, gnss}
use driveflow_runtime.Runtime.Received.{
  ReceivedPacket, SensorSource, identify_sensor_source, source_eq,
}
use driveflow_runtime.Runtime.Tracker.{
  first, gap, duplicate, reordered, untracked, SourceState, SensorStreamTracker, no_metrics,
  make_tracker, advance, advance_forward, advance_backward, find_state, put_state, admit, observe,
}
use driveflow_runtime.Runtime.Tracker.History.{remember, judge, Shows}
use driveflow_runtime.Runtime.Tracker.Refine.{advance-remember}
use driveflow_runtime.Runtime.Tracker.Table.{first_history, first-Shows}
use driveflow_runtime.Runtime.Tracker.Spec.{observe_all, classify_all, observe_all-classify_all}
use driveflow_runtime.Runtime.Tracker.Accounting.{IsValid, make_tracker-IsValid, observe-IsValid}

abbrev pub received : ℕ → ℕ → MessageType → List ℕ → ReceivedPacket
received port number type payload = record {
  packet = record {
    header = record {
      magic = 0x4452464c;
      version = 1;
      message_type = type;
      sequence_number = number;
      source_timestamp_ns = 900;
      payload_length = length payload;
      crc32 = 0;
    };
    payload = payload;
  };
  source = record { address = 0x31 ∷ []; port = port };
  listener = record { address = 0x32 ∷ []; port = 9000 };
  receive_timestamp_ns = 1000;
}

abbrev pub here : SensorSource
here = identify_sensor_source (received 1 7 gnss [])

abbrev known : SourceState
known = record { source = here; highest_sequence = 5; recent_sequences = 1 }

known-Shows : Shows (first_history 5) known
known-Shows = first-Shows here 5 (omega arith)

advance-remember_example :
    Shows (remember (first_history 5) 7) (advance known no_metrics 7).state
    × ((advance known no_metrics 7).observation ≡ judge (first_history 5) 7)
advance-remember_example =
    advance-remember (first_history 5) known no_metrics 7 known-Shows (omega arith)

abbrev empty_tracker : SensorStreamTracker
empty_tracker = record { max_sources = 2; sources = []; metrics = no_metrics }

made : make_tracker 2 ≡ ok empty_tracker
unfolding make_tracker
made = refl

-- Three sources for a table of two.
abbrev packets : List ReceivedPacket
packets =
    received 1 7 gnss []
    ∷ received 2 3 gnss []
    ∷ received 1 9 gnss []
    ∷ received 3 1 gnss []
    ∷ received 1 8 gnss []
    ∷ received 1 8 gnss []
    ∷ []

observe_all-classify_all_example :
    observe_all empty_tracker packets ≡ classify_all (record { capacity = 2; streams = [] }) packets
observe_all-classify_all_example =
    observe_all-classify_all 2 empty_tracker packets made (omega arith)

packets_reported :
    map (λ o. o.status) (observe_all empty_tracker packets)
    ≡ first ∷ first ∷ gap ∷ untracked ∷ reordered ∷ duplicate ∷ []
unfolding observe_all observe find_state source_eq endpoint_eq text_eq identify_sensor_source admit
    put_state advance advance_forward advance_backward
packets_reported = refl

observe-IsValid_example : IsValid (observe empty_tracker (received 1 7 gnss [])).0
observe-IsValid_example =
    observe-IsValid empty_tracker (received 1 7 gnss []) (make_tracker-IsValid 2 empty_tracker made)
