-- ===== src/Runtime/Tests/Monitor.antt =====
-- Runs of the health monitor's table of sources.
use mathlib.Core.List.{Perm}
use driveflow_runtime.Prelude.{◌≡◌, refl, List, [], ◌∷◌, map}
use driveflow_runtime.Prelude.Int.{pos}
use driveflow_runtime.Prelude.Result.{ok}
use driveflow_runtime.Protocol.Packet.{gnss}
use driveflow_runtime.Runtime.Tracker.{no_metrics, make_tracker}
use driveflow_runtime.Runtime.Health.{
  SourceHealthMonitor, payload_rejected, validate_config, make_monitor, make_snapshot, report,
}
use driveflow_runtime.Runtime.Health.Events.{
  MonitorEvent, packet_observed, issue_observed, handle_all, IsCoherent, handle_all-IsCoherent,
}
use driveflow_runtime.Runtime.Health.Order.{Ascending, report-Ascending}
use driveflow_runtime.Runtime.Tests.Streams.{received}

abbrev fresh : SourceHealthMonitor
fresh = record {
  config = record {
    max_sources = 4;
    healthy_after_packets = 1;
    degraded_after = pos 50;
    offline_after = pos 100;
    recovery_after = pos 10;
  };
  stream_tracker = record { max_sources = 4; sources = []; metrics = no_metrics };
  sources = [];
}

abbrev calls : List MonitorEvent
calls =
    packet_observed (received 2 7 gnss [])
    ∷ packet_observed (received 1 4 gnss [])
    ∷ issue_observed (received 2 7 gnss []) payload_rejected
    ∷ []

made : make_monitor fresh.config ≡ ok fresh
unfolding make_monitor validate_config make_tracker
made = refl

handle_all-IsCoherent_example : IsCoherent (handle_all fresh calls)
handle_all-IsCoherent_example = handle_all-IsCoherent fresh.config fresh calls made

report-Ascending_example :
    Ascending (report (handle_all fresh calls) 2000).sources
    × Perm
        (report (handle_all fresh calls) 2000).sources
        (map (make_snapshot (handle_all fresh calls).config 2000) (handle_all fresh calls).sources)
report-Ascending_example = report-Ascending fresh.config fresh calls 2000 made
