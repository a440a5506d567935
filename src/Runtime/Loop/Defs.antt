-- ===== src/Runtime/Loop/Defs.antt =====
-- runtime.cpp: the check of the configuration.
use driveflow_runtime.Prelude.{ℕ, Bool, false, ◌||◌, Option, none, some, ◌==◌, if◌then◌else◌}
use driveflow_runtime.Prelude.Int.{pos, leb_ℤ}
use driveflow_runtime.Prelude.Result.{Result, ok, throws, invalid_argument}
use driveflow_runtime.Runtime.Config.{RuntimeConfig}

abbrev pub is_zero_count : Option ℕ → Bool
is_zero_count none = false
is_zero_count (some n) = n == 0

unfoldable pub validate_config : RuntimeConfig → Result RuntimeConfig
validate_config config =
    if is_zero_count config.packet_count
    then throws (invalid_argument "runtime packet count must be greater than zero")
    else if leb_ℤ config.poll_timeout (pos 0)
    then throws (invalid_argument "runtime poll timeout must be greater than zero")
    else if config.pipeline.worker_count == 0
    then throws (invalid_argument "runtime worker count must be greater than zero")
    else if config.pipeline.queue_capacity == 0
    then throws (invalid_argument "runtime worker queue capacity must be greater than zero")
    else if config.health.max_sources == 0
    then throws (invalid_argument "runtime sensor source capacity must be greater than zero")
    else if config.health.healthy_after_packets == 0
        || (leb_ℤ config.health.degraded_after (pos 0)
            || leb_ℤ config.health.recovery_after (pos 0))
    then throws (invalid_argument "runtime source health counts and durations must be positive")
    else if leb_ℤ config.health.offline_after config.health.degraded_after
    then throws (invalid_argument "runtime offline timeout must exceed degraded timeout")
    else ok config
