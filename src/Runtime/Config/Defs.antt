-- ===== src/Runtime/Config/Defs.antt =====
-- runtime_config.hpp and runtime_config.cpp: `parse_runtime_config`. `is_ipv4_address` is what
-- inet_pton says of a text, and a parameter.
use driveflow_runtime.Prelude.{
  ℕ, suc, ◌+◌, ◌-◌, ◌*◌, ◌/◌, ◌^◌, Bool, true, false, not, ◌||◌, Option, none, some, List, [], ◌∷◌,
  ◌++◌, ltb, ◌==◌, if◌then◌else◌, length, take, drop,
}
use driveflow_runtime.Prelude.Int.{ℤ, pos, leb_ℤ}
use driveflow_runtime.Prelude.Parsing.{parse_unsigned}
use driveflow_runtime.Prelude.Parsed.{
  text, Parsed, parsed, refused, ◌>>=◌, ◌>>◌, refuse_if, required,
}
use driveflow_runtime.Net.{Text, Ipv4Endpoint, text_eq, contains}
use driveflow_runtime.Runtime.Received.{u64_max}
use driveflow_runtime.Runtime.Health.{SourceHealthMonitorConfig}
use driveflow_runtime.Runtime.Pipeline.{WorkerPipelineConfig}
use driveflow_runtime.Runtime.Receiver.Setup.{EpollReceiverConfig, int_max}

-- `poll_timeout` is a count of milliseconds.
pub record RuntimeConfig : Type 0 where
  pub receiver : EpollReceiverConfig
  pub pipeline : WorkerPipelineConfig
  pub health : SourceHealthMonitorConfig
  pub packet_count : Option ℕ
  pub poll_timeout : ℤ

pub record ParseRuntimeConfigResult : Type 0 where
  pub config : Option RuntimeConfig
  pub error : Text

abbrev pub to_result : Parsed RuntimeConfig → ParseRuntimeConfigResult
to_result (Parsed.parsed config) = record { config = some config; error = [] }
to_result (Parsed.refused message) = record { config = none; error = message }

-- The default member initializers of the configuration and its parts.
abbrev pub default_config : RuntimeConfig
default_config = record {
  receiver = record {
    listen_endpoints = record { address = text "0.0.0.0"; port = 9000 } ∷ [];
    max_datagrams_per_listener_per_poll = 64;
  };
  pipeline = record { worker_count = 2; queue_capacity = 1024 };
  health = record {
    max_sources = 256;
    healthy_after_packets = 2;
    degraded_after = pos 500000000;
    offline_after = pos 2000000000;
    recovery_after = pos 1000000000;
  };
  packet_count = none;
  poll_timeout = pos 100;
}

abbrev nonzero : Option ℕ → Option ℕ
nonzero none = none
nonzero (some value) = if value == 0 then none else some value

unfoldable pub parse_positive_integer : Text → Option ℕ
parse_positive_integer value = nonzero (parse_unsigned (2 ^ 64) value)

-- A count of nanoseconds.
unfoldable pub parse_milliseconds : ℕ → Option ℤ
parse_milliseconds value =
    if ltb ((2 ^ 63 - 1) / 1000000) value then none else some (pos (value * 1000000))

-- std::string_view::rfind
unfoldable pub rfind : ℕ → Text → Option ℕ
rfind wanted [] = none
rfind wanted (c ∷ s) = elim (rfind wanted s) [
  | some index ↦ some (suc index)
  | none ↦ (if c == wanted then some 0 else none)
]

-- From the parse of the port on.
abbrev endpoint_of : (Text → Bool) → Text → Option ℕ → Option Ipv4Endpoint
endpoint_of is_ipv4_address address none = none
endpoint_of is_ipv4_address address (some port) =
    if ltb 65535 port
    then none
    else if not (is_ipv4_address address)
    then none
    else some (record { address = address; port = port })

abbrev endpoint_at : (Text → Bool) → Text → Option ℕ → Option Ipv4Endpoint
endpoint_at is_ipv4_address s none = none
endpoint_at is_ipv4_address s (some separator) =
    if separator == 0 || separator + 1 == length s
    then none
    else endpoint_of is_ipv4_address (take separator s)
        (parse_positive_integer (drop (separator + 1) s))

-- 58 is the colon.
unfoldable pub parse_endpoint : (Text → Bool) → Text → Option Ipv4Endpoint
unfolding rfind parse_positive_integer
parse_endpoint is_ipv4_address s = endpoint_at is_ipv4_address s (rfind 58 s)

-- The variables of the loop over the options.
pub record ParserState : Type 0 where
  pub config : RuntimeConfig
  pub has_explicit_listener : Bool
  pub seen_singleton_options : List Text

-- The options that the chain of comparisons after `--listen` tells apart.
pub data OptionName : Type 0 where
  count_option poll_timeout_option max_drain_option max_sources_option : OptionName
  degraded_option offline_option recovery_option : OptionName
  workers_option queue_option unknown_option : OptionName

unfoldable pub option_name : Text → OptionName
option_name option =
    if text_eq option (text "--count")
    then count_option
    else if text_eq option (text "--poll-timeout-ms")
    then poll_timeout_option
    else if text_eq option (text "--max-drain")
    then max_drain_option
    else if text_eq option (text "--max-sources")
    then max_sources_option
    else if text_eq option (text "--health-degraded-ms")
    then degraded_option
    else if text_eq option (text "--health-offline-ms")
    then offline_option
    else if text_eq option (text "--health-recovery-ms")
    then recovery_option
    else if text_eq option (text "--workers")
    then workers_option
    else if text_eq option (text "--queue-capacity")
    then queue_option
    else unknown_option

-- `if (!value.has_value()) return failure(message)`
abbrev pub demanded : {A : Type 0} → Option A → Text → Parsed A
demanded none message = refused message
demanded (some a) message = parsed a

abbrev with_receiver : RuntimeConfig → ℕ → RuntimeConfig
with_receiver c number = record c {
  receiver = record c.receiver { max_datagrams_per_listener_per_poll = number };
}

abbrev with_health : RuntimeConfig → SourceHealthMonitorConfig → RuntimeConfig
with_health c health = record c { health = health }

-- The chain of comparisons, for a number that is not zero.
unfoldable pub apply_number : RuntimeConfig → Text → ℕ → OptionName → Parsed RuntimeConfig
unfolding parse_milliseconds
apply_number c option number count_option = parsed (record c { packet_count = some number })
apply_number c option number poll_timeout_option =
    refuse_if (ltb int_max number) "--poll-timeout-ms is too large"
    >> parsed (record c { poll_timeout = pos number })
apply_number c option number max_drain_option =
    refuse_if (ltb u64_max number) "--max-drain is too large" >> parsed (with_receiver c number)
apply_number c option number max_sources_option =
    refuse_if (ltb u64_max number) "--max-sources is too large"
    >> parsed (with_health c (record c.health { max_sources = number }))
apply_number c option number degraded_option =
    demanded (parse_milliseconds number) (option ++ text " is too large") >>= λ duration.
    parsed (with_health c (record c.health { degraded_after = duration }))
apply_number c option number offline_option =
    demanded (parse_milliseconds number) (option ++ text " is too large") >>= λ duration.
    parsed (with_health c (record c.health { offline_after = duration }))
apply_number c option number recovery_option =
    demanded (parse_milliseconds number) (option ++ text " is too large") >>= λ duration.
    parsed (with_health c (record c.health { recovery_after = duration }))
apply_number c option number workers_option =
    refuse_if (ltb u64_max number) "--workers is too large"
    >> parsed (record c { pipeline = record c.pipeline { worker_count = number } })
apply_number c option number queue_option =
    refuse_if (ltb u64_max number) "--queue-capacity is too large"
    >> parsed (record c { pipeline = record c.pipeline { queue_capacity = number } })
apply_number c option number unknown_option = refused (text "unknown option: " ++ option)

-- A listener, the first of which takes the place of the default one.
unfoldable pub add_listener : ParserState → Ipv4Endpoint → ParserState
add_listener st endpoint = record st {
  config = record st.config {
    receiver = record st.config.receiver {
      listen_endpoints =
          (if st.has_explicit_listener then st.config.receiver.listen_endpoints else [])
          ++ endpoint ∷ [];
    };
  };
  has_explicit_listener = true;
}

module _ (is_ipv4_address : Text → Bool) where
  -- The body of the loop.
  unfoldable pub apply_option : ParserState → Text → Text → Parsed ParserState
  unfolding apply_number add_listener
  apply_option st option value =
      if text_eq option (text "--listen")
      then (required (parse_endpoint is_ipv4_address value)
            "--listen must use IPv4:port with port between 1 and 65535"
          >>= λ endpoint. parsed (add_listener st endpoint))
      else if contains option st.seen_singleton_options
      then refused (text "duplicate option: " ++ option)
      else (demanded (parse_positive_integer value) (option ++ text " must be a positive integer")
          >>= λ number. apply_number st.config option number (option_name option) >>= λ config.
              parsed (record st {
                config = config;
                seen_singleton_options = option ∷ st.seen_singleton_options;
              }))

  unfoldable pub parse_options : List Text → ParserState → Parsed ParserState
  unfolding apply_option
  parse_options [] st = parsed st
  parse_options (option ∷ []) st = refused (text "missing value for " ++ option)
  parse_options (option ∷ value ∷ rest) st =
      apply_option st option value >>= λ st'. parse_options rest st'

  unfoldable pub parse_runtime_config : List Text → ParseRuntimeConfigResult
  unfolding parse_options
  parse_runtime_config arguments = to_result (
      parse_options arguments (record {
        config = default_config;
        has_explicit_listener = false;
        seen_singleton_options = [];
      })
      >>= λ st.
          refuse_if (leb_ℤ st.config.health.offline_after st.config.health.degraded_after)
            "--health-offline-ms must exceed --health-degraded-ms"
          >> parsed st.config)
