-- ===== src/Runtime/Tests/Arguments.antt =====
-- Runs of the runtime's option parser.
use driveflow_runtime.Prelude.{◌≡◌, refl, Bool, true, some, List, [], ◌∷◌, arith}
use driveflow_runtime.Prelude.Int.{pos}
use driveflow_runtime.Prelude.Parsed.{text}
use driveflow_runtime.Prelude.Parsing.{parse_unsigned}
use driveflow_runtime.Net.{Text, text_eq, contains}
use driveflow_runtime.Runtime.Config.{
  RuntimeConfig, default_config, option_name, parse_endpoint, parse_positive_integer,
  parse_runtime_config,
}
use driveflow_runtime.Runtime.Loop.Accepted.{IsRunnable, parse_runtime_config-IsRunnable}

abbrev any_address : Text → Bool
any_address address = true

abbrev arguments : List Text
arguments =
    text "--listen"
    ∷ text "10.0.0.1:9100"
    ∷ text "--workers"
    ∷ text "4"
    ∷ text "--listen"
    ∷ text "10.0.0.2:9101"
    ∷ text "--health-offline-ms"
    ∷ text "501"
    ∷ []

abbrev expected : RuntimeConfig
expected = record default_config {
  receiver = record default_config.receiver {
    listen_endpoints =
        record { address = text "10.0.0.1"; port = 9100 }
        ∷ record { address = text "10.0.0.2"; port = 9101 }
        ∷ [];
  };
  pipeline = record default_config.pipeline { worker_count = 4 };
  health = record default_config.health { offline_after = pos 501000000 };
}

accepted : (parse_runtime_config any_address arguments).config ≡ some expected
unfolding parse_runtime_config parse_endpoint parse_positive_integer option_name text text_eq
    contains parse_unsigned
accepted = refl

parse_runtime_config-IsRunnable_example : IsRunnable expected
parse_runtime_config-IsRunnable_example =
    parse_runtime_config-IsRunnable any_address arguments expected (omega arith) accepted

-- The number is read before the name of the option.
unknown :
    (parse_runtime_config any_address (text "--verbose" ∷ text "yes" ∷ [])).error
    ≡ text "--verbose must be a positive integer"
unfolding parse_runtime_config parse_positive_integer option_name text text_eq contains
    parse_unsigned
unknown = refl

in_order :
    (parse_runtime_config any_address (text "--health-offline-ms" ∷ text "500" ∷ [])).error
    ≡ text "--health-offline-ms must exceed --health-degraded-ms"
unfolding parse_runtime_config parse_positive_integer option_name text text_eq contains
    parse_unsigned
in_order = refl
