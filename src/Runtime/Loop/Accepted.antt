-- ===== src/Runtime/Loop/Accepted.antt =====
-- runtime_config.cpp and runtime.cpp: a command line that is accepted passes the checks of all parts
-- of the runtime.
use driveflow_runtime.Prelude.{
  ℕ, suc, ◌≡◌, ◌≤◌, ap, subst, Bool, false, none, some, List, [], arith, length,
}
use driveflow_runtime.Prelude.Int.{leb_ℤ}
use driveflow_runtime.Prelude.Result.{Result, ok}
use driveflow_runtime.Prelude.Parsed.{Parsed, parsed, Gives, Gives-bind, Gives-refuse_if}
use driveflow_runtime.Net.{Text}
use driveflow_runtime.Runtime.Health
use driveflow_runtime.Runtime.Pipeline
use driveflow_runtime.Runtime.Receiver.Setup.{create_epoll, check_timeout, int_max}
use driveflow_runtime.Runtime.Config.{
  RuntimeConfig, ParserState, default_config, parse_options, parse_runtime_config, to_result,
}
use driveflow_runtime.Runtime.Config.Options.{
  is_numbered, IsParsed, parse_options-IsParsed, default_config-is_numbered,
}
use driveflow_runtime.Runtime.Loop.Defs.{validate_config}

-- The checks that the parts make of a configuration all pass, and the kernel is asked for an epoll
-- descriptor.
pub record IsRunnable (config : RuntimeConfig) : Type 0 where
  pub runtime : validate_config config ≡ ok config
  pub monitor : Health.validate_config config.health ≡ ok config.health
  pub pipeline : Pipeline.validate_config config.pipeline ≡ ok config.pipeline
  pub receiver : (created : Result ℕ) → create_epoll config.receiver created ≡ created
  pub timeout : check_timeout config.poll_timeout ≡ ok tt

is_numbered-IsRunnable :
    (st : ParserState)
    → IsParsed int_max [] st
    → leb_ℤ st.config.health.offline_after st.config.health.degraded_after ≡ false
    → IsRunnable st.config
unfolding is_numbered validate_config Health.validate_config Pipeline.validate_config create_epoll
    check_timeout
is_numbered-IsRunnable st p order = record {
  runtime = ground (arith, p.numbered, order);
  monitor = ground (arith, p.numbered, order);
  pipeline = ground (arith, p.numbered);
  receiver = λ created. ground (arith, p.numbered, p.listening, p.bounded);
  timeout = ground (arith, p.numbered);
}

-- A command line that the parser accepts, of less than 2 ^ 31 - 1 arguments, gives a configuration
-- that passes the checks of the runtime, of the health monitor, of the worker pipeline and of the
-- receiver, and whose timeout is one that a poll takes, whatever inet_pton makes of an address.
pub parse_runtime_config-IsRunnable :
    (is_ipv4_address : Text → Bool) (arguments : List Text) (config : RuntimeConfig)
    → suc (length arguments) ≤ int_max
    → (parse_runtime_config is_ipv4_address arguments).config ≡ some config
    → IsRunnable config
unfolding parse_runtime_config
parse_runtime_config-IsRunnable is_ipv4_address arguments config few e =
    from_result _
      (Gives-bind (IsParsed int_max []) IsRunnable (parse_options is_ipv4_address arguments _) _
        (parse_options-IsParsed is_ipv4_address int_max arguments
          (record {
            config = default_config;
            has_explicit_listener = false;
            seen_singleton_options = [];
          })
          (record {
            numbered = default_config-is_numbered;
            listening = omega arith;
            bounded = omega (arith, few);
          }))
        λ st p.
          Gives-refuse_if IsRunnable
            (leb_ℤ st.config.health.offline_after st.config.health.degraded_after) _
            (parsed st.config) (is_numbered-IsRunnable st p))
      config e
  where
    from_result :
        (m : Parsed RuntimeConfig)
        → Gives IsRunnable m
        → (config : RuntimeConfig) → (to_result m).config ≡ some config
        → IsRunnable config
    from_result (Parsed.parsed a) g config e =
        subst IsRunnable (ap (λ o. elim o [ none ↦ a | some c ↦ c ]) e) g
    from_result (Parsed.refused m) g config e = cc
