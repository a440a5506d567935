-- ===== src/Simulator/Parser/Valid.antt =====
-- sensor_simulator.cpp: what `parse_simulator_config` accepts, `run_simulator` accepts.

use driveflow_runtime.Prelude.{
  ℕ, ◌≡◌, refl, ap, subst, inl, inr, Bool, Bool-cases, true, false, not, ◌&&◌, Option, none, some,
  List, arith, ltb, ◌==◌,
}
use driveflow_runtime.Prelude.Result.{ok}
use driveflow_runtime.Prelude.Parsed.{Parsed, Gives, Gives-bind, Gives-refuse_if}
use driveflow_runtime.Net.{Text}
use driveflow_runtime.Protocol.Sensor.{max_camera_extra_data_size}
use driveflow_runtime.Simulator.Config.{
  SimulatorConfig, validate_runtime_config, validate_interval, validate_delay, is_some_zero,
  is_camera, is_known_sensor, is_bad_rate,
}
use driveflow_runtime.Simulator.Parser.Defs.{
  ParserState, initial_state, parse_options, add_delay, check_config, complete_config,
  parse_simulator_config, to_result, default_rate_hz,
}
use driveflow_runtime.Simulator.Parser.Options.{
  is_bad_delay, fits_count, IsFaults, IsParsed, initial_state-IsParsed, parse_options-IsParsed,
}

module _ (parse_double : Text → Option ℕ) (is_ipv4_address : Text → Bool) where
  -- A configuration that the loop of the simulator takes.
  record IsAccepted (config : SimulatorConfig) : Type 0 where
    valid : validate_runtime_config is_ipv4_address config ≡ ok tt
    count : fits_count config.packet_count ≡ true

  -- The checks after the loop.
  record IsChecked (config : SimulatorConfig) : Type 0 where
    known : is_known_sensor config.sensor_type ≡ true
    count : fits_count config.packet_count ≡ true
    faults : IsFaults config.faults
    address : is_ipv4_address config.destination.address ≡ true
    port : (config.destination.port == 0) ≡ false
    rate : is_bad_rate config.rate_hz ≡ false
    positive : is_some_zero config.packet_count ≡ false
    small : ltb max_camera_extra_data_size config.camera_extra_data_bytes ≡ false
    matching :
        (not (is_camera config.sensor_type) && not (config.camera_extra_data_bytes == 0)) ≡ false

  add_delay-IsAccepted :
      (every duration : Option ℕ) (config : SimulatorConfig)
      → IsChecked config
      → is_some_zero every ≡ false
      → is_bad_delay duration ≡ false
      → Gives IsAccepted (add_delay parse_double is_ipv4_address every duration config)
  unfolding add_delay validate_runtime_config validate_interval validate_delay
  add_delay-IsAccepted none none config c he hd = record {
    valid =
        rw
          (
            c.known, c.address, c.port, c.rate, c.positive, c.small, c.matching,
            c.faults.drop_fault, c.faults.duplicate_fault, c.faults.reorder_fault,
            c.faults.corrupt_fault, c.faults.no_delay,
          )
          refl;
    count = c.count;
  }
  add_delay-IsAccepted (some n) (some d) config c he hd = record {
    valid =
        rw
          (
            c.known, c.address, c.port, c.rate, c.positive, c.small, c.matching,
            c.faults.drop_fault, c.faults.duplicate_fault, c.faults.reorder_fault,
            c.faults.corrupt_fault, he,
          )
          (ground (arith, hd));
    count = c.count;
  }
  add_delay-IsAccepted none (some d) config c he hd = tt
  add_delay-IsAccepted (some n) none config c he hd = tt

  check_config-IsAccepted :
      (st : ParserState) (config : SimulatorConfig)
      → is_known_sensor config.sensor_type ≡ true
      → fits_count config.packet_count ≡ true
      → IsFaults config.faults
      → is_some_zero st.delay_every ≡ false
      → is_bad_delay st.delay_ms ≡ false
      → Gives IsAccepted (check_config parse_double is_ipv4_address st config)
  unfolding check_config
  check_config-IsAccepted st config known count faults he hd =
      Gives-refuse_if IsAccepted (not st.has_sensor) _ _ λ sensor.
        Gives-refuse_if IsAccepted (not (is_ipv4_address config.destination.address)) _ _ λ address.
          Gives-refuse_if IsAccepted (config.destination.port == 0) _ _ λ port.
            Gives-refuse_if IsAccepted (is_bad_rate config.rate_hz) _ _ λ rate.
              Gives-refuse_if IsAccepted (is_some_zero config.packet_count) _ _ λ positive.
                Gives-refuse_if IsAccepted
                  (ltb max_camera_extra_data_size config.camera_extra_data_bytes) _ _
                  λ small.
                    Gives-refuse_if IsAccepted
                      (not (is_camera config.sensor_type)
                        && not (config.camera_extra_data_bytes == 0))
                      _ _
                      λ matching.
                        add_delay-IsAccepted st.delay_every st.delay_ms config
                          (record {
                            known = known;
                            count = count;
                            faults = faults;
                            address = ground (arith, address);
                            port = port;
                            rate = rate;
                            positive = positive;
                            small = small;
                            matching = matching;
                          })
                          he hd

  complete_config-IsAccepted :
      (st : ParserState)
      → IsParsed st
      → Gives IsAccepted (complete_config parse_double is_ipv4_address st)
  unfolding complete_config
  complete_config-IsAccepted st p = elim (Bool-cases st.has_explicit_rate) [
    | inl given ↦
        rw given
          (check_config-IsAccepted st st.config p.known p.count p.faults p.interval p.duration)
    | inr default ↦ rw default (
        check_config-IsAccepted st
          (record st.config { rate_hz = default_rate_hz st.config.sensor_type }) p.known p.count
          p.faults p.interval p.duration)
  ]

  -- A command line that the simulator's parser accepts gives a configuration that passes every check
  -- of `run_simulator`, whatever std::from_chars makes of a rate and inet_pton of an address, and
  -- whose packet count, if it has one, is of 64 bits.
  pub parse_simulator_config-valid :
      (arguments : List Text) (config : SimulatorConfig)
      → (parse_simulator_config parse_double is_ipv4_address arguments).config ≡ some config
      → (validate_runtime_config is_ipv4_address config ≡ ok tt)
        × (fits_count config.packet_count ≡ true)
  unfolding parse_simulator_config
  parse_simulator_config-valid arguments config e =
      from_result _
        (Gives-bind IsParsed IsAccepted
          (parse_options parse_double is_ipv4_address arguments initial_state) _
          (parse_options-IsParsed parse_double is_ipv4_address arguments initial_state
            initial_state-IsParsed)
          complete_config-IsAccepted)
        config e
    where
      from_result :
          (m : Parsed SimulatorConfig)
          → Gives IsAccepted m
          → (config : SimulatorConfig) → (to_result m).config ≡ some config
          → (validate_runtime_config is_ipv4_address config ≡ ok tt)
            × (fits_count config.packet_count ≡ true)
      from_result (Parsed.parsed a) g config e =
          subst
            (λ c.
              (validate_runtime_config is_ipv4_address c ≡ ok tt)
              × (fits_count c.packet_count ≡ true))
            (ap (λ o. elim o [ none ↦ a | some c ↦ c ]) e) (g.valid, g.count)
      from_result (Parsed.refused m) g config e = cc
