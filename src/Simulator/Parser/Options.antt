-- ===== src/Simulator/Parser/Options.antt =====
-- sensor_simulator.cpp: what the loop of `parse_simulator_config` over the options keeps.
use Prim.Native.String.{String}
use driveflow_runtime.Prelude.{
  ℕ, ◌^◌, ◌≡◌, refl, inl, inr, Bool, Bool-cases, true, false, ◌||◌, Option, none, some, List, [],
  ◌∷◌, arith, ltb, ◌==◌,
}
use driveflow_runtime.Prelude.Parsing.{parse_unsigned, parse_unsigned-lt}
use driveflow_runtime.Prelude.Parsed.{required, Gives, Gives-bind, Gives-required}
use driveflow_runtime.Net.{Text, contains}
use driveflow_runtime.Simulator.Config.{
  FaultInjectionConfig, maximum_fault_delay, is_some_zero, is_known_sensor,
}
use driveflow_runtime.Simulator.Parser.Defs.{
  ParserState, OptionName, sensor_option, destination_option, port_option, rate_option,
  count_option, camera_extra_option, drop_option, duplicate_option, reorder_option,
  delay_every_option, delay_ms_option, corrupt_option, unknown_option, initial_state, option_name,
  parse_sensor, parse_interval, parse_delay_ms, with_faults, apply_option, parse_options,
}

abbrev pub is_bad_delay : Option ℕ → Bool
is_bad_delay none = false
is_bad_delay (some n) = n == 0 || ltb maximum_fault_delay n

abbrev pub fits_count : Option ℕ → Bool
fits_count none = true
fits_count (some n) = ltb n (2 ^ 64)

pub record IsFaults (faults : FaultInjectionConfig) : Type 0 where
  pub drop_fault : is_some_zero faults.drop_every ≡ false
  pub duplicate_fault : is_some_zero faults.duplicate_every ≡ false
  pub reorder_fault : is_some_zero faults.reorder_every ≡ false
  pub corrupt_fault : is_some_zero faults.corrupt_every ≡ false
  pub no_delay : faults.delay ≡ none

-- What the loop over the options keeps.
pub record IsParsed (st : ParserState) : Type 0 where
  pub known : is_known_sensor st.config.sensor_type ≡ true
  pub count : fits_count st.config.packet_count ≡ true
  pub faults : IsFaults st.config.faults
  pub interval : is_some_zero st.delay_every ≡ false
  pub duration : is_bad_delay st.delay_ms ≡ false

pub initial_state-IsParsed : IsParsed initial_state
unfolding initial_state
initial_state-IsParsed = record {
  known = refl;
  count = refl;
  faults = record {
    drop_fault = refl;
    duplicate_fault = refl;
    reorder_fault = refl;
    corrupt_fault = refl;
    no_delay = refl;
  };
  interval = refl;
  duration = refl;
}

with_faults-IsParsed :
    (st : ParserState) (faults : FaultInjectionConfig)
    → IsParsed st
    → IsFaults faults
    → IsParsed (with_faults st faults)
with_faults-IsParsed st faults p f = record {
  known = p.known;
  count = p.count;
  faults = f;
  interval = p.interval;
  duration = p.duration;
}

parse_sensor-known : (value : Text) → Gives (λ t. is_known_sensor t ≡ true) (parse_sensor value)
unfolding parse_sensor
parse_sensor-known value = ground arith

parse_interval-positive :
    (value : Text) (message : String) → Gives (λ n. (n == 0) ≡ false) (parse_interval value message)
unfolding parse_interval
parse_interval-positive value message = ground arith

parse_delay_ms-good :
    (value : Text) → Gives (λ n. is_bad_delay (some n) ≡ false) (parse_delay_ms value)
unfolding parse_delay_ms
parse_delay_ms-good value = ground arith

module _ (parse_double : Text → Option ℕ) (is_ipv4_address : Text → Bool) where
  apply_option-IsParsed :
      (st : ParserState) (option value : Text) (name : OptionName)
      → IsParsed st
      → Gives IsParsed (apply_option parse_double is_ipv4_address st option value name)
  unfolding apply_option
  apply_option-IsParsed st option value sensor_option p =
      Gives-bind _ IsParsed (parse_sensor value) _ (parse_sensor-known value) λ t h. record {
        known = h;
        count = p.count;
        faults = p.faults;
        interval = p.interval;
        duration = p.duration;
      }
  apply_option-IsParsed st option value destination_option p = record {
    known = p.known;
    count = p.count;
    faults = p.faults;
    interval = p.interval;
    duration = p.duration;
  }
  apply_option-IsParsed st option value port_option p =
      Gives-bind (λ n. Unit) IsParsed
        (required (parse_unsigned (2 ^ 16) value) "port must be an integer between 1 and 65535") _
        (Gives-required (λ n. Unit) (parse_unsigned (2 ^ 16) value) _ λ n e. tt)
        λ n h. record {
          known = p.known;
          count = p.count;
          faults = p.faults;
          interval = p.interval;
          duration = p.duration;
        }
  apply_option-IsParsed st option value rate_option p =
      Gives-bind (λ n. Unit) IsParsed (required (parse_double value) "rate-hz must be a number") _
        (Gives-required (λ n. Unit) (parse_double value) _ λ n e. tt)
        λ n h. record {
          known = p.known;
          count = p.count;
          faults = p.faults;
          interval = p.interval;
          duration = p.duration;
        }
  apply_option-IsParsed st option value count_option p =
      Gives-bind (λ n. fits_count (some n) ≡ true) IsParsed
        (required (parse_unsigned (2 ^ 64) value) "count must be a positive integer") _
        (Gives-required _ (parse_unsigned (2 ^ 64) value) _
          λ n e. ground (arith, parse_unsigned-lt (2 ^ 64) value n e))
        λ n h. record {
          known = p.known;
          count = h;
          faults = p.faults;
          interval = p.interval;
          duration = p.duration;
        }
  apply_option-IsParsed st option value camera_extra_option p =
      Gives-bind (λ n. Unit) IsParsed
        (required (parse_unsigned (2 ^ 64) value)
          "camera-extra-bytes must be a non-negative integer")
        _ (Gives-required (λ n. Unit) (parse_unsigned (2 ^ 64) value) _ λ n e. tt)
        λ n h. record {
          known = p.known;
          count = p.count;
          faults = p.faults;
          interval = p.interval;
          duration = p.duration;
        }
  apply_option-IsParsed st option value drop_option p =
      Gives-bind _ IsParsed (parse_interval value "drop-every must be a positive integer") _
        (parse_interval-positive value _)
        λ n h. with_faults-IsParsed st _ p (record {
          drop_fault = h;
          duplicate_fault = p.faults.duplicate_fault;
          reorder_fault = p.faults.reorder_fault;
          corrupt_fault = p.faults.corrupt_fault;
          no_delay = p.faults.no_delay;
        })
  apply_option-IsParsed st option value duplicate_option p =
      Gives-bind _ IsParsed (parse_interval value "duplicate-every must be a positive integer") _
        (parse_interval-positive value _)
        λ n h. with_faults-IsParsed st _ p (record {
          drop_fault = p.faults.drop_fault;
          duplicate_fault = h;
          reorder_fault = p.faults.reorder_fault;
          corrupt_fault = p.faults.corrupt_fault;
          no_delay = p.faults.no_delay;
        })
  apply_option-IsParsed st option value reorder_option p =
      Gives-bind _ IsParsed (parse_interval value "reorder-every must be a positive integer") _
        (parse_interval-positive value _)
        λ n h. with_faults-IsParsed st _ p (record {
          drop_fault = p.faults.drop_fault;
          duplicate_fault = p.faults.duplicate_fault;
          reorder_fault = h;
          corrupt_fault = p.faults.corrupt_fault;
          no_delay = p.faults.no_delay;
        })
  apply_option-IsParsed st option value corrupt_option p =
      Gives-bind _ IsParsed (parse_interval value "corrupt-every must be a positive integer") _
        (parse_interval-positive value _)
        λ n h. with_faults-IsParsed st _ p (record {
          drop_fault = p.faults.drop_fault;
          duplicate_fault = p.faults.duplicate_fault;
          reorder_fault = p.faults.reorder_fault;
          corrupt_fault = h;
          no_delay = p.faults.no_delay;
        })
  apply_option-IsParsed st option value delay_every_option p =
      Gives-bind _ IsParsed (parse_interval value "delay-every must be a positive integer") _
        (parse_interval-positive value _)
        λ n h. record {
          known = p.known;
          count = p.count;
          faults = p.faults;
          interval = h;
          duration = p.duration;
        }
  apply_option-IsParsed st option value delay_ms_option p =
      Gives-bind _ IsParsed (parse_delay_ms value) _ (parse_delay_ms-good value) λ n h. record {
        known = p.known;
        count = p.count;
        faults = p.faults;
        interval = p.interval;
        duration = h;
      }
  apply_option-IsParsed st option value unknown_option p = tt

  pub parse_options-IsParsed :
      (arguments : List Text) (st : ParserState)
      → IsParsed st
      → Gives IsParsed (parse_options parse_double is_ipv4_address arguments st)
  unfolding parse_options
  parse_options-IsParsed [] st p = p
  parse_options-IsParsed (option ∷ []) st p = tt
  parse_options-IsParsed (option ∷ value ∷ rest) st p =
      let marked = record st { seen_options = option ∷ st.seen_options } in
      let kept = apply_option-IsParsed marked option value (option_name option) (record {
        known = p.known;
        count = p.count;
        faults = p.faults;
        interval = p.interval;
        duration = p.duration;
      }) in
      elim (Bool-cases (contains option st.seen_options)) [
        | inl again ↦ rw again tt
        | inr new ↦
            rw new
              (Gives-bind IsParsed IsParsed _ _ kept λ next q. parse_options-IsParsed rest next q)
      ]
