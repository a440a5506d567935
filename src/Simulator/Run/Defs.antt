-- ===== src/Simulator/Run/Defs.antt =====
-- sensor_simulator.cpp: `run_simulator`. `period` is 1 / rate_hz in nanoseconds, as the code's
-- floating-point division and cast give it. The loop is on fuel, as it may be without end.
use driveflow_runtime.Prelude.{
  ℕ, zero, suc, ◌+◌, ◌%◌, ◌^◌, Bool, true, false, not, Option, none, some, leb, ◌==◌, if◌then◌else◌,
}
use driveflow_runtime.Net.{Text}
use driveflow_runtime.Runtime.Received.{increment}
use driveflow_runtime.Simulator.Config.{SimulatorConfig, validate_runtime_config, check}
use driveflow_runtime.Simulator.Faults.{
  InjectionBatch, FaultInjector, make_injector, process, finish,
}
use driveflow_runtime.Simulator.Samples.{generate}
use driveflow_runtime.Simulator.Send.{SimulationSummary, no_summary, send_batch, wait_until_or_stop}
use driveflow_runtime.Simulator.World.{World, Outcome, finished, unfinished, ◌>>=◌, lift}

-- How a round of the loop ends: with the next round, or out of the loop, stopped or not.
pub data Next : Type 0 where
  go_on left stopped : Next

-- `!packet_count.has_value() || packets_generated < *packet_count`, negated
abbrev pub is_complete : Option ℕ → ℕ → Bool
is_complete none generated = false
is_complete (some n) generated = leb n generated

-- `packet_count.has_value() && packets_generated == *packet_count`
abbrev pub is_last : Option ℕ → ℕ → Bool
is_last none generated = false
is_last (some n) generated = generated == n

module _ (w : World) where
  -- The variables of the loop.
  pub record SimulatorState : Type 0 where
    pub injector : FaultInjector
    pub summary : SimulationSummary
    pub next_deadline : ℕ
    pub world : w.State

  -- The end of a round, after `send_batch`.
  unfoldable pub pace :
      SimulatorConfig → ℕ → SimulatorState → Bool → Outcome (Next × SimulatorState)
  pace config period st sent =
      if not sent
      then finished (stopped, st)
      else if is_last config.packet_count st.summary.packets_generated
      then finished (left, st)
      else (wait_until_or_stop w (st.next_deadline + period) st.world >>= λ waited.
          let (stop, s') = waited in
          finished (
            (if stop then stopped else go_on),
            record st { next_deadline = st.next_deadline + period; world = s' },
          ))

  -- The injection and the sending of a packet generated.
  unfoldable pub emit :
      SimulatorConfig
      → ℕ
      → SimulatorState
      → FaultInjector × InjectionBatch
      → Outcome (Next × SimulatorState)
  unfolding pace
  emit config period st injected =
      let (j, batch) = injected in
      let counted = record st.summary {
        packets_generated = increment st.summary.packets_generated;
        packets_dropped = (st.summary.packets_dropped + batch.packets_dropped) % 2 ^ 64;
      } in
      send_batch w batch config.destination counted st.world >>= λ result.
      let (sent, summary, s') = result in
      pace config period (record st { injector = j; summary = summary; world = s' }) sent

  -- The body of the loop.
  unfoldable pub round : SimulatorConfig → ℕ → SimulatorState → Outcome (Next × SimulatorState)
  unfolding emit
  round config period st =
      let n = increment st.summary.packets_generated in
      lift (generate config.sensor_type config.camera_extra_data_bytes n (w.time st.world % 2 ^ 64))
      >>= λ packet. emit config period st (process st.injector n packet)

  -- The loop, and whether it was stopped.
  unfoldable pub run_loop :
      ℕ → SimulatorConfig → ℕ → SimulatorState → Outcome (Bool × SimulatorState)
  unfolding round
  run_loop zero config period st = unfinished
  run_loop (suc rounds) config period st =
      let (stop, s') = w.stop_requested st.world in
      let asked = record st { world = s' } in
      elim stop [
        | true ↦ finished (false, asked)
        | false ↦ elim (is_complete config.packet_count st.summary.packets_generated) [
          | true ↦ finished (false, asked)
          | false ↦ round config period asked >>= λ result.
              let (next, st') = result in
              elim next [
                | go_on ↦ run_loop rounds config period st'
                | left ↦ finished (false, st')
                | stopped ↦ finished (true, st')
              ]
        ]
      ]

  -- What follows the loop.
  unfoldable pub finish_run : SimulatorConfig → Bool × SimulatorState → Outcome SimulationSummary
  finish_run config result =
      let (was_stopped, st) = result in
      let (stop, s') = w.stop_requested st.world in
      if was_stopped
      then finished st.summary
      else if stop
      then finished st.summary
      else (send_batch w (finish st.injector).1 config.destination st.summary s' >>= λ sent.
          finished sent.1)

  abbrev pub start_state : SimulatorConfig → w.State → SimulatorState
  start_state config s = record {
    injector = make_injector config.faults;
    summary = no_summary;
    next_deadline = w.time s;
    world = s;
  }

  unfoldable pub run_simulator :
      (Text → Bool) → (ℕ → ℕ) → ℕ → SimulatorConfig → Bool → w.State → Outcome SimulationSummary
  unfolding run_loop finish_run
  run_simulator is_ipv4_address period_of rounds config has_predicate s =
      let (opened, s') = w.open_socket s in
      lift (validate_runtime_config is_ipv4_address config) >>= λ _.
      lift (check (not has_predicate) "stop predicate must be callable") >>= λ _.
      lift opened >>= λ _.
      run_loop rounds config (period_of config.rate_hz) (start_state config s') >>= λ result.
      finish_run config result
