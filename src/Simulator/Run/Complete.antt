-- ===== src/Simulator/Run/Complete.antt =====
-- sensor_simulator.cpp: a run of `run_simulator` with a packet count ends with all packets sent.
use driveflow_runtime.Prelude.{
  ℕ, zero, suc, ◌+◌, ◌-◌, ◌%◌, ◌^◌, ◌≡◌, ◌≤◌, ◌<◌, refl, ap, ◌∙◌, inl, inr, Bool, Bool-cases, true,
  false, Option, some, List, arith, length, leb, ◌==◌, if◌then◌else◌,
}
use driveflow_runtime.Prelude.Result.{ok}
use driveflow_runtime.Net.{Text}
use driveflow_runtime.Simulator.Config.{SimulatorConfig, validate_runtime_config}
use driveflow_runtime.Simulator.Faults.{FaultInjector, process, finish}
use driveflow_runtime.Simulator.Samples.Delivery.{generate_delivered}
use driveflow_runtime.Simulator.Send.{SimulationSummary}
use driveflow_runtime.Simulator.Send.Totals.{send_batch-Sends}
use driveflow_runtime.Simulator.Send.Wait.{wait_until_or_stop-quiet}
use driveflow_runtime.Simulator.World.{World, IsSteady, IsQuiet, Outcome, finished}
use driveflow_runtime.Simulator.Run.Defs.{
  Next, go_on, left, SimulatorState, pace, emit, round, run_loop, finish_run, start_state,
  run_simulator, is_last, is_complete,
}

-- The packets that an injector holds back.
abbrev held : FaultInjector → ℕ
held j = if j.has_held_packet then 1 else 0

process-held :
    (j : FaultInjector) (n : ℕ) (bytes : List ℕ)
    → length (process j n bytes).1.packets
        + (process j n bytes).1.packets_dropped
        + held (process j n bytes).0
      ≡ suc (held j)
unfolding process
process-held j n bytes = ground arith

finish-held : (j : FaultInjector) → length (finish j).1.packets ≡ held j
unfolding finish
finish-held j = ground arith

validate_runtime_config-extra :
    (is_ipv4_address : Text → Bool) (config : SimulatorConfig)
    → validate_runtime_config is_ipv4_address config ≡ ok tt
    → config.camera_extra_data_bytes ≤ 65451
unfolding validate_runtime_config
validate_runtime_config-extra is_ipv4_address config e = ground (arith, e)

-- All packets generated are sent, dropped or held back.
record IsAccounted (j : FaultInjector) (a : SimulationSummary) : Type 0 where
  account :
      (a.packets_sent + a.packets_dropped + held j) % 2 ^ 64
      ≡ (a.packets_generated + a.duplicate_packets_sent) % 2 ^ 64

module _ (w : World) (steady : IsSteady w) (quiet : IsQuiet w) where
  -- A round of the loop generates one more packet, and leaves the loop at the last.
  Rounded : Option ℕ → SimulatorState w → Outcome (Next × SimulatorState w) → Type 0
  Rounded count st o =
      (st' : SimulatorState w) × ((o
          ≡ finished
              ((if is_last count (suc st.summary.packets_generated) then left else go_on), st'))
        × ((st'.summary.packets_generated ≡ suc st.summary.packets_generated)
            × IsAccounted st'.injector st'.summary))

  pace-sent :
      (config : SimulatorConfig) (period : ℕ) (st : SimulatorState w)
      → (st' : SimulatorState w) × ((pace w config period st true
            ≡ finished (
              (if is_last config.packet_count st.summary.packets_generated then left else go_on),
              st',
            ))
          × ((st'.summary ≡ st.summary) × (st'.injector ≡ st.injector)))
  unfolding pace
  pace-sent config period st =
      elim (Bool-cases (is_last config.packet_count st.summary.packets_generated)) [
        | inl last ↦ (st, (rw last, (refl, refl)))
        | inr more ↦
            let (s', waited) =
              wait_until_or_stop-quiet w steady quiet (st.next_deadline + period) st.world in
            (
              record st { next_deadline = st.next_deadline + period; world = s' },
              (rw (more, waited), (refl, refl)),
            )
      ]

  emit-Rounded :
      (config : SimulatorConfig) (period : ℕ) (st : SimulatorState w) (n : ℕ) (bytes : List ℕ)
      → IsAccounted st.injector st.summary
      → suc st.summary.packets_generated < 2 ^ 64
      → Rounded config.packet_count st (emit w config period st (process st.injector n bytes))
  unfolding Rounded emit
  emit-Rounded config period st n bytes acc lt =
      let (j, batch) = process st.injector n bytes in
      let counted = record st.summary {
        packets_generated = (st.summary.packets_generated + 1) % 2 ^ 64;
        packets_dropped = (st.summary.packets_dropped + batch.packets_dropped) % 2 ^ 64;
      } in
      let (b, (s', (sent, sends))) =
        send_batch-Sends w steady quiet batch config.destination counted st.world in
      let after = record st { injector = j; summary = b; world = s' } in
      let (st', (paced, (same, kept))) = pace-sent config period after in
      let grown : b.packets_generated ≡ suc st.summary.packets_generated =
        omega (arith, lt, sends.generated) in
      (
        st',
        (
          rw (sent, paced, grown) refl,
          (
            ap (λ x. x.packets_generated) same ∙ grown,
            record {
              account =
                  rw (same, kept)
                    (omega (
                      arith,
                      acc.account,
                      sends.sent,
                      sends.dropped,
                      sends.generated,
                      process-held st.injector n bytes,
                    ));
            },
          ),
        ),
      )

  round-Rounded :
      (config : SimulatorConfig) (period : ℕ) (st : SimulatorState w)
      → config.camera_extra_data_bytes ≤ 65451
      → IsAccounted st.injector st.summary
      → suc st.summary.packets_generated < 2 ^ 64
      → Rounded config.packet_count st (round w config period st)
  unfolding round
  round-Rounded config period st small acc lt =
      let n = (st.summary.packets_generated + 1) % 2 ^ 64 in
      let (bytes, (made, decoded, read)) =
        generate_delivered config.sensor_type config.camera_extra_data_bytes n
          (w.time st.world % 2 ^ 64) (omega arith) (omega arith) small in
      rw made (emit-Rounded config period st n bytes acc lt)

  run_loop-left :
      (config : SimulatorConfig) (period n rounds : ℕ) (st : SimulatorState w)
      → config.camera_extra_data_bytes ≤ 65451
      → config.packet_count ≡ some n
      → n < 2 ^ 64
      → st.summary.packets_generated ≤ n
      → n - st.summary.packets_generated < rounds
      → IsAccounted st.injector st.summary
      → (st' : SimulatorState w) × ((run_loop w rounds config period st ≡ finished (false, st'))
          × ((st'.summary.packets_generated ≡ n) × IsAccounted st'.injector st'.summary))
  unfolding run_loop Rounded
  run_loop-left config period n zero st small count hn le lt acc = absurd (omega (arith, lt))
  run_loop-left config period n (suc rounds) st small count hn le lt acc =
      let asked = record st { world = (w.stop_requested st.world).1 } in
      elim (Bool-cases (leb n st.summary.packets_generated)) [
        | inl complete ↦ (
          asked,
          (
            rw
                (
                  quiet.never_stopped st.world,
                  run_loop,
                  ap (λ c. is_complete c st.summary.packets_generated) count,
                  complete,
                )
                refl,
            (ground (arith, complete, le), acc),
          ),
        )
        | inr more ↦
            let lt' : suc st.summary.packets_generated < 2 ^ 64 = ground (arith, more, hn) in
            let unended : is_complete config.packet_count st.summary.packets_generated ≡ false =
              ap (λ c. is_complete c st.summary.packets_generated) count ∙ more in
            let ending : (b : Bool)
                → (suc st.summary.packets_generated == n) ≡ b
                → is_last config.packet_count (suc st.summary.packets_generated) ≡ b =
              λ b e. ap (λ c. is_last c (suc st.summary.packets_generated)) count ∙ e in
            let (next, (rounded, (grown, acc'))) =
              round-Rounded config period asked small acc lt' in
            elim (Bool-cases (suc st.summary.packets_generated == n)) [
              | inl last ↦ (
                next,
                (
                  rw
                      (
                        quiet.never_stopped st.world,
                        run_loop,
                        unended,
                        rounded,
                        ending true last,
                        run_loop,
                      )
                      refl,
                  (ground (arith, grown, last), acc'),
                ),
              )
              | inr on ↦
                  let (st', (rest, done)) =
                    run_loop-left config period n rounds next small count hn
                      (ground (arith, more, grown)) (ground (arith, more, grown, lt)) acc' in
                  (
                    st',
                    (
                      rw
                          (
                            quiet.never_stopped st.world,
                            run_loop,
                            unended,
                            rounded,
                            ending false on,
                            run_loop,
                          )
                          rest,
                      done,
                    ),
                  )
            ]
      ]

  -- In a run in which no stop is asked for and the socket works, on a clock that never goes back and
  -- sleeps that last until their time, a valid configuration with a packet count below 2 ^ 64 makes
  -- the simulator come to its end, with as many packets generated as were asked for: up to 2 ^ 64,
  -- those sent and those dropped are those generated and the duplicates.
  pub run_simulator_complete :
      (is_ipv4_address : Text → Bool) (period_of : ℕ → ℕ) (rounds n : ℕ) (config : SimulatorConfig)
      (s : w.State)
      → validate_runtime_config is_ipv4_address config ≡ ok tt
      → config.packet_count ≡ some n
      → n < 2 ^ 64
      → n < rounds
      → (summary : SimulationSummary) × ((run_simulator w is_ipv4_address period_of rounds config
              true s
            ≡ finished summary)
          × (summary.packets_generated ≡ n)
          × ((summary.packets_sent + summary.packets_dropped) % 2 ^ 64
              ≡ (n + summary.duplicate_packets_sent) % 2 ^ 64))
  unfolding run_simulator finish_run
  run_simulator_complete is_ipv4_address period_of rounds n config s valid count hn enough =
      let begun = start_state w config (w.open_socket s).1 in
      let period = period_of config.rate_hz in
      let (st, (ran, (generated, acc))) =
        run_loop-left config period n rounds begun
          (validate_runtime_config-extra is_ipv4_address config valid) count hn (omega arith)
          (omega (arith, enough)) (record { account = refl }) in
      let (b, (s', (sent, sends))) =
        send_batch-Sends w steady quiet (finish st.injector).1 config.destination st.summary
          (w.stop_requested st.world).1 in
      (
        b,
        (
          rw (valid, quiet.opened s, ran, quiet.never_stopped st.world, sent) refl,
          sends.generated ∙ generated,
          omega (arith, generated, acc.account, sends.sent, sends.dropped, finish-held st.injector),
        ),
      )
