-- ===== src/Simulator/Send/Wait.antt =====
-- sensor_simulator.cpp: `wait_until_or_stop` ends.
use driveflow_runtime.Prelude.{
  ℕ, zero, suc, ◌+◌, ◌-◌, ◌≡◌, ◌≤◌, ◌<◌, ap, inl, inr, Bool, Bool-cases, true, false, arith, leb,
  min,
}
use driveflow_runtime.Simulator.World.{World, IsSteady, IsQuiet, Outcome, finished}
use driveflow_runtime.Simulator.Send.Defs.{wait_loop, wait_until_or_stop, stop_poll_interval}

-- What `wait_until_or_stop` promises: the last thing it does is to ask the stop predicate, in some
-- state; it returns true where this answered true, and otherwise false, at a time not before the
-- deadline.
abbrev pub Waited : (w : World) → ℕ → Outcome (Bool × w.State) → Type 0
Waited w deadline o =
    (stopped : Bool) × ((asked : w.State) × ((s : w.State) × ((o ≡ finished (stopped, s))
          × (w.stop_requested asked ≡ (stopped, s))
          × (stopped ≡ false → deadline ≤ w.time s))))

-- An answer of the predicate.
answered :
    (w : World) (s : w.State) (stop : Bool)
    → (w.stop_requested s).0 ≡ stop
    → w.stop_requested s ≡ (stop, (w.stop_requested s).1)
answered w s stop e = ap (λ b. (b, (w.stop_requested s).1)) e

module _ (w : World) (steady : IsSteady w) where
  -- A sleep brings the clock on, and the deadline nearer.
  slept-nearer :
      (deadline : ℕ) (s : w.State)
      → leb deadline (w.time s) ≡ false
      → deadline - w.time (w.sleep_until (min (w.time s + stop_poll_interval) deadline) s)
        < deadline - w.time s
  slept-nearer deadline s early =
      ground (arith, steady.slept (min (w.time s + stop_poll_interval) deadline) s)

  wait_loop-Waited :
      (fuel deadline : ℕ) (s : w.State)
      → deadline - w.time s < fuel
      → Waited w deadline (wait_loop w fuel deadline s)
  unfolding wait_loop
  wait_loop-Waited zero deadline s lt = absurd (omega (arith, lt))
  wait_loop-Waited (suc fuel) deadline s lt = elim (Bool-cases (w.stop_requested s).0) [
    | inl stop ↦ (
      true,
      (
        s,
        (
          (w.stop_requested s).1,
          (rw (stop, wait_loop), answered w s true stop, λ e. absurd (ground (arith, e))),
        ),
      ),
    )
    | inr go ↦ elim (Bool-cases (leb deadline (w.time (w.stop_requested s).1))) [
      | inl come ↦ (
        false,
        (
          s,
          (
            (w.stop_requested s).1,
            (rw (go, wait_loop, come), answered w s false go, λ e. ground (arith, come)),
          ),
        ),
      )
      | inr early ↦
          rw (go, wait_loop, early)
            (wait_loop-Waited fuel deadline _ (
              omega (
                arith,
                lt,
                slept-nearer deadline (w.stop_requested s).1 early,
                steady.stop_time s,
              )))
    ]
  ]

  -- Waiting ends, whatever the stop predicate answers: with true only where the predicate has just
  -- answered true, and with false only where it has just answered false at a time not before the
  -- deadline. This rests on a clock that never goes back and a sleep that lasts until its time.
  pub wait_until_or_stop-Waited :
      (deadline : ℕ) (s : w.State) → Waited w deadline (wait_until_or_stop w deadline s)
  unfolding wait_until_or_stop
  wait_until_or_stop-Waited deadline s =
      wait_loop-Waited (suc (deadline - w.time s)) deadline s (omega arith)

  module _ (quiet : IsQuiet w) where
    wait_loop-quiet :
        (fuel deadline : ℕ) (s : w.State)
        → deadline - w.time s < fuel
        → (s' : w.State) × (wait_loop w fuel deadline s ≡ finished (false, s'))
    unfolding wait_loop
    wait_loop-quiet zero deadline s lt = absurd (omega (arith, lt))
    wait_loop-quiet (suc fuel) deadline s lt =
        let go = quiet.never_stopped s in
        elim (Bool-cases (leb deadline (w.time (w.stop_requested s).1))) [
          | inl come ↦ ((w.stop_requested s).1, rw (go, wait_loop, come))
          | inr early ↦
              rw (go, wait_loop, early)
                (wait_loop-quiet fuel deadline _ (
                  omega (
                    arith,
                    lt,
                    slept-nearer deadline (w.stop_requested s).1 early,
                    steady.stop_time s,
                  )))
        ]

    pub wait_until_or_stop-quiet :
        (deadline : ℕ) (s : w.State)
        → (s' : w.State) × (wait_until_or_stop w deadline s ≡ finished (false, s'))
    unfolding wait_until_or_stop
    wait_until_or_stop-quiet deadline s =
        wait_loop-quiet (suc (deadline - w.time s)) deadline s (omega arith)
