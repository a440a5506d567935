-- ===== src/Simulator/World.antt =====
-- What the simulator's loop is run in: the caller's stop predicate, std::chrono::steady_clock,
-- std::this_thread::sleep_until and the UDP socket.
use driveflow_runtime.Prelude.{ℕ, ◌≤◌, ◌≡◌, Bool, false, List}
use driveflow_runtime.Prelude.Result.{Result, ok, Exception}
use driveflow_runtime.Net.{Ipv4Endpoint}

-- Times are nanoseconds of the steady clock. Each operation returns the state after it.
pub record World : Type 1 where
  pub State : Type 0
  pub time : State → ℕ
  pub stop_requested : State → Bool × State
  pub sleep_until : ℕ → State → State
  pub open_socket : State → Result (Unit {0}) × State
  pub send_to : List ℕ → Ipv4Endpoint → State → Result (Unit {0}) × State

-- What is documented of the clock: it never goes back, and a sleep lasts until its time.
pub record IsSteady (w : World) : Type 0 where
  pub stop_time : (s : w.State) → w.time s ≤ w.time (w.stop_requested s).1
  pub slept : (t : ℕ) (s : w.State) → t ≤ w.time (w.sleep_until t s)
  pub sleep_time : (t : ℕ) (s : w.State) → w.time s ≤ w.time (w.sleep_until t s)
  pub send_time :
      (bytes : List ℕ) (e : Ipv4Endpoint) (s : w.State) → w.time s ≤ w.time (w.send_to bytes e s).1

-- A run in which nobody asks for a stop and the socket works.
pub record IsQuiet (w : World) : Type 0 where
  pub never_stopped : (s : w.State) → (w.stop_requested s).0 ≡ false
  pub opened : (s : w.State) → (w.open_socket s).0 ≡ ok tt
  pub delivered :
      (bytes : List ℕ) (e : Ipv4Endpoint) (s : w.State) → (w.send_to bytes e s).0 ≡ ok tt

-- What a call comes to: a value, an exception, or no end within its fuel.
pub data Outcome (A : Type 0) : Type 0 where
  finished : A → Outcome A
  threw : Exception → Outcome A
  unfinished : Outcome A

infixl 5 ◌>>=◌
abbrev pub ◌>>=◌ : {A B : Type 0} → Outcome A → (A → Outcome B) → Outcome B
finished a >>= f = f a
threw e >>= f = threw e
unfinished >>= f = unfinished

abbrev pub lift : {A : Type 0} → Result A → Outcome A
lift (Result.ok a) = finished a
lift (Result.throws e) = threw e
