-- ===== src/Runtime/Pipeline/Steps.antt =====
-- worker_pipeline.cpp: each critical section keeps the state of the pipeline valid.
use driveflow_runtime.Prelude.{
  ℕ, zero, suc, ◌-◌, ◌==◌, ◌≤◌, ◌<◌, ◌≡◌, ◌≢◌, refl, sym, ap, subst, ◌∙◌, inl, inr, Bool,
  Bool-cases, if◌then◌else◌, true, false, List, [], ◌∷◌, arith, length, get_or, set, replicate,
  length-append, length-set, length-replicate,
}
use driveflow_runtime.Prelude.Result.{ok}
use driveflow_runtime.Runtime.Received.{ReceivedPacket}
use driveflow_runtime.Runtime.Pipeline.Defs.{
  WorkerPipelineConfig, WorkerPipeline, Worker, waiting, running, returned, make_pipeline,
  start_pipeline, try_submit, request_stop, worker_wake, worker_wait, wake_spuriously, notify_one,
  notify_all, worker_finish, validate_config,
}
use driveflow_runtime.Runtime.Pipeline.Run.{
  IsValid, count_in_flight, in_flight, count_in_flight-set,
}

pub make_pipeline-start :
    (config : WorkerPipelineConfig) (p : WorkerPipeline)
    → make_pipeline config true ≡ ok p
    → (start_pipeline config ≡ p) × (1 ≤ config.worker_count)
unfolding make_pipeline validate_config
make_pipeline-start config p e = ground arith

count_in_flight-waiting : (n : ℕ) → count_in_flight (replicate n waiting) ≡ 0
unfolding count_in_flight
count_in_flight-waiting zero = refl
count_in_flight-waiting (suc n) = omega (arith, count_in_flight-waiting n)

replicate-waiting : (n i : ℕ) → i < n → get_or (replicate n waiting) i returned ≡ waiting
replicate-waiting zero i lt = absurd (omega arith)
replicate-waiting (suc n) zero lt = refl
replicate-waiting (suc n) (suc i) lt = replicate-waiting n i (omega arith)

start_lt :
    (config : WorkerPipelineConfig) (i : ℕ)
    → i < length (start_pipeline config).workers
    → i < config.worker_count
start_lt config i lt = omega (arith, lt, length-replicate config.worker_count waiting)

set-returned :
    (ws : List Worker) (i j : ℕ) (w : Worker)
    → w ≢ returned
    → j < length ws
    → get_or (set ws i w) j returned ≡ returned
    → get_or ws j returned ≡ returned
set-returned [] i j w ne lt e = e
set-returned (x ∷ rest) zero zero w ne lt e = absurd (ne e)
set-returned (x ∷ rest) zero (suc j) w ne lt e = e
set-returned (x ∷ rest) (suc i) zero w ne lt e = e
set-returned (x ∷ rest) (suc i) (suc j) w ne lt e = set-returned rest i j w ne (omega arith) e

pub start-IsValid :
    (config : WorkerPipelineConfig) → 1 ≤ config.worker_count → IsValid (start_pipeline config)
start-IsValid config pos = record {
  workers = length-replicate config.worker_count waiting;
  some_worker = pos;
  bounded = omega arith;
  watermark = omega arith;
  accounted = omega (arith, count_in_flight-waiting config.worker_count);
  closed = refl;
  awake = λ i stop. absurd (ground (arith, stop));
  drained = λ i lt e.
      absurd (ground (arith, e, replicate-waiting config.worker_count i (start_lt config i lt)));
}

pub try_submit-IsValid :
    (p : WorkerPipeline) (packet : ReceivedPacket) → IsValid p → IsValid (try_submit p packet).0
unfolding try_submit notify_one
try_submit-IsValid p packet v = record {
  workers = ground (arith, v.workers);
  some_worker = ground (arith, v.some_worker);
  bounded = ground (arith, v.bounded, length-append p.queue (packet ∷ []));
  watermark = ground (arith, v.watermark, length-append p.queue (packet ∷ []));
  accounted = ground (arith, v.accounted, length-append p.queue (packet ∷ []));
  closed = ground (arith, v.closed);
  awake = λ i stop. ground (arith, stop, v.awake i);
  drained = ground (arith, v.drained, v.closed);
}

all_awake : (n i : ℕ) → get_or (replicate n false) i false ≡ false
all_awake zero i = refl
all_awake (suc n) zero = refl
all_awake (suc n) (suc i) = all_awake n i

pub request_stop-IsValid : (p : WorkerPipeline) → IsValid p → IsValid (request_stop p)
unfolding request_stop notify_all
request_stop-IsValid p v = record {
  workers = v.workers;
  some_worker = v.some_worker;
  bounded = v.bounded;
  watermark = v.watermark;
  accounted = v.accounted;
  closed = refl;
  awake = λ i stop. all_awake (length p.asleep) i;
  drained = λ i lt e. (refl, (v.drained i lt e).1);
}

finish-drained :
    (p : WorkerPipeline) (i j : ℕ)
    → IsValid p
    → j < length (set p.workers i waiting)
    → get_or (set p.workers i waiting) j returned ≡ returned
    → (p.stop_requested ≡ true) × (p.queue ≡ [])
finish-drained p i j v lt e =
    let lt' = subst (λ (n : ℕ). j < n) (length-set p.workers i waiting) lt in
    v.drained j lt' (set-returned p.workers i j waiting (λ q. absurd (ground (arith, q))) lt' e)

pub worker_finish-IsValid :
    (p : WorkerPipeline) (i : ℕ) (packet : ReceivedPacket) (threw : Bool)
    → IsValid p
    → i < length p.workers
    → get_or p.workers i returned ≡ running packet
    → IsValid (worker_finish p i threw)
unfolding worker_finish
worker_finish-IsValid p i packet true v lt e = record {
  workers = length-set p.workers i waiting ∙ v.workers;
  some_worker = v.some_worker;
  bounded = v.bounded;
  watermark = v.watermark;
  accounted =
      omega (arith, v.accounted, count_in_flight-set p.workers i waiting lt, ap in_flight e);
  closed = v.closed;
  awake = v.awake;
  drained = λ j j_lt q. finish-drained p i j v j_lt q;
}
worker_finish-IsValid p i packet false v lt e = record {
  workers = length-set p.workers i waiting ∙ v.workers;
  some_worker = v.some_worker;
  bounded = v.bounded;
  watermark = v.watermark;
  accounted =
      omega (arith, v.accounted, count_in_flight-set p.workers i waiting lt, ap in_flight e);
  closed = v.closed;
  awake = v.awake;
  drained = λ j j_lt q. finish-drained p i j v j_lt q;
}

-- `worker_wake` where there is a packet.
abbrev pub took_state : WorkerPipeline → ℕ → ReceivedPacket → List ReceivedPacket → WorkerPipeline
took_state p i packet rest = record p { queue = rest; workers = set p.workers i (running packet) }

pub worker_wake-took :
    (p : WorkerPipeline) (i : ℕ) (packet : ReceivedPacket) (rest : List ReceivedPacket)
    → p.queue ≡ packet ∷ rest
    → worker_wake p i ≡ took_state p i packet rest
unfolding worker_wake
worker_wake-took p i packet rest e = rw e

pub took-IsValid :
    (p : WorkerPipeline) (i : ℕ) (packet : ReceivedPacket) (rest : List ReceivedPacket)
    → IsValid p
    → i < length p.workers
    → get_or p.workers i returned ≡ waiting
    → p.queue ≡ packet ∷ rest
    → IsValid (took_state p i packet rest)
took-IsValid p i packet rest v lt e q = record {
  workers = length-set p.workers i (running packet) ∙ v.workers;
  some_worker = v.some_worker;
  bounded = v.bounded;
  watermark = omega (arith, v.watermark, ap length q);
  accounted = omega (
    arith,
    v.accounted,
    count_in_flight-set p.workers i (running packet) lt,
    ap in_flight e,
    ap length q,
  );
  closed = v.closed;
  awake = v.awake;
  drained = λ j j_lt r.
      let lt' = subst (λ (n : ℕ). j < n) (length-set p.workers i (running packet)) j_lt in
      let (a, b) =
        v.drained j lt'
          (set-returned p.workers i j (running packet) (λ x. absurd (ground (arith, x))) lt' r) in
      absurd (ground (arith, b, q));
}

pub worker_wake-none :
    (p : WorkerPipeline) (i : ℕ)
    → p.queue ≡ []
    → worker_wake p i ≡ (
        if p.stop_requested
        then record p { workers = set p.workers i returned }
        else record p { asleep = set p.asleep i true })
unfolding worker_wake
worker_wake-none p i e = rw e

pub found_none-IsValid :
    (p : WorkerPipeline) (i : ℕ)
    → IsValid p
    → i < length p.workers
    → get_or p.workers i returned ≡ waiting
    → p.queue ≡ []
    → IsValid (worker_wake p i)
found_none-IsValid p i v lt e q =
    subst IsValid (sym (worker_wake-none p i q)) (elim (Bool-cases p.stop_requested) [
      | inl s ↦
          subst
            (λ (b : Bool). IsValid (
              if b
              then record p { workers = set p.workers i returned }
              else record p { asleep = set p.asleep i true }))
            (sym s)
            (record {
              workers = length-set p.workers i returned ∙ v.workers;
              some_worker = v.some_worker;
              bounded = v.bounded;
              watermark = v.watermark;
              accounted = omega (
                arith,
                v.accounted,
                count_in_flight-set p.workers i returned lt,
                ap in_flight e,
                ap length q,
              );
              closed = v.closed;
              awake = v.awake;
              drained = λ j j_lt r. (s, q);
            })
      | inr s ↦
          subst
            (λ (b : Bool). IsValid (
              if b
              then record p { workers = set p.workers i returned }
              else record p { asleep = set p.asleep i true }))
            (sym s)
            (record {
              workers = v.workers;
              some_worker = v.some_worker;
              bounded = v.bounded;
              watermark = v.watermark;
              accounted = v.accounted;
              closed = v.closed;
              awake = λ j stop. absurd (ground (arith, s, stop));
              drained = v.drained;
            })
    ])

set_awake :
    (asleep : List Bool) (i j : ℕ)
    → get_or asleep j false ≡ false
    → get_or (set asleep i false) j false ≡ false
set_awake [] i j e = e
set_awake (x ∷ rest) zero zero e = refl
set_awake (x ∷ rest) zero (suc j) e = e
set_awake (x ∷ rest) (suc i) zero e = e
set_awake (x ∷ rest) (suc i) (suc j) e = set_awake rest i j e

-- A thread is woken, whatever becomes of the notifications.
pub woken-IsValid :
    (p : WorkerPipeline) (i signals : ℕ)
    → IsValid p
    → IsValid (record p { asleep = set p.asleep i false; signals = signals })
woken-IsValid p i signals v = record {
  workers = v.workers;
  some_worker = v.some_worker;
  bounded = v.bounded;
  watermark = v.watermark;
  accounted = v.accounted;
  closed = v.closed;
  awake = λ j stop. set_awake p.asleep i j (v.awake j stop);
  drained = v.drained;
}

pub wake_spuriously-IsValid :
    (p : WorkerPipeline) (i : ℕ) → IsValid p → IsValid (wake_spuriously p i)
unfolding wake_spuriously
wake_spuriously-IsValid p i v = woken-IsValid p i p.signals v

-- What a worker that is asleep does.
pub worker_wait-asleep :
    (p : WorkerPipeline) (i : ℕ)
    → get_or p.asleep i false ≡ true
    → worker_wait p i ≡ (
        if p.signals == 0
        then p
        else record p { asleep = set p.asleep i false; signals = p.signals - 1 })
unfolding worker_wait
worker_wait-asleep p i e = rw e refl

pub worker_wait-awake :
    (p : WorkerPipeline) (i : ℕ)
    → get_or p.asleep i false ≡ false
    → worker_wait p i ≡ worker_wake p i
unfolding worker_wait
worker_wait-awake p i e = rw e refl

pub notified-IsValid :
    (p : WorkerPipeline) (i : ℕ)
    → get_or p.asleep i false ≡ true
    → IsValid p
    → IsValid (worker_wait p i)
notified-IsValid p i e v =
    subst IsValid (sym (worker_wait-asleep p i e)) (elim (Bool-cases (p.signals == 0)) [
      | inl none_left ↦ rw none_left v
      | inr some_left ↦ rw some_left (woken-IsValid p i (p.signals - 1) v)
    ])
