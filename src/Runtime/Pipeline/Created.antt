-- ===== src/Runtime/Pipeline/Created.antt =====
-- worker_pipeline.cpp: what the constructor comes to, whichever threads can be made.
use driveflow_runtime.Prelude.{
  ℕ, zero, suc, ◌+◌, ◌<◌, ◌≤◌, ◌≡◌, refl, sym, ap, ap₂, subst, ◌∙◌, ◌⊎◌, inl, inr, Bool, Bool-cases,
  ltb, true, false, Option, none, some, List, [], ◌∷◌, ◌++◌, arith, length, get_or, set, replicate,
  replicate_add, length-replicate, length-set, get_or-set_self, get_or-set_ne, if◌then◌else◌,
}
use driveflow_runtime.Prelude.Result.{ok, throws, Exception, Result-cases}
use driveflow_runtime.Runtime.Pipeline.Defs.{
  WorkerPipelineConfig, WorkerPipeline, Worker, waiting, returned, validate_config, start_pipeline,
  request_stop, notify_all,
}
use driveflow_runtime.Runtime.Pipeline.Drain.{AllReturned}
use driveflow_runtime.Runtime.Pipeline.Steps.{worker_wake-none, worker_wait-awake}
use driveflow_runtime.Runtime.Pipeline.Create.{
  Threads, Creation, created, unwound, join_workers, create_workers, construct, kept,
}

-- The pipeline with its first `n` threads.
abbrev spawned : WorkerPipelineConfig → ℕ → WorkerPipeline
spawned config n = record (start_pipeline config) {
  workers = replicate n waiting;
  asleep = replicate n false;
}

-- After the join the first `n` threads have returned, and nothing else has changed.
record Joined (n : ℕ) (before after : WorkerPipeline) : Type 0 where
  size : length after.workers ≡ length before.workers
  queue : after.queue ≡ []
  stop : after.stop_requested ≡ true
  closed : after.accepting ≡ before.accepting
  awake : (i : ℕ) → get_or after.asleep i false ≡ false
  metrics : after.metrics ≡ before.metrics
  all : (i : ℕ) → i < n → get_or after.workers i returned ≡ returned

ltb-lt : (i n : ℕ) → ltb i n ≡ true → i < n
ltb-lt i n e = ground (arith, e)

last_one : (i n : ℕ) → i < suc n → ltb i n ≡ false → n ≡ i
last_one i n lt e = ground (arith, lt, e)

woken-Joined :
    (n : ℕ) (before after : WorkerPipeline)
    → suc n ≤ length before.workers
    → Joined n before after
    → Joined (suc n) before (record after { workers = set after.workers n returned })
woken-Joined n before after enough j = record {
  size = length-set after.workers n returned ∙ j.size;
  queue = j.queue;
  stop = j.stop;
  closed = j.closed;
  awake = j.awake;
  metrics = j.metrics;
  all = λ i lt. elim (Bool-cases (ltb i n)) [
    | inl earlier ↦
        get_or-set_ne after.workers n i returned returned
          (λ e. omega (arith, e, ltb-lt i n earlier))
        ∙ j.all i (ltb-lt i n earlier)
    | inr last ↦
        subst (λ k. get_or (set after.workers n returned) k returned ≡ returned)
          (last_one i n lt last)
          (get_or-set_self after.workers n returned returned (omega (arith, enough, j.size)))
  ];
}

-- `join_workers` on a stopped pipeline with an empty queue.
join_workers-Joined :
    (n : ℕ) (p : WorkerPipeline)
    → n ≤ length p.workers
    → p.queue ≡ []
    → p.stop_requested ≡ true
    → ((i : ℕ) → get_or p.asleep i false ≡ false)
    → Joined n p (join_workers n p)
unfolding join_workers
join_workers-Joined zero p enough queue stop up = record {
  size = refl;
  queue = queue;
  stop = stop;
  closed = refl;
  awake = up;
  metrics = refl;
  all = λ i lt. absurd (omega (arith, lt));
}
join_workers-Joined (suc n) p enough queue stop up =
    let j = join_workers-Joined n p (omega (arith, enough)) queue stop up in
    let after = join_workers n p in
    subst (Joined (suc n) p)
      (sym (
        worker_wait-awake after n (j.awake n)
        ∙ worker_wake-none after n j.queue
        ∙ ap
            (λ (b : Bool).
              if b
              then record after { workers = set after.workers n returned }
              else record after { asleep = set after.asleep n true })
            j.stop))
      (woken-Joined n p after enough j)

-- What the creation of the threads comes to: all threads were made, and they wait; or thread `n`
-- could not be made, and the object that is left has been closed, counts no packet, and has the `n`
-- threads before it, all of which have returned.
pub data Creates (threads : Threads) (config : WorkerPipelineConfig) : Creation → Type 0 where
  all_made :
      ((i : ℕ) → i < config.worker_count → threads.thread i ≡ none)
      → Creates threads config (created (start_pipeline config))
  joined :
      (n : ℕ) (p : WorkerPipeline) (e : Exception)
      → n < config.worker_count
      → ((i : ℕ) → i < n → threads.thread i ≡ none)
      → threads.thread n ≡ some e
      → length p.workers ≡ n
      → AllReturned p
      → p.metrics ≡ (start_pipeline config).metrics
      → p.stop_requested ≡ true
      → p.accepting ≡ false
      → Creates threads config (unwound p e)

no_one_asleep : (n i : ℕ) → get_or (replicate n false) i false ≡ false
no_one_asleep zero i = refl
no_one_asleep (suc n) zero = refl
no_one_asleep (suc n) (suc i) = no_one_asleep n i

-- `joined`, of the object that the loop leaves at thread `n`.
failed-Creates :
    (threads : Threads) (config : WorkerPipelineConfig) (n : ℕ) (e : Exception)
    → n < config.worker_count
    → ((i : ℕ) → i < n → threads.thread i ≡ none)
    → threads.thread n ≡ some e
    → Creates threads config (
        unwound
          (join_workers n (request_stop (record (spawned config n) { asleep = threads.slept n })))
          e)
unfolding request_stop notify_all
failed-Creates threads config n e lt before fails =
    let p = request_stop (record (spawned config n) { asleep = threads.slept n }) in
    let size = length-replicate n waiting in
    let j =
      join_workers-Joined n p (omega (arith, size)) refl refl
        (no_one_asleep (length (threads.slept n))) in
    joined n (join_workers n p) e lt before fails (j.size ∙ size)
      (λ i within. j.all i (omega (arith, within, j.size, size))) j.metrics j.stop j.closed

none_before :
    (thread : ℕ → Option Exception) (n : ℕ)
    → ((i : ℕ) → i < n → thread i ≡ none)
    → thread n ≡ none
    → (i : ℕ) → i < suc n
    → thread i ≡ none
none_before thread n before here i lt = elim (Bool-cases (ltb i n)) [
  | inl earlier ↦ before i (ltb-lt i n earlier)
  | inr last ↦ subst (λ k. thread k ≡ none) (last_one i n lt last) here
]

Option-cases : (answer : Option Exception) → (answer ≡ none) ⊎ ((e : Exception) × (answer ≡ some e))
Option-cases none = inl refl
Option-cases (some e) = inr (e, refl)

one_more {ℓ} : {A : Type ℓ} → (n : ℕ) (a : A) → replicate (suc n) a ≡ replicate n a ++ a ∷ []
one_more n a = ap (λ k. replicate k a) {x = suc n} (omega arith) ∙ replicate_add n 1 a

create_workers-Creates :
    (threads : Threads) (config : WorkerPipelineConfig) (n left : ℕ)
    → n + left ≡ config.worker_count
    → ((i : ℕ) → i < n → threads.thread i ≡ none)
    → Creates threads config (create_workers threads left (spawned config n))
unfolding create_workers
create_workers-Creates threads config n zero count before =
    let all : n ≡ config.worker_count = omega (arith, count) in
    subst (λ k. Creates threads config (created (spawned config k))) (sym all)
      (all_made (λ i lt. before i (omega (arith, lt, all))))
create_workers-Creates threads config n (suc left) count before =
    let rest = create_workers-Creates threads config (suc n) left (omega (arith, count)) in
    elim (Option-cases (threads.thread n)) [
      | inl here ↦
          rw (length-replicate n waiting, here, create_workers)
            (subst {A = List Worker × List Bool}
              (λ ws. Creates threads config (
                create_workers threads left
                  (record (start_pipeline config) { workers = ws.0; asleep = ws.1 })))
              (ap₂ (λ ws bs. (ws, bs)) (one_more n waiting) (one_more n false))
              (rest (none_before threads.thread n before here)))
      | inr (e, fails) ↦
          rw (length-replicate n waiting, fails, create_workers)
            (subst
              (λ k. Creates threads config (
                unwound
                  (join_workers k
                    (request_stop (record (spawned config n) { asleep = threads.slept k })))
                  e))
              (sym (length-replicate n waiting))
              (failed-Creates threads config n e (omega (arith, count)) before fails))
    ]

created_of :
    (threads : Threads) (config : WorkerPipelineConfig) (creation : Creation)
    → construct threads config true ≡ ok creation
    → create_workers threads config.worker_count (spawned config 0) ≡ creation
unfolding construct validate_config
created_of threads config creation e = ground (arith, e)

-- The constructor of the pipeline with a configuration that passes its checks, room for its threads
-- and a packet processor, whichever threads can be made: either all were made, and the pipeline is
-- that of `start_pipeline`; or the thread at some place could not be made, and the constructor leaves
-- with its exception after it has asked the threads made before it to stop and has joined them,
-- whichever of them slept: all have returned, with no packet counted.
pub construct-Creates :
    (threads : Threads) (config : WorkerPipelineConfig) (creation : Creation)
    → construct threads config true ≡ ok creation
    → Creates threads config creation
construct-Creates threads config creation e =
    subst (Creates threads config) (created_of threads config creation e) (
      create_workers-Creates threads config 0 config.worker_count (omega arith)
        (λ i lt. absurd (omega (arith, lt))))

-- What the system may refuse the pipeline.
pub data Refused (threads : Threads) (config : WorkerPipelineConfig) (e : Exception) : Type 0 where
  no_room : threads.reserve config.worker_count ≡ some e → Refused threads config e
  no_thread :
      (n : ℕ) → n < config.worker_count → threads.thread n ≡ some e → Refused threads config e

Creates-kept :
    (threads : Threads) (config : WorkerPipelineConfig) (creation : Creation) (p : WorkerPipeline)
    → Creates threads config creation
    → kept (ok creation) ≡ ok p
    → start_pipeline config ≡ p
unfolding kept
Creates-kept threads config creation p (all_made before) e = cc
Creates-kept threads config creation p (joined n q x lt before fails size all same stop closed) e =
    absurd (ground (arith, e))

construct-positive :
    (threads : Threads) (config : WorkerPipelineConfig) (creation : Creation)
    → construct threads config true ≡ ok creation
    → 1 ≤ config.worker_count
unfolding construct validate_config
construct-positive threads config creation e = ground (arith, e)

-- A pipeline that the constructor makes is that of `start_pipeline`.
pub construct-kept :
    (threads : Threads) (config : WorkerPipelineConfig) (p : WorkerPipeline)
    → kept (construct threads config true) ≡ ok p
    → (start_pipeline config ≡ p) × (1 ≤ config.worker_count)
unfolding kept
construct-kept threads config p e = elim (Result-cases (construct threads config true)) [
  | inl (creation, good) ↦ (
    Creates-kept threads config creation p (construct-Creates threads config creation good)
        (sym (ap kept good) ∙ e),
    construct-positive threads config creation good,
  )
  | inr (x, bad) ↦ absurd (ground (arith, sym (ap kept bad) ∙ e))
]

Creates-Refused :
    (threads : Threads) (config : WorkerPipelineConfig) (creation : Creation) (e : Exception)
    → Creates threads config creation
    → kept (ok creation) ≡ throws e
    → Refused threads config e
unfolding kept
Creates-Refused threads config creation e (all_made before) same = absurd (ground (arith, same))
Creates-Refused threads config creation e
      (joined n q x lt before fails size all metrics stop closed) same =
    no_thread n lt (fails ∙ ground (arith, same))

construct-no_room :
    (threads : Threads) (config : WorkerPipelineConfig) (e : Exception)
    → validate_config config ≡ ok config
    → construct threads config true ≡ throws e
    → threads.reserve config.worker_count ≡ some e
unfolding construct validate_config
construct-no_room threads config e checked bad =
    elim (Option-cases (threads.reserve config.worker_count)) [
      | inl room ↦ absurd (ground (arith, checked, bad, room))
      | inr (x, none_left) ↦ ground (arith, checked, bad, none_left)
    ]

kept-throws : (x e : Exception) → kept (throws x) ≡ throws e → some x ≡ some e
unfolding kept
kept-throws x e same = ground (arith, same)

-- Where the constructor throws on a configuration that passes its checks, the system refused room
-- for the threads or one of the threads.
pub construct-Refused :
    (threads : Threads) (config : WorkerPipelineConfig) (e : Exception)
    → validate_config config ≡ ok config
    → kept (construct threads config true) ≡ throws e
    → Refused threads config e
construct-Refused threads config e checked same =
    elim (Result-cases (construct threads config true)) [
      | inl (creation, good) ↦
          Creates-Refused threads config creation e (construct-Creates threads config creation good)
            (sym (ap kept good) ∙ same)
      | inr (x, bad) ↦ no_room (
          construct-no_room threads config x checked bad
          ∙ kept-throws x e (sym (ap kept bad) ∙ same))
    ]
