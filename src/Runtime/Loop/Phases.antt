-- ===== src/Runtime/Loop/Phases.antt =====
-- runtime.cpp: the workers and where they stand in the packet processor.
use driveflow_runtime.Prelude.{
  ℕ, zero, suc, ◌+◌, ◌<◌, ◌≡◌, refl, sym, ◌∙◌, ap, Bool, true, false, ◌||◌, ◌&&◌, List, [], ◌∷◌,
  arith, length, get_or, set, replicate,
}
use driveflow_runtime.Runtime.Pipeline.{Worker, waiting, running, returned}
use driveflow_runtime.Runtime.Loop.State.{Phase, begun, rejecting, done}

abbrev pub is_running : Worker → Bool
is_running waiting = false
is_running (running packet) = true
is_running returned = false

-- A packet that was examined and not yet counted by the pipeline.
abbrev pub examined_in : Phase → ℕ
examined_in begun = 0
examined_in rejecting = 1
examined_in (done threw) = 1

unfoldable pub count_examined : List Phase → ℕ
count_examined [] = 0
count_examined (p ∷ rest) = examined_in p + count_examined rest

pub count_examined-set :
    (ps : List Phase) (i : ℕ) (p : Phase)
    → i < length ps
    → count_examined (set ps i p) + examined_in (get_or ps i begun)
      ≡ count_examined ps + examined_in p
unfolding count_examined
count_examined-set [] i p lt = absurd (omega arith)
count_examined-set (x ∷ rest) zero p lt = omega arith
count_examined-set (x ∷ rest) (suc i) p lt =
    let ih = count_examined-set rest i p (omega arith) in omega arith

pub count_examined-begun : (n : ℕ) → count_examined (replicate n begun) ≡ 0
unfolding count_examined
count_examined-begun zero = refl
count_examined-begun (suc n) = omega (arith, count_examined-begun n)

abbrev pub is_begun : Phase → Bool
is_begun begun = true
is_begun rejecting = false
is_begun (done threw) = false

-- There is a phase for each worker, and a worker that is not in the packet processor is not in the
-- midst of it.
unfoldable pub is_settled : List Worker → List Phase → Bool
is_settled [] [] = true
is_settled [] (p ∷ phases) = false
is_settled (w ∷ workers) [] = false
is_settled (w ∷ workers) (p ∷ phases) = (is_running w || is_begun p) && is_settled workers phases

pub start-is_settled : (n : ℕ) → is_settled (replicate n waiting) (replicate n begun) ≡ true
unfolding is_settled
start-is_settled zero = refl
start-is_settled (suc n) = start-is_settled n

pub length-is_settled :
    (ws : List Worker) (ps : List Phase) → is_settled ws ps ≡ true → length ps ≡ length ws
unfolding is_settled
length-is_settled [] [] e = refl
length-is_settled [] (p ∷ ps) e = cc
length-is_settled (w ∷ ws) [] e = cc
length-is_settled (w ∷ ws) (p ∷ ps) e = ap suc (length-is_settled ws ps (ground (arith, e)))

pub get_or-is_settled :
    (ws : List Worker) (ps : List Phase) (i : ℕ)
    → is_settled ws ps ≡ true
    → (is_running (get_or ws i returned) || is_begun (get_or ps i begun)) ≡ true
unfolding is_settled
get_or-is_settled [] [] i e = refl
get_or-is_settled [] (p ∷ ps) i e = cc
get_or-is_settled (w ∷ ws) [] i e = cc
get_or-is_settled (w ∷ ws) (p ∷ ps) zero e = ground (arith, e)
get_or-is_settled (w ∷ ws) (p ∷ ps) (suc i) e = get_or-is_settled ws ps i (ground (arith, e))

pub set-is_settled :
    (ws : List Worker) (ps : List Phase) (i : ℕ) (w : Worker) (p : Phase)
    → is_settled ws ps ≡ true
    → (is_running w || is_begun p) ≡ true
    → is_settled (set ws i w) (set ps i p) ≡ true
unfolding is_settled
set-is_settled [] [] i w p e h = refl
set-is_settled [] (q ∷ ps) i w p e h = cc
set-is_settled (x ∷ ws) [] i w p e h = cc
set-is_settled (x ∷ ws) (q ∷ ps) zero w p e h = ground (arith, e, h)
set-is_settled (x ∷ ws) (q ∷ ps) (suc i) w p e h =
    ground (arith, e, set-is_settled ws ps i w p (ground (arith, e)) h)

pub set-same : {A : Type 0} (d : A) (xs : List A) (i : ℕ) → set xs i (get_or xs i d) ≡ xs
set-same d [] i = refl
set-same d (x ∷ xs) zero = refl
set-same d (x ∷ xs) (suc i) = ap (◌∷◌ x) (set-same d xs i)

pub count_examined-returned :
    (ws : List Worker) (ps : List Phase)
    → is_settled ws ps ≡ true
    → ((i : ℕ) → i < length ws → get_or ws i returned ≡ returned)
    → count_examined ps ≡ 0
unfolding is_settled count_examined
count_examined-returned [] [] e all = refl
count_examined-returned [] (p ∷ ps) e all = cc
count_examined-returned (w ∷ ws) [] e all = cc
count_examined-returned (w ∷ ws) (p ∷ ps) e all =
    let idle : (is_running returned || is_begun p) ≡ true =
      ap (λ x. is_running x || is_begun p) (sym (all 0 (omega arith))) ∙ ground (arith, e) in
    let rest =
      count_examined-returned ws ps (ground (arith, e)) (λ i lt. all (suc i) (omega (arith, lt))) in
    ground (arith, idle, rest)
