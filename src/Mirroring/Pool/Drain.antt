-- ===== src/Mirroring/Pool/Drain.antt =====
-- Stopping the pool (mirroring.go, Stop): what is enqueued, what is taken, and the workers.
use l7_proxy.Prelude.{
  ℕ, zero, suc, ◌+◌, ◌<◌, ◌≡◌, ◌≢◌, refl, sym, ap, ◌∙◌, inl, inr, true, List, [], ◌∷◌, ◌++◌, Option,
  none, some, length, get_elem?, append-nil, arith, List-cases, All,
}
use l7_proxy.Prelude.Int.{ℤ}
use l7_proxy.Mirroring.{Job}
use l7_proxy.Mirroring.Pool.{
  or_default, default_workers, replicate, Worker, waiting, working, returned, Pool, new_pool,
  try_submit, stop, Trial, count_trial, move, set, Label, accept, refuse, take, silent, take_label,
  Step, submits, stops, moves, Run, here, next,
}
use l7_proxy.Mirroring.Pool.Runs.{accepted, taken, entering, Run-queue, Run-new_pool-Inv}

length-set : (ws : List Worker) (i : ℕ) (w : Worker) → length (set ws i w) ≡ length ws
length-set [] i w = refl
length-set (x ∷ ws) zero w = refl
length-set (x ∷ ws) (suc i) w = ap suc (length-set ws i w)

pub move-workers :
    (w w' : Worker) (trial : Trial) (p q : Pool) (o : Option Job)
    → move w trial p ≡ some (w', q, o)
    → (q.workers ≡ p.workers) × (q.stopped ≡ p.stopped)
unfolding move
move-workers waiting w' trial p q o h = ground arith
move-workers (working j []) w' trial p q o h = ground arith
move-workers (working j (t ∷ ts)) w' trial p q o h = ground arith
move-workers returned w' trial p q o h = cc

-- A step keeps the number of workers.
Step-length : {p q : Pool} {l : Label} → Step p l q → length q.workers ≡ length p.workers
unfolding try_submit stop
Step-length (submits {p} j) = ground arith
Step-length (stops {p}) = ground arith
Step-length (moves {p} {q} {w} {w'} {o} i trial e h) =
    length-set q.workers i w' ∙ ap length (move-workers w w' trial p q o h).0

Run-length : {p q : Pool} {ls : List Label} → Run p ls q → length q.workers ≡ length p.workers
Run-length here = refl
Run-length (next step run) = Run-length run ∙ Step-length step

pub length-replicate : (n : ℕ) (w : Worker) → length (replicate n w) ≡ n
length-replicate zero w = refl
length-replicate (suc n) w = ap suc (length-replicate n w)

or_default_pos : (n : ℤ) → 0 < or_default n default_workers
unfolding or_default
or_default_pos n = ground arith

new_pool-staffed : (workers queue_size : ℤ) → 0 < length (new_pool workers queue_size).workers
unfolding new_pool
new_pool-staffed workers queue_size =
    omega
      (arith, length-replicate (or_default workers default_workers) waiting, or_default_pos workers)

returned_empty :
    (p : Pool) (ws : List Worker)
    → 0 < length ws
    → All (λ w. w ≡ returned) ws
    → All (λ w. w ≡ returned → (p.stopped ≡ true) × (p.queue ≡ [])) ws
    → p.queue ≡ []
returned_empty p [] n h k = absurd (omega arith)
returned_empty p (w ∷ ws) n (h, _) (k, _) = (k h).1

-- When all workers of a pool have returned, which is what Stop waits for, the jobs that they took are
-- those that were enqueued, each once and in order: none is lost.
pub Run-new_pool-drained :
    (workers queue_size : ℤ) (q : Pool) (ls : List Label)
    → Run (new_pool workers queue_size) ls q
    → All (λ w. w ≡ returned) q.workers
    → taken ls ≡ accepted ls
unfolding new_pool
Run-new_pool-drained workers queue_size q ls run all_returned =
    let v = Run-new_pool-Inv workers queue_size q ls run in
    let staffed : 0 < length q.workers =
      omega (arith, Run-length run, new_pool-staffed workers queue_size) in
    let empty = returned_empty q q.workers staffed all_returned v.drained in
    sym (append-nil (taken ls)) ∙ ap (λ xs. taken ls ++ xs) (sym empty) ∙ sym (Run-queue run)

pub Step-stopped :
    {p q : Pool} {l : Label}
    → Step p l q
    → p.stopped ≡ true
    → (q.stopped ≡ true) × (entering l ≡ [])
unfolding try_submit stop
Step-stopped (submits {p} j) h = ground arith
Step-stopped (stops {p}) h = ground arith
Step-stopped (moves {p} {q} {w} {w'} {o} i trial e h) s =
    (let k = (move-workers w w' trial p q o h).1 in k ∙ s, entering-take o)
  where
    entering-take : (o : Option Job) → entering (take_label o) ≡ []
    entering-take none = refl
    entering-take (some j) = refl

-- Once the pool is stopped it stays so, and no job is enqueued.
pub Run-stopped :
    {p q : Pool} {ls : List Label}
    → Run p ls q
    → p.stopped ≡ true
    → (q.stopped ≡ true) × (accepted ls ≡ [])
Run-stopped here h = (h, refl)
Run-stopped (next {l} {ls} step run) h =
    let (s, e) = Step-stopped step h in let (s', e') = Run-stopped run s in (s', no_more l ls e e')
  where
    no_more :
        (l : Label) (ls : List Label) → entering l ≡ [] → accepted ls ≡ [] → accepted (l ∷ ls) ≡ []
    no_more (accept j) ls e e' = cc
    no_more (refuse j) ls e e' = e'
    no_more (take j) ls e e' = e'
    no_more silent ls e e' = e'

-- The moves that are left to the workers of a stopped pool.
abbrev pub weight : Worker → ℕ
weight waiting = 1
weight (working j ts) = 2 + length ts
weight returned = 0

abbrev pub worker_work : List Worker → ℕ
worker_work [] = 0
worker_work (w ∷ ws) = weight w + worker_work ws

abbrev pub queue_work : List Job → ℕ
queue_work [] = 0
queue_work (j ∷ js) = 2 + length j.targets + queue_work js

abbrev pub work : Pool → ℕ
work p = queue_work p.queue + worker_work p.workers

pub worker_work-set :
    (ws : List Worker) (i : ℕ) (w w' : Worker)
    → get_elem? ws i ≡ some w
    → worker_work (set ws i w') + weight w ≡ worker_work ws + weight w'
worker_work-set [] i w w' h = cc
worker_work-set (x ∷ ws) zero w w' h = let e : x ≡ w = cc in rw e (omega arith)
worker_work-set (x ∷ ws) (suc i) w w' h = omega (arith, worker_work-set ws i w w' h)

-- In a stopped pool every worker that has not returned can move, whatever its sends bring, and each
-- such move leaves fewer moves to make: the workers that Stop waits for all return.
pub stopped_advances :
    (p : Pool) (i : ℕ) (w : Worker) (trial : Trial)
    → p.stopped ≡ true
    → get_elem? p.workers i ≡ some w
    → w ≢ returned
    → (w' : Worker) × (q : Pool) × (o : Option Job) × (move w trial p ≡ some (w', q, o))
      × (work (record q { workers = set q.workers i w' }) < work p)
unfolding move
stopped_advances p i returned trial s e h = absurd (h refl)
stopped_advances p i (working j []) trial s e h =
    (waiting, p, none, refl, omega (arith, worker_work-set p.workers i (working j []) waiting e))
stopped_advances p i (working j (t ∷ ts)) trial s e h = (
  working j ts,
  record p { counters = count_trial t trial p.counters },
  none,
  refl,
  omega (arith, worker_work-set p.workers i (working j (t ∷ ts)) (working j ts) e),
)
stopped_advances p i waiting trial s e h = elim (List-cases p.queue) [
  | inl empty ↦ (
    returned,
    p,
    none,
    ground arith,
    omega (arith, worker_work-set p.workers i waiting returned e),
  )
  | inr (j, queue, full) ↦ (
    working j j.targets,
    record p { queue = queue },
    some j,
    ground arith,
    omega (arith, worker_work-set p.workers i waiting (working j j.targets) e, ap queue_work full),
  )
]
