-- ===== src/Mirroring/Pool/Counted.antt =====
-- What the pool (mirroring.go) counts: results of targets, and jobs that are dropped.
use l7_proxy.Prelude.{
  ℕ, zero, suc, ◌+◌, ◌≤◌, ◌≡◌, refl, List, [], ◌∷◌, ◌++◌, Option, some, length, get_elem?, arith,
}
use l7_proxy.Prelude.Int.{ℤ}
use l7_proxy.Mirroring.{Job}
use l7_proxy.Mirroring.Pool.{
  replicate, Worker, waiting, working, returned, Pool, new_pool, or_default, default_workers,
  try_submit, stop, Trial, move, set, Label, accept, refuse, take, silent, Step, submits, stops,
  moves, Run, here, next,
}
use l7_proxy.Mirroring.Pool.Drain.{move-workers}

-- The targets that are still to be tried: those of queued jobs and those that workers have left.
abbrev pub targets_of : List Job → ℕ
targets_of [] = 0
targets_of (j ∷ js) = length j.targets + targets_of js

abbrev pub left : Worker → ℕ
left waiting = 0
left (working j ts) = length ts
left returned = 0

abbrev pub left_of : List Worker → ℕ
left_of [] = 0
left_of (w ∷ ws) = left w + left_of ws

abbrev pub pending : Pool → ℕ
pending p = targets_of p.queue + left_of p.workers

abbrev pub tried : Pool → ℕ
tried p = p.counters.sent + p.counters.failed

-- The jobs that a run drops, and the targets of those that it enqueues.
abbrev pub refused : List Label → ℕ
refused [] = 0
refused (refuse j ∷ ls) = suc (refused ls)
refused (_ ∷ ls) = refused ls

abbrev pub offered : List Label → ℕ
offered [] = 0
offered (accept j ∷ ls) = length j.targets + offered ls
offered (_ ∷ ls) = offered ls

targets_of-append : (xs ys : List Job) → targets_of (xs ++ ys) ≡ targets_of xs + targets_of ys
targets_of-append [] ys = omega arith
targets_of-append (x ∷ xs) ys = omega (arith, targets_of-append xs ys)

left_of-set :
    (ws : List Worker) (i : ℕ) (w w' : Worker)
    → get_elem? ws i ≡ some w
    → left_of (set ws i w') + left w ≡ left_of ws + left w'
left_of-set [] i w w' h = cc
left_of-set (x ∷ ws) zero w w' h = ground arith
left_of-set (x ∷ ws) (suc i) w w' h = ground (arith, left_of-set ws i w w' h)

-- A move keeps the count of drops, and tries no target more than the ones it takes off.
move-counts :
    (w w' : Worker) (trial : Trial) (p q : Pool) (o : Option Job)
    → move w trial p ≡ some (w', q, o)
    → (q.counters.dropped ≡ p.counters.dropped)
      × (tried q + targets_of q.queue + left w' ≤ tried p + targets_of p.queue + left w)
unfolding move
move-counts waiting w' trial p q o h = ground arith
move-counts (working j []) w' trial p q o h = ground arith
move-counts (working j (t ∷ ts)) w' trial p q o h = ground arith
move-counts returned w' trial p q o h = cc

Step-counts :
    {p q : Pool} {l : Label}
    → Step p l q
    → (q.counters.dropped ≡ p.counters.dropped + refused (l ∷ []))
      × (tried q + pending q ≤ tried p + pending p + offered (l ∷ []))
unfolding try_submit stop
Step-counts (submits {p} j) = ground (arith, targets_of-append p.queue (j ∷ []))
Step-counts (stops {p}) = ground arith
Step-counts (moves {p} {q} {w} {w'} {o} i trial e h) = ground (
  arith,
  move-counts w w' trial p q o h,
  left_of-set p.workers i w w' e,
  (move-workers w w' trial p q o h).0,
)

refused-cons : (l : Label) (ls : List Label) → refused (l ∷ ls) ≡ refused (l ∷ []) + refused ls
refused-cons (accept j) ls = omega arith
refused-cons (refuse j) ls = omega arith
refused-cons (take j) ls = omega arith
refused-cons silent ls = omega arith

offered-cons : (l : Label) (ls : List Label) → offered (l ∷ ls) ≡ offered (l ∷ []) + offered ls
offered-cons (accept j) ls = omega arith
offered-cons (refuse j) ls = omega arith
offered-cons (take j) ls = omega arith
offered-cons silent ls = omega arith

Run-counts :
    {p q : Pool} {ls : List Label}
    → Run p ls q
    → (q.counters.dropped ≡ p.counters.dropped + refused ls)
      × (tried q + pending q ≤ tried p + pending p + offered ls)
Run-counts here = (omega arith, omega arith)
Run-counts (next {l} {ls} step run) =
    let (a, b) = Step-counts step in
    let (c, d) = Run-counts run in
    (omega (arith, a, c, refused-cons l ls), omega (arith, b, d, offered-cons l ls))

left_of-replicate : (n : ℕ) → left_of (replicate n waiting) ≡ 0
left_of-replicate zero = refl
left_of-replicate (suc n) = omega (arith, left_of-replicate n)

-- In every run of a new pool the drops that are counted are the jobs that TrySubmit did not enqueue,
-- and a target of a job is sent to at most once: the results that are counted, with the targets that
-- are still to be tried, are no more than the targets of the enqueued jobs.
pub Run-new_pool-counts :
    (workers queue_size : ℤ) (q : Pool) (ls : List Label)
    → Run (new_pool workers queue_size) ls q
    → (q.counters.dropped ≡ refused ls) × (tried q + pending q ≤ offered ls)
unfolding new_pool
Run-new_pool-counts workers queue_size q ls run =
    let (a, b) = Run-counts run in
    (omega (arith, a), omega (arith, b, left_of-replicate (or_default workers default_workers)))
