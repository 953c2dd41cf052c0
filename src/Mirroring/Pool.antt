-- ===== src/Mirroring/Pool.antt =====
-- mirroring.go: the pool. Submitting, stopping and each move of a worker are atomic steps, under the
-- lock or as operations on the channel; any interleaving of them is a run.
pub mod Runs
pub mod Drain
pub mod Ends
pub mod Counted
use l7_proxy.Prelude.{
  ℕ, zero, suc, ◌+◌, ◌<◌, ◌≡◌, Bool, true, false, List, [], ◌∷◌, ◌++◌, Option, none, some, ltb, leb,
  if◌then◌else◌, length, get_elem?,
}
use l7_proxy.Prelude.Int.{ℤ, pos, ltb_ℤ}
use l7_proxy.Float.{Float64}
use l7_proxy.Routing.{MirrorTarget}
use l7_proxy.Mirroring.{Job, sample}

-- A worker waits for a job, has the targets that are left of one, or has returned.
pub data Worker : Type 0 where
  waiting : Worker
  working : Job → List MirrorTarget → Worker
  returned : Worker

-- The results that are counted.
pub record Counters : Type 0 where
  pub sent : ℕ
  pub failed : ℕ
  pub dropped : ℕ

pub record Pool : Type 0 where
  pub capacity : ℕ
  pub queue : List Job
  pub stopped : Bool
  pub workers : List Worker
  pub counters : Counters

abbrev pub default_workers : ℕ
default_workers = 10

abbrev pub default_queue_size : ℕ
default_queue_size = 100

-- `if n <= 0 { n = default }`
unfoldable pub or_default : ℤ → ℕ → ℕ
or_default (pos zero) d = d
or_default (pos (suc n)) d = suc n
or_default _ d = d

abbrev pub replicate : ℕ → Worker → List Worker
replicate zero w = []
replicate (suc n) w = w ∷ replicate n w

unfoldable pub new_pool : ℤ → ℤ → Pool
unfolding or_default
new_pool workers queue_size = record {
  capacity = or_default queue_size default_queue_size;
  queue = [];
  stopped = false;
  workers = replicate (or_default workers default_workers) waiting;
  counters = record { sent = 0; failed = 0; dropped = 0 };
}

abbrev pub drop_one : Counters → Counters
drop_one c = record c { dropped = c.dropped + 1 }

-- TrySubmit: a full queue and a stopped pool drop the job. The result says whether it was enqueued.
unfoldable pub try_submit : Job → Pool → Pool × Bool
try_submit j p =
    if p.stopped
    then (record p { counters = drop_one p.counters }, false)
    else if ltb (length p.queue) p.capacity
    then (record p { queue = p.queue ++ j ∷ [] }, true)
    else (record p { counters = drop_one p.counters }, false)

-- Stop, up to the wait for the workers.
unfoldable pub stop : Pool → Pool
stop p = if p.stopped then p else record p { stopped = true }

-- What a send to a target brings: the random number, and whether it fails.
pub record Trial : Type 0 where
  pub rnd : Float64
  pub fails : Bool

abbrev pub count_trial : MirrorTarget → Trial → Counters → Counters
count_trial t trial c =
    if sample t.ratio trial.rnd
    then (if trial.fails
        then record c { failed = c.failed + 1 }
        else record c { sent = c.sent + 1 })
    else c

-- One move of a worker, with the job that it takes off the queue. A waiting worker blocks on an empty
-- queue until the pool is stopped, and then returns.
abbrev pub take_job : Pool → List Job → Option (Worker × Pool × Option Job)
take_job p [] = if p.stopped then some (returned, p, none) else none
take_job p (j ∷ queue) = some (working j j.targets, record p { queue = queue }, some j)

unfoldable pub move : Worker → Trial → Pool → Option (Worker × Pool × Option Job)
move waiting trial p = take_job p p.queue
move (working j []) trial p = some (waiting, p, none)
move (working j (t ∷ ts)) trial p =
    some (working j ts, record p { counters = count_trial t trial p.counters }, none)
move returned trial p = none

abbrev pub set : List Worker → ℕ → Worker → List Worker
set [] i v = []
set (x ∷ xs) zero v = v ∷ xs
set (x ∷ xs) (suc i) v = x ∷ set xs i v

-- What a step shows: a job enqueued or dropped, a job taken, or nothing of the sort.
pub data Label : Type 0 where
  accept refuse take : Job → Label
  silent : Label

abbrev pub submit_label : Job → Bool → Label
submit_label j true = accept j
submit_label j false = refuse j

abbrev pub take_label : Option Job → Label
take_label none = silent
take_label (some j) = take j

pub data Step : Pool → Label → Pool → Type 0 where
  submits : {p : Pool} (j : Job) → Step p (submit_label j (try_submit j p).1) (try_submit j p).0
  stops : {p : Pool} → Step p silent (stop p)
  moves :
      {p q : Pool} {w w' : Worker} {o : Option Job} (i : ℕ) (trial : Trial)
      → get_elem? p.workers i ≡ some w
      → move w trial p ≡ some (w', q, o)
      → Step p (take_label o) (record q { workers = set q.workers i w' })

-- A run, with the labels of its steps, the first at the head.
pub data Run : Pool → List Label → Pool → Type 0 where
  here : {p : Pool} → Run p [] p
  next : {p q r : Pool} {l : Label} {ls : List Label} → Step p l q → Run q ls r → Run p (l ∷ ls) r
