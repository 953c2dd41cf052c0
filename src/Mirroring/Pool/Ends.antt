-- ===== src/Mirroring/Pool/Ends.antt =====
-- How Stop of the pool (mirroring.go) comes to an end: the moves that are left to its workers.
use l7_proxy.Prelude.{
  ℕ, zero, suc, ◌+◌, ◌≤◌, ◌<◌, ◌≡◌, ◌≢◌, refl, ◌⊎◌, inl, inr, ◌∙◌, true, false, List, [], ◌∷◌,
  Option, none, some, get_elem?, All, arith, subst, sym,
}
use l7_proxy.Float.{nan}
use l7_proxy.Mirroring.{Job}
use l7_proxy.Mirroring.Pool.{
  Worker, waiting, working, returned, Pool, try_submit, stop, Trial, move, set, Label, take_label,
  Step, submits, stops, moves, Run, here, next,
}
use l7_proxy.Mirroring.Pool.Drain.{work, stopped_advances, Step-stopped}

-- How many moves of workers a run has.
abbrev pub moves_of_step : {p q : Pool} {l : Label} → Step p l q → ℕ
moves_of_step (submits j) = 0
moves_of_step stops = 0
moves_of_step (moves i trial e h) = 1

abbrev pub moves_of : {p q : Pool} {ls : List Label} → Run p ls q → ℕ
moves_of here = 0
moves_of (next step run) = moves_of_step step + moves_of run

abbrev work_after : ℕ → Option (Worker × Pool × Option Job) → ℕ
work_after i none = 0
work_after i (some (w', q, o)) = work (record q { workers = set q.workers i w' })

Worker-cases : (w : Worker) → (w ≡ returned) ⊎ (w ≢ returned)
Worker-cases waiting = inr (λ e. cc)
Worker-cases (working j ts) = inr (λ e. cc)
Worker-cases returned = inl refl

pub move-ne-returned :
    (w : Worker) (trial : Trial) (p : Pool) {r : Worker × Pool × Option Job}
    → move w trial p ≡ some r
    → w ≢ returned
unfolding move
move-ne-returned returned trial p h = cc
move-ne-returned waiting trial p h = λ e. cc
move-ne-returned (working j ts) trial p h = λ e. cc

-- A move in a stopped pool leaves fewer.
move_less :
    (p q : Pool) (i : ℕ) (w w' : Worker) (trial : Trial) (o : Option Job)
    → p.stopped ≡ true
    → get_elem? p.workers i ≡ some w
    → move w trial p ≡ some (w', q, o)
    → work (record q { workers = set q.workers i w' }) < work p
move_less p q i w w' trial o h e m =
    let (v, r, k, same, less) = stopped_advances p i w trial h e (move-ne-returned w trial p m) in
    subst (λ x. work_after i x < work p) (sym same ∙ m) less

Step-work :
    {p q : Pool} {l : Label} (step : Step p l q)
    → p.stopped ≡ true
    → moves_of_step step + work q ≤ work p
unfolding try_submit stop
Step-work (submits {p} j) h = ground arith
Step-work (stops {p}) h = ground arith
Step-work (moves {p} {q} {w} {w'} {o} i trial e m) h =
    omega (arith, move_less p q i w w' trial o h e m)

Run-work :
    {p q : Pool} {ls : List Label} (run : Run p ls q)
    → p.stopped ≡ true
    → (q.stopped ≡ true) × (moves_of run + work q ≤ work p)
Run-work here h = (h, omega arith)
Run-work (next step run) h =
    let s = (Step-stopped step h).0 in
    let (t, less) = Run-work run s in (t, omega (arith, Step-work step h))

-- Every worker has returned, or one is found that has not.
pub find_busy :
    (ws : List Worker)
    → All (λ w. w ≡ returned) ws
      ⊎ ((i : ℕ) × (w : Worker) × (get_elem? ws i ≡ some w) × (w ≢ returned))
find_busy [] = inl tt
find_busy (w ∷ ws) = elim (Worker-cases w) [
  | inr busy ↦ inr (0, w, refl, busy)
  | inl done ↦ elim (find_busy ws) [
    | inl all ↦ inl (done, all)
    | inr (i, v, e, busy) ↦ inr (suc i, v, e, busy)
  ]
]

abbrev pub quiet : Trial
quiet = record { rnd = nan; fails = false }

-- The workers of a stopped pool can all return, within as many moves as there are left.
workers_return :
    (fuel : ℕ) (p : Pool)
    → p.stopped ≡ true
    → work p ≤ fuel
    → (q : Pool) × (ls : List Label) × Run p ls q × All (λ w. w ≡ returned) q.workers
workers_return zero p h few = elim (find_busy p.workers) [
  | inl all ↦ (p, [], here, all)
  | inr (i, w, e, busy) ↦
      let (_, _, _, _, less) = stopped_advances p i w quiet h e busy in absurd (omega arith)
]
workers_return (suc fuel) p h few = elim (find_busy p.workers) [
  | inl all ↦ (p, [], here, all)
  | inr (i, w, e, busy) ↦
      let (w', q, o, m, less) = stopped_advances p i w quiet h e busy in
      let step = moves {w = w} {o = o} i quiet e m in
      let still = (Step-stopped step h).0 in
      let (r, ls, run, all) =
        workers_return fuel (record q { workers = set q.workers i w' }) still (omega arith) in
      (r, take_label o ∷ ls, next step run, all)
]

-- In a run of a stopped pool its workers make no more moves than there were left; and however far it
-- has come, it can go on to where they have all returned, which is what Stop waits for.
pub stop_ends :
    {p q : Pool} {ls : List Label} (run : Run p ls q)
    → p.stopped ≡ true
    → (moves_of run + work q ≤ work p)
      × ((r : Pool) × (ls' : List Label) × Run q ls' r × All (λ w. w ≡ returned) r.workers)
stop_ends {p} {q} run h =
    let (s, less) = Run-work run h in (less, workers_return (work q) q s (omega arith))
