-- ===== src/Mirroring/Pool/Runs.antt =====
-- What every run of the pool (mirroring.go) keeps.
use l7_proxy.Prelude.{
  ℕ, zero, suc, ◌≤◌, ◌≡◌, refl, sym, ap, ◌∙◌, true, List, [], ◌∷◌, ◌++◌, Option, none, some, length,
  length-append, append_assoc, append-nil, arith, All, subst,
}
use l7_proxy.Prelude.Int.{ℤ}
use l7_proxy.Mirroring.{Job}
use l7_proxy.Mirroring.Pool.{
  or_default, default_workers, replicate, Worker, waiting, working, returned, Pool, new_pool,
  try_submit, stop, Trial, move, set, Label, accept, refuse, take, silent, take_label, Step,
  submits, stops, moves, Run, here, next,
}

-- The jobs that were enqueued, and those that workers took, in order.
abbrev pub accepted : List Label → List Job
accepted [] = []
accepted (accept j ∷ ls) = j ∷ accepted ls
accepted (_ ∷ ls) = accepted ls

abbrev pub taken : List Label → List Job
taken [] = []
taken (take j ∷ ls) = j ∷ taken ls
taken (_ ∷ ls) = taken ls

abbrev pub entering : Label → List Job
entering (accept j) = j ∷ []
entering _ = []

abbrev pub leaving : Label → List Job
leaving (take j) = j ∷ []
leaving _ = []

move-queue :
    (w w' : Worker) (trial : Trial) (p q : Pool) (o : Option Job)
    → move w trial p ≡ some (w', q, o)
    → p.queue ≡ leaving (take_label o) ++ q.queue
unfolding move
move-queue waiting w' trial p q o h = ground arith
move-queue (working j []) w' trial p q o h = ground arith
move-queue (working j (t ∷ ts)) w' trial p q o h = ground arith
move-queue returned w' trial p q o h = cc

-- One step: what the queue held and what enters it is what leaves it and what it holds then.
Step-queue : {p q : Pool} {l : Label} → Step p l q → p.queue ++ entering l ≡ leaving l ++ q.queue
unfolding try_submit stop
Step-queue (submits {p} j) = ground (arith, append-nil p.queue)
Step-queue (stops {p}) = ground (arith, append-nil p.queue)
Step-queue (moves {p} {q} {w} {w'} {o} i trial e h) =
    ap (λ l. p.queue ++ l) (entering-take o) ∙ append-nil p.queue ∙ move-queue w w' trial p q o h
  where
    entering-take : (o : Option Job) → entering (take_label o) ≡ []
    entering-take none = refl
    entering-take (some j) = refl

accepted-cons : (l : Label) (ls : List Label) → accepted (l ∷ ls) ≡ entering l ++ accepted ls
accepted-cons (accept j) ls = refl
accepted-cons (refuse j) ls = refl
accepted-cons (take j) ls = refl
accepted-cons silent ls = refl

taken-cons : (l : Label) (ls : List Label) → taken (l ∷ ls) ≡ leaving l ++ taken ls
taken-cons (accept j) ls = refl
taken-cons (refuse j) ls = refl
taken-cons (take j) ls = refl
taken-cons silent ls = refl

-- In every run the jobs leave the queue in the order in which they were enqueued, each once: what was
-- queued and what was accepted is what was taken and what is still queued.
pub Run-queue :
    {p q : Pool} {ls : List Label} → Run p ls q → p.queue ++ accepted ls ≡ taken ls ++ q.queue
Run-queue (here {p}) = append-nil p.queue
Run-queue (next {p} {q} {r} {l} {ls} step run) =
    ap (λ xs. p.queue ++ xs) (accepted-cons l ls)
    ∙ sym (append_assoc p.queue (entering l) (accepted ls))
    ∙ ap (λ qs. qs ++ accepted ls) (Step-queue step)
    ∙ append_assoc (leaving l) q.queue (accepted ls)
    ∙ ap (λ qs. leaving l ++ qs) (Run-queue run)
    ∙ sym (append_assoc (leaving l) (taken ls) r.queue)
    ∙ ap (λ ts. ts ++ r.queue) (sym (taken-cons l ls))

-- What holds of the pool between two steps: the queue is within its capacity, and a worker returns
-- only when the pool is stopped and the queue is empty.
pub record Inv (p : Pool) : Type 0 where
  pub bounded : length p.queue ≤ p.capacity
  pub drained : All (λ w. w ≡ returned → (p.stopped ≡ true) × (p.queue ≡ [])) p.workers

abbrev Drained : Pool → Worker → Type 0
Drained p w = w ≡ returned → (p.stopped ≡ true) × (p.queue ≡ [])

Drained-mono :
    (p q : Pool) (ws : List Worker)
    → (p.stopped ≡ true → p.queue ≡ [] → (q.stopped ≡ true) × (q.queue ≡ []))
    → All (Drained p) ws
    → All (Drained q) ws
Drained-mono p q [] keep h = tt
Drained-mono p q (w ∷ ws) keep (h, hs) =
    (λ e. let (s, n) = h e in keep s n, Drained-mono p q ws keep hs)

Drained-set :
    (p : Pool) (ws : List Worker) (i : ℕ) (w : Worker)
    → Drained p w
    → All (Drained p) ws
    → All (Drained p) (set ws i w)
Drained-set p [] i w d h = tt
Drained-set p (x ∷ ws) zero w d (h, hs) = (d, hs)
Drained-set p (x ∷ ws) (suc i) w d (h, hs) = (h, Drained-set p ws i w d hs)

-- A move keeps what a stopped and empty pool is, and returns only from one.
record MoveKeeps (p q : Pool) (w' : Worker) : Type 0 where
  keeps : p.stopped ≡ true → p.queue ≡ [] → (q.stopped ≡ true) × (q.queue ≡ [])
  arrives : Drained q w'
  shorter : length q.queue ≤ length p.queue
  capacity : q.capacity ≡ p.capacity
  workers : q.workers ≡ p.workers

record Unmoved (p q : Pool) : Type 0 where
  keeps : p.stopped ≡ true → p.queue ≡ [] → (q.stopped ≡ true) × (q.queue ≡ [])
  bounded : length q.queue ≤ q.capacity
  workers : q.workers ≡ p.workers

move_keeps :
    (w w' : Worker) (trial : Trial) (p q : Pool) (o : Option Job)
    → move w trial p ≡ some (w', q, o)
    → MoveKeeps p q w'
unfolding move
move_keeps waiting w' trial p q o h = ground arith
move_keeps (working j []) w' trial p q o h = ground arith
move_keeps (working j (t ∷ ts)) w' trial p q o h = ground arith
move_keeps returned w' trial p q o h = cc

-- Submitting keeps the workers, the capacity and a stopped pool's queue; so does stopping.
try_submit_keeps : (j : Job) (p : Pool) → Inv p → Unmoved p (try_submit j p).0
unfolding try_submit
try_submit_keeps j p v = ground (arith, v.bounded, length-append p.queue (j ∷ []))

stop_keeps : (p : Pool) → Inv p → Unmoved p (stop p)
unfolding stop
stop_keeps p v = ground (arith, v.bounded)

Inv-of_keeps : (p q : Pool) → Inv p → Unmoved p q → Inv q
Inv-of_keeps p q v k = record {
  bounded = k.bounded;
  drained = subst (All (Drained q)) (sym k.workers) (Drained-mono p q p.workers k.keeps v.drained);
}

-- Every step keeps the invariant.
Step-Inv : {p q : Pool} {l : Label} → Step p l q → Inv p → Inv q
Step-Inv (submits {p} j) v = Inv-of_keeps p _ v (try_submit_keeps j p v)
Step-Inv (stops {p}) v = Inv-of_keeps p (stop p) v (stop_keeps p v)
Step-Inv (moves {p} {q} {w} {w'} {o} i trial e h) v =
    let k = move_keeps w w' trial p q o h in
    let moved = record q { workers = set q.workers i w' } in
    record {
      bounded = omega (arith, v.bounded, k.shorter, k.capacity);
      drained = Drained-set moved q.workers i w' k.arrives (
          Drained-mono p moved q.workers k.keeps
            (subst (All (Drained p)) (sym k.workers) v.drained));
    }

Run-Inv : {p q : Pool} {ls : List Label} → Run p ls q → Inv p → Inv q
Run-Inv here v = v
Run-Inv (next step run) v = Run-Inv run (Step-Inv step v)

replicate-Drained : (n : ℕ) (p : Pool) → All (Drained p) (replicate n waiting)
replicate-Drained zero p = tt
replicate-Drained (suc n) p = (λ e. cc, replicate-Drained n p)

pub new_pool-Inv : (workers queue_size : ℤ) → Inv (new_pool workers queue_size)
unfolding new_pool
new_pool-Inv workers queue_size = record {
  bounded = omega arith;
  drained = replicate-Drained (or_default workers default_workers) (new_pool workers queue_size);
}

-- In every run of a new pool the queue stays within its capacity, and a worker has returned only if
-- the pool was stopped and the queue is empty.
pub Run-new_pool-Inv :
    (workers queue_size : ℤ) (q : Pool) (ls : List Label)
    → Run (new_pool workers queue_size) ls q
    → Inv q
Run-new_pool-Inv workers queue_size q ls run = Run-Inv run (new_pool-Inv workers queue_size)
