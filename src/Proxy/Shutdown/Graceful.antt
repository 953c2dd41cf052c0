-- ===== src/Proxy/Shutdown/Graceful.antt =====
-- The pool and the handlers in the shutdown of the server (proxy.go, Run).
use l7_proxy.Prelude.{◌≡◌, ◌⊎◌, inl, inr, false, List, ◌++◌, All, subst}
use l7_proxy.Prelude.Int.{ℤ}
use l7_proxy.Mirroring.Pool
use l7_proxy.Mirroring.Pool.{
  Pool, Worker, returned, Trial, Label, new_pool, try_submit, submit_label, stop, take_label, move,
  set,
}
use l7_proxy.Mirroring.Pool.Runs.{accepted, taken}
use l7_proxy.Mirroring.Pool.Drain.{Run-new_pool-drained}
use l7_proxy.Proxy.Shutdown.{
  Closer, absent, listening, stopping, done, System, start, Move, arrive, arrive_late, submit,
  leave, cancel, listener_returns, listen_fails, begin_shutdown, shut, shutdown_fails,
  router_waited, pool_stopped, finish, give_up, work, Run, here, next,
}
use l7_proxy.Proxy.Shutdown.Stages.{AtCloser, Run-Inv, start-Inv}

-- The pool's part of a run is a run of the pool.
Move-pool : {s t : System} {ls : List Label} → Move s ls t → Pool.Run s.pool ls t.pool
Move-pool (arrive e) = Pool.here
Move-pool (arrive_late e) = Pool.here
Move-pool (submit j e) = Pool.next (Pool.submits j) Pool.here
Move-pool (leave e) = Pool.here
Move-pool cancel = Pool.here
Move-pool (listener_returns e) = Pool.here
Move-pool (listen_fails e) = Pool.here
Move-pool (begin_shutdown e f) = Pool.here
Move-pool (shut e f) = Pool.here
Move-pool (shutdown_fails e) = Pool.here
Move-pool (router_waited e f) = Pool.next Pool.stops Pool.here
Move-pool (pool_stopped e all) = Pool.here
Move-pool (finish e f) = Pool.here
Move-pool (give_up e) = Pool.here
Move-pool (work {w} {o} i trial e m) = Pool.next (Pool.moves {w = w} {o = o} i trial e m) Pool.here

append_run :
    {p q r : Pool} {ls ms : List Label}
    → Pool.Run p ls q
    → Pool.Run q ms r
    → Pool.Run p (ls ++ ms) r
append_run Pool.here run = run
append_run (Pool.next step run) run' = Pool.next step (append_run run run')

Run-pool : {s t : System} {ls : List Label} → Run s ls t → Pool.Run s.pool ls t.pool
Run-pool here = Pool.here
Run-pool (next m run) = append_run (Move-pool m) (Run-pool run)

-- On every run of the server a request that is being handled finds the pool open: it is stopped only
-- when no handler is left and no request is accepted any more.
pub Run-graceful :
    (workers queue_size : ℤ) (ls : List Label) (s : System)
    → Run (start (new_pool workers queue_size)) ls s
    → (s.pool.stopped ≡ false) ⊎ ((s.handlers ≡ 0) × (s.accepting ≡ false))
Run-graceful workers queue_size ls s run =
    let inv = Run-Inv run (start-Inv workers queue_size) in at s.closer inv.stage
  where
    at :
        (c : Closer)
        → AtCloser c s
        → (s.pool.stopped ≡ false) ⊎ ((s.handlers ≡ 0) × (s.accepting ≡ false))
    at absent h = inl h
    at listening (h, a, k) = inl k
    at stopping (h, a, k) = inr (h, a)
    at done (h, a, k, all) = inr (h, a)

-- When the closer is done, which lets Run return without waiting for its timeout, the workers took
-- every job that handlers enqueued, each once and in order, and none of them is still at work.
pub Run-drained :
    (workers queue_size : ℤ) (ls : List Label) (s : System)
    → Run (start (new_pool workers queue_size)) ls s
    → s.closer ≡ done
    → (taken ls ≡ accepted ls) × All (λ w. w ≡ returned) s.pool.workers
unfolding start
Run-drained workers queue_size ls s run e =
    let inv = Run-Inv run (start-Inv workers queue_size) in
    let all = (subst (λ c. AtCloser c s) e inv.stage).3 in
    (Run-new_pool-drained workers queue_size s.pool ls (Run-pool run) all, all)
