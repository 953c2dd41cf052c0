-- ===== src/Tests/Shutdowns.antt =====
-- A server that mirrors one request and shuts down.
use l7_proxy.Prelude.{◌≡◌, ◌⊎◌, refl, List, [], ◌∷◌, true, false, All}
use l7_proxy.Prelude.Int.{pos}
use l7_proxy.Text.{codes}
use l7_proxy.Mirroring.Pool.{Label, waiting, working, returned, new_pool, try_submit, stop, move}
use l7_proxy.Mirroring.Pool.Runs.{accepted, taken}
use l7_proxy.Proxy.Shutdown.{
  Phase, Closer, System, start, arrive, submit, leave, cancel, listener_returns, begin_shutdown,
  shut, router_waited, pool_stopped, work, Run, here, next,
}
use l7_proxy.Proxy.Shutdown.Graceful.{Run-graceful, Run-drained}
use l7_proxy.Tests.Pools.{job, trial, filled, ended, started}

abbrev up : System
up = start started

abbrev mirrored : System
mirrored = record up { handlers = 1; pool = filled }

abbrev closing : System
closing = record mirrored {
  phase = Phase.waiting;
  accepting = false;
  handlers = 0;
  cancelled = true;
  router_done = true;
  closer = Closer.listening;
}

abbrev down : System
down = record closing { closer = Closer.done; pool = record ended { counters = filled.counters } }

abbrev labels : List Label
labels =
    Label.accept (job (codes "a"))
    ∷ Label.take (job (codes "a"))
    ∷ Label.silent
    ∷ Label.silent
    ∷ Label.silent
    ∷ []

-- The request is mirrored, the server shuts down, and the worker takes the job before the pool stops.
whole-Run : Run up labels down
unfolding start new_pool try_submit stop move
whole-Run = next (arrive refl) (
    next (submit (job (codes "a")) refl) (
      next (leave refl) (
        next cancel (
          next (listener_returns refl) (
            next (begin_shutdown refl refl) (
              next (shut refl refl) (
                next (work {w = waiting} 0 trial refl refl) (
                  next (router_waited refl refl) (
                    next (work {w = working (job (codes "a")) []} 0 trial refl refl) (
                      next (work {w = waiting} 0 trial refl refl)
                        (next (pool_stopped refl (refl, tt)) here)))))))))))

Run-graceful_example :
    (down.pool.stopped ≡ false) ⊎ ((down.handlers ≡ 0) × (down.accepting ≡ false))
Run-graceful_example = Run-graceful (pos 1) (pos 1) labels down whole-Run

Run-drained_example : (taken labels ≡ accepted labels) × All (λ w. w ≡ returned) down.pool.workers
Run-drained_example = Run-drained (pos 1) (pos 1) labels down whole-Run refl

-- The request is mirrored, and the context is cancelled while its handler still runs.
abbrev interrupted : System
interrupted = record mirrored { cancelled = true }
