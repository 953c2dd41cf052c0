-- ===== src/Startup/Sound.antt =====
-- What main (cmd/proxy/main.go) has set up when it serves requests.
use l7_proxy.Prelude.{
  ◌≡◌, ◌≢◌, refl, false, List, [], some, ◌++◌, arith, All, ◌≤◌, length, ℕ, zero, suc,
}
use l7_proxy.Prelude.Int.{ℤ, pos, negsuc, ◌≤ℤ◌}
use l7_proxy.Text.{Str, codes}
use l7_proxy.Text.Laws.{is_empty_iff}
use l7_proxy.Net.{Platform}
use l7_proxy.Config.{Config, InfrastructureConfig}
use l7_proxy.Config.Infrastructure.{parse_infrastructure_config}
use l7_proxy.Config.Cycles.{Graph}
use l7_proxy.Config.Cycles.Accepted.{Ranges, IsValidConfig}
use l7_proxy.Routing.Index.{new_route_index}
use l7_proxy.Mirroring.Pool.{Worker, waiting, replicate, or_default, new_pool}
use l7_proxy.Mirroring.Pool.Drain.{length-replicate}
use l7_proxy.Proxy.Server.{new}
use l7_proxy.Startup.{System, getenv, Process, serving, with_port, main, infra_config_path}
use l7_proxy.Startup.Ready.{main-serving}

-- What the proxy relies on when it starts.
pub record IsSound (os : Platform) (sys : System) (q : Process) : Type 0 where
  pub cfg : Config
  pub cfg_is_valid : IsValidConfig os cfg
  pub index : q.router.index ≡ new_route_index cfg
  pub addr : q.proxy.server.addr ≡ codes ":" ++ q.proxy.infra.port
  pub infra : InfrastructureConfig
  pub infra_is_read :
      parse_infrastructure_config (sys.decode_infrastructure (infra_config_path sys)) ≡ some infra
  pub override : sys.env (codes "PORT") ≢ [] → q.proxy.infra.port ≡ sys.env (codes "PORT")
  pub default : sys.env (codes "PORT") ≡ [] → q.proxy.infra.port ≡ infra.port
  pub body_size : pos 1 ≤ℤ q.proxy.infra.max_body_size
  pub workers : 1 ≤ length q.pool.workers
  pub waits : All (λ w. w ≡ waiting) q.pool.workers
  pub capacity : 1 ≤ q.pool.capacity
  pub runs : q.pool.stopped ≡ false

or_default-positive : (n : ℤ) (d : ℕ) → 1 ≤ d → 1 ≤ or_default n d
unfolding or_default
or_default-positive (pos zero) d h = h
or_default-positive (pos (suc n)) d h = omega arith
or_default-positive (negsuc n) d h = h

replicate-All : (n : ℕ) (w : Worker) → All (λ v. v ≡ w) (replicate n w)
replicate-All zero w = tt
replicate-All (suc n) w = (refl, replicate-All n w)

with_port-override :
    (sys : System) (infra : InfrastructureConfig)
    → sys.env (codes "PORT") ≢ []
    → (with_port sys infra).port ≡ sys.env (codes "PORT")
unfolding with_port getenv
with_port-override sys infra h = ground (arith, is_empty_iff (sys.env (codes "PORT")))

with_port-default :
    (sys : System) (infra : InfrastructureConfig)
    → sys.env (codes "PORT") ≡ []
    → (with_port sys infra).port ≡ infra.port
unfolding with_port getenv
with_port-default sys infra h = ground (arith, is_empty_iff (sys.env (codes "PORT")))

with_port-body_size :
    (sys : System) (infra : InfrastructureConfig)
    → (with_port sys infra).max_body_size ≡ infra.max_body_size
unfolding with_port
with_port-body_size sys infra = ground arith

-- A process that serves requests serves a valid configuration on the port of PORT, or else on that of
-- the infrastructure configuration that was read, under a body limit, and its pool has a waiting worker
-- and room for a job.
pub main-IsSound :
    (os : Platform) (order : Graph → List Str) (sys : System) (q : Process)
    → Ranges order
    → main os order sys ≡ serving q
    → IsSound os sys q
unfolding new new_pool
main-IsSound os order sys q ranges h =
    let (c, r) = main-serving os order sys q ranges h in
    let infra = c.infra in
    record {
      cfg = c.cfg;
      cfg_is_valid = c.cfg_is_valid;
      index = r.index;
      addr = rw r.proxy refl;
      infra = infra;
      infra_is_read = c.infra_is_read;
      default = λ p. rw r.proxy (with_port-default sys infra p);
      override = λ p. rw r.proxy (with_port-override sys infra p);
      body_size = rw (r.proxy, with_port-body_size sys infra) c.infra_is_valid.body_size;
      workers =
          rw (r.pool, length-replicate)
            (or_default-positive infra.mirroring.workers 10 (omega arith));
      waits = rw r.pool (replicate-All _ waiting);
      capacity = rw r.pool (or_default-positive infra.mirroring.queue_size 100 (omega arith));
      runs = rw r.pool refl;
    }
