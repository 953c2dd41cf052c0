-- ===== src/Config/Infrastructure/Valid.antt =====
-- What the validation of the infrastructure configuration (config.go) accepts.
use l7_proxy.Prelude.{◌≡◌, ◌↔◌, [], arith, not}
use l7_proxy.Prelude.Int.{ℤ, pos, ◌≤ℤ◌, ltb_ℤ}
use l7_proxy.Config.{InfrastructureConfig, ConfigError, report_if}
use l7_proxy.Config.Reports.{append_nil}
use l7_proxy.Config.Infrastructure.{
  validate_timeouts, validate_connection_pool, validate_mirroring_config, validate_max_body_size,
  validate_infrastructure,
}

abbrev pub AreTimeoutsValid : InfrastructureConfig → Type 0
AreTimeoutsValid cfg =
    (pos 0 ≤ℤ cfg.transport.tcp)
    × (pos 0 ≤ℤ cfg.transport.keep_alive)
    × (pos 0 ≤ℤ cfg.transport.tls)
    × (pos 0 ≤ℤ cfg.transport.response_header)
    × (pos 0 ≤ℤ cfg.transport.idle_conn)
    × (pos 0 ≤ℤ cfg.server.context)
    × (pos 0 ≤ℤ cfg.server.read_header)
    × (pos 0 ≤ℤ cfg.server.idle)

at_least_0_nil : (x : ℤ) (e : ConfigError) → (report_if (ltb_ℤ x (pos 0)) e ≡ []) ↔ (pos 0 ≤ℤ x)
at_least_0_nil x e = ground arith

body_size_nil :
    (x : ℤ) (e : ConfigError) → (report_if (not (ltb_ℤ (pos 0) x)) e ≡ []) ↔ (pos 1 ≤ℤ x)
body_size_nil x e = ground arith

validate_timeouts_nil :
    (cfg : InfrastructureConfig) → (validate_timeouts cfg ≡ []) ↔ AreTimeoutsValid cfg
unfolding validate_timeouts
validate_timeouts_nil cfg = (
  λ h.
      let (a, h1) = (append_nil _ _).0 h in
      let (b, h2) = (append_nil _ _).0 h1 in
      let (c, h3) = (append_nil _ _).0 h2 in
      let (d, h4) = (append_nil _ _).0 h3 in
      let (e, h5) = (append_nil _ _).0 h4 in
      let (f, h6) = (append_nil _ _).0 h5 in
      let (g, k) = (append_nil _ _).0 h6 in
      (
        (at_least_0_nil _ _).0 a,
        (at_least_0_nil _ _).0 b,
        (at_least_0_nil _ _).0 c,
        (at_least_0_nil _ _).0 d,
        (at_least_0_nil _ _).0 e,
        (at_least_0_nil _ _).0 f,
        (at_least_0_nil _ _).0 g,
        (at_least_0_nil _ _).0 k,
      ),
  λ v. (append_nil _ _).1 (
    (at_least_0_nil _ _).1 v.0,
    (append_nil _ _).1 (
      (at_least_0_nil _ _).1 v.1,
      (append_nil _ _).1 (
        (at_least_0_nil _ _).1 v.2,
        (append_nil _ _).1 (
          (at_least_0_nil _ _).1 v.3,
          (append_nil _ _).1 (
            (at_least_0_nil _ _).1 v.4,
            (append_nil _ _).1 (
              (at_least_0_nil _ _).1 v.5,
              (append_nil _ _).1 ((at_least_0_nil _ _).1 v.6, (at_least_0_nil _ _).1 v.7),
            ),
          ),
        ),
      ),
    ),
  ),
)

pub record IsValidInfrastructure (cfg : InfrastructureConfig) : Type 0 where
  pub timeouts : AreTimeoutsValid cfg
  pub idle_conns : pos 0 ≤ℤ cfg.connection_pool.max_idle_conns
  pub idle_conns_per_host : pos 0 ≤ℤ cfg.connection_pool.max_idle_conns_per_host
  pub workers : pos 0 ≤ℤ cfg.mirroring.workers
  pub queue_size : pos 0 ≤ℤ cfg.mirroring.queue_size
  pub body_size : pos 1 ≤ℤ cfg.max_body_size

-- The infrastructure configuration is accepted exactly if no timeout, connection limit, worker count
-- or queue size is negative and the body limit is at least 1.
pub validate_infrastructure_iff :
    (cfg : InfrastructureConfig) → (validate_infrastructure cfg ≡ []) ↔ IsValidInfrastructure cfg
unfolding validate_infrastructure validate_connection_pool validate_mirroring_config
    validate_max_body_size
validate_infrastructure_iff cfg = (
  λ h.
      let (a, h1) = (append_nil _ _).0 h in
      let (b, h2) = (append_nil _ _).0 h1 in
      let (c, d) = (append_nil _ _).0 h2 in
      let (b1, b2) = (append_nil _ _).0 b in
      let (c1, c2) = (append_nil _ _).0 c in
      record {
        timeouts = (validate_timeouts_nil cfg).0 a;
        idle_conns = (at_least_0_nil _ _).0 b1;
        idle_conns_per_host = (at_least_0_nil _ _).0 b2;
        workers = (at_least_0_nil _ _).0 c1;
        queue_size = (at_least_0_nil _ _).0 c2;
        body_size = (body_size_nil _ _).0 d;
      },
  λ v. (append_nil _ _).1 (
    (validate_timeouts_nil cfg).1 v.timeouts,
    (append_nil _ _).1 (
      (append_nil _ _).1
          ((at_least_0_nil _ _).1 v.idle_conns, (at_least_0_nil _ _).1 v.idle_conns_per_host),
      (append_nil _ _).1 (
        (append_nil _ _).1 ((at_least_0_nil _ _).1 v.workers, (at_least_0_nil _ _).1 v.queue_size),
        (body_size_nil _ _).1 v.body_size,
      ),
    ),
  ),
)
