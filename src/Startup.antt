-- ===== src/Startup.antt =====
-- cmd/proxy/main.go: getenv and main, up to the call of Run. What the environment holds, the two
-- decoded files and the default registry are parameters; logging and pprof are left
-- out.
pub mod Ready
pub mod Sound
pub mod Serves
use l7_proxy.Prelude.{◌≡◌, List, [], ◌∷◌, Option, none, some, if◌then◌else◌, Bool, true, false, not}
use l7_proxy.Text.{Str, is_empty, codes}
use l7_proxy.Net.{Platform}
use l7_proxy.Config.{Config, ConfigError, InfrastructureConfig}
use l7_proxy.Config.Load.{◌>>=◌}
use l7_proxy.Config.Infrastructure.{parse_infrastructure_config, validate_infrastructure}
use l7_proxy.Config.Cycles.{Graph}
use l7_proxy.Routing.Reload.{Monitor, Watch, create_watched}
use l7_proxy.Mirroring.Pool.{Pool, new_pool}
use l7_proxy.Metrics.{
  http_requests_total, http_request_duration, config_reload_errors_total, mirror_requests_total,
}
use l7_proxy.Proxy.Server.{L7Proxy, new}

-- What the process is given: os.Getenv, which is empty for an unset key, what opening and decoding the
-- file at a path brings, for the two files, what setting up a watcher for a path brings, and whether
-- MustRegister of Prometheus' default registry returns for a collector by some name, behind those by
-- the names that the process has registered, the latest first; it panics otherwise.
pub record System : Type 0 where
  pub env : Str → Str
  pub decode_infrastructure : Str → Option InfrastructureConfig
  pub decode_routes : Str → Option Config
  pub watch : Str → Watch
  pub registers : List Str → Str → Bool

unfoldable pub getenv : (Str → Str) → Str → Str → Str
getenv env key default = if is_empty (env key) then default else env key

pub data Panic : Type 0 where
  incorrect_infrastructure invalid_infrastructure incorrect_routing duplicate_collector : Panic

pub record Process : Type 0 where
  pub proxy : L7Proxy
  pub router : Monitor
  pub watched : Str
  pub pool : Pool
  pub collectors : List Str

pub data Startup : Type 0 where
  panicked : Panic → Startup
  serving : Process → Startup

unfoldable pub infra_config_path : System → Str
unfolding getenv
infra_config_path sys = getenv sys.env (codes "INFRA_CONFIG_PATH") (codes "infrastructure.yaml")

unfoldable pub routes_config_path : System → Str
unfolding getenv
routes_config_path sys = getenv sys.env (codes "ROUTES_CONFIG_PATH") (codes "routes.yaml")

-- A call of prometheus.MustRegister, none if it panics.
unfoldable pub register_collector : System → Str → List Str → Option (List Str)
register_collector sys name names = if sys.registers names name then some (name ∷ names) else none

-- Its four calls.
unfoldable pub register_all : System → Option (List Str)
unfolding register_collector
register_all sys = do
  a ← register_collector sys http_requests_total []
  b ← register_collector sys http_request_duration a
  c ← register_collector sys config_reload_errors_total b
  register_collector sys mirror_requests_total c

-- The port of the infrastructure configuration, or the override.
unfoldable pub with_port : System → InfrastructureConfig → InfrastructureConfig
unfolding getenv
with_port sys infra =
    let port = getenv sys.env (codes "PORT") infra.port in
    if not (is_empty port) then record infra { port = port } else infra

abbrev pub no_errors : List ConfigError → Bool
no_errors [] = true
no_errors (_ ∷ _) = false

abbrev pub on_registered :
    System → InfrastructureConfig → Monitor × Str → Option (List Str) → Startup
on_registered sys infra router none = panicked duplicate_collector
on_registered sys infra router (some names) = serving (record {
  proxy = new (with_port sys infra) true;
  router = router.0;
  watched = router.1;
  pool = new_pool infra.mirroring.workers infra.mirroring.queue_size;
  collectors = names;
})

abbrev pub on_router : System → InfrastructureConfig → Option (Monitor × Str) → Startup
on_router sys infra none = panicked incorrect_routing
on_router sys infra (some router) = on_registered sys infra router (register_all sys)

abbrev pub on_infrastructure :
    Platform → (Graph → List Str) → System → Option InfrastructureConfig → Startup
on_infrastructure os order sys none = panicked incorrect_infrastructure
on_infrastructure os order sys (some infra) =
    if no_errors (validate_infrastructure infra)
    then on_router sys infra (
        create_watched os order (sys.watch (routes_config_path sys))
          (sys.decode_routes (routes_config_path sys)))
    else panicked invalid_infrastructure

unfoldable pub main : Platform → (Graph → List Str) → System → Startup
main os order sys =
    on_infrastructure os order sys
      (parse_infrastructure_config (sys.decode_infrastructure (infra_config_path sys)))
