-- ===== src/Tests/Startups.antt =====
-- A process that starts with the test configuration and PORT.
use l7_proxy.Prelude.{◌≡◌, ◌↔◌, refl, [], ◌∷◌, none, some, if◌then◌else◌, true, not, ◌||◌, List}
use l7_proxy.Text.{Str, codes, eq_str}
use l7_proxy.Dict.{member}
use l7_proxy.Config.Cycles.{keys}
use l7_proxy.Config.Infrastructure.{parse_infrastructure_config, validate_infrastructure}
use l7_proxy.Metrics.{
  http_requests_total, http_request_duration, config_reload_errors_total, mirror_requests_total,
}
use l7_proxy.Mirroring.Pool.{new_pool}
use l7_proxy.Proxy.Server.{new}
use l7_proxy.Prelude.Int.{pos}
use l7_proxy.Tests.Reloads.{created, starts}
use l7_proxy.Startup.{
  System, Process, serving, infra_config_path, routes_config_path, register_all, register_collector,
  getenv, with_port, main,
}
use l7_proxy.Startup.Ready.{IsFresh, RegistersNew, CanStart, main-CanStart}
use l7_proxy.Startup.Sound.{IsSound, main-IsSound}
use l7_proxy.Routing.Reload.{create_watched}
use l7_proxy.Tests.{parsers, decoded}
use l7_proxy.Tests.Cycles.{keys-Ranges}
use l7_proxy.Tests.Configs.{infrastructure}

-- The names that Prometheus registers itself.
abbrev taken : List Str
taken = codes "go_goroutines" ∷ []

abbrev pub system : System
system = record {
  env = λ key. if eq_str key (codes "PORT") then codes "9000" else [];
  decode_infrastructure =
      λ path. if eq_str path (codes "infrastructure.yaml") then some infrastructure else none;
  decode_routes = λ path. if eq_str path (codes "routes.yaml") then some decoded else none;
  watch = λ path. record { creates = true; abs = some (codes "/routes.yaml"); adds = true };
  registers = λ names name. not (member name names || member name taken);
}

taken-IsFresh : IsFresh taken
taken-IsFresh = (refl, (refl, (refl, (refl, tt))))

system-RegistersNew : RegistersNew system taken
system-RegistersNew names name h k = rw (h, k) refl

main-CanStart_example :
    ((q : Process) × (main parsers keys system ≡ serving q)) ↔ CanStart parsers system
main-CanStart_example =
    main-CanStart parsers keys system taken keys-Ranges system-RegistersNew taken-IsFresh

abbrev pub process : Process
process = record {
  proxy = new (with_port system infrastructure) true;
  router = created;
  watched = codes "/routes.yaml";
  pool = new_pool (pos 0) (pos 0);
  collectors =
      mirror_requests_total ∷ config_reload_errors_total ∷ http_request_duration
      ∷ http_requests_total ∷ [];
}

infrastructure_accepted : validate_infrastructure infrastructure ≡ []
unfolding validate_infrastructure
infrastructure_accepted = refl

registers : register_all system ≡ some process.collectors
unfolding register_all register_collector
registers = refl

reads :
    (parse_infrastructure_config (system.decode_infrastructure (infra_config_path system))
      ≡ some infrastructure)
    × (system.decode_routes (routes_config_path system) ≡ some decoded)
unfolding infra_config_path routes_config_path getenv parse_infrastructure_config
reads = (refl, refl)

watches :
    create_watched parsers keys (system.watch (codes "routes.yaml")) (some decoded)
    ≡ some (created, codes "/routes.yaml")
unfolding create_watched
watches = rw starts refl

pub boots : main parsers keys system ≡ serving process
unfolding main
boots = rw (reads.0, reads.1, infrastructure_accepted, watches, registers) refl

main-IsSound_example : IsSound parsers system process
main-IsSound_example = main-IsSound parsers keys system process keys-Ranges boots

port_overridden : process.proxy.server.addr ≡ codes ":9000"
unfolding new with_port getenv
port_overridden = refl
