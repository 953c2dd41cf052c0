-- ===== src/Tests/Configs.antt =====
-- Configurations that are accepted, and some that are not.
use l7_proxy.Prelude.{ℕ, ◌≡◌, ◌≢◌, ◌↔◌, refl, [], ◌∷◌, some, false, All}
use l7_proxy.Prelude.Int.{pos, negsuc}
use l7_proxy.Text.{Str, codes}
use l7_proxy.Dict.{Dict, lookup}
use l7_proxy.Config.{
  Upstream, HeaderMatch, Rule, Route, ConfigError, fallback_unknown, duplicate_name,
  InfrastructureConfig, negative_setting, duplicate_header, lowercase_method,
}
use l7_proxy.Config.Upstreams.{validate_upstreams}
use l7_proxy.Config.Upstreams.Valid.{IsValid, validate_upstreams_iff}
use l7_proxy.Config.Rules.{validate_rule, validate_headers}
use l7_proxy.Config.Rules.Valid.{IsValidRule, validate_rule_nil}
use l7_proxy.Config.Routes.{validate_routes, names_of}
use l7_proxy.Config.Routes.Valid.{IsValidRoute, HaveDistinctKeys, validate_routes_iff}
use l7_proxy.Config.Infrastructure.{validate_infrastructure}
use l7_proxy.Config.Infrastructure.Valid.{IsValidInfrastructure, validate_infrastructure_iff}
use l7_proxy.Config.Load.Hosts.{IsLoaded, parse_config-IsLoaded}
use l7_proxy.Tests.{
  parsers, upstreams, main_upstream, api_rule, tenant_header, decoded, loaded_config, loaded,
}

validate_upstreams_iff_example :
    (validate_upstreams parsers upstreams ≡ []) ↔ IsValid parsers upstreams
validate_upstreams_iff_example = validate_upstreams_iff parsers upstreams

pub upstreams_accepted : validate_upstreams parsers upstreams ≡ []
unfolding validate_upstreams l7_proxy.Text.trim_space
    l7_proxy.Config.Upstreams.validate_upstream_host l7_proxy.Net.port l7_proxy.Net.atoi
upstreams_accepted = refl

pub upstreams-IsValid : IsValid parsers upstreams
upstreams-IsValid = (validate_upstreams_iff parsers upstreams).0 upstreams_accepted

fallback_refused :
    validate_upstreams parsers (main_upstream ∷ [])
    ≡ fallback_unknown 0 (codes "main") (codes "spare") ∷ []
unfolding validate_upstreams l7_proxy.Text.trim_space
    l7_proxy.Config.Upstreams.validate_upstream_host l7_proxy.Net.port l7_proxy.Net.atoi
fallback_refused = refl

abbrev nothing_seen : Dict ℕ
nothing_seen = []

headers_refused :
    validate_headers 0 0 [] (tenant_header ∷ record tenant_header { name = codes "x-tenant" } ∷ [])
    ≡ duplicate_header 0 1 (codes "x-tenant") 0 ∷ []
unfolding validate_headers l7_proxy.Config.Tokens.is_valid_header_name
    l7_proxy.Config.Tokens.is_token_char lookup l7_proxy.Config.effective_op l7_proxy.Dict.insert
    l7_proxy.Text.to_lower
headers_refused = refl

validate_rule_nil_example : (validate_rule parsers 0 api_rule ≡ []) ↔ IsValidRule parsers api_rule
validate_rule_nil_example = validate_rule_nil parsers 0 api_rule

rule_accepted : validate_rule parsers 0 api_rule ≡ []
unfolding validate_rule l7_proxy.Text.to_upper l7_proxy.Config.Tokens.is_valid_header_name
    l7_proxy.Config.Tokens.is_token_char lookup l7_proxy.Config.effective_op
    l7_proxy.Config.Rules.validate_host_pattern
rule_accepted = refl

method_refused :
    validate_rule parsers 4 (record api_rule { method = codes "get" })
    ≡ lowercase_method 4 (codes "get") ∷ []
unfolding validate_rule l7_proxy.Text.to_upper l7_proxy.Config.Tokens.is_valid_header_name
    l7_proxy.Config.Tokens.is_token_char lookup l7_proxy.Config.effective_op
    l7_proxy.Config.Rules.validate_host_pattern
method_refused = refl

validate_routes_iff_example : (validate_routes parsers loaded_config.routes upstreams ≡ []) ↔ (
    (loaded_config.routes ≢ [])
    × All (IsValidRoute parsers (names_of upstreams)) loaded_config.routes
    × HaveDistinctKeys (λ k. false) loaded_config.routes)
validate_routes_iff_example = validate_routes_iff parsers loaded_config.routes upstreams

parse_config-IsLoaded_example : IsLoaded parsers loaded_config
parse_config-IsLoaded_example = parse_config-IsLoaded parsers (some decoded) loaded_config loaded

abbrev pub infrastructure : InfrastructureConfig
infrastructure = record {
  transport = record {
    tcp = pos 5;
    keep_alive = pos 30;
    tls = pos 5;
    response_header = pos 10;
    idle_conn = pos 90;
  };
  server = record { context = pos 30; read_header = pos 5; idle = pos 60 };
  connection_pool = record { max_idle_conns = pos 100; max_idle_conns_per_host = pos 10 };
  mirroring = record { workers = pos 0; queue_size = pos 0 };
  port = codes "8080";
  max_body_size = pos 1;
}

validate_infrastructure_iff_example :
    (validate_infrastructure infrastructure ≡ []) ↔ IsValidInfrastructure infrastructure
validate_infrastructure_iff_example = validate_infrastructure_iff infrastructure

workers_refused :
    validate_infrastructure
      (record infrastructure { mirroring = record { workers = negsuc 0; queue_size = pos 0 } })
    ≡ negative_setting (codes "mirroring.workers") (negsuc 0) ∷ []
unfolding validate_infrastructure
workers_refused = refl
