-- ===== src/Config.antt =====
-- internal/config/config.go: the types of the two configuration files and the errors that their
-- validation reports. The children validate upstreams, rules, routes and mirror cycles, load a
-- configuration, and prove what a valid one satisfies.
pub mod Tokens
pub mod Upstreams
pub mod Rules
pub mod Reports
pub mod Routes
pub mod Load
pub mod Infrastructure
pub mod Cycles
use l7_proxy.Prelude.{ℕ, Bool, List, [], ◌∷◌, Option, if◌then◌else◌}
use l7_proxy.Prelude.Int.{ℤ}
use l7_proxy.Text.{Str, codes, is_empty}
use l7_proxy.Dict.{Dict}
use l7_proxy.Net.{Url, Regex}
use l7_proxy.Float.{Float64}

pub record TransportTimeouts : Type 0 where
  pub tcp : ℤ
  pub keep_alive : ℤ
  pub tls : ℤ
  pub response_header : ℤ
  pub idle_conn : ℤ

pub record ServerTimeouts : Type 0 where
  pub context : ℤ
  pub read_header : ℤ
  pub idle : ℤ

pub record Upstream : Type 0 where
  pub name : Str
  pub host : Str
  pub timeout : ℤ
  pub fallback : Str

-- HeaderOp is a string type.
abbrev pub HeaderOp : Type 0
HeaderOp = Str

abbrev pub header_present : HeaderOp
header_present = codes "present"

abbrev pub header_equals : HeaderOp
header_equals = codes "equals"

abbrev pub header_prefix : HeaderOp
header_prefix = codes "prefix"

abbrev pub header_contains : HeaderOp
header_contains = codes "contains"

pub record HeaderMatch : Type 0 where
  pub name : Str
  pub value : Str
  pub op : HeaderOp

unfoldable pub effective_op : HeaderMatch → HeaderOp
effective_op h =
    if is_empty h.op then (if is_empty h.value then header_present else header_equals) else h.op

pub record Rule : Type 0 where
  pub path_prefix : Str
  pub path : Str
  pub regex : Str
  pub rewrite : Str
  pub method : Str
  pub headers : List HeaderMatch
  pub hosts : List Str
  pub client_cidrs : List Str
  pub compiled_regex : Option Regex

pub record Mirror : Type 0 where
  pub upstream : Str
  pub ratio : Float64

pub record Route : Type 0 where
  pub rule : Rule
  pub upstream : Str
  pub mirrors : List Mirror

pub record ConnectionPool : Type 0 where
  pub max_idle_conns : ℤ
  pub max_idle_conns_per_host : ℤ

pub record MirroringConfig : Type 0 where
  pub workers : ℤ
  pub queue_size : ℤ

pub record InfrastructureConfig : Type 0 where
  pub transport : TransportTimeouts
  pub server : ServerTimeouts
  pub connection_pool : ConnectionPool
  pub mirroring : MirroringConfig
  pub port : Str
  pub max_body_size : ℤ

pub record Config : Type 0 where
  pub upstreams : List Upstream
  pub routes : List Route
  pub name_to_host : Dict Url

-- The reasons for which a host, a host pattern, a path or a rewrite is refused.
pub data Fault : Type 0 where
  empty whitespace unparsable scheme missing_host has_path has_query has_fragment : Fault
  invalid_port port_out_of_range bad_separator has_port bad_wildcard : Fault
  no_leading_slash includes_host invalid_characters : Fault

-- Each message of the validation, with the indices and names that it prints.
pub data ConfigError : Type 0 where
  config_is_nil no_upstreams no_routes : ConfigError
  name_is_empty : ℕ → ConfigError
  duplicate_name : ℕ → Str → ConfigError
  bad_host : ℕ → Str → Fault → ConfigError
  negative_timeout : ℕ → Str → ℤ → ConfigError
  fallback_itself : ℕ → Str → ConfigError
  fallback_unknown : ℕ → Str → Str → ConfigError
  upstream_is_empty : ℕ → ConfigError
  unknown_upstream : ℕ → Str → ConfigError
  duplicate_route : ℕ → ℕ → ConfigError
  matchers_set : ℕ → ℕ → ConfigError
  bad_path bad_path_prefix bad_rewrite : ℕ → Fault → ConfigError
  regex_does_not_compile : ℕ → Str → ConfigError
  rewrite_required : ℕ → ConfigError
  lowercase_method unknown_method : ℕ → Str → ConfigError
  invalid_header_name : ℕ → ℕ → Str → ConfigError
  duplicate_header : ℕ → ℕ → Str → ℕ → ConfigError
  present_with_value : ℕ → ℕ → ConfigError
  value_required unknown_op : ℕ → ℕ → HeaderOp → ConfigError
  bad_host_pattern : ℕ → ℕ → Fault → ConfigError
  bad_cidr : ℕ → ℕ → ConfigError
  mirror_without_upstream : ℕ → ConfigError
  mirror_unknown mirror_own : ℕ → Str → ConfigError
  mirror_ratio : ℕ → Float64 → ConfigError
  mirror_cycle : List Str → ConfigError
  negative_setting : Str → ℤ → ConfigError
  max_body_size_not_positive : ℤ → ConfigError

-- `if test { errs = append(errs, e) }`
abbrev pub report_if : Bool → ConfigError → List ConfigError
report_if test e = if test then e ∷ [] else []
