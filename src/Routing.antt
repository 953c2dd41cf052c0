-- ===== src/Routing.antt =====
-- internal/routing: the types of routing.go. The children hold the prefix tree, the index of the
-- routes, the conditions of a rule, the decision for a request, the expansion of rewrite templates
-- and the reload of the configuration, each with its proofs.
pub mod Trie
pub mod Conditions
pub mod Index
pub mod Rewrite
pub mod Decide
pub mod Reload
use l7_proxy.Prelude.{ℕ, List, [], Option, none}
use l7_proxy.Prelude.Int.{ℤ}
use l7_proxy.Text.{Str}
use l7_proxy.Dict.{Dict}
use l7_proxy.Float.{Float64}
use l7_proxy.Net.{Url}
use l7_proxy.Config.{Config, Upstream, Route}
use Trie.{Node}

-- http.Request, the parts that routing reads
pub record Request : Type 0 where
  pub method : Str
  pub url : Option Url
  pub header : Dict (List Str)
  pub host : Str
  pub remote_addr : Str

-- mirroring.Target
pub record MirrorTarget : Type 0 where
  pub url : Url
  pub ratio : Float64

-- A time.Duration is its number of nanoseconds.
pub record FailoverTarget : Type 0 where
  pub name : Str
  pub url : Url
  pub timeout : ℤ

pub record Decision : Type 0 where
  pub upstream : Str
  pub timeout : ℤ
  pub target : Url
  pub mirrors : List MirrorTarget
  pub fallback : Option FailoverTarget

-- `regex_match` is nil for a route found by its path or prefix.
pub record Candidate : Type 0 where
  pub route : Route
  pub path_suffix : Str
  pub regex_match : Option (List ℤ)

pub record RouteIndex : Type 0 where
  pub cfg : Config
  pub upstreams : Dict Upstream
  pub exact : Dict (List Route)
  pub prefix : Node Route
  pub regex : List Route
