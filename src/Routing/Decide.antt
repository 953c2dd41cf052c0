-- ===== src/Routing/Decide.antt =====
-- routing.go: DecideRoute and finalize, which resolve the winning route of a request.
pub mod Reference
pub mod Spec
pub mod Choice
pub mod Resolved
pub mod Fallback
use l7_proxy.Prelude.{
  ℕ, ◌*◌, Bool, ◌||◌, not, List, [], ◌∷◌, ◌++◌, Option, none, some, if◌then◌else◌,
}
use l7_proxy.Prelude.Int.{ℤ, pos, ◌*ℤ◌, wrap64}
use l7_proxy.Text.{Str, is_empty}
use l7_proxy.Dict.{Dict, lookup}
use l7_proxy.Net.{Platform, Url}
use l7_proxy.Config.{Config, Upstream, Rule, Mirror, Route}
use l7_proxy.Routing.{Request, MirrorTarget, FailoverTarget, Decision, Candidate, RouteIndex}
use l7_proxy.Routing.Index.{match_exact, match_prefix, match_regex}
use l7_proxy.Routing.Rewrite.{expand_regex_rewrite}

pub data RouteError : Type 0 where
  empty_url route_not_found host_not_mapped : RouteError
  mirror_not_mapped : Str → RouteError

-- A result and a nil error, an error, or a panic.
pub data Result (A : Type 0) : Type 0 where
  panic : Result A
  err : RouteError → Result A
  ok : A → Result A

infixl 5 ◌>>=◌
abbrev pub ◌>>=◌ : {A B : Type 0} → Result A → (A → Result B) → Result B
panic >>= next = panic
err e >>= next = err e
ok a >>= next = next a

abbrev pub or_error : {A : Type 0} → RouteError → Option A → Result A
or_error e none = err e
or_error e (some a) = ok a

abbrev pub or_panic : {A : Type 0} → Option A → Result A
or_panic none = panic
or_panic (some a) = ok a

-- A number of milliseconds as a Duration, an int64 of nanoseconds.
unfoldable pub milliseconds : ℤ → ℤ
milliseconds n = wrap64 (n *ℤ pos 1_000_000)

unfoldable pub upstream_timeout : RouteIndex → Str → ℤ
unfolding milliseconds
upstream_timeout idx name = elim (lookup name idx.upstreams) [
  | none ↦ pos 0
  | some up ↦ milliseconds up.timeout
]

unfoldable pub resolve_host : Config → Str → Result Url
resolve_host cfg name = or_error host_not_mapped (lookup name cfg.name_to_host)

abbrev fallback_target : RouteIndex → Option Upstream → Option FailoverTarget
fallback_target idx none = none
fallback_target idx (some target) = elim (lookup target.name idx.cfg.name_to_host) [
  | none ↦ none
  | some host ↦
      some (record { name = target.name; url = host; timeout = upstream_timeout idx target.name })
]

unfoldable pub failover_target : RouteIndex → Str → Option FailoverTarget
failover_target idx name = elim (lookup name idx.upstreams) [
  | none ↦ none
  | some up ↦
      if is_empty up.fallback then none else fallback_target idx (lookup up.fallback idx.upstreams)
]

unfoldable pub resolve_mirrors : Config → List Mirror → Result (List MirrorTarget)
resolve_mirrors cfg [] = ok []
resolve_mirrors cfg (m ∷ ms) = do
  host ← or_error (mirror_not_mapped m.upstream) (lookup m.upstream cfg.name_to_host)
  rest ← resolve_mirrors cfg ms
  ok (record { url = host; ratio = m.ratio } ∷ rest)

unfoldable pub effective_rewrite : Rule → Str
effective_rewrite rule =
    if not (is_empty rule.rewrite)
    then rule.rewrite
    else if not (is_empty rule.path)
    then rule.path
    else rule.path_prefix

unfoldable pub build_target : Url → Str → Str → Str → Url
build_target host rewrite path_suffix raw_query = record {
  scheme = host.scheme;
  host = host.host;
  path = rewrite ++ path_suffix;
  raw_query = raw_query;
  fragment = [];
}

-- The target of a candidate at the host of its upstream, for the URL of the request.
unfoldable pub target_of : Url → Candidate → Url → Result Url
unfolding build_target effective_rewrite
target_of host c url = elim c.regex_match [
  | none ↦ ok (build_target host (effective_rewrite c.route.rule) c.path_suffix url.raw_query)
  | some m ↦ do
    expanded ← or_panic (expand_regex_rewrite c.route.rule.rewrite url.path (some m))
    ok (build_target host expanded [] url.raw_query)
]

unfoldable pub finalize : RouteIndex → Candidate → Url → Result Decision
unfolding resolve_host
finalize idx c url = do
  host ← resolve_host idx.cfg c.route.upstream
  target ← target_of host c url
  mirrors ← resolve_mirrors idx.cfg c.route.mirrors
  ok (record {
    upstream = c.route.upstream;
    timeout = upstream_timeout idx c.route.upstream;
    target = target;
    mirrors = mirrors;
    fallback = failover_target idx c.route.upstream;
  })

unfoldable pub decide_path : Platform → RouteIndex → Request → Url → Result Decision
decide_path os idx r url = elim (match_exact os r idx url.path) [
  | some c ↦ finalize idx c url
  | none ↦ elim (match_prefix os r idx url.path) [
    | some c ↦ finalize idx c url
    | none ↦ elim (match_regex os r idx url.path) [
      | some c ↦ finalize idx c url
      | none ↦ err route_not_found
    ]
  ]
]

unfoldable pub decide_route : Platform → RouteIndex → Request → Result Decision
unfolding decide_path
decide_route os idx r = elim r.url [
  | none ↦ err empty_url
  | some url ↦ if is_empty url.path then err empty_url else decide_path os idx r url
]
