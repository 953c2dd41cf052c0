-- ===== src/Config/Cycles/Accepted.antt =====
-- What Config.Validate (config.go) accepts.
use l7_proxy.Prelude.{◌≡◌, ◌≢◌, ◌↔◌, refl, false, List, [], Option, none, some, Memᴰ, All}
use l7_proxy.Text.{Str}
use l7_proxy.Net.{Platform}
use l7_proxy.Config.{Config}
use l7_proxy.Config.Reports.{append_nil}
use l7_proxy.Config.Upstreams.Valid.{IsValid, validate_upstreams_iff}
use l7_proxy.Config.Routes.{names_of}
use l7_proxy.Config.Routes.Valid.{IsValidRoute, HaveDistinctKeys, validate_routes_iff}
use l7_proxy.Config.Cycles.{Graph, keys, mirror_graph, cycle_errors, validate}
use l7_proxy.Config.Cycles.Found.{IsCycle, find_cycle-none_iff}

-- Ranging over a map brings its keys and nothing else.
abbrev pub Ranges : (Graph → List Str) → Type 0
Ranges order = (g : Graph) (n : Str) → Memᴰ n (order g) ↔ Memᴰ n (keys g)

-- The edges from the upstream of a route to its mirrors.
abbrev pub mirrors_of : Config → Graph
mirrors_of cfg = mirror_graph (names_of cfg.upstreams) cfg.routes []

pub record IsValidConfig (os : Platform) (cfg : Config) : Type 0 where
  pub upstreams : IsValid os cfg.upstreams
  pub nonempty : cfg.routes ≢ []
  pub routes : All (IsValidRoute os (names_of cfg.upstreams)) cfg.routes
  pub distinct : HaveDistinctKeys (λ k. false) cfg.routes
  pub acyclic : (c : List Str) → ¬ IsCycle (mirrors_of cfg) c

cycle_errors_nil : (o : Option (List Str)) → (cycle_errors o ≡ []) ↔ (o ≡ none)
cycle_errors_nil none = (λ h. refl, λ h. refl)
cycle_errors_nil (some c) = (λ h. cc, λ h. cc)

-- Where the order of a range is one of the keys, a configuration has no error exactly if its
-- upstreams and its routes are valid and its mirrors form no closed path.
pub validate_iff :
    (os : Platform) (order : Graph → List Str) (cfg : Config)
    → Ranges order
    → (validate os order (some cfg) ≡ []) ↔ IsValidConfig os cfg
unfolding validate
validate_iff os order cfg ranges =
    let found =
      find_cycle-none_iff (mirrors_of cfg) (order (mirrors_of cfg)) (ranges (mirrors_of cfg)) in
    (
      λ h.
          let (a, h1) = (append_nil _ _).0 h in
          let (b, c) = (append_nil _ _).0 h1 in
          let (n, r, d) = (validate_routes_iff os cfg.routes cfg.upstreams).0 b in
          record {
            upstreams = (validate_upstreams_iff os cfg.upstreams).0 a;
            nonempty = n;
            routes = r;
            distinct = d;
            acyclic = found.0 ((cycle_errors_nil _).0 c);
          },
      λ v. (append_nil _ _).1 (
        (validate_upstreams_iff os cfg.upstreams).1 v.upstreams,
        (append_nil _ _).1 (
          (validate_routes_iff os cfg.routes cfg.upstreams).1 (v.nonempty, v.routes, v.distinct),
          (cycle_errors_nil _).1 (found.1 v.acyclic),
        ),
      ),
    )
