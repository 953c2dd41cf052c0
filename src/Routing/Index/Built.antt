-- ===== src/Routing/Index/Built.antt =====
-- What newRouteIndex (routing.go) holds: each lookup in the index of a configuration is a selection
-- of the configuration's routes, in their order.
use l7_proxy.Prelude.{
  ◌≡◌, refl, sym, ap, inl, inr, Bool, ◌&&◌, not, List, [], ◌∷◌, ◌++◌, if◌then◌else◌, arith, filter,
  Bool-cases, append_assoc, append-nil,
}
use l7_proxy.Text.{Str, is_empty, eq_str}
use l7_proxy.Text.Laws.{eq_str_iff}
use l7_proxy.Dict.{lookup, lookup-insert}
use l7_proxy.Config.{Route}
use l7_proxy.Routing.{RouteIndex}
use l7_proxy.Routing.Trie
use l7_proxy.Routing.Trie.{new_trie}
use l7_proxy.Routing.Trie.Longest.{insert_all}
use l7_proxy.Routing.Index.{routes_of, index_route, index_routes}

-- How a route matches: the first of its path, prefix and regex that is set.
abbrev pub is_exact : Route → Bool
is_exact route = not (is_empty route.rule.path)

abbrev pub is_prefix : Route → Bool
is_prefix route = is_empty route.rule.path && not (is_empty route.rule.path_prefix)

abbrev pub is_regex : Route → Bool
is_regex route =
    is_empty route.rule.path && (is_empty route.rule.path_prefix && not (is_empty route.rule.regex))

abbrev pub is_exact_at : Str → Route → Bool
is_exact_at path route = is_exact route && eq_str route.rule.path path

abbrev pub prefix_entries : List Route → List (Str × Route)
prefix_entries [] = []
prefix_entries (route ∷ routes) =
    if is_prefix route
    then (route.rule.path_prefix, route) ∷ prefix_entries routes
    else prefix_entries routes

index_route-exact :
    (path : Str) (route : Route) (idx : RouteIndex)
    → routes_of (lookup path (index_route route idx).exact) ≡ (
        if is_exact_at path route
        then routes_of (lookup path idx.exact) ++ route ∷ []
        else routes_of (lookup path idx.exact))
unfolding index_route
index_route-exact path route idx = elim (Bool-cases (is_empty route.rule.path)) [
  | inl e ↦ ground (arith, e)
  | inr e ↦ elim (Bool-cases (eq_str route.rule.path path)) [
    | inl f ↦
        let same = (eq_str_iff route.rule.path path).0 f in
        ground (
          arith,
          e,
          f,
          ap (λ p. routes_of (lookup p idx.exact)) same,
          lookup-insert route.rule.path path
              (routes_of (lookup route.rule.path idx.exact) ++ route ∷ []) idx.exact,
        )
    | inr f ↦ ground (
      arith,
      e,
      f,
      lookup-insert route.rule.path path
          (routes_of (lookup route.rule.path idx.exact) ++ route ∷ []) idx.exact,
    )
  ]
]

-- The routes under an exact path.
pub index_routes-exact :
    (path : Str) (routes : List Route) (idx : RouteIndex)
    → routes_of (lookup path (index_routes routes idx).exact)
      ≡ routes_of (lookup path idx.exact) ++ filter (is_exact_at path) routes
unfolding index_routes
index_routes-exact path [] idx = sym (append-nil _)
index_routes-exact path (route ∷ routes) idx = ground (
  arith,
  index_routes-exact path routes (index_route route idx),
  index_route-exact path route idx,
  append_assoc (routes_of (lookup path idx.exact)) (route ∷ []) (filter (is_exact_at path) routes),
)

index_route-prefix :
    (route : Route) (idx : RouteIndex)
    → (index_route route idx).prefix ≡ (
        if is_prefix route then Trie.insert route.rule.path_prefix route idx.prefix else idx.prefix)
unfolding index_route
index_route-prefix route idx = ground arith

-- The prefix tree.
pub index_routes-prefix :
    (routes : List Route) (idx : RouteIndex)
    → (index_routes routes idx).prefix ≡ insert_all (prefix_entries routes) idx.prefix
unfolding index_routes insert_all
index_routes-prefix [] idx = refl
index_routes-prefix (route ∷ routes) idx =
    ground (arith, index_routes-prefix routes (index_route route idx), index_route-prefix route idx)

index_route-regex :
    (route : Route) (idx : RouteIndex)
    → (index_route route idx).regex
      ≡ (if is_regex route then idx.regex ++ route ∷ [] else idx.regex)
unfolding index_route
index_route-regex route idx = ground arith

-- The regex routes.
pub index_routes-regex :
    (routes : List Route) (idx : RouteIndex)
    → (index_routes routes idx).regex ≡ idx.regex ++ filter is_regex routes
unfolding index_routes
index_routes-regex [] idx = sym (append-nil _)
index_routes-regex (route ∷ routes) idx = ground (
  arith,
  index_routes-regex routes (index_route route idx),
  index_route-regex route idx,
  append_assoc idx.regex (route ∷ []) (filter is_regex routes),
)

-- The configuration and the upstreams stay as they were set.
pub index_routes-kept :
    (routes : List Route) (idx : RouteIndex)
    → ((index_routes routes idx).cfg ≡ idx.cfg)
      × ((index_routes routes idx).upstreams ≡ idx.upstreams)
unfolding index_routes index_route
index_routes-kept [] idx = (refl, refl)
index_routes-kept (route ∷ routes) idx =
    ground (arith, index_routes-kept routes (index_route route idx))
