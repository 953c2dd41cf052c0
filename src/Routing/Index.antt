-- ===== src/Routing/Index.antt =====
-- routing.go: the index of a configuration's routes, and the three ways to look a path up in it.
pub mod Built
use l7_proxy.Prelude.{not, List, [], ◌∷◌, ◌++◌, Option, none, some, if◌then◌else◌, drop}
use l7_proxy.Prelude.Int.{ℤ}
use l7_proxy.Text.{Str, is_empty}
use l7_proxy.Dict.{Dict, lookup, insert}
use l7_proxy.Net.{Platform}
use l7_proxy.Config.{Config, Upstream, Route}
use l7_proxy.Routing.{Request, Candidate, RouteIndex}
use l7_proxy.Routing.Trie
use l7_proxy.Routing.Trie.{new_trie, match}
use l7_proxy.Routing.Conditions.{match_conditions}

-- The routes of a key; a missing one has none.
abbrev pub routes_of : Option (List Route) → List Route
routes_of none = []
routes_of (some rs) = rs

-- One round of the loop over cfg.Upstreams.
unfoldable pub index_upstreams : List Upstream → Dict Upstream → Dict Upstream
index_upstreams [] m = m
index_upstreams (up ∷ ups) m = index_upstreams ups (insert up.name up m)

-- One round of the loop over cfg.Routes.
unfoldable pub index_route : Route → RouteIndex → RouteIndex
index_route route idx =
    let rule = route.rule in
    if not (is_empty rule.path)
    then record idx {
      exact = insert rule.path (routes_of (lookup rule.path idx.exact) ++ route ∷ []) idx.exact;
    }
    else if not (is_empty rule.path_prefix)
    then record idx { prefix = Trie.insert rule.path_prefix route idx.prefix }
    else if not (is_empty rule.regex)
    then record idx { regex = idx.regex ++ route ∷ [] }
    else idx

unfoldable pub index_routes : List Route → RouteIndex → RouteIndex
unfolding index_route
index_routes [] idx = idx
index_routes (route ∷ routes) idx = index_routes routes (index_route route idx)

unfoldable pub new_route_index : Config → RouteIndex
unfolding index_upstreams index_routes
new_route_index cfg = index_routes cfg.routes (record {
  cfg = cfg;
  upstreams = index_upstreams cfg.upstreams [];
  exact = [];
  prefix = new_trie;
  regex = [];
})

module _ (os : Platform) (r : Request) where
  -- `for _, route := range routes { if matchConditions(...) { return candidate } }`
  unfoldable pub first_matching : List Route → Str → Option Candidate
  first_matching [] suffix = none
  first_matching (route ∷ routes) suffix =
      if match_conditions os route.rule r
      then some (record { route = route; path_suffix = suffix; regex_match = none })
      else first_matching routes suffix

  unfoldable pub match_exact : RouteIndex → Str → Option Candidate
  unfolding first_matching
  match_exact idx path = first_matching (routes_of (lookup path idx.exact)) []

  unfoldable pub match_prefix : RouteIndex → Str → Option Candidate
  unfolding first_matching
  match_prefix idx path =
      match (λ routes depth. first_matching routes (drop depth path)) path 0 idx.prefix

  -- The submatches of a route's regexp in the path; a rule without a compiled one is skipped.
  abbrev pub submatches : Route → Str → Option (List ℤ)
  submatches route path = elim route.rule.compiled_regex [ none ↦ none | some re ↦ re path ]

  unfoldable pub first_regex : List Route → Str → Option Candidate
  first_regex [] path = none
  first_regex (route ∷ routes) path =
      let later = first_regex routes path in
      if not (match_conditions os route.rule r) then later else elim (submatches route path) [
        | none ↦ later
        | some m ↦ some (record { route = route; path_suffix = []; regex_match = some m })
      ]

  unfoldable pub match_regex : RouteIndex → Str → Option Candidate
  unfolding first_regex
  match_regex idx path = first_regex idx.regex path
