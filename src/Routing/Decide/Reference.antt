-- ===== src/Routing/Decide/Reference.antt =====
-- DecideRoute (routing.go) against the documented precedence, read off the configuration with no
-- index: an exact path, else the longest prefix, else the first regex (docs/configuration.md, and
-- referenceDecide of internal/routing/routing_diff_test.go).
use mathlib.Core.Path.{fun_ext}
use l7_proxy.Prelude.{
  ℕ, ◌≡◌, refl, ap, ◌∙◌, Bool, ◌&&◌, List, [], ◌∷◌, Option, none, some, arith, filter, or_else,
  is_some, drop, find,
}
use l7_proxy.Prelude.Int.{ℤ}
use l7_proxy.Text.{Str}
use l7_proxy.Dict.{lookup}
use l7_proxy.Net.{Platform, Url}
use l7_proxy.Config.{Config, Route}
use l7_proxy.Routing.{Request, Candidate, RouteIndex, Decision}
use l7_proxy.Routing.Trie.{match, new_trie}
use l7_proxy.Routing.Trie.Longest.{
  insert_all, longest, found, make_first, match-insert_all, match-make_first,
}
use l7_proxy.Routing.Conditions.{match_conditions}
use l7_proxy.Routing.Index.{
  new_route_index, first_matching, match_exact, match_prefix, match_regex, first_regex, submatches,
}
use l7_proxy.Routing.Index.Built.{
  is_exact_at, is_regex, prefix_entries, index_routes-exact, index_routes-prefix,
  index_routes-regex,
}
use l7_proxy.Routing.Decide.{Result, err, route_not_found, finalize, decide_path}

abbrev pub at_path : Route → Candidate
at_path route = record { route = route; path_suffix = []; regex_match = none }

abbrev pub at_prefix : Str → Route → ℕ → Candidate
at_prefix path route depth = record {
  route = route;
  path_suffix = drop depth path;
  regex_match = none;
}

abbrev pub at_regex : Route → List ℤ → Candidate
at_regex route m = record { route = route; path_suffix = []; regex_match = some m }

abbrev pub found_exact : Option Route → Option Candidate
found_exact none = none
found_exact (some route) = some (at_path route)

module _ (os : Platform) (r : Request) where
  abbrev pub passes : Route → Bool
  passes route = match_conditions os route.rule r

  abbrev pub reference_exact : List Route → Str → Option Candidate
  reference_exact routes path =
      found_exact (find (λ route. is_exact_at path route && passes route) routes)

  abbrev pub reference_prefix : List Route → Str → Option Candidate
  reference_prefix routes path =
      found passes (at_prefix path) (longest passes (prefix_entries routes) path 0)

  abbrev pub found_regex : Option Route → Str → Option Candidate
  found_regex none path = none
  found_regex (some route) path = elim (submatches os r route path) [
    | none ↦ none
    | some m ↦ some (at_regex route m)
  ]

  abbrev pub reference_regex : List Route → Str → Option Candidate
  reference_regex routes path =
      found_regex
        (find (λ route. is_regex route && (passes route && is_some (submatches os r route path)))
          routes)
        path

  abbrev pub reference : List Route → Str → Option Candidate
  reference routes path =
      or_else (reference_exact routes path)
        (or_else (reference_prefix routes path) (reference_regex routes path))

  first_matching-filter :
      (p : Route → Bool) (routes : List Route)
      → first_matching os r (filter p routes) []
        ≡ found_exact (find (λ route. p route && passes route) routes)
  unfolding first_matching
  first_matching-filter p [] = refl
  first_matching-filter p (route ∷ routes) = ground (arith, first_matching-filter p routes)

  first_matching-make_first :
      (path : Str) (routes : List Route) (depth : ℕ)
      → first_matching os r routes (drop depth path)
        ≡ make_first passes (at_prefix path) routes depth
  unfolding first_matching
  first_matching-make_first path [] depth = refl
  first_matching-make_first path (route ∷ routes) depth =
      ground (arith, first_matching-make_first path routes depth)

  first_regex-filter :
      (path : Str) (routes : List Route)
      → first_regex os r (filter is_regex routes) path ≡ reference_regex routes path
  unfolding first_regex
  first_regex-filter path [] = refl
  first_regex-filter path (route ∷ routes) = ground (arith, first_regex-filter path routes)

  -- The exact lookup of the index takes the first exact route for the path that passes.
  match_exact-reference :
      (cfg : Config) (path : Str)
      → match_exact os r (new_route_index cfg) path ≡ reference_exact cfg.routes path
  unfolding match_exact new_route_index lookup
  match_exact-reference cfg path =
      ap (λ rs. first_matching os r rs []) (index_routes-exact path cfg.routes _)
      ∙ first_matching-filter (is_exact_at path) cfg.routes

  -- The prefix tree of the index takes the longest prefix with a route that passes.
  match_prefix-reference :
      (cfg : Config) (path : Str)
      → match_prefix os r (new_route_index cfg) path ≡ reference_prefix cfg.routes path
  unfolding match_prefix new_route_index
  match_prefix-reference cfg path =
      let entries = prefix_entries cfg.routes in
      let same = fun_ext (λ rs. fun_ext (λ d. first_matching-make_first path rs d)) in
      let tree = insert_all entries new_trie in
      ap (match _ path 0) (index_routes-prefix cfg.routes _)
      ∙ ap (λ f. match f path 0 tree) same
      ∙ match-make_first passes (at_prefix path) path 0 tree
      ∙ ap (found passes (at_prefix path)) (match-insert_all passes path entries)

  match_regex-reference :
      (cfg : Config) (path : Str)
      → match_regex os r (new_route_index cfg) path ≡ reference_regex cfg.routes path
  unfolding match_regex new_route_index
  match_regex-reference cfg path =
      ap (λ rs. first_regex os r rs path) (index_routes-regex cfg.routes _)
      ∙ first_regex-filter path cfg.routes

  abbrev pub resolve : RouteIndex → Url → Option Candidate → Result Decision
  resolve idx url none = err route_not_found
  resolve idx url (some c) = finalize idx c url

  -- The decision on the index of a configuration is the reference's choice, resolved; with no choice
  -- it is the error that no route was found.
  pub decide_path-reference :
      (cfg : Config) (url : Url)
      → decide_path os (new_route_index cfg) r url
        ≡ resolve (new_route_index cfg) url (reference cfg.routes url.path)
  unfolding decide_path
  decide_path-reference cfg url = ground (
    arith,
    match_exact-reference cfg url.path,
    match_prefix-reference cfg url.path,
    match_regex-reference cfg url.path,
  )
