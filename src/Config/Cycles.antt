-- ===== src/Config/Cycles.antt =====
-- config.go: validateMirrorCycles and findCycle, and Config.Validate, which calls them. The order in
-- which Go ranges over the keys of a map is a parameter.
pub mod Searched
pub mod Fuel
pub mod Found
pub mod Edges
pub mod Accepted
use l7_proxy.Prelude.{
  ℕ, zero, suc, Bool, true, false, ◌&&◌, ◌||◌, not, List, [], ◌∷◌, ◌++◌, Option, none, some,
  if◌then◌else◌, length, any,
}
use l7_proxy.Text.{Str, is_empty, eq_str}
use l7_proxy.Dict.{Dict, lookup, insert, member}
use l7_proxy.Net.{Platform}
use l7_proxy.Config.{Upstream, Mirror, Route, Config, ConfigError, config_is_nil, mirror_cycle}
use l7_proxy.Config.Upstreams.{validate_upstreams}
use l7_proxy.Config.Routes.{names_of, validate_routes}

abbrev pub Graph : Type 0
Graph = Dict (List Str)

-- adj[n]
abbrev pub neighbours : Option (List Str) → List Str
neighbours none = []
neighbours (some ms) = ms

unfoldable pub successors : Graph → Str → List Str
successors adj n = neighbours (lookup n adj)

-- The keys of a graph, and with them all that it names.
abbrev pub keys : Graph → List Str
keys [] = []
keys ((n, ms) ∷ adj) = n ∷ keys adj

abbrev pub nodes : Graph → List Str
nodes [] = []
nodes ((n, ms) ∷ adj) = n ∷ ms ++ nodes adj

pub data Colour : Type 0 where
  white gray black : Colour

-- state[n]: a node that is missing is white.
abbrev pub or_white : Option Colour → Colour
or_white none = white
or_white (some c) = c

unfoldable pub colour : Dict Colour → Str → Colour
colour state n = or_white (lookup n state)

-- A search has found a closed path, or has left the colours, or has run out of fuel.
pub data Search : Type 0 where
  closed : List Str → Search
  clear : Dict Colour → Search
  exhausted : Search

-- The first `m` of the stack and what stands behind it.
unfoldable pub suffix_from : Str → List Str → Option (List Str)
suffix_from m [] = none
suffix_from m (s ∷ stack) = if eq_str s m then some (s ∷ stack) else suffix_from m stack

-- The loop over the neighbours of a node, with the search from a white one.
unfoldable pub visit : (Str → Dict Colour → Search) → List Str → List Str → Dict Colour → Search
unfolding suffix_from
visit search stack [] state = clear state
visit search stack (m ∷ ms) state = elim (colour state m) [
  | gray ↦ elim (suffix_from m stack) [
    | some cycle ↦ closed (cycle ++ m ∷ [])
    | none ↦ visit search stack ms state
  ]
  | white ↦ elim (search m state) [
    | closed c ↦ closed c
    | clear after ↦ visit search stack ms after
    | exhausted ↦ exhausted
  ]
  | black ↦ visit search stack ms state
]

abbrev pub finish : Str → Search → Search
finish n (clear state) = clear (insert n black state)
finish n (closed c) = closed c
finish n exhausted = exhausted

-- dfs. A call that finds nothing takes off the stack what it has put on it, so the stack is passed
-- down.
unfoldable pub dfs : Graph → ℕ → List Str → Str → Dict Colour → Search
unfolding visit
dfs adj zero stack n state = exhausted
dfs adj (suc fuel) stack n state = finish n (
    visit (dfs adj fuel (stack ++ n ∷ [])) (stack ++ n ∷ []) (successors adj n)
      (insert n gray state))

-- The loop over the keys.
unfoldable pub search_from : Graph → ℕ → List Str → Dict Colour → Search
unfolding dfs
search_from adj fuel [] state = clear state
search_from adj fuel (n ∷ ns) state = elim (colour state n) [
  | white ↦ elim (dfs adj fuel [] n state) [
    | closed c ↦ closed c
    | clear after ↦ search_from adj fuel ns after
    | exhausted ↦ exhausted
  ]
  | gray ↦ search_from adj fuel ns state
  | black ↦ search_from adj fuel ns state
]

abbrev pub closed_path : Search → Option (List Str)
closed_path (closed c) = some c
closed_path (clear state) = none
closed_path exhausted = none

-- findCycle, for the keys in some order. A call is made for a node that is white, so there are no
-- more calls at a time than nodes.
unfoldable pub find_cycle : List Str → Graph → Option (List Str)
unfolding search_from
find_cycle order adj = closed_path (search_from adj (length (nodes adj)) order [])

-- adj[n] = append(adj[n], m)
unfoldable pub add_edge : Str → Str → Graph → Graph
add_edge n m adj = insert n (successors adj n ++ m ∷ []) adj

-- The mirrors of a route, with the edges that it keeps; `seen` says which pairs are in the graph.
unfoldable pub route_edges : List Str → Str → List Mirror → Graph → Graph
unfolding add_edge
route_edges names upstream [] adj = adj
route_edges names upstream (mirror ∷ ms) adj =
    let m = mirror.upstream in
    let skipped =
      (is_empty m || eq_str m upstream)
      || (not (member upstream names)
          || (not (member m names) || member m (successors adj upstream))) in
    route_edges names upstream ms (if skipped then adj else add_edge upstream m adj)

unfoldable pub mirror_graph : List Str → List Route → Graph → Graph
unfolding route_edges
mirror_graph names [] adj = adj
mirror_graph names (r ∷ rs) adj = mirror_graph names rs (route_edges names r.upstream r.mirrors adj)

abbrev pub cycle_errors : Option (List Str) → List ConfigError
cycle_errors none = []
cycle_errors (some cycle) = mirror_cycle cycle ∷ []

unfoldable pub validate_mirror_cycles : (Graph → List Str) → Config → List ConfigError
unfolding mirror_graph
validate_mirror_cycles order cfg =
    let adj = mirror_graph (names_of cfg.upstreams) cfg.routes [] in
    cycle_errors (find_cycle (order adj) adj)

-- Config.Validate; `none` is a nil configuration.
unfoldable pub validate : Platform → (Graph → List Str) → Option Config → List ConfigError
unfolding validate_mirror_cycles
validate os order none = config_is_nil ∷ []
validate os order (some cfg) =
    validate_upstreams os cfg.upstreams
    ++ (validate_routes os cfg.routes cfg.upstreams ++ validate_mirror_cycles order cfg)
