-- ===== src/Tests/Cycles.antt =====
-- Graphs of mirrors with and without a cycle.
use l7_proxy.Prelude.{◌≡◌, ◌↔◌, refl, List, [], ◌∷◌, none, some, ◌&&◌, any}
use l7_proxy.Text.{Str, codes}
use l7_proxy.Dict.{member}
use l7_proxy.Config.Routes.{names_of}
use l7_proxy.Config.Cycles.{
  Graph, keys, successors, mirror_graph, find_cycle, validate_mirror_cycles, validate,
}
use l7_proxy.Config.Cycles.Found.{IsCycle, find_cycle-none_iff}
use l7_proxy.Config.Cycles.Edges.{may_mirror, mirrors_to, mirror_graph_lem}
use l7_proxy.Config.Cycles.Accepted.{Ranges, IsValidConfig, validate_iff}
use l7_proxy.Tests.Configs.{upstreams_accepted}
use l7_proxy.Tests.Decisions.{routes_valid}
use l7_proxy.Tests.{parsers, upstreams, loaded_config}

-- a to b and c, b to c, c to b
abbrev looped : Graph
looped =
    (codes "a", codes "b" ∷ codes "c" ∷ [])
    ∷ (codes "b", codes "c" ∷ [])
    ∷ (codes "c", codes "b" ∷ [])
    ∷ []

looped_found : find_cycle (keys looped) looped ≡ some (codes "b" ∷ codes "c" ∷ codes "b" ∷ [])
unfolding find_cycle l7_proxy.Config.Cycles.colour l7_proxy.Dict.lookup successors
    l7_proxy.Dict.insert
looped_found = refl

find_cycle-none_iff_example :
    (find_cycle (keys looped) looped ≡ none) ↔ ((c : List Str) → ¬ IsCycle looped c)
find_cycle-none_iff_example = find_cycle-none_iff looped (keys looped) (λ n. (λ m. m, λ m. m))

mirror_graph_lem_example :
    member
      (codes "spare")
      (successors (mirror_graph (names_of upstreams) loaded_config.routes []) (codes "main"))
    ≡ (any (mirrors_to (names_of upstreams) (codes "main") (codes "spare")) loaded_config.routes
        && may_mirror (names_of upstreams) (codes "main") (codes "spare"))
mirror_graph_lem_example =
    mirror_graph_lem (names_of upstreams) (codes "main") (codes "spare") loaded_config.routes

pub keys-Ranges : Ranges keys
keys-Ranges g n = (λ m. m, λ m. m)

validate_iff_example :
    (validate parsers keys (some loaded_config) ≡ []) ↔ IsValidConfig parsers loaded_config
validate_iff_example = validate_iff parsers keys loaded_config keys-Ranges

graph_accepted : validate_mirror_cycles keys loaded_config ≡ []
unfolding validate_mirror_cycles find_cycle successors l7_proxy.Dict.lookup l7_proxy.Dict.insert
    l7_proxy.Config.Cycles.colour
graph_accepted = refl

pub config_accepted : validate parsers keys (some loaded_config) ≡ []
unfolding validate
config_accepted = rw (upstreams_accepted, routes_valid, graph_accepted) refl
