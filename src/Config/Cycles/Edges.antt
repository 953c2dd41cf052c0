-- ===== src/Config/Cycles/Edges.antt =====
-- The graph of validateMirrorCycles (config.go), and what Config.Validate accepts.
use l7_proxy.Prelude.{
  ◌≡◌, ap, inl, inr, Bool, ◌&&◌, ◌||◌, not, List, [], ◌∷◌, ◌++◌, if◌then◌else◌, arith, any,
  Bool-cases,
}
use l7_proxy.Text.{Str, is_empty, eq_str}
use l7_proxy.Text.Laws.{eq_str_iff}
use l7_proxy.Dict.{lookup, lookup-insert, member}
use l7_proxy.Config.{Mirror, Route}
use l7_proxy.Config.Cycles.{Graph, successors, add_edge, route_edges, mirror_graph}

member-snoc : (b m : Str) (xs : List Str) → member b (xs ++ m ∷ []) ≡ (member b xs || eq_str m b)
member-snoc b m [] = ground arith
member-snoc b m (x ∷ xs) = ground (arith, member-snoc b m xs)

successors-add_edge :
    (n m k : Str) (adj : Graph)
    → successors (add_edge n m adj) k
      ≡ (if eq_str n k then successors adj n ++ m ∷ [] else successors adj k)
unfolding successors add_edge
successors-add_edge n m k adj = ground (arith, lookup-insert n k (successors adj n ++ m ∷ []) adj)

module _ (names : List Str) where
  -- An edge that the graph may have: two listed upstreams that differ.
  abbrev pub may_mirror : Str → Str → Bool
  may_mirror a b = (not (is_empty b) && not (eq_str b a)) && (member a names && member b names)

  -- A route of the upstream `a` has a mirror `b`.
  abbrev pub mirrors_to : Str → Str → Route → Bool
  mirrors_to a b r = eq_str r.upstream a && any (λ m. eq_str m.upstream b) r.mirrors

  added_edge :
      (up m a b : Str) (adj : Graph)
      → member b (successors (add_edge up m adj) a)
        ≡ (member b (successors adj a) || (eq_str up a && eq_str m b))
  added_edge up m a b adj = elim (Bool-cases (eq_str up a)) [
    | inl e ↦
        let same : up ≡ a = (eq_str_iff up a).0 e in
        ground (arith, same, successors-add_edge up m a adj, member-snoc b m (successors adj a))
    | inr e ↦ ground (arith, successors-add_edge up m a adj)
  ]

  route_edges-member :
      (up a b : Str) (ms : List Mirror) (adj : Graph)
      → member b (successors (route_edges names up ms adj) a) ≡ (
          member b (successors adj a)
          || ((eq_str up a && any (λ m. eq_str m.upstream b) ms) && may_mirror a b))
  unfolding route_edges
  route_edges-member up a b [] adj = ground arith
  route_edges-member up a b (m ∷ ms) adj = elim (Bool-cases (eq_str up a)) [
    | inr e ↦ ground (
      arith,
      route_edges-member up a b ms adj,
      route_edges-member up a b ms (add_edge up m.upstream adj),
      added_edge up m.upstream a b adj,
    )
    | inl e ↦
        let same : up ≡ a = (eq_str_iff up a).0 e in
        elim (Bool-cases (eq_str m.upstream b)) [
          | inr f ↦ ground (
            arith,
            route_edges-member up a b ms adj,
            route_edges-member up a b ms (add_edge up m.upstream adj),
            added_edge up m.upstream a b adj,
          )
          | inl f ↦
              let alike : m.upstream ≡ b = (eq_str_iff m.upstream b).0 f in
              let known : member up names ≡ member a names = ap (λ k. member k names) same in
              let listed : member m.upstream names ≡ member b names =
                ap (λ k. member k names) alike in
              let nonempty : is_empty m.upstream ≡ is_empty b = ap is_empty alike in
              let own : eq_str m.upstream up ≡ eq_str b a = cc in
              let there : member m.upstream (successors adj up) ≡ member b (successors adj a) =
                cc in
              ground (
                arith,
                known,
                listed,
                nonempty,
                own,
                there,
                route_edges-member up a b ms adj,
                route_edges-member up a b ms (add_edge up m.upstream adj),
                added_edge up m.upstream a b adj,
              )
        ]
  ]

  mirror_graph-member :
      (a b : Str) (rs : List Route) (adj : Graph)
      → member b (successors (mirror_graph names rs adj) a)
        ≡ (member b (successors adj a) || (any (mirrors_to a b) rs && may_mirror a b))
  unfolding mirror_graph
  mirror_graph-member a b [] adj = ground arith
  mirror_graph-member a b (r ∷ rs) adj = ground (
    arith,
    mirror_graph-member a b rs (route_edges names r.upstream r.mirrors adj),
    route_edges-member r.upstream a b r.mirrors adj,
  )

  -- The graph of the routes has an edge exactly from the upstream of a route to a mirror of it, where
  -- both are listed names that differ, and the mirror is not empty.
  pub mirror_graph_lem :
      (a b : Str) (rs : List Route)
      → member b (successors (mirror_graph names rs []) a)
        ≡ (any (mirrors_to a b) rs && may_mirror a b)
  unfolding successors lookup
  mirror_graph_lem a b rs = mirror_graph-member a b rs []
