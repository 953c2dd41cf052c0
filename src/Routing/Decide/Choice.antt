-- ===== src/Routing/Decide/Choice.antt =====
-- The decision of DecideRoute (routing.go) as a whole: which route it is made from, and when it is
-- the error that no route was found.
use l7_proxy.Prelude.{
  ℕ, ◌+◌, ◌≤◌, ◌≡◌, ◌≢◌, ◌↔◌, sym, ap, ◌∙◌, inl, inr, Bool, true, false, ◌||◌, List, [], ◌∷◌, ◌++◌,
  none, some, arith, Option-cases, drop, length, find, find-some, Memᴰ, All, All-Memᴰ, and_true,
  subst, IsFirst, IsFirst-cons, find-IsFirst, ◌==◌, ◌&&◌, leb, Bool-cases,
}
use l7_proxy.Prelude.Int.{ℤ}
use l7_proxy.Text.{Str, is_empty, has_prefix}
use l7_proxy.Text.Laws.{eq_str_iff, has_prefix_iff}
use l7_proxy.Dict.{lookup}
use l7_proxy.Net.{Platform, Url}
use l7_proxy.Config.{Config, Route, Mirror}
use l7_proxy.Routing.{Request, Candidate, RouteIndex, Decision}
use l7_proxy.Routing.Trie.Longest.{longest}
use l7_proxy.Routing.Trie.Maximal.{entry_fits, longest-max, longest-Memᴰ}
use l7_proxy.Routing.Index.{new_route_index, submatches}
use l7_proxy.Routing.Index.Built.{is_regex, prefix_entries}
use l7_proxy.Routing.Decide.{
  ok, err, route_not_found, finalize, decide_path, decide_route, resolve_mirrors, target_of,
}
use l7_proxy.Routing.Decide.Reference.{
  passes, reference, reference_exact, reference_prefix, reference_regex, at_path, at_prefix,
  at_regex, resolve, decide_path-reference,
}
use l7_proxy.Routing.Decide.Spec.{
  Memᴰ-prefix_entries, prefix_entries-Memᴰ, fits_exact, fits_prefix, fits_regex,
  reference_exact-none, reference_prefix-none, reference_regex-none, find-is_some,
}

resolve_mirrors-ne-not_found :
    (cfg : Config) (ms : List Mirror) → resolve_mirrors cfg ms ≢ err route_not_found
unfolding resolve_mirrors
resolve_mirrors-ne-not_found cfg [] = λ e. cc
resolve_mirrors-ne-not_found cfg (m ∷ ms) = ground (arith, resolve_mirrors-ne-not_found cfg ms)

target_of-ne-not_found :
    (host : Url) (c : Candidate) (url : Url) → target_of host c url ≢ err route_not_found
unfolding target_of
target_of-ne-not_found host c url = ground arith

finalize-ne-not_found :
    (idx : RouteIndex) (c : Candidate) (url : Url) → finalize idx c url ≢ err route_not_found
unfolding finalize
finalize-ne-not_found idx c url =
    elim (Option-cases (lookup c.route.upstream idx.cfg.name_to_host)) [
      | inl e ↦ ground arith
      | inr (host, e) ↦ ground (
        arith,
        resolve_mirrors-ne-not_found idx.cfg c.route.mirrors,
        target_of-ne-not_found host c url,
      )
    ]

module _ (os : Platform) (r : Request) where
  abbrev pub fits : Str → Route → Bool
  fits path route =
      fits_exact os r path route || (fits_prefix os r path route || fits_regex os r path route)

  -- A prefix of this length that fits.
  abbrev pub fits_with_length : Str → ℕ → Route → Bool
  fits_with_length path n route = fits_prefix os r path route && length route.rule.path_prefix == n

  -- The ways in which a candidate stands for its route, by precedence.
  pub data Way (routes : List Route) (path : Str) : Candidate → Type 0 where
    exactly :
        {route : Route}
        → route.rule.path ≡ path
        → IsFirst (fits_exact os r path) route routes
        → Way routes path (at_path route)
    by_prefix :
        {route : Route} {suffix : Str}
        → ((other : Route) → Memᴰ other routes → fits_exact os r path other ≡ false)
        → path ≡ route.rule.path_prefix ++ suffix
        → ((other : Route)
            → Memᴰ other routes
            → fits_prefix os r path other ≡ true
            → length other.rule.path_prefix ≤ length route.rule.path_prefix)
        → IsFirst (fits_with_length path (length route.rule.path_prefix)) route routes
        → Way routes path (record { route = route; path_suffix = suffix; regex_match = none })
    by_regex :
        {route : Route} {m : List ℤ}
        → ((other : Route) → Memᴰ other routes → fits_exact os r path other ≡ false)
        → ((other : Route) → Memᴰ other routes → fits_prefix os r path other ≡ false)
        → is_regex route ≡ true
        → submatches os r route path ≡ some m
        → IsFirst (fits_regex os r path) route routes
        → Way routes path (at_regex route m)

  pub record Chosen (routes : List Route) (path : Str) (c : Candidate) : Type 0 where
    pub listed : Memᴰ c.route routes
    pub satisfied : passes os r c.route ≡ true
    pub way : Way routes path c

  reference_exact-Chosen :
      (routes : List Route) (path : Str) (c : Candidate)
      → reference_exact os r routes path ≡ some c
      → Chosen routes path c
  reference_exact-Chosen routes path c h =
      elim (Option-cases (find (fits_exact os r path) routes)) [
        | inl e ↦ absurd (ground arith)
        | inr (route, e) ↦
            let (m, f) = find-some (fits_exact os r path) routes route e in
            let (at, p) = and_true _ _ f in
            let (_, same) = and_true _ _ at in
            let is : at_path route ≡ c = ground arith in
            subst (Chosen routes path) is (record {
              listed = m;
              satisfied = p;
              way =
                  exactly ((eq_str_iff route.rule.path path).0 same)
                    (find-IsFirst (fits_exact os r path) routes route e);
            })
      ]

  longest-IsFirst :
      (routes : List Route) (path : Str) (n : ℕ) (route : Route)
      → longest (passes os r) (prefix_entries routes) path 0 ≡ some (route, n)
      → IsFirst (fits_with_length path n) route routes
  longest-IsFirst [] path n route h = cc
  longest-IsFirst (x ∷ routes) path n route h = elim (Bool-cases (fits_prefix os r path x)) [
    | inr f ↦ IsFirst-cons x (ground arith) (longest-IsFirst routes path n route (ground arith))
    | inl f ↦ elim (Option-cases (longest (passes os r) (prefix_entries routes) path 0)) [
      | inl e ↦ ([], routes, ground arith, tt)
      | inr ((y, m), e) ↦ elim (Bool-cases (leb m (length x.rule.path_prefix))) [
        | inl le ↦ ([], routes, ground arith, tt)
        | inr gt ↦
            IsFirst-cons x (ground arith) (longest-IsFirst routes path n route (ground arith))
      ]
    ]
  ]

  reference_prefix-Chosen :
      (routes : List Route) (path : Str) (c : Candidate)
      → ((other : Route) → Memᴰ other routes → fits_exact os r path other ≡ false)
      → reference_prefix os r routes path ≡ some c
      → Chosen routes path c
  reference_prefix-Chosen routes path c no_exact h =
      elim (Option-cases (longest (passes os r) (prefix_entries routes) path 0)) [
        | inl e ↦ absurd (ground arith)
        | inr ((route, n), e) ↦
            let (p, mem, f, n_is) =
              longest-Memᴰ (passes os r) (prefix_entries routes) path 0 n route e in
            let (l, g, q) = prefix_entries-Memᴰ p route routes mem in
            let (starts, pass) = and_true _ _ f in
            let best = longest-max (passes os r) (prefix_entries routes) path 0 n route e in
            let n_len : n ≡ length route.rule.path_prefix = omega (arith, ap length q) in
            let is : at_prefix path route n ≡ c = ground arith in
            let starts' =
              (has_prefix_iff path route.rule.path_prefix).0
                (subst (λ s. has_prefix path s ≡ true) q starts) in
            subst (Chosen routes path) is (record {
              listed = l;
              satisfied = pass;
              way =
                  by_prefix no_exact
                    (subst (λ k. path ≡ route.rule.path_prefix ++ drop k path) (sym n_len) starts')
                    (λ other m fo. at_most route n n_len other m fo best)
                    (subst (λ k. IsFirst (fits_with_length path k) route routes) n_len
                      (longest-IsFirst routes path n route e));
            })
      ]
    where
      at_most :
          (route : Route) (n : ℕ)
          → n ≡ length route.rule.path_prefix
          → (other : Route) → Memᴰ other routes
          → fits_prefix os r path other ≡ true
          → All
              (λ e. entry_fits (passes os r) path e ≡ true → 0 + length e.0 ≤ n)
              (prefix_entries routes)
          → length other.rule.path_prefix ≤ length route.rule.path_prefix
      at_most route n n_len other m fo best =
          let (is_p, fe) = and_true _ _ fo in
          let k =
            All-Memᴰ _ (prefix_entries routes) best (Memᴰ-prefix_entries other routes m is_p) fe in
          omega arith

  reference_regex-Chosen :
      (routes : List Route) (path : Str) (c : Candidate)
      → ((other : Route) → Memᴰ other routes → fits_exact os r path other ≡ false)
      → ((other : Route) → Memᴰ other routes → fits_prefix os r path other ≡ false)
      → reference_regex os r routes path ≡ some c
      → Chosen routes path c
  reference_regex-Chosen routes path c no_exact no_prefix h =
      elim (Option-cases (find (fits_regex os r path) routes)) [
        | inl e ↦ absurd (ground arith)
        | inr (route, e) ↦
            let (mem, f) = find-some (fits_regex os r path) routes route e in
            let (kind, fs) = and_true _ _ f in
            let (pass, _) = and_true _ _ fs in
            let (m, s) = find-is_some os r routes path route e in
            let is : at_regex route m ≡ c = ground arith in
            subst (Chosen routes path) is (record {
              listed = mem;
              satisfied = pass;
              way =
                  by_regex no_exact no_prefix kind s
                    (find-IsFirst (fits_regex os r path) routes route e);
            })
      ]

  pub reference-Chosen :
      (routes : List Route) (path : Str) (c : Candidate)
      → reference os r routes path ≡ some c
      → Chosen routes path c
  reference-Chosen routes path c h = elim (Option-cases (reference_exact os r routes path)) [
    | inr (x, e) ↦ reference_exact-Chosen routes path c (ground arith)
    | inl e ↦
        let no_exact = (reference_exact-none os r routes path).0 e in
        elim (Option-cases (reference_prefix os r routes path)) [
          | inr (x, f) ↦ reference_prefix-Chosen routes path c no_exact (ground arith)
          | inl f ↦
              reference_regex-Chosen routes path c no_exact
                ((reference_prefix-none os r routes path).0 f) (ground arith)
        ]
  ]

  -- A decision comes from a listed route whose conditions the request satisfies, chosen by the
  -- documented precedence: it is the first route whose path is the request's; or no exact route fits,
  -- the path is its prefix and the suffix, no other prefix that fits is longer, and it is the first of
  -- that length; or neither kind fits, and it is the first regex route that fits, with the submatches
  -- that the candidate holds.
  pub decide_route-Chosen :
      (cfg : Config) (url : Url) (d : Decision)
      → r.url ≡ some url
      → decide_route os (new_route_index cfg) r ≡ ok d
      → (c : Candidate) × Chosen cfg.routes url.path c
        × (finalize (new_route_index cfg) c url ≡ ok d)
  unfolding decide_route
  decide_route-Chosen cfg url d u h =
      let run : decide_path os (new_route_index cfg) r url ≡ ok d = ground arith in
      let run' = sym (decide_path-reference os r cfg url) ∙ run in
      elim (Option-cases (reference os r cfg.routes url.path)) [
        | inl e ↦ absurd (ground arith)
        | inr (c, e) ↦ (c, reference-Chosen cfg.routes url.path c e, ground arith)
      ]

  -- For a request with a path, the error "route not found" is returned exactly when no listed route
  -- fits, be it by its path, its prefix or its regex.
  pub decide_route-not_found_iff :
      (cfg : Config) (url : Url)
      → r.url ≡ some url
      → is_empty url.path ≡ false
      → (decide_route os (new_route_index cfg) r ≡ err route_not_found)
        ↔ ((route : Route) → Memᴰ route cfg.routes → fits url.path route ≡ false)
  unfolding decide_route
  decide_route-not_found_iff cfg url u p =
      let same : decide_route os (new_route_index cfg) r
          ≡ resolve os r (new_route_index cfg) url (reference os r cfg.routes url.path) =
        ground (arith, decide_path-reference os r cfg url) in
      (λ h. to (sym same ∙ h), λ h. same ∙ from h)
    where
      to :
          resolve os r (new_route_index cfg) url (reference os r cfg.routes url.path)
            ≡ err route_not_found
          → (route : Route) → Memᴰ route cfg.routes
          → fits url.path route ≡ false
      to h route m = elim (Option-cases (reference os r cfg.routes url.path)) [
        | inr (c, e) ↦ absurd (ground (arith, finalize-ne-not_found (new_route_index cfg) c url))
        | inl e ↦
            let a = (reference_exact-none os r cfg.routes url.path).0 (ground arith) route m in
            let b = (reference_prefix-none os r cfg.routes url.path).0 (ground arith) route m in
            let c = (reference_regex-none os r cfg.routes url.path).0 (ground arith) route m in
            ground arith
      ]

      from :
          ((route : Route) → Memᴰ route cfg.routes → fits url.path route ≡ false)
          → resolve os r (new_route_index cfg) url (reference os r cfg.routes url.path)
            ≡ err route_not_found
      from h =
          let a =
            (reference_exact-none os r cfg.routes url.path).1
              (λ route m. let k = h route m in ground arith) in
          let b =
            (reference_prefix-none os r cfg.routes url.path).1
              (λ route m. let k = h route m in ground arith) in
          let c =
            (reference_regex-none os r cfg.routes url.path).1
              (λ route m. let k = h route m in ground arith) in
          ground arith
