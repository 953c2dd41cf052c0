-- ===== src/Routing/Decide/Resolved.antt =====
-- Resolving the chosen route on a configuration that was loaded and validated (config.go, routing.go).
use mathlib.Core.List.Memᴰ
use l7_proxy.Prelude.{
  ◌≡◌, ◌≢◌, ◌⊎◌, inl, inr, refl, sym, ap, ◌∙◌, subst, true, false, List, [], ◌∷◌, Option, none,
  some, arith, All, All-Memᴰ, Memᴰ, Option-cases, is_some,
}
use l7_proxy.Prelude.Int.{ℤ}
use l7_proxy.Text.{Str, is_empty}
use l7_proxy.Dict.{lookup, member}
use l7_proxy.Net.{Platform, Regex, Url}
use l7_proxy.Config.{Config, Mirror, Route}
use l7_proxy.Config.Routes.{names_of, validate_routes}
use l7_proxy.Config.Routes.Valid.{IsValidRoute, IsValidMirror, validate_routes_iff}
use l7_proxy.Config.Load.Hosts.{IsLoaded, IsCompiled}
use l7_proxy.Routing.{Request, Candidate, Decision, MirrorTarget}
use l7_proxy.Routing.Rewrite.Templates.{AreSpans, expand_regex_rewrite_total}
use l7_proxy.Routing.Index.{new_route_index, submatches}
use l7_proxy.Routing.Index.Built.{index_routes-kept, is_regex}
use l7_proxy.Routing.Decide.{
  Result, ok, err, panic, route_not_found, mirror_not_mapped, finalize, decide_route, build_target,
  effective_rewrite, resolve_host, resolve_mirrors, target_of, or_error, ◌>>=◌,
}
use l7_proxy.Routing.Decide.Reference.{reference, resolve, decide_path-reference}
use l7_proxy.Routing.Decide.Choice.{Way, exactly, by_prefix, by_regex, reference-Chosen}

resolve_mirrors_total :
    (cfg : Config) (ms : List Mirror)
    → All (λ m. is_some (lookup m.upstream cfg.name_to_host) ≡ true) ms
    → (ts : List MirrorTarget) × (resolve_mirrors cfg ms ≡ ok ts)
unfolding resolve_mirrors
resolve_mirrors_total cfg [] h = ([], refl)
resolve_mirrors_total cfg (m ∷ ms) (h, hs) =
    let (ts, e) = resolve_mirrors_total cfg ms hs in
    elim (Option-cases (lookup m.upstream cfg.name_to_host)) [
      | inl f ↦ absurd (ground arith)
      | inr (url, f) ↦ (record { url = url; ratio = m.ratio } ∷ ts, rw (f, e) refl)
    ]

target_of_total :
    (host : Url) (c : Candidate) (url : Url)
    → ((m : List ℤ) → c.regex_match ≡ some m → AreSpans url.path m)
    → (t : Url) × (target_of host c url ≡ ok t)
unfolding target_of
target_of_total host c url h = elim (Option-cases c.regex_match) [
  | inl e ↦ (
    build_target host (effective_rewrite c.route.rule) c.path_suffix url.raw_query,
    ground (arith, e),
  )
  | inr (m, e) ↦
      let (s, f) = expand_regex_rewrite_total c.route.rule.rewrite url.path m (h m e) in
      (build_target host s [] url.raw_query, ground (arith, e, f))
]

bind_ok :
    {A B : Type 0} (m : Result A) (f : A → Result B) {a : A}
    → m ≡ ok a
    → ((b : B) × (f a ≡ ok b))
    → (b : B) × ((m >>= f) ≡ ok b)
bind_ok m f e (b, h) = (b, rw e h)

-- newRouteIndex keeps the configuration.
pub new_route_index-cfg : (cfg : Config) → (new_route_index cfg).cfg ≡ cfg
unfolding new_route_index
new_route_index-cfg cfg = (index_routes-kept cfg.routes _).0

module _ (os : Platform) (cfg : Config) (loaded : IsLoaded os cfg) where
  mirrors_mapped :
      (upstream : Str) (ms : List Mirror)
      → All (IsValidMirror upstream (names_of cfg.upstreams)) ms
      → All (λ m. is_empty m.upstream ≡ false) ms
      → All (λ m. is_some (lookup m.upstream cfg.name_to_host) ≡ true) ms
  mirrors_mapped upstream [] h k = tt
  mirrors_mapped upstream (m ∷ ms) (h, hs) (k, ks) =
      (ground (arith, loaded.hosts m.upstream), mirrors_mapped upstream ms hs ks)

  finalize_total :
      (c : Candidate) (url : Url)
      → IsValidRoute os (names_of cfg.upstreams) c.route
      → All (λ m. is_empty m.upstream ≡ false) c.route.mirrors
      → ((m : List ℤ) → c.regex_match ≡ some m → AreSpans url.path m)
      → (d : Decision) × (finalize (new_route_index cfg) c url ≡ ok d)
  unfolding finalize resolve_host
  finalize_total c url v named spans =
      let idx = new_route_index cfg in
      let same = new_route_index-cfg cfg in
      let (ts, mirrors) =
        resolve_mirrors_total cfg c.route.mirrors
          (mirrors_mapped c.route.upstream c.route.mirrors v.mirrors named) in
      elim (Option-cases (lookup c.route.upstream cfg.name_to_host)) [
        | inl e ↦ let h = loaded.hosts c.route.upstream in let k = v.known in absurd (ground arith)
        | inr (host, e) ↦
            let (t, target) = target_of_total host c url spans in
            let found : resolve_host idx.cfg c.route.upstream ≡ ok host = rw same (rw e refl) in
            let mirrors' : resolve_mirrors idx.cfg c.route.mirrors ≡ ok ts = rw same mirrors in
            bind_ok (resolve_host idx.cfg c.route.upstream) _ found (
              bind_ok (target_of host c url) _ target
                (bind_ok (resolve_mirrors idx.cfg c.route.mirrors) _ mirrors' (_, refl)))
      ]

-- What regexp documents of FindStringSubmatchIndex, for the regexps that compile.
abbrev pub RegexpsFit : Platform → Type 0
RegexpsFit os =
    (s : Str) (re : Regex) (path : Str) (m : List ℤ)
    → os.compile_regex s ≡ some re
    → re path ≡ some m
    → AreSpans path m

submatches-AreSpans :
    (os : Platform) (r : Request) (route : Route) (path : Str) (m : List ℤ)
    → RegexpsFit os
    → IsCompiled os route
    → is_regex route ≡ true
    → submatches os r route path ≡ some m
    → AreSpans path m
submatches-AreSpans os r route path m fit (inl e) kind h = absurd (ground arith)
submatches-AreSpans os r route path m fit (inr (same, _)) kind h =
    elim (Option-cases route.rule.compiled_regex) [
      | inl e ↦ absurd (ground arith)
      | inr (re, e) ↦ fit route.rule.regex re path m (sym same ∙ e) (rw e at h)
    ]

Way-AreSpans :
    (os : Platform) (r : Request) (routes : List Route) (path : Str) {c : Candidate} (m : List ℤ)
    → RegexpsFit os
    → Way os r routes path c
    → IsCompiled os c.route
    → c.regex_match ≡ some m
    → AreSpans path m
Way-AreSpans os r routes path m fit (exactly _ _) k e = cc
Way-AreSpans os r routes path m fit (by_prefix _ _ _ _) k e = cc
Way-AreSpans os r routes path m fit (by_regex {route} {m = n} _ _ kind s _) k e =
    let same : n ≡ m = cc in
    subst (AreSpans path) same (submatches-AreSpans os r route path n fit k kind s)

-- On a loaded configuration whose routes validate, and in which every mirror names an upstream, a
-- request with a path gets a decision unless no route is found: no host is missing, no mirror is
-- unmapped, and no rewrite panics, given what regexp documents of its submatch indices.
pub decide_route_resolves :
    (os : Platform) (cfg : Config) (r : Request) (url : Url)
    → RegexpsFit os
    → IsLoaded os cfg
    → validate_routes os cfg.routes cfg.upstreams ≡ []
    → All (λ route. All (λ m. is_empty m.upstream ≡ false) route.mirrors) cfg.routes
    → r.url ≡ some url
    → is_empty url.path ≡ false
    → (decide_route os (new_route_index cfg) r ≡ err route_not_found)
      ⊎ ((d : Decision) × (decide_route os (new_route_index cfg) r ≡ ok d))
unfolding decide_route
decide_route_resolves os cfg r url fit loaded valid named u p =
    let same : decide_route os (new_route_index cfg) r
        ≡ resolve os r (new_route_index cfg) url (reference os r cfg.routes url.path) =
      ground (arith, decide_path-reference os r cfg url) in
    elim (Option-cases (reference os r cfg.routes url.path)) [
      | inl e ↦ inl (same ∙ rw e refl)
      | inr (c, e) ↦
          let chosen = reference-Chosen os r cfg.routes url.path c e in
          let route_valid =
            All-Memᴰ _ cfg.routes ((validate_routes_iff os cfg.routes cfg.upstreams).0 valid).1
              chosen.listed in
          let mirrors_named = All-Memᴰ _ cfg.routes named chosen.listed in
          let compiled = All-Memᴰ _ cfg.routes loaded.regexes chosen.listed in
          let (d, done) =
            finalize_total os cfg loaded c url route_valid mirrors_named
              (λ m. Way-AreSpans os r cfg.routes url.path m fit chosen.way compiled) in
          inr (d, same ∙ (rw e done))
    ]

-- A chain that ends well has a first link that does, and the rest does on its value.
ok_of_bind :
    {A B : Type 0} (first : Result A) (rest : A → Result B) {end : B}
    → (first >>= rest) ≡ ok end
    → (mid : A) × (first ≡ ok mid) × (rest mid ≡ ok end)
ok_of_bind panic rest h = cc
ok_of_bind (err e) rest h = cc
ok_of_bind (ok mid) rest h = (mid, refl, h)

none_of_is_some : {A : Type 0} (o : Option A) → is_some o ≡ false → o ≡ none
none_of_is_some none h = refl
none_of_is_some (some a) h = cc

resolve_mirrors_fails :
    (cfg : Config) (ms : List Mirror) (m : Mirror) (ts : List MirrorTarget)
    → Memᴰ m ms
    → lookup m.upstream cfg.name_to_host ≡ none
    → resolve_mirrors cfg ms ≢ ok ts
unfolding resolve_mirrors
resolve_mirrors_fails cfg [] m ts mem e = absurd (Memᴰ.not-nil mem)
resolve_mirrors_fails cfg (x ∷ ms) m ts mem e = λ h.
    let (host, p, q) =
      ok_of_bind (or_error (mirror_not_mapped x.upstream) (lookup x.upstream cfg.name_to_host)) _
        h in
    let (zs, p', _) = ok_of_bind (resolve_mirrors cfg ms) _ q in
    elim (Memᴰ.cases_cons mem) [
      | inl same ↦
          let f : lookup x.upstream cfg.name_to_host ≡ none = rw same at e in absurd (ground arith)
      | inr later ↦ resolve_mirrors_fails cfg ms m zs later e p'
    ]

-- On a loaded configuration whose upstreams all have names, a route with a mirror that names no
-- upstream cannot be resolved: whatever the request, it gets no decision. Validation accepts such a
-- mirror if its ratio is 0.
pub finalize_unnamed_mirror :
    (os : Platform) (cfg : Config) (c : Candidate) (url : Url) (m : Mirror) (d : Decision)
    → IsLoaded os cfg
    → member [] (names_of cfg.upstreams) ≡ false
    → Memᴰ m c.route.mirrors
    → m.upstream ≡ []
    → finalize (new_route_index cfg) c url ≢ ok d
unfolding finalize
finalize_unnamed_mirror os cfg c url m d loaded unnamed mem empty = λ h.
    let idx = new_route_index cfg in
    let (host, _, q) = ok_of_bind (resolve_host idx.cfg c.route.upstream) _ h in
    let (target, _, q') = ok_of_bind (target_of host c url) _ q in
    let (ts, p, _) = ok_of_bind (resolve_mirrors idx.cfg c.route.mirrors) _ q' in
    let p' : resolve_mirrors cfg c.route.mirrors ≡ ok ts =
      ap (λ k. resolve_mirrors k c.route.mirrors) (sym (new_route_index-cfg cfg)) ∙ p in
    let gone : is_some (lookup [] cfg.name_to_host) ≡ false = loaded.hosts [] ∙ unnamed in
    let missing : lookup [] cfg.name_to_host ≡ none = none_of_is_some _ gone in
    resolve_mirrors_fails cfg c.route.mirrors m ts mem
      (ap (λ k. lookup k cfg.name_to_host) empty ∙ missing) p'
