-- ===== src/Config/Load/Hosts.antt =====
-- What a loaded configuration (config.go, ParseConfig) holds: hosts by name, and compiled regexps.
use l7_proxy.Prelude.{
  ◌≡◌, ◌⊎◌, inl, inr, refl, ◌∙◌, Bool, true, false, ◌||◌, List, [], ◌∷◌, Option, none, some, arith,
  All, Option-cases, is_some,
}
use l7_proxy.Text.{Str, is_empty}
use l7_proxy.Dict.{Dict, lookup, insert, lookup-insert, member}
use l7_proxy.Net.{Platform, Url}
use l7_proxy.Config.{Upstream, Rule, Route, Config}
use l7_proxy.Config.Routes.{names_of}
use l7_proxy.Config.Load.{parse_host, map_names, compile_rule, compile_routes, parse_config}

module _ (os : Platform) where
  -- A rule with a regex holds the regexp that it compiles to.
  abbrev pub IsCompiled : Route → Type 0
  IsCompiled r =
      (is_empty r.rule.regex ≡ true)
      ⊎ ((r.rule.compiled_regex ≡ os.compile_regex r.rule.regex)
          × (is_some r.rule.compiled_regex ≡ true))

  pub record IsLoaded (cfg : Config) : Type 0 where
    pub hosts : (k : Str) → is_some (lookup k cfg.name_to_host) ≡ member k (names_of cfg.upstreams)
    pub regexes : All IsCompiled cfg.routes

  map_names-lookup :
      (us : List Upstream) (m m' : Dict Url) (k : Str)
      → map_names os us m ≡ some m'
      → is_some (lookup k m') ≡ (member k (names_of us) || is_some (lookup k m))
  unfolding map_names
  map_names-lookup [] m m' k h = ground arith
  map_names-lookup (u ∷ us) m m' k h = elim (Option-cases (parse_host os u.host)) [
    | inl e ↦ absurd (ground arith)
    | inr (url, e) ↦ ground (
      arith,
      map_names-lookup us (insert u.name url m) m' k (ground arith),
      lookup-insert u.name k url m,
    )
  ]

  compile_rule-IsCompiled :
      (r : Route) (rule : Rule)
      → compile_rule os r.rule ≡ some rule
      → IsCompiled (record r { rule = rule })
  unfolding compile_rule
  compile_rule-IsCompiled r rule h = ground arith

  compile_routes-IsCompiled :
      (rs rs' : List Route) → compile_routes os rs ≡ some rs' → All IsCompiled rs'
  unfolding compile_routes
  compile_routes-IsCompiled [] rs' h = let e : rs' ≡ [] = ground arith in rw e tt
  compile_routes-IsCompiled (r ∷ rs) rs' h = elim (Option-cases (compile_rule os r.rule)) [
    | inl e ↦ absurd (ground arith)
    | inr (rule, e) ↦ elim (Option-cases (compile_routes os rs)) [
      | inl f ↦ absurd (ground arith)
      | inr (rest, f) ↦
          let same : rs' ≡ record r { rule = rule } ∷ rest = ground arith in
          rw same (compile_rule-IsCompiled r rule e, compile_routes-IsCompiled rs rest f)
    ]
  ]

  -- A configuration that ParseConfig returns maps a name to a host exactly if an upstream has that
  -- name, and each of its rules with a regex holds the compiled one.
  pub parse_config-IsLoaded :
      (decoded : Option Config) (cfg : Config) → parse_config os decoded ≡ some cfg → IsLoaded cfg
  unfolding parse_config lookup
  parse_config-IsLoaded none cfg h = cc
  parse_config-IsLoaded (some raw) cfg h = elim (Option-cases (map_names os raw.upstreams [])) [
    | inl e ↦ absurd (ground arith)
    | inr (m, e) ↦ elim (Option-cases (compile_routes os raw.routes)) [
      | inl f ↦ absurd (ground arith)
      | inr (rs, f) ↦
          let same : record raw { routes = rs; name_to_host = m } ≡ cfg = ground arith in
          rw (← same) (record {
            hosts = λ k. map_names-lookup raw.upstreams [] m k e ∙ or_false _;
            regexes = compile_routes-IsCompiled raw.routes rs f;
          })
    ]
  ]
    where
      or_false : (b : Bool) → (b || false) ≡ b
      or_false true = refl
      or_false false = refl
