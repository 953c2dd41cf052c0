-- ===== src/Config/Load.antt =====
-- config.go: mapNamesToHosts, compileRegexes and ParseConfig. Opening and decoding the file is a
-- parameter: the decoded configuration, if there is one, with neither hosts nor regexps.
pub mod Hosts
use l7_proxy.Prelude.{
  Bool, true, false, ◌&&◌, ◌||◌, not, List, [], ◌∷◌, Option, none, some, if◌then◌else◌,
}
use l7_proxy.Text.{Str, is_empty, codes, eq_str}
use l7_proxy.Dict.{Dict, insert}
use l7_proxy.Net.{Platform, Url}
use l7_proxy.Config.{Upstream, Rule, Route, Config}
use l7_proxy.Config.Upstreams.{is_http}

infixl 5 ◌>>=◌
abbrev pub ◌>>=◌ : {A B : Type 0} → Option A → (A → Option B) → Option B
none >>= f = none
some a >>= f = f a

-- One round of mapNamesToHosts: the host of an upstream, parsed.
unfoldable pub parse_host : Platform → Str → Option Url
parse_host os host = elim (os.parse_url host) [
  | none ↦ none
  | some u ↦ if is_http u.scheme then some u else none
]

-- The loop of mapNamesToHosts; `none` is an error.
unfoldable pub map_names : Platform → List Upstream → Dict Url → Option (Dict Url)
unfolding parse_host
map_names os [] m = some m
map_names os (u ∷ us) m = do url ← parse_host os u.host; map_names os us (insert u.name url m)

unfoldable pub map_names_to_hosts : Platform → Config → Option Config
unfolding map_names
map_names_to_hosts os cfg = do
  m ← map_names os cfg.upstreams []
  some (record cfg { name_to_host = m })

-- One round of compileRegexes.
unfoldable pub compile_rule : Platform → Rule → Option Rule
compile_rule os rule =
    if is_empty rule.regex then some rule else elim (os.compile_regex rule.regex) [
      | none ↦ none
      | some re ↦ some (record rule { compiled_regex = some re })
    ]

unfoldable pub compile_routes : Platform → List Route → Option (List Route)
unfolding compile_rule
compile_routes os [] = some []
compile_routes os (r ∷ rs) = do
  rule ← compile_rule os r.rule
  rest ← compile_routes os rs
  some (record r { rule = rule } ∷ rest)

unfoldable pub compile_regexes : Platform → Config → Option Config
unfolding compile_routes
compile_regexes os cfg = do
  routes ← compile_routes os cfg.routes
  some (record cfg { routes = routes })

unfoldable pub parse_config : Platform → Option Config → Option Config
unfolding map_names_to_hosts compile_regexes
parse_config os decoded = do
  cfg ← decoded
  mapped ← map_names_to_hosts os cfg
  compile_regexes os mapped
