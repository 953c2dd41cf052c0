-- ===== src/Tests.antt =====
-- The configuration and the request that the tests of the other parts run on, and those tests.
mod Decisions
mod Configs
mod Pools
mod Serving
mod Reloads
mod Cycles
mod Hosts
mod Shutdowns
mod Metering
mod Startups
mod EndToEnd
use l7_proxy.Prelude.{◌≡◌, refl, List, [], ◌∷◌, Option, none, some, if◌then◌else◌, length, drop}
use l7_proxy.Prelude.Int.{ℤ, pos}
use l7_proxy.Text.{Str, codes, has_prefix, eq_str, is_empty}
use l7_proxy.Dict.{insert}
use l7_proxy.Net.{Url, Regex, Platform}
use l7_proxy.Config.{Upstream, HeaderMatch, Rule, Mirror, Route, Config}
use l7_proxy.Config.Load.{parse_config}
use l7_proxy.Config.Load.Hosts.{IsLoaded, parse_config-IsLoaded}
use l7_proxy.Routing.{Request}
use l7_proxy.Float.{fin}

abbrev pub url_of : Str → Str → Url
url_of host path = record {
  scheme = codes "http";
  host = host;
  path = path;
  raw_query = codes "q=1";
  fragment = [];
}

-- A regexp that matches what begins with `/r`, as a whole and with one group behind it.
abbrev pub regex_r : Regex
regex_r path =
    if has_prefix path (codes "/r")
    then some (pos 0 ∷ pos (length path) ∷ pos 2 ∷ pos (length path) ∷ [])
    else none

-- Parsers that know hosts that begin with `http://` and the one expression.
abbrev pub parsers : Platform
parsers = record {
  parse_url = λ s.
      if has_prefix s (codes "http://")
      then some (record {
        scheme = codes "http";
        host = drop 7 s;
        path = [];
        raw_query = [];
        fragment = [];
      })
      else none;
  compile_regex = λ s. if eq_str s (codes "^/r(.*)") then some regex_r else none;
  parse_cidr = λ s. none;
  parse_ip = λ s. none;
}

abbrev pub main_upstream : Upstream
main_upstream = record {
  name = codes "main";
  host = codes "http://m:80";
  timeout = pos 500;
  fallback = codes "spare";
}

abbrev pub spare_upstream : Upstream
spare_upstream = record {
  name = codes "spare";
  host = codes "http://s:81";
  timeout = pos 0;
  fallback = [];
}

abbrev pub upstreams : List Upstream
upstreams = main_upstream ∷ spare_upstream ∷ []

abbrev pub any_rule : Rule
any_rule = record {
  path_prefix = [];
  path = [];
  regex = [];
  rewrite = [];
  method = [];
  headers = [];
  hosts = [];
  client_cidrs = [];
  compiled_regex = none;
}

abbrev pub tenant_header : HeaderMatch
tenant_header = record { name = codes "X-Tenant"; value = codes "a"; op = [] }

abbrev pub api_rule : Rule
api_rule = record any_rule {
  path_prefix = codes "/api";
  rewrite = codes "/v1";
  method = codes "GET";
  headers = tenant_header ∷ [];
  hosts = codes "*.example" ∷ [];
}

abbrev pub regex_rule : Rule
regex_rule = record any_rule { regex = codes "^/r(.*)"; rewrite = codes "/new$1" }

abbrev pub to_spare : Mirror
to_spare = record { upstream = codes "spare"; ratio = fin (pos 5) }

abbrev pub exact_route : Route
exact_route = record {
  rule = record any_rule { path = codes "/x" };
  upstream = codes "spare";
  mirrors = [];
}

abbrev pub api_route : Route
api_route = record { rule = api_rule; upstream = codes "main"; mirrors = to_spare ∷ [] }

abbrev pub regex_route : Route
regex_route = record { rule = regex_rule; upstream = codes "main"; mirrors = [] }

abbrev pub decoded : Config
decoded = record {
  upstreams = upstreams;
  routes = exact_route ∷ api_route ∷ regex_route ∷ [];
  name_to_host = [];
}

abbrev pub loaded_config : Config
loaded_config = record {
  upstreams = upstreams;
  routes =
      exact_route
      ∷ api_route
      ∷ record regex_route { rule = record regex_rule { compiled_regex = some regex_r } }
      ∷ [];
  name_to_host =
      (codes "main", record (url_of (codes "m:80") []) { raw_query = [] })
      ∷ (codes "spare", record (url_of (codes "s:81") []) { raw_query = [] })
      ∷ [];
}

pub loaded : parse_config parsers (some decoded) ≡ some loaded_config
unfolding parse_config insert
loaded = refl

pub loaded_config-IsLoaded : IsLoaded parsers loaded_config
loaded_config-IsLoaded = parse_config-IsLoaded parsers (some decoded) loaded_config loaded

-- A request for a path.
abbrev pub request : Str → Request
request path = record {
  method = codes "GET";
  url = some (url_of [] path);
  header = (codes "X-Tenant", codes "a" ∷ []) ∷ [];
  host = codes "shop.example:80";
  remote_addr = codes "1.2.3.4:5";
}
