-- ===== src/Config/Upstreams.antt =====
-- config.go: validateUpstreams and validateUpstreamHost.
pub mod Valid
use l7_proxy.Prelude.{
  ℕ, ◌+◌, ◌≤◌, ◌<◌, Bool, true, false, ◌&&◌, ◌||◌, not, List, [], ◌∷◌, ◌++◌, Option, none, some,
  ltb, if◌then◌else◌,
}
use l7_proxy.Prelude.Int.{ℤ, pos, ltb_ℤ}
use l7_proxy.Text.{Str, codes, is_empty, eq_str, contains_any, trim_space}
use l7_proxy.Dict.{member}
use l7_proxy.Net.{Platform, Url, port, atoi}
use l7_proxy.Config.{
  Upstream, Fault, empty, whitespace, unparsable, scheme, missing_host, has_path, has_query,
  has_fragment, invalid_port, port_out_of_range, ConfigError, no_upstreams, name_is_empty,
  duplicate_name, bad_host, negative_timeout, fallback_itself, fallback_unknown, report_if,
}

-- " \t\n\r"
abbrev pub whitespace_bytes : Str
whitespace_bytes = 32 ∷ 9 ∷ 10 ∷ 13 ∷ []

abbrev pub is_http : Str → Bool
is_http s = eq_str s (codes "http") || eq_str s (codes "https")

-- The range of the port of a URL, where it has one.
unfoldable pub validate_port : Str → Option Fault
validate_port p = if is_empty p then none else elim (atoi p) [
  | none ↦ some invalid_port
  | some n ↦ if ltb n 1 || ltb 65535 n then some port_out_of_range else none
]

-- The checks of a parsed host.
unfoldable pub validate_url : Url → Option Fault
unfolding validate_port
validate_url u =
    if not (is_http u.scheme)
    then some scheme
    else if is_empty u.host
    then some missing_host
    else if not (is_empty u.path) && not (eq_str u.path (codes "/"))
    then some has_path
    else if not (is_empty u.raw_query)
    then some has_query
    else if not (is_empty u.fragment)
    then some has_fragment
    else validate_port (port u)

unfoldable pub validate_upstream_host : Platform → Str → Option Fault
unfolding validate_url
validate_upstream_host os host =
    if is_empty host
    then some empty
    else if contains_any host whitespace_bytes
    then some whitespace
    else elim (os.parse_url host) [ none ↦ some unparsable | some u ↦ validate_url u ]

-- The name of an upstream against those seen: its errors, and the names seen after it.
unfoldable pub check_name : ℕ → List Str → Upstream → List ConfigError × List Str
check_name i seen u =
    if is_empty (trim_space u.name)
    then (name_is_empty i ∷ [], seen)
    else if member u.name seen
    then (duplicate_name i u.name ∷ [], seen)
    else ([], u.name ∷ seen)

abbrev pub host_errors : ℕ → Upstream → Option Fault → List ConfigError
host_errors i u none = []
host_errors i u (some fault) = bad_host i u.name fault ∷ []

-- The first loop: the errors from index i on, and the names seen at its end.
unfoldable pub check_upstreams :
    Platform → ℕ → List Str → List Upstream → List ConfigError × List Str
unfolding check_name
check_upstreams os i seen [] = ([], seen)
check_upstreams os i seen (u ∷ us) =
    let named = check_name i seen u in
    let rest = check_upstreams os (i + 1) named.1 us in
    (
      named.0
          ++ (host_errors i u (validate_upstream_host os u.host)
              ++ (report_if (ltb_ℤ u.timeout (pos 0)) (negative_timeout i u.name u.timeout)
                  ++ rest.0)),
      rest.1,
    )

unfoldable pub check_fallback : ℕ → List Str → Upstream → List ConfigError
check_fallback i seen u =
    if is_empty u.fallback
    then []
    else if eq_str u.fallback u.name
    then fallback_itself i u.name ∷ []
    else report_if (not (member u.fallback seen)) (fallback_unknown i u.name u.fallback)

-- The second loop.
unfoldable pub check_fallbacks : ℕ → List Str → List Upstream → List ConfigError
unfolding check_fallback
check_fallbacks i seen [] = []
check_fallbacks i seen (u ∷ us) = check_fallback i seen u ++ check_fallbacks (i + 1) seen us

abbrev pub is_nil : List Upstream → Bool
is_nil [] = true
is_nil (_ ∷ _) = false

unfoldable pub validate_upstreams : Platform → List Upstream → List ConfigError
unfolding check_upstreams check_fallbacks
validate_upstreams os upstreams =
    if is_nil upstreams
    then no_upstreams ∷ []
    else let first = check_upstreams os 0 [] upstreams in
      first.0 ++ check_fallbacks 0 first.1 upstreams
