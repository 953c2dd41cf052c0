-- ===== src/Config/Routes.antt =====
-- config.go: validateRoutes, validateMirror and dedupKey.
pub mod Valid
use l7_proxy.Prelude.{
  ℕ, ◌+◌, Bool, true, false, ◌&&◌, ◌||◌, not, List, [], ◌∷◌, ◌++◌, Option, none, some,
  if◌then◌else◌, map,
}
use l7_proxy.Text.{Str, is_empty, eq_str, to_upper, to_lower}
use l7_proxy.Dict.{Dict, member, lookup, insert}
use l7_proxy.Float.{Float64, flt, fle, zero_f, one_f}
use l7_proxy.Net.{Platform}
use l7_proxy.Config.{
  Upstream, HeaderMatch, Rule, Mirror, Route, effective_op, ConfigError, no_routes,
  upstream_is_empty, unknown_upstream, duplicate_route, mirror_without_upstream, mirror_unknown,
  mirror_own, mirror_ratio, report_if,
}
use l7_proxy.Config.Rules.{validate_rule}

-- `ratio != 0`: NaN differs from 0 as well.
unfoldable pub is_not_zero : Float64 → Bool
is_not_zero x = not (fle x zero_f && fle zero_f x)

-- One round of validateMirror.
unfoldable pub check_mirror : ℕ → Str → List Str → Mirror → List ConfigError
check_mirror i upstream names m =
    if is_empty m.upstream
    then report_if (is_not_zero m.ratio) (mirror_without_upstream i)
    else report_if (not (member m.upstream names)) (mirror_unknown i m.upstream)
      ++ (report_if (eq_str m.upstream upstream) (mirror_own i upstream)
          ++ report_if (flt m.ratio zero_f || flt one_f m.ratio) (mirror_ratio i m.ratio))

unfoldable pub validate_mirror : ℕ → Str → List Str → List Mirror → List ConfigError
unfolding check_mirror
validate_mirror i upstream names [] = []
validate_mirror i upstream names (m ∷ ms) =
    check_mirror i upstream names m ++ validate_mirror i upstream names ms

-- The parts of dedupKey behind the first four.
abbrev pub header_part : HeaderMatch → Str
header_part h = b'|' ∷ to_lower h.name ++ (b'=' ∷ effective_op h ++ (b':' ∷ h.value))

abbrev pub header_parts : List HeaderMatch → Str
header_parts [] = []
header_parts (h ∷ hs) = header_part h ++ header_parts hs

abbrev pub bar_parts : List Str → Str
bar_parts [] = []
bar_parts (s ∷ ss) = b'|' ∷ s ++ bar_parts ss

unfoldable pub dedup_key : Rule → Str
dedup_key r =
    to_upper r.method
    ++ (b'|' ∷ r.path
        ++ (b'|' ∷ r.path_prefix
            ++ (b'|' ∷ r.regex
                ++ (header_parts r.headers
                    ++ (bar_parts (map to_lower r.hosts) ++ bar_parts r.client_cidrs)))))

abbrev pub names_of : List Upstream → List Str
names_of [] = []
names_of (u ∷ us) = u.name ∷ names_of us

unfoldable pub check_upstream : ℕ → List Str → Route → List ConfigError
check_upstream i names r =
    if is_empty r.upstream
    then upstream_is_empty i ∷ []
    else report_if (not (member r.upstream names)) (unknown_upstream i r.upstream)

-- The loop of validateRoutes from index i on, with the index of each key seen.
unfoldable pub check_routes : Platform → List Str → ℕ → Dict ℕ → List Route → List ConfigError
unfolding check_upstream
check_routes os names i seen [] = []
check_routes os names i seen (r ∷ rs) =
    let key = dedup_key r.rule in
    check_upstream i names r
    ++ (validate_rule os i r.rule ++ elim (lookup key seen) [
      | some j ↦
          duplicate_route i j
          ∷ (validate_mirror i r.upstream names r.mirrors ++ check_routes os names (i + 1) seen rs)
      | none ↦
          validate_mirror i r.upstream names r.mirrors
          ++ check_routes os names (i + 1) (insert key i seen) rs
    ])

abbrev pub is_nil : List Route → Bool
is_nil [] = true
is_nil (_ ∷ _) = false

unfoldable pub validate_routes : Platform → List Route → List Upstream → List ConfigError
unfolding check_routes
validate_routes os routes upstreams =
    if is_nil routes then no_routes ∷ [] else check_routes os (names_of upstreams) 0 [] routes
