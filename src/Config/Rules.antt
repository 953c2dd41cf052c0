-- ===== src/Config/Rules.antt =====
-- config.go: validateRule and the checks that it calls.
pub mod Valid
pub mod Headers
use l7_proxy.Prelude.{
  ℕ, zero, suc, ◌+◌, ◌≤◌, ◌<◌, Bool, true, false, ◌&&◌, ◌||◌, not, List, [], ◌∷◌, ◌++◌, Option,
  none, some, ltb, ◌==◌, if◌then◌else◌, any, is_some,
}
use l7_proxy.Text.{
  Str, codes, is_empty, eq_str, has_prefix, contains_any, contains_byte, count_byte, to_upper,
  to_lower,
}
use l7_proxy.Dict.{Dict, member, lookup, insert}
use l7_proxy.Net.{Platform}
use l7_proxy.Config.{
  HeaderMatch, Rule, effective_op, header_present, header_equals, header_prefix, header_contains,
  Fault, empty, whitespace, bad_separator, has_port, bad_wildcard, no_leading_slash, includes_host,
  invalid_characters, ConfigError, matchers_set, bad_path, bad_path_prefix, bad_rewrite,
  regex_does_not_compile, rewrite_required, lowercase_method, unknown_method, invalid_header_name,
  duplicate_header, present_with_value, value_required, unknown_op, bad_host_pattern, bad_cidr,
  report_if,
}
use l7_proxy.Config.Tokens.{is_valid_header_name}
use l7_proxy.Config.Upstreams.{whitespace_bytes}

abbrev pub http_methods : List Str
http_methods =
    codes "GET"
    ∷ codes "POST"
    ∷ codes "PUT"
    ∷ codes "PATCH"
    ∷ codes "DELETE"
    ∷ codes "HEAD"
    ∷ codes "OPTIONS"
    ∷ codes "CONNECT"
    ∷ codes "TRACE"
    ∷ []

-- `if v != "" { set++ }` for each of the three matchers
unfoldable pub matchers : Rule → ℕ
matchers r =
    (if is_empty r.path then 0 else 1)
    + ((if is_empty r.path_prefix then 0 else 1) + (if is_empty r.regex then 0 else 1))

-- " \t\n\r?#"
abbrev pub invalid_bytes : Str
invalid_bytes = 32 ∷ 9 ∷ 10 ∷ 13 ∷ b'?' ∷ b'#' ∷ []

unfoldable pub validate_path_like : Str → Option Fault
validate_path_like v =
    if is_empty v
    then none
    else if not (has_prefix v (codes "/"))
    then some no_leading_slash
    else if contains_any v invalid_bytes
    then some invalid_characters
    else none

unfoldable pub validate_rewrite : Str → Option Fault
validate_rewrite v =
    if not (has_prefix v (codes "/"))
    then some no_leading_slash
    else if has_prefix v (codes "//")
    then some includes_host
    else if contains_any v invalid_bytes
    then some invalid_characters
    else none

unfoldable pub validate_host_pattern : Str → Option Fault
validate_host_pattern h =
    if is_empty h
    then some empty
    else if contains_any h whitespace_bytes
    then some whitespace
    else if contains_any h (codes "/?#")
    then some bad_separator
    else if contains_byte h b':'
    then some has_port
    else if contains_byte h b'*'
        && (not (has_prefix h (codes "*.")) || not (count_byte h b'*' == 1))
    then some bad_wildcard
    else none

abbrev pub report : Option Fault → (Fault → ConfigError) → List ConfigError
report none e = []
report (some fault) e = e fault ∷ []

-- validateHosts, from index j on
unfoldable pub validate_hosts : ℕ → ℕ → List Str → List ConfigError
validate_hosts i j [] = []
validate_hosts i j (h ∷ hs) =
    report (validate_host_pattern h) (bad_host_pattern i j) ++ validate_hosts i (j + 1) hs

-- validateClientCIDRs, from index j on
unfoldable pub validate_client_cidrs : Platform → ℕ → ℕ → List Str → List ConfigError
validate_client_cidrs os i j [] = []
validate_client_cidrs os i j (c ∷ cs) =
    report_if (not (is_some (os.parse_cidr c))) (bad_cidr i j)
    ++ validate_client_cidrs os i (j + 1) cs

-- The switch on the operator of a header rule.
unfoldable pub check_op : ℕ → ℕ → HeaderMatch → List ConfigError
check_op i j h =
    let op = effective_op h in
    if eq_str op header_present
    then report_if (not (is_empty h.value)) (present_with_value i j)
    else if eq_str op header_equals || (eq_str op header_prefix || eq_str op header_contains)
    then report_if (is_empty h.value) (value_required i j op)
    else unknown_op i j h.op ∷ []

-- validateHeaders, from index j on: the header names seen, in lower case, with their indices.
unfoldable pub validate_headers : ℕ → ℕ → Dict ℕ → List HeaderMatch → List ConfigError
unfolding check_op
validate_headers i j seen [] = []
validate_headers i j seen (h ∷ hs) =
    if not (is_valid_header_name h.name)
    then invalid_header_name i j h.name ∷ validate_headers i (j + 1) seen hs
    else elim (lookup (to_lower h.name) seen) [
      | some prev ↦ duplicate_header i j h.name prev ∷ validate_headers i (j + 1) seen hs
      | none ↦ check_op i j h ++ validate_headers i (j + 1) (insert (to_lower h.name) j seen) hs
    ]

unfoldable pub check_matchers : ℕ → Rule → List ConfigError
unfolding matchers
check_matchers i r =
    if matchers r == 0
    then matchers_set i 0 ∷ []
    else report_if (ltb 1 (matchers r)) (matchers_set i (matchers r))

unfoldable pub check_regex : Platform → ℕ → Rule → List ConfigError
check_regex os i r =
    if is_empty r.regex
    then []
    else report_if (not (is_some (os.compile_regex r.regex))) (regex_does_not_compile i r.regex)

unfoldable pub check_rewrite : ℕ → Rule → List ConfigError
unfolding validate_rewrite
check_rewrite i r =
    if is_empty r.rewrite
    then report_if (not (is_empty r.regex)) (rewrite_required i)
    else report (validate_rewrite r.rewrite) (bad_rewrite i)

unfoldable pub check_method : ℕ → Rule → List ConfigError
check_method i r =
    if is_empty r.method
    then []
    else report_if (not (eq_str r.method (to_upper r.method))) (lowercase_method i r.method)
      ++ report_if (not (member (to_upper r.method) http_methods)) (unknown_method i r.method)

unfoldable pub validate_rule : Platform → ℕ → Rule → List ConfigError
unfolding check_matchers check_regex check_rewrite check_method validate_path_like validate_headers
    validate_hosts validate_client_cidrs
validate_rule os i r =
    check_matchers i r
    ++ (report (validate_path_like r.path) (bad_path i)
        ++ (report (validate_path_like r.path_prefix) (bad_path_prefix i)
            ++ (check_regex os i r
                ++ (check_rewrite i r
                    ++ (check_method i r
                        ++ (validate_headers i 0 [] r.headers
                            ++ (validate_hosts i 0 r.hosts
                                ++ validate_client_cidrs os i 0 r.client_cidrs)))))))
