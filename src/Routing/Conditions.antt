-- ===== src/Routing/Conditions.antt =====
-- routing.go: what a rule asks of a request besides its path (matchConditions and below).

pub mod Hosts
use l7_proxy.Prelude.{
  ◌-◌, Bool, true, false, ◌&&◌, not, List, [], ◌∷◌, none, some, ltb, if◌then◌else◌, length, drop,
  any, all,
}
use l7_proxy.Text.{
  Str, codes, is_empty, eq_str, has_prefix, has_suffix, contains, to_lower, trim_prefix,
  trim_suffix, lower_byte, upper_byte,
}
use l7_proxy.Dict.{Dict, lookup}
use l7_proxy.Net.{Platform, Ip, split_host_port}
use l7_proxy.Config.{
  HeaderMatch, Rule, effective_op, header_present, header_equals, header_prefix, header_contains,
}
use l7_proxy.Config.Tokens.{is_token_char}
use l7_proxy.Routing.{Request}

-- textproto.CanonicalMIMEHeaderKey: a name that is no token stays as it is; in any other the first
-- letter and each that follows a hyphen is upper case, and the rest lower.
abbrev canonical_from : Bool → Str → Str
canonical_from upper [] = []
canonical_from upper (c ∷ s) =
    (if upper then upper_byte c else lower_byte c) ∷ canonical_from (eq_str (c ∷ []) (codes "-")) s

unfoldable pub canonical_key : Str → Str
canonical_key s = if all is_token_char s then canonical_from true s else s

-- headers.Values(name)
unfoldable pub header_values : Dict (List Str) → Str → List Str
unfolding canonical_key
header_values headers name = elim (lookup (canonical_key name) headers) [ none ↦ [] | some vs ↦ vs ]

abbrev is_nil : List Str → Bool
is_nil [] = true
is_nil (_ ∷ _) = false

-- The switch on the operator, over the values of the header; an unknown operator matches nothing.
unfoldable pub op_matches : Str → Str → List Str → Bool
op_matches op value values =
    if eq_str op header_present
    then true
    else if eq_str op header_equals
    then any (λ v. eq_str v value) values
    else if eq_str op header_prefix
    then any (λ v. has_prefix v value) values
    else if eq_str op header_contains
    then any (λ v. contains v value) values
    else false

unfoldable pub header_matches : HeaderMatch → Dict (List Str) → Bool
unfolding header_values
header_matches h headers =
    let values = header_values headers h.name in
    if is_nil values then false else op_matches (effective_op h) h.value values

unfoldable pub host_only : Str → Str
host_only host = elim (split_host_port host) [
  | some (h, _) ↦ to_lower h
  | none ↦ to_lower (trim_suffix (trim_prefix host (codes "[")) (codes "]"))
]

-- One round of the loop over the patterns.
unfoldable pub host_pattern_matches : Str → Str → Bool
host_pattern_matches h pattern =
    let p = to_lower pattern in
    if has_prefix p (codes "*.")
    then has_suffix h (drop 1 p) && ltb (length p - 1) (length h)
    else eq_str h p

unfoldable pub host_matches : List Str → Str → Bool
host_matches hosts host = any (host_pattern_matches (host_only host)) hosts

-- One round of the loop over the ranges: one that does not parse is passed over.
abbrev cidr_contains : Platform → Ip → Str → Bool
cidr_contains os ip c = elim (os.parse_cidr c) [ none ↦ false | some net ↦ net ip ]

unfoldable pub client_ip_matches : Platform → List Str → Str → Bool
client_ip_matches os cidrs remote_addr =
    let host : Str = elim (split_host_port remote_addr) [ none ↦ remote_addr | some (h, _) ↦ h ] in
    elim (os.parse_ip host) [ none ↦ false | some ip ↦ any (cidr_contains os ip) cidrs ]

unfoldable pub match_conditions : Platform → Rule → Request → Bool
match_conditions os rule r =
    if not (is_empty rule.method) && not (eq_str rule.method r.method)
    then false
    else if not (all (λ h. header_matches h r.header) rule.headers)
    then false
    else if not (is_nil rule.hosts) && not (host_matches rule.hosts r.host)
    then false
    else if not (is_nil rule.client_cidrs)
        && not (client_ip_matches os rule.client_cidrs r.remote_addr)
    then false
    else true
