-- ===== src/Net.antt =====
-- URLs, addresses and headers: the types of net/url, net and net/http that the program passes on,
-- with the library functions of them whose result the program's decisions rest on.
use l7_proxy.Prelude.{
  ℕ, ◌+◌, ◌-◌, ◌*◌, ◌^◌, Bool, true, false, ◌&&◌, not, List, [], ◌∷◌, Option, none, some, leb, ltb,
  ◌==◌, if◌then◌else◌, all,
}
use l7_proxy.Text.{Str, is_empty, contains_byte}
use l7_proxy.Prelude.Int.{ℤ}

-- url.URL, the parts that are read or written here
pub record Url : Type 0 where
  pub scheme : Str
  pub host : Str
  pub path : Str
  pub raw_query : Str
  pub fragment : Str

-- A compiled regexp is its `FindStringSubmatchIndex`: `none` is a nil result.
abbrev pub Regex : Type 0
Regex = Str → Option (List ℤ)

-- net.IP is a slice of bytes; a *net.IPNet is its `Contains`.
abbrev pub Ip : Type 0
Ip = List ℕ

abbrev pub IpNet : Type 0
IpNet = Ip → Bool

-- The parsers of the standard library that the program calls; `none` is an error.
pub record Platform : Type 0 where
  pub parse_url : Str → Option Url
  pub compile_regex : Str → Option Regex
  pub parse_cidr : Str → Option IpNet
  pub parse_ip : Str → Option Ip

abbrev pub is_digit : ℕ → Bool
is_digit c = leb b'0' c && leb c b'9'

-- What stands before and behind the last byte `c` of a string.
abbrev pub cut_last : ℕ → Str → Option (Str × Str)
cut_last c [] = none
cut_last c (x ∷ s) = elim (cut_last c s) [
  | some (before, behind) ↦ some (x ∷ before, behind)
  | none ↦ if x == c then some ([], s) else none
]

-- What stands before and behind the first byte `c` of a string.
abbrev pub cut_first : ℕ → Str → Option (Str × Str)
cut_first c [] = none
cut_first c (x ∷ s) = elim (x == c) [
  | true ↦ some ([], s)
  | false ↦ elim (cut_first c s) [ none ↦ none | some (before, behind) ↦ some (x ∷ before, behind) ]
]

-- URL.Port: the digits behind the last colon of the host.
unfoldable pub port : Url → Str
port u = elim (cut_last b':' u.host) [ none ↦ [] | some (_, p) ↦ if all is_digit p then p else [] ]

-- strconv.Atoi on a string of digits: `none` where it is empty or over the int64 range.
abbrev pub digits_value : ℕ → Str → ℕ
digits_value acc [] = acc
digits_value acc (c ∷ s) = digits_value (acc * 10 + (c - b'0')) s

unfoldable pub atoi : Str → Option ℕ
atoi s =
    if not (is_empty s) && (all is_digit s && ltb (digits_value 0 s) (2 ^ 63))
    then some (digits_value 0 s)
    else none

-- net.SplitHostPort. In brackets the host ends at the first `]`, which the last colon must follow;
-- otherwise it holds no colon. No other bracket may stand in the text.
abbrev pub no_brackets : Str → Bool
no_brackets s = not (contains_byte s b'[') && not (contains_byte s b']')

abbrev pub split_bracketed : Str → Option (Str × Str)
split_bracketed inside = elim (cut_first b']' inside) [
  | none ↦ none
  | some (host, []) ↦ none
  | some (host, c ∷ p) ↦
      if (c == b':' && not (contains_byte p b':'))
        && (not (contains_byte host b'[') && no_brackets p)
      then some (host, p)
      else none
]

abbrev pub split_plain : Str → Option (Str × Str)
split_plain s = elim (cut_last b':' s) [
  | none ↦ none
  | some (host, p) ↦
      if not (contains_byte host b':') && (no_brackets host && no_brackets p)
      then some (host, p)
      else none
]

unfoldable pub split_host_port : Str → Option (Str × Str)
split_host_port [] = none
split_host_port (c ∷ s) = if c == b'[' then split_bracketed s else split_plain (c ∷ s)
