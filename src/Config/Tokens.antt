-- ===== src/Config/Tokens.antt =====
-- config.go: isValidHeaderName and isTokenChar.
use l7_proxy.Prelude.{ℕ, Bool, true, false, ◌&&◌, ◌||◌, leb, if◌then◌else◌, all}
use l7_proxy.Text.{Str, codes, is_empty, contains_byte}

-- A valid RFC 7230 tchar.
unfoldable pub is_token_char : ℕ → Bool
is_token_char c =
    if (leb b'a' c && leb c b'z') || (leb b'A' c && leb c b'Z') || (leb b'0' c && leb c b'9')
    then true
    else if contains_byte (codes "!#$%&'*+-.^_`|~") c
    then true
    else false

unfoldable pub is_valid_header_name : Str → Bool
is_valid_header_name s = if is_empty s then false else all is_token_char s
