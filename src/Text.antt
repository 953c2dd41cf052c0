-- ===== src/Text.antt =====
-- Go strings as lists of bytes, and the functions of package strings that the program calls.
-- `strings.ToLower`, `ToUpper` and `TrimSpace` are given on ASCII text: a byte from 128 on, which is
-- part of a multi-byte character, is kept as it is.
pub mod Laws
use Prim.Native.Char.{code}
use Prim.Native.String.{String}
use l7_proxy.Prelude.{
  ℕ, ◌+◌, ◌-◌, Bool, true, false, ◌&&◌, ◌||◌, List, [], ◌∷◌, ◌++◌, map, leb, ◌==◌, if◌then◌else◌,
  length, drop, take, any,
}

abbrev pub Str : Type 0
Str = List ℕ

-- The bytes of an ASCII literal.
abbrev pub codes : String → Str
codes String.[] = []
codes (String.◌∷◌ c s) = code c ∷ codes s

-- s == t
abbrev pub eq_str : Str → Str → Bool
eq_str [] [] = true
eq_str (x ∷ s) (y ∷ t) = x == y && eq_str s t
eq_str _ _ = false

abbrev pub is_empty : Str → Bool
is_empty [] = true
is_empty (_ ∷ _) = false

abbrev pub has_prefix : Str → Str → Bool
has_prefix s [] = true
has_prefix [] (_ ∷ _) = false
has_prefix (x ∷ s) (y ∷ p) = x == y && has_prefix s p

abbrev pub has_suffix : Str → Str → Bool
has_suffix s t = leb (length t) (length s) && eq_str (drop (length s - length t) s) t

abbrev pub contains : Str → Str → Bool
contains [] t = is_empty t
contains (x ∷ s) t = has_prefix (x ∷ s) t || contains s t

abbrev pub contains_byte : Str → ℕ → Bool
contains_byte s c = any (λ x. x == c) s

abbrev pub contains_any : Str → Str → Bool
contains_any s chars = any (contains_byte chars) s

-- strings.Count(s, c) for a string c of one byte
abbrev pub count_byte : Str → ℕ → ℕ
count_byte [] c = 0
count_byte (x ∷ s) c = (if x == c then 1 else 0) + count_byte s c

abbrev pub lower_byte : ℕ → ℕ
lower_byte c = if leb b'A' c && leb c b'Z' then c + 32 else c

abbrev pub upper_byte : ℕ → ℕ
upper_byte c = if leb b'a' c && leb c b'z' then c - 32 else c

unfoldable pub to_lower : Str → Str
to_lower s = map lower_byte s

unfoldable pub to_upper : Str → Str
to_upper s = map upper_byte s

abbrev pub is_space : ℕ → Bool
is_space c = c == 32 || (leb 9 c && leb c 13)

abbrev pub trim_left : Str → Str
trim_left [] = []
trim_left (c ∷ s) = elim (is_space c) [ true ↦ trim_left s | false ↦ c ∷ s ]

-- Whitespace at the end is dropped: a byte stays if it or a later one is no whitespace.
abbrev pub trim_right : Str → Str
trim_right [] = []
trim_right (c ∷ s) = let rest = trim_right s in if is_empty rest && is_space c then [] else c ∷ rest

unfoldable pub trim_space : Str → Str
trim_space s = trim_right (trim_left s)

abbrev pub trim_prefix : Str → Str → Str
trim_prefix s p = if has_prefix s p then drop (length p) s else s

abbrev pub trim_suffix : Str → Str → Str
trim_suffix s t = if has_suffix s t then take (length s - length t) s else s

-- The spans between the bytes `c`: strings.Split by a separator of one byte.
abbrev pub prepend : ℕ → List Str → List Str
prepend x [] = (x ∷ []) ∷ []
prepend x (s ∷ ss) = (x ∷ s) ∷ ss

unfoldable pub split : Str → ℕ → List Str
split [] c = [] ∷ []
split (x ∷ s) c = if x == c then [] ∷ split s c else prepend x (split s c)
