-- ===== src/Routing/Rewrite.antt =====
-- routing.go: expandRegexRewrite. `none` is the panic of a slice out of range.
pub mod Templates
use l7_proxy.Prelude.{
  ℕ, suc, ◌+◌, ◌-◌, ◌*◌, Bool, ◌&&◌, List, [], ◌∷◌, ◌++◌, Option, none, some, leb, ◌==◌,
  if◌then◌else◌, length, get_elem?, take, drop,
}
use l7_proxy.Prelude.Int.{ℤ, pos, negsuc}
use l7_proxy.Text.{Str}
use l7_proxy.Net.{is_digit}

-- s[a:b]
unfoldable pub slice : Str → ℤ → ℤ → Option Str
slice s (pos a) (pos b) =
    if leb a b && leb b (length s) then some (take (b - a) (drop a s)) else none
slice s _ _ = none

-- The span of a group with its two indices, which are -1 for a group that took no part.
unfoldable pub span : Str → Option ℤ → Option ℤ → Option Str
unfolding slice
span path (some (pos a)) (some b) = slice path (pos a) b
span path _ _ = some []

-- What `$n` writes: nothing for a group that the match does not have.
unfoldable pub group : Str → List ℤ → ℕ → Option Str
unfolding span
group path match n = span path (get_elem? match (2 * n)) (get_elem? match (2 * n + 1))

-- b.WriteString before the rest of the loop
abbrev pub write : Option Str → Option Str → Option Str
write none rest = none
write (some s) none = none
write (some s) (some t) = some (s ++ t)

-- The loop, from a position of the template on.
unfoldable pub expand_from : Str → Str → List ℤ → Option Str
unfolding group
expand_from [] path match = some []
expand_from (c ∷ []) path match = some (c ∷ [])
expand_from (c ∷ next ∷ rest) path match =
    let kept = write (some (c ∷ [])) (expand_from (next ∷ rest) path match) in
    let dollar = write (some (b'$' ∷ [])) (expand_from rest path match) in
    let spliced = write (group path match (next - b'0')) (expand_from rest path match) in
    if c == b'$'
    then (if next == b'$' then dollar else if is_digit next then spliced else kept)
    else kept

unfoldable pub expand_regex_rewrite : Str → Str → Option (List ℤ) → Option Str
unfolding expand_from
expand_regex_rewrite template path none = some template
expand_regex_rewrite template path (some match) = expand_from template path match
