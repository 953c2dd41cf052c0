-- ===== src/Routing/Rewrite/Templates.antt =====
-- What the expansion of a template writes (routing.go, expandRegexRewrite).
use l7_proxy.Prelude.{
  ℕ, zero, suc, ◌+◌, ◌-◌, ◌*◌, ◌≤◌, ◌<◌, ◌≡◌, ◌≢◌, refl, ap, ◌∙◌, inl, inr, true, false, List, [],
  ◌∷◌, Option, none, some, ◌==◌, length, arith, Option-cases,
}
use l7_proxy.Prelude.Int.{ℤ, pos, negsuc}
use l7_proxy.Text.{Str}
use l7_proxy.Net.{is_digit}
use l7_proxy.Routing.Rewrite.{group, write, expand_from, expand_regex_rewrite}

-- A template that is written with care: plain bytes, `$$` for a dollar, and `$0` to `$9`.
pub data Token : Type 0 where
  plain : (c : ℕ) → c ≢ b'$' → Token
  dollar : Token
  capture : (n : ℕ) → n < 10 → Token

abbrev pub print : List Token → Str
print [] = []
print (plain c _ ∷ ts) = c ∷ print ts
print (dollar ∷ ts) = b'$' ∷ b'$' ∷ print ts
print (capture n _ ∷ ts) = b'$' ∷ (b'0' + n) ∷ print ts

-- What each token stands for: the byte, a dollar, the text of the group.
abbrev pub meaning : Str → List ℤ → List Token → Option Str
meaning path match [] = some []
meaning path match (plain c _ ∷ ts) = write (some (c ∷ [])) (meaning path match ts)
meaning path match (dollar ∷ ts) = write (some (b'$' ∷ [])) (meaning path match ts)
meaning path match (capture n _ ∷ ts) = write (group path match n) (meaning path match ts)

expand_from-plain :
    (c : ℕ) (rest path : Str) (match : List ℤ)
    → c ≢ b'$'
    → expand_from (c ∷ rest) path match ≡ write (some (c ∷ [])) (expand_from rest path match)
unfolding expand_from
expand_from-plain c [] path match h = refl
expand_from-plain c (d ∷ rest) path match h = ground arith

expand_from-capture :
    (n : ℕ) (rest path : Str) (match : List ℤ)
    → n < 10
    → expand_from (b'$' ∷ (b'0' + n) ∷ rest) path match
      ≡ write (group path match n) (expand_from rest path match)
unfolding expand_from
expand_from-capture n rest path match h =
    let e : b'0' + n - b'0' ≡ n = omega arith in
    let d : is_digit (b'0' + n) ≡ true = ground arith in
    let f : (b'0' + n == b'$') ≡ false = ground arith in rw (f, d, e) refl

-- A template stands for its tokens, one after the other: a plain byte is kept, `$$` is a dollar and
-- `$n` the text of group n, whatever the path and the match.
pub expand_regex_rewrite-print :
    (ts : List Token) (path : Str) (match : List ℤ)
    → expand_regex_rewrite (print ts) path (some match) ≡ meaning path match ts
unfolding expand_regex_rewrite
expand_regex_rewrite-print [] path match = refl
expand_regex_rewrite-print (plain c h ∷ ts) path match =
    expand_from-plain c (print ts) path match h
    ∙ ap (write (some (c ∷ []))) (expand_regex_rewrite-print ts path match)
expand_regex_rewrite-print (dollar ∷ ts) path match =
    ap (write (some (b'$' ∷ []))) (expand_regex_rewrite-print ts path match)
expand_regex_rewrite-print (capture n h ∷ ts) path match =
    expand_from-capture n (print ts) path match h
    ∙ ap (write (group path match n)) (expand_regex_rewrite-print ts path match)

-- The documented result of FindStringSubmatchIndex: pairs of indices, each a range of the path in
-- order or -1 and -1.
abbrev pub AreSpans : Str → List ℤ → Type 0
AreSpans path [] = Unit
AreSpans path (pos a ∷ pos b ∷ match) = (a ≤ b) × (b ≤ length path) × AreSpans path match
AreSpans path (negsuc a ∷ negsuc b ∷ match) = AreSpans path match
AreSpans path (_ ∷ match) = ⊥

write_total : (o p : Option Str) → o ≢ none → p ≢ none → write o p ≢ none
write_total (some s) (some t) h k = λ e. cc
write_total none p h k = absurd (h refl)
write_total (some s) none h k = absurd (k refl)

group-suc :
    (n : ℕ) (path : Str) (a b : ℤ) (match : List ℤ)
    → group path (a ∷ b ∷ match) (suc n) ≡ group path match n
unfolding group
group-suc n path a b match =
    let e : 2 * suc n ≡ suc (suc (2 * n)) = omega arith in
    let f : 2 * suc n + 1 ≡ suc (suc (2 * n + 1)) = omega arith in rw (f, e) refl

group_total :
    (n : ℕ) (path : Str) (match : List ℤ) → AreSpans path match → group path match n ≢ none
unfolding group
group_total n path [] h = λ e. cc
group_total zero path (pos a ∷ pos b ∷ match) (p, q, h) = ground arith
group_total zero path (negsuc a ∷ negsuc b ∷ match) h = λ e. cc
group_total (suc n) path (pos a ∷ pos b ∷ match) (p, q, h) =
    rw (group-suc n path (pos a) (pos b) match) (group_total n path match h)
group_total (suc n) path (negsuc a ∷ negsuc b ∷ match) h =
    rw (group-suc n path (negsuc a) (negsuc b) match) (group_total n path match h)
group_total n path (pos a ∷ negsuc b ∷ match) h = absurd h
group_total n path (pos a ∷ []) h = absurd h
group_total n path (negsuc a ∷ []) h = absurd h
group_total n path (negsuc a ∷ pos b ∷ match) h = absurd h

expand_from_total :
    (t path : Str) (match : List ℤ) → AreSpans path match → expand_from t path match ≢ none
unfolding expand_from
expand_from_total [] path match h = λ e. cc
expand_from_total (c ∷ []) path match h = λ e. cc
expand_from_total (c ∷ next ∷ rest) path match h = ground (
  arith,
  write_total (some (c ∷ [])) (expand_from (next ∷ rest) path match),
  write_total (some (b'$' ∷ [])) (expand_from rest path match),
  write_total (group path match (next - b'0')) (expand_from rest path match),
  group_total (next - b'0') path match h,
  expand_from_total (next ∷ rest) path match h,
  expand_from_total rest path match h,
)

-- With the indices that a regexp documents for the path, the expansion slices within bounds: it
-- never panics, whatever the template.
pub expand_regex_rewrite_total :
    (template path : Str) (match : List ℤ)
    → AreSpans path match
    → (s : Str) × (expand_regex_rewrite template path (some match) ≡ some s)
unfolding expand_regex_rewrite
expand_regex_rewrite_total template path match h =
    elim (Option-cases (expand_from template path match)) [
      | inl e ↦ absurd (expand_from_total template path match h e)
      | inr w ↦ w
    ]
