-- ===== src/Config/Rules/Headers.antt =====
-- What validateHeaders (config.go) accepts.
use mathlib.Core.Path.{fun_ext}
use l7_proxy.Prelude.{
  ℕ, ◌+◌, ◌≡◌, ◌↔◌, ◌⊎◌, inl, inr, refl, sym, Bool, true, false, ◌||◌, List, [], ◌∷◌, ◌++◌, arith,
  All, Bool-cases, Option-cases, is_some, subst,
}
use l7_proxy.Text.{Str, is_empty, eq_str, to_lower}
use l7_proxy.Text.Laws.{eq_str_iff}
use l7_proxy.Dict.{Dict, lookup, insert, lookup-insert}
use l7_proxy.Config.{
  HeaderMatch, effective_op, header_present, header_equals, header_prefix, header_contains,
}
use l7_proxy.Config.Reports.{append_nil}
use l7_proxy.Config.Tokens.{is_valid_header_name}
use l7_proxy.Config.Rules.{validate_headers, check_op}

-- The operator is one of the four, and a value is set exactly if it is not `present`.
abbrev pub HasOp : HeaderMatch → Type 0
HasOp h =
    ((effective_op h ≡ header_present) × (is_empty h.value ≡ true))
    ⊎ (((effective_op h ≡ header_equals)
          ⊎ ((effective_op h ≡ header_prefix) ⊎ (effective_op h ≡ header_contains)))
        × (is_empty h.value ≡ false))

pub record IsValidHeader (h : HeaderMatch) : Type 0 where
  pub name : is_valid_header_name h.name ≡ true
  pub op : HasOp h

-- No name occurs twice, whatever its case, nor among those that are taken.
abbrev pub AreDistinct : (Str → Bool) → List HeaderMatch → Type 0
AreDistinct taken [] = Unit
AreDistinct taken (h ∷ hs) =
    (taken (to_lower h.name) ≡ false) × AreDistinct (λ k. eq_str (to_lower h.name) k || taken k) hs

check_op_nil : (i j : ℕ) (h : HeaderMatch) → (check_op i j h ≡ []) ↔ HasOp h
unfolding check_op
check_op_nil i j h = ground (
  arith,
  eq_str_iff (effective_op h) header_present,
  eq_str_iff (effective_op h) header_equals,
  eq_str_iff (effective_op h) header_prefix,
  eq_str_iff (effective_op h) header_contains,
)

taken-insert :
    (k : Str) (j : ℕ) (seen : Dict ℕ)
    → ◌≡◌ {A = Str → Bool}
        (λ i. is_some (lookup i (insert k j seen)))
        (λ i. eq_str k i || is_some (lookup i seen))
taken-insert k j seen = fun_ext (λ i. ground (arith, lookup-insert k i j seen))

-- One round of the loop, given what holds of the later ones.
headers_step :
    (i j : ℕ) (seen : Dict ℕ) (h : HeaderMatch) (hs : List HeaderMatch)
    → ((validate_headers i (j + 1) (insert (to_lower h.name) j seen) hs ≡ []) ↔ (
        All IsValidHeader hs
        × AreDistinct (λ k. is_some (lookup k (insert (to_lower h.name) j seen))) hs))
    → (validate_headers i j seen (h ∷ hs) ≡ [])
      ↔ (All IsValidHeader (h ∷ hs) × AreDistinct (λ k. is_some (lookup k seen)) (h ∷ hs))
unfolding validate_headers
headers_step i j seen h hs later = elim (Bool-cases (is_valid_header_name h.name)) [
  | inr e ↦ (λ r. absurd (ground arith), λ v. let n = v.0.0.name in absurd (ground arith))
  | inl e ↦ elim (Option-cases (lookup (to_lower h.name) seen)) [
    | inr (prev, f) ↦ (λ r. absurd (ground arith), λ v. let n = v.1.0 in absurd (ground arith))
    | inl f ↦ (
      λ r.
          let both : check_op i j h
                ++ validate_headers i (j + 1) (insert (to_lower h.name) j seen) hs
              ≡ [] =
            ground arith in
          let (op, tl) = (append_nil _ _).0 both in
          let (vs, ds) = later.0 tl in
          (
            (record { name = e; op = (check_op_nil i j h).0 op }, vs),
            (
              ground arith,
              subst (λ t. AreDistinct t hs) (taken-insert (to_lower h.name) j seen) ds,
            ),
          ),
      λ v.
          let ds =
            subst (λ t. AreDistinct t hs) (sym (taken-insert (to_lower h.name) j seen)) v.1.1 in
          let op = (check_op_nil i j h).1 v.0.0.op in let tl = later.1 (v.0.1, ds) in ground arith,
    )
  ]
]

-- validateHeaders reports nothing exactly if every header rule has a valid name and a known operator
-- with a value where it needs one, and no name occurs twice.
pub validate_headers_nil :
    (i j : ℕ) (seen : Dict ℕ) (hs : List HeaderMatch)
    → (validate_headers i j seen hs ≡ [])
      ↔ (All IsValidHeader hs × AreDistinct (λ k. is_some (lookup k seen)) hs)
unfolding validate_headers
validate_headers_nil i j seen [] = (λ _. (tt, tt), λ _. refl)
validate_headers_nil i j seen (h ∷ hs) =
    headers_step i j seen h hs (validate_headers_nil i (j + 1) (insert (to_lower h.name) j seen) hs)
