-- ===== src/Config/Routes/Valid.antt =====
-- What validateRoutes (config.go) accepts.
use mathlib.Core.Path.{fun_ext}
use l7_proxy.Prelude.{
  ℕ, ◌+◌, ◌≡◌, ◌≢◌, ◌↔◌, ◌⊎◌, inl, inr, refl, sym, Bool, true, false, ◌||◌, List, [], ◌∷◌, arith,
  All, Bool-cases, Option-cases, is_some, subst,
}
use l7_proxy.Text.{Str, is_empty, eq_str}
use l7_proxy.Dict.{Dict, lookup, insert, lookup-insert, member}
use l7_proxy.Float.{flt, zero_f, one_f}
use l7_proxy.Net.{Platform}
use l7_proxy.Config.{Upstream, Mirror, Route}
use l7_proxy.Config.Reports.{append_nil, cons-ne-nil}
use l7_proxy.Config.Rules.Valid.{IsValidRule, validate_rule_nil}
use l7_proxy.Config.Routes.{
  is_not_zero, check_mirror, validate_mirror, dedup_key, names_of, check_upstream, check_routes,
  validate_routes,
}

-- A mirror either names no upstream, with the ratio 0, or a listed one other than the route's own,
-- with a ratio that is not outside of [0, 1].
abbrev pub IsValidMirror : Str → List Str → Mirror → Type 0
IsValidMirror upstream names m =
    ((is_empty m.upstream ≡ true) × (is_not_zero m.ratio ≡ false))
    ⊎ ((is_empty m.upstream ≡ false)
        × (member m.upstream names ≡ true)
        × (eq_str m.upstream upstream ≡ false)
        × ((flt m.ratio zero_f || flt one_f m.ratio) ≡ false))

check_mirror_nil :
    (i : ℕ) (upstream : Str) (names : List Str) (m : Mirror)
    → (check_mirror i upstream names m ≡ []) ↔ IsValidMirror upstream names m
unfolding check_mirror
check_mirror_nil i upstream names m = elim (Bool-cases (is_empty m.upstream)) [
  | inl e ↦ ground arith
  | inr e ↦ ground arith
]

validate_mirror_nil :
    (i : ℕ) (upstream : Str) (names : List Str) (ms : List Mirror)
    → (validate_mirror i upstream names ms ≡ []) ↔ All (IsValidMirror upstream names) ms
unfolding validate_mirror
validate_mirror_nil i upstream names [] = (λ _. tt, λ _. refl)
validate_mirror_nil i upstream names (m ∷ ms) = (
  λ h.
      let (a, b) = (append_nil _ _).0 h in
      ((check_mirror_nil i upstream names m).0 a, (validate_mirror_nil i upstream names ms).0 b),
  λ h. (append_nil _ _).1 (
    (check_mirror_nil i upstream names m).1 h.0,
    (validate_mirror_nil i upstream names ms).1 h.1,
  ),
)

check_upstream_nil :
    (i : ℕ) (names : List Str) (r : Route)
    → (check_upstream i names r ≡ [])
      ↔ ((is_empty r.upstream ≡ false) × (member r.upstream names ≡ true))
unfolding check_upstream
check_upstream_nil i names r = ground arith

-- No two routes have the same key, nor one that is taken.
abbrev pub HaveDistinctKeys : (Str → Bool) → List Route → Type 0
HaveDistinctKeys taken [] = Unit
HaveDistinctKeys taken (r ∷ rs) =
    (taken (dedup_key r.rule) ≡ false)
    × HaveDistinctKeys (λ k. eq_str (dedup_key r.rule) k || taken k) rs

module _ (os : Platform) (names : List Str) where
  pub record IsValidRoute (r : Route) : Type 0 where
    pub named : is_empty r.upstream ≡ false
    pub known : member r.upstream names ≡ true
    pub rule : IsValidRule os r.rule
    pub mirrors : All (IsValidMirror r.upstream names) r.mirrors

  -- One round of the loop, given what holds of the later ones.
  routes_step :
      (i : ℕ) (seen : Dict ℕ) (r : Route) (rs : List Route)
      → ((check_routes os names (i + 1) (insert (dedup_key r.rule) i seen) rs ≡ []) ↔ (
          All IsValidRoute rs
          × HaveDistinctKeys (λ k. is_some (lookup k (insert (dedup_key r.rule) i seen))) rs))
      → (check_routes os names i seen (r ∷ rs) ≡ [])
        ↔ (All IsValidRoute (r ∷ rs) × HaveDistinctKeys (λ k. is_some (lookup k seen)) (r ∷ rs))
  unfolding check_routes
  routes_step i seen r rs later = elim (Option-cases (lookup key seen)) [
    | inr (j, f) ↦ (
      λ h.
          let (a, h1) = (append_nil _ _).0 (rw f at h) in
          let (b, h2) = (append_nil _ _).0 h1 in absurd (cons-ne-nil _ _ h2),
      λ v. let n = v.1.0 in absurd (ground arith),
    )
    | inl f ↦ (
      λ h.
          let (a, h1) = (append_nil _ _).0 (rw f at h) in
          let (b, h2) = (append_nil _ _).0 h1 in
          let (c, d) = (append_nil _ _).0 h2 in
          let (vs, ds) = later.0 d in
          let (n, k) = (check_upstream_nil i names r).0 a in
          (
            (
              record {
                named = n;
                known = k;
                rule = (validate_rule_nil os i r.rule).0 b;
                mirrors = (validate_mirror_nil i r.upstream names r.mirrors).0 c;
              },
              vs,
            ),
            (ground arith, subst (λ t. HaveDistinctKeys t rs) taken ds),
          ),
      λ v.
          let w = v.0.0 in
          let ds = subst (λ t. HaveDistinctKeys t rs) (sym taken) v.1.1 in
          let a = (check_upstream_nil i names r).1 (w.named, w.known) in
          let b = (validate_rule_nil os i r.rule).1 w.rule in
          let c = (validate_mirror_nil i r.upstream names r.mirrors).1 w.mirrors in
          let d = later.1 (v.0.1, ds) in rw (f, a, b, c) d,
    )
  ]
    where
      key : Str
      key = dedup_key r.rule

      taken :
          ◌≡◌ {A = Str → Bool}
            (λ k. is_some (lookup k (insert key i seen)))
            (λ k. eq_str key k || is_some (lookup k seen))
      taken = fun_ext (λ k. ground (arith, lookup-insert key k i seen))

  check_routes_nil :
      (i : ℕ) (seen : Dict ℕ) (rs : List Route)
      → (check_routes os names i seen rs ≡ [])
        ↔ (All IsValidRoute rs × HaveDistinctKeys (λ k. is_some (lookup k seen)) rs)
  unfolding check_routes
  check_routes_nil i seen [] = (λ _. (tt, tt), λ _. refl)
  check_routes_nil i seen (r ∷ rs) =
      routes_step i seen r rs (check_routes_nil (i + 1) (insert (dedup_key r.rule) i seen) rs)

-- validateRoutes reports nothing exactly for a list that is not empty, in which each route names a
-- listed upstream, has a valid rule and valid mirrors, and no two rules have the same key.
pub validate_routes_iff :
    (os : Platform) (routes : List Route) (upstreams : List Upstream)
    → (validate_routes os routes upstreams ≡ []) ↔ (
        (routes ≢ [])
        × All (IsValidRoute os (names_of upstreams)) routes
        × HaveDistinctKeys (λ k. false) routes)
unfolding validate_routes lookup
validate_routes_iff os [] upstreams = (λ h. cc, λ v. absurd (v.0 refl))
validate_routes_iff os (r ∷ rs) upstreams =
    let iff = check_routes_nil os (names_of upstreams) 0 [] (r ∷ rs) in
    (λ h. (λ e. cc, (iff.0 h).0, (iff.0 h).1), λ v. iff.1 (v.1, v.2))
