-- ===== src/Routing/Decide/Spec.antt =====
-- What a decision of DecideRoute (routing.go) is: a listed route that the request satisfies, found by
-- the documented precedence; and when there is none.
use mathlib.Core.List.Memᴰ
use l7_proxy.Prelude.{
  ◌≡◌, ◌↔◌, refl, sym, ap, ◌∙◌, inl, inr, Bool, true, false, ◌&&◌, List, [], ◌∷◌, none, some, arith,
  Bool-cases, Option-cases, is_some, find, find-some, find-none, find_of_none, Memᴰ, All-Memᴰ,
  subst,
}
use l7_proxy.Prelude.Int.{ℤ}
use l7_proxy.Text.{Str, has_prefix}
use l7_proxy.Net.{Platform}
use l7_proxy.Config.{Route}
use l7_proxy.Routing.{Request}
use l7_proxy.Routing.Trie.Longest.{longest}
use l7_proxy.Routing.Trie.Maximal.{entry_fits, longest-none, longest-Memᴰ}
use l7_proxy.Routing.Index.{submatches}
use l7_proxy.Routing.Index.Built.{is_exact_at, is_prefix, is_regex, prefix_entries}
use l7_proxy.Routing.Decide.Reference.{
  passes, reference_exact, reference_prefix, reference_regex, found_exact, found_regex,
}

pub Memᴰ-prefix_entries :
    (route : Route) (routes : List Route)
    → Memᴰ route routes
    → is_prefix route ≡ true
    → Memᴰ (route.rule.path_prefix, route) (prefix_entries routes)
Memᴰ-prefix_entries route [] m h = absurd (Memᴰ.not-nil m)
Memᴰ-prefix_entries route (x ∷ routes) m h = elim (Memᴰ.cases_cons m) [
  | inl e ↦ let f : is_prefix x ≡ true = rw (← e) h in rw f (Memᴰ.head (rw e refl))
  | inr k ↦ elim (Bool-cases (is_prefix x)) [
    | inl f ↦ rw f (Memᴰ.tail (Memᴰ-prefix_entries route routes k h))
    | inr f ↦ rw f (Memᴰ-prefix_entries route routes k h)
  ]
]

pub prefix_entries-Memᴰ :
    (p : Str) (route : Route) (routes : List Route)
    → Memᴰ (p, route) (prefix_entries routes)
    → Memᴰ route routes × (is_prefix route ≡ true) × (p ≡ route.rule.path_prefix)
prefix_entries-Memᴰ p route [] m = absurd (Memᴰ.not-nil m)
prefix_entries-Memᴰ p route (x ∷ routes) m = elim (Bool-cases (is_prefix x)) [
  | inl f ↦ elim (Memᴰ.cases_cons (rw f at m)) [
    | inl e ↦
        let same : route ≡ x = ap (λ (w : Str × Route). w.1) e in
        let p_is : p ≡ x.rule.path_prefix = ap (λ (w : Str × Route). w.0) e in
        (Memᴰ.head same, rw same f, p_is ∙ ap (λ (y : Route). y.rule.path_prefix) (sym same))
    | inr k ↦ let (l, g, q) = prefix_entries-Memᴰ p route routes k in (Memᴰ.tail l, g, q)
  ]
  | inr f ↦ let (l, g, q) = prefix_entries-Memᴰ p route routes (rw f at m) in (Memᴰ.tail l, g, q)
]

module _ (os : Platform) (r : Request) where
  -- The three ways in which a route fits the path of the request, its conditions included.
  abbrev pub fits_exact : Str → Route → Bool
  fits_exact path route = is_exact_at path route && passes os r route

  abbrev pub fits_prefix : Str → Route → Bool
  fits_prefix path route =
      is_prefix route && (has_prefix path route.rule.path_prefix && passes os r route)

  abbrev pub fits_regex : Str → Route → Bool
  fits_regex path route =
      is_regex route && (passes os r route && is_some (submatches os r route path))

  pub reference_exact-none :
      (routes : List Route) (path : Str)
      → (reference_exact os r routes path ≡ none)
        ↔ ((route : Route) → Memᴰ route routes → fits_exact path route ≡ false)
  reference_exact-none routes path = (
    λ h route m. find-none (fits_exact path) routes {a = route} (ground arith) m,
    λ h. ap found_exact (find_of_none (fits_exact path) routes h),
  )

  pub find-is_some :
      (routes : List Route) (path : Str) (route : Route)
      → find (fits_regex path) routes ≡ some route
      → (m : List ℤ) × (submatches os r route path ≡ some m)
  find-is_some routes path route h = elim (Option-cases (submatches os r route path)) [
    | inl e ↦ let (_, f) = find-some (fits_regex path) routes route h in absurd (ground arith)
    | inr w ↦ w
  ]

  pub reference_regex-none :
      (routes : List Route) (path : Str)
      → (reference_regex os r routes path ≡ none)
        ↔ ((route : Route) → Memᴰ route routes → fits_regex path route ≡ false)
  reference_regex-none routes path = (
    λ h route m. find-none (fits_regex path) routes {a = route} (none_found h) m,
    λ h. ap (λ o. found_regex os r o path) (find_of_none (fits_regex path) routes h),
  )
    where
      none_found : reference_regex os r routes path ≡ none → find (fits_regex path) routes ≡ none
      none_found h = elim (Option-cases (find (fits_regex path) routes)) [
        | inl e ↦ e
        | inr (route, e) ↦ let (m, s) = find-is_some routes path route e in absurd (ground arith)
      ]

  pub reference_prefix-none :
      (routes : List Route) (path : Str)
      → (reference_prefix os r routes path ≡ none)
        ↔ ((route : Route) → Memᴰ route routes → fits_prefix path route ≡ false)
  reference_prefix-none routes path = (λ h route m. to h route m, from)
    where
      to :
          reference_prefix os r routes path ≡ none
          → (route : Route) → Memᴰ route routes
          → fits_prefix path route ≡ false
      to h route m = elim (Bool-cases (is_prefix route)) [
        | inr e ↦ ground arith
        | inl e ↦
            let k = longest-none (passes os r) (prefix_entries routes) path 0 (ground arith) in
            let f = All-Memᴰ _ (prefix_entries routes) k (Memᴰ-prefix_entries route routes m e) in
            ground arith
      ]

      from :
          ((route : Route) → Memᴰ route routes → fits_prefix path route ≡ false)
          → reference_prefix os r routes path ≡ none
      from h = elim (Option-cases (longest (passes os r) (prefix_entries routes) path 0)) [
        | inl e ↦ ground arith
        | inr ((route, n), e) ↦
            let (p, mem, f, _) =
              longest-Memᴰ (passes os r) (prefix_entries routes) path 0 n route e in
            let (l, g, q) = prefix_entries-Memᴰ p route routes mem in
            let f' = subst (λ s. entry_fits (passes os r) path (s, route) ≡ true) q f in
            let no = h route l in absurd (ground arith)
      ]
