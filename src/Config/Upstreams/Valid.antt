-- ===== src/Config/Upstreams/Valid.antt =====
-- What validateUpstreams (config.go) accepts.
use mathlib.Core.List.Memᴰ
use l7_proxy.Prelude.{
  ℕ, ◌+◌, ◌≡◌, ◌≢◌, ◌↔◌, ◌⊎◌, inl, inr, refl, sym, ap, ◌∙◌, true, false, List, [], ◌∷◌, ◌++◌, none,
  arith, Memᴰ, All,
}
use l7_proxy.Prelude.Int.{pos, ◌≤ℤ◌}
use l7_proxy.Text.{Str, is_empty, trim_space}
use l7_proxy.Text.Laws.{eq_str_iff, is_empty_iff}
use l7_proxy.Dict.{member, member_iff}
use l7_proxy.Net.{Platform}
use l7_proxy.Config.{Upstream, ConfigError}
use l7_proxy.Config.Reports.{append_nil}
use l7_proxy.Config.Upstreams.{
  validate_upstream_host, check_name, check_upstreams, check_fallback, check_fallbacks, host_errors,
  validate_upstreams,
}

-- What every upstream satisfies by itself.
pub record IsSound (os : Platform) (u : Upstream) : Type 0 where
  pub named : is_empty (trim_space u.name) ≡ false
  pub reachable : validate_upstream_host os u.host ≡ none
  pub timed : pos 0 ≤ℤ u.timeout

-- No upstream repeats a name that was seen or that stands earlier in the list.
abbrev pub AreFresh : List Str → List Upstream → Type 0
AreFresh seen [] = Unit
AreFresh seen (u ∷ us) = (member u.name seen ≡ false) × AreFresh (u.name ∷ seen) us

abbrev pub seen_after : List Str → List Upstream → List Str
seen_after seen [] = seen
seen_after seen (u ∷ us) = seen_after (u.name ∷ seen) us

abbrev pub HasFallback : List Str → Upstream → Type 0
HasFallback names u = (u.fallback ≡ []) ⊎ ((u.fallback ≢ u.name) × (member u.fallback names ≡ true))

check_name_nil :
    (i : ℕ) (seen : List Str) (u : Upstream)
    → ((check_name i seen u).0 ≡ []) ↔ (
        (is_empty (trim_space u.name) ≡ false)
        × (member u.name seen ≡ false)
        × ((check_name i seen u).1 ≡ u.name ∷ seen))
unfolding check_name
check_name_nil i seen u = ground arith

check_fallback_nil :
    (i : ℕ) (seen : List Str) (u : Upstream) → (check_fallback i seen u ≡ []) ↔ HasFallback seen u
unfolding check_fallback
check_fallback_nil i seen u = ground (arith, eq_str_iff u.fallback u.name, is_empty_iff u.fallback)

-- There is an upstream of that name.
abbrev pub HasUpstream : Str → List Upstream → Type 0
HasUpstream k us = (v : Upstream) × Memᴰ v us × (v.name ≡ k)

-- The names that the first loop collects are those of the list.
Memᴰ-seen_after :
    (k : Str) (seen : List Str) (us : List Upstream)
    → Memᴰ k (seen_after seen us)
    → Memᴰ k seen ⊎ HasUpstream k us
Memᴰ-seen_after k seen [] m = inl m
Memᴰ-seen_after k seen (u ∷ us) m = elim (Memᴰ-seen_after k (u.name ∷ seen) us m) [
  | inl h ↦ elim (Memᴰ.cases_cons h) [ inl e ↦ inr (u, Memᴰ.head refl, sym e) | inr n ↦ inl n ]
  | inr (v, n, e) ↦ inr (v, Memᴰ.tail n, e)
]

-- Under valid upstreams a fallback that is set is the name of some upstream.
pub HasFallback-HasUpstream :
    (us : List Upstream) (u : Upstream)
    → HasFallback (seen_after [] us) u
    → (u.fallback ≡ []) ⊎ HasUpstream u.fallback us
HasFallback-HasUpstream us u (inl e) = inl e
HasFallback-HasUpstream us u (inr (_, m)) =
    elim (Memᴰ-seen_after u.fallback [] us ((member_iff u.fallback _).0 m)) [
      | inl n ↦ absurd (Memᴰ.not-nil n)
      | inr h ↦ inr h
    ]

module _ (os : Platform) where
  own_errors_nil :
      (i : ℕ) (u : Upstream)
      → (host_errors i u (validate_upstream_host os u.host) ≡ [])
        ↔ (validate_upstream_host os u.host ≡ none)
  own_errors_nil i u = ground arith

  check_upstreams_nil :
      (i : ℕ) (seen : List Str) (us : List Upstream)
      → (check_upstreams os i seen us).0 ≡ []
      → All (IsSound os) us
        × AreFresh seen us
        × ((check_upstreams os i seen us).1 ≡ seen_after seen us)
  unfolding check_upstreams
  check_upstreams_nil i seen [] h = (tt, tt, refl)
  check_upstreams_nil i seen (u ∷ us) h =
      let (a, h1) = (append_nil _ _).0 h in
      let (b, h2) = (append_nil _ _).0 h1 in
      let (c, d) = (append_nil _ _).0 h2 in
      let (n, m, e) = (check_name_nil i seen u).0 a in
      let (rest, fresh, names) =
        check_upstreams_nil (i + 1) (u.name ∷ seen) us
          (ap (λ s. (check_upstreams os (i + 1) s us).0) (sym e) ∙ d) in
      (
        (record { named = n; reachable = (own_errors_nil i u).0 b; timed = ground arith }, rest),
        (m, fresh),
        ap (λ s. (check_upstreams os (i + 1) s us).1) e ∙ names,
      )

  check_upstreams_of_sound :
      (i : ℕ) (seen : List Str) (us : List Upstream)
      → All (IsSound os) us
      → AreFresh seen us
      → (check_upstreams os i seen us ≡ ([], seen_after seen us))
  unfolding check_upstreams check_name
  check_upstreams_of_sound i seen [] h k = refl
  check_upstreams_of_sound i seen (u ∷ us) (h, hs) (k, ks) = ground (
    arith,
    h.named,
    h.reachable,
    h.timed,
    check_upstreams_of_sound (i + 1) (u.name ∷ seen) us hs ks,
  )

  check_fallbacks_nil :
      (i : ℕ) (seen : List Str) (us : List Upstream)
      → (check_fallbacks i seen us ≡ []) ↔ All (HasFallback seen) us
  unfolding check_fallbacks
  check_fallbacks_nil i seen [] = (λ h. tt, λ h. refl)
  check_fallbacks_nil i seen (u ∷ us) = (
    λ h.
        let (a, b) = (append_nil _ _).0 h in
        ((check_fallback_nil i seen u).0 a, (check_fallbacks_nil (i + 1) seen us).0 b),
    λ h.
        (append_nil _ _).1
          ((check_fallback_nil i seen u).1 h.0, (check_fallbacks_nil (i + 1) seen us).1 h.1),
  )

  -- A validated list of upstreams: there is one, each is sound, the names are distinct, and a
  -- fallback is another upstream of the list.
  pub record IsValid (us : List Upstream) : Type 0 where
    pub nonempty : us ≢ []
    pub sound : All (IsSound os) us
    pub distinct : AreFresh [] us
    pub fallbacks : All (HasFallback (seen_after [] us)) us

  -- No error is reported exactly for a list that is not empty, whose upstreams each have a name that
  -- is not blank, a host that is accepted and a timeout of at least 0, whose names are distinct, and
  -- where a fallback that is set names another upstream of the list.
  pub validate_upstreams_iff : (us : List Upstream) → (validate_upstreams os us ≡ []) ↔ IsValid us
  unfolding validate_upstreams
  validate_upstreams_iff [] = (λ h. cc, λ v. absurd (v.nonempty refl))
  validate_upstreams_iff (u ∷ us) = (to, from)
    where
      all : List Upstream
      all = u ∷ us

      to :
          (check_upstreams os 0 [] all).0 ++ check_fallbacks 0 (check_upstreams os 0 [] all).1 all
            ≡ []
          → IsValid all
      to h =
          let (a, b) = (append_nil _ _).0 h in
          let (s, d, e) = check_upstreams_nil 0 [] all a in
          record {
            nonempty = λ e. cc;
            sound = s;
            distinct = d;
            fallbacks =
                (check_fallbacks_nil 0 (seen_after [] all) all).0
                  (ap (λ names. check_fallbacks 0 names all) (sym e) ∙ b);
          }

      from :
          IsValid all
          → (check_upstreams os 0 [] all).0 ++ check_fallbacks 0 (check_upstreams os 0 [] all).1 all
            ≡ []
      from v =
          let e = check_upstreams_of_sound 0 [] all v.sound v.distinct in
          (append_nil _ _).1 (
            ap (λ (w : List ConfigError × List Str). w.0) e,
            ap (λ (w : List ConfigError × List Str). check_fallbacks 0 w.1 all) e
                ∙ (check_fallbacks_nil 0 (seen_after [] all) all).1 v.fallbacks,
          )
