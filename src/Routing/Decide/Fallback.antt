-- ===== src/Routing/Decide/Fallback.antt =====
-- The fallback of a decision (routing.go, failoverTarget) on a valid configuration.
use mathlib.Core.List.Memᴰ
use l7_proxy.Prelude.{
  ◌≡◌, ◌≢◌, ◌⊎◌, inl, inr, refl, sym, ap, ◌∙◌, true, false, List, [], ◌∷◌, none, some, arith, Memᴰ,
  All, All-Memᴰ, Option-cases, Bool-cases, subst,
}
use l7_proxy.Text.{Str, is_empty, eq_str}
use l7_proxy.Text.Laws.{eq_str_iff, eq_str_refl, is_empty_iff}
use l7_proxy.Dict.{Dict, lookup, insert, lookup-insert, member}
use l7_proxy.Net.{Platform, Url}
use l7_proxy.Config.{Upstream, Config}
use l7_proxy.Config.Upstreams.Valid.{IsValid, AreFresh, HasFallback-HasUpstream}
use l7_proxy.Config.Routes.{names_of}
use l7_proxy.Config.Load.Hosts.{IsLoaded}
use l7_proxy.Routing.{FailoverTarget}
use l7_proxy.Routing.Index.{index_upstreams, new_route_index}
use l7_proxy.Routing.Index.Built.{index_routes-kept}
use l7_proxy.Routing.Decide.{milliseconds, upstream_timeout, failover_target}

-- A name that was seen is not the name of a fresh upstream.
AreFresh-absent :
    (k : Str) (seen : List Str) (us : List Upstream)
    → AreFresh seen us
    → member k seen ≡ true
    → All (λ u. eq_str u.name k ≡ false) us
AreFresh-absent k seen [] fresh h = tt
AreFresh-absent k seen (u ∷ us) (unseen, fresh) h = (
  ground (arith, ap (λ n. member n seen), eq_str_iff u.name k, member_same u.name k seen),
  AreFresh-absent k (u.name ∷ seen) us fresh (ground arith),
)
  where
    member_same : (a b : Str) (s : List Str) → a ≡ b → member a s ≡ member b s
    member_same a b s e = ap (λ n. member n s) e

lookup-index_upstreams_absent :
    (k : Str) (us : List Upstream) (m : Dict Upstream)
    → All (λ u. eq_str u.name k ≡ false) us
    → lookup k (index_upstreams us m) ≡ lookup k m
unfolding index_upstreams
lookup-index_upstreams_absent k [] m h = refl
lookup-index_upstreams_absent k (u ∷ us) m (e, h) =
    ground
      (arith, lookup-index_upstreams_absent k us (insert u.name u m) h, lookup-insert u.name k u m)

-- Among upstreams with distinct names each is found by its name.
lookup-index_upstreams :
    (u : Upstream) (seen : List Str) (us : List Upstream) (m : Dict Upstream)
    → AreFresh seen us
    → Memᴰ u us
    → lookup u.name (index_upstreams us m) ≡ some u
unfolding index_upstreams
lookup-index_upstreams u seen [] m fresh mem = absurd (Memᴰ.not-nil mem)
lookup-index_upstreams u seen (x ∷ us) m (unseen, fresh) mem = elim (Memᴰ.cases_cons mem) [
  | inr k ↦ lookup-index_upstreams u (x.name ∷ seen) us (insert x.name x m) fresh k
  | inl e ↦
      let absent =
        AreFresh-absent x.name (x.name ∷ seen) us fresh (ground (arith, eq_str_refl x.name)) in
      let found : lookup x.name (index_upstreams us (insert x.name x m)) ≡ some x = ground (
        arith,
        lookup-index_upstreams_absent x.name us (insert x.name x m) absent,
        lookup-insert x.name x.name x m,
        eq_str_refl x.name,
      ) in
      subst (λ y. lookup y.name (index_upstreams us (insert x.name x m)) ≡ some y) (sym e) found
]

listed-member : (v : Upstream) (us : List Upstream) → Memᴰ v us → member v.name (names_of us) ≡ true
listed-member v [] mem = absurd (Memᴰ.not-nil mem)
listed-member v (x ∷ us) mem = elim (Memᴰ.cases_cons mem) [
  | inl e ↦
      let same : eq_str x.name v.name ≡ true =
        (eq_str_iff x.name v.name).1 (ap (λ (y : Upstream). y.name) (sym e)) in
      ground arith
  | inr k ↦ let rest = listed-member v us k in ground arith
]

module _ (os : Platform) (cfg : Config) (loaded : IsLoaded os cfg)
    (valid : IsValid os cfg.upstreams) where
  index_cfg : (new_route_index cfg).cfg ≡ cfg
  unfolding new_route_index
  index_cfg = (index_routes-kept cfg.routes _).0

  listed-lookup :
      (u : Upstream) → Memᴰ u cfg.upstreams → lookup u.name (new_route_index cfg).upstreams ≡ some u
  unfolding new_route_index
  listed-lookup u mem =
      ap (lookup u.name) (index_routes-kept cfg.routes _).1
      ∙ lookup-index_upstreams u [] cfg.upstreams [] valid.distinct mem

  -- The fallback of an upstream as configured: another listed upstream, with its host and timeout.
  pub record IsFallback (u : Upstream) (target : FailoverTarget) : Type 0 where
    pub upstream : Upstream
    pub listed : Memᴰ upstream cfg.upstreams
    pub named : upstream.name ≡ u.fallback
    pub other : u.fallback ≢ u.name
    pub its_name : target.name ≡ upstream.name
    pub its_host : lookup upstream.name cfg.name_to_host ≡ some target.url
    pub its_timeout : target.timeout ≡ milliseconds upstream.timeout

  resolved :
      (u v : Upstream) (host : Url)
      → Memᴰ u cfg.upstreams
      → Memᴰ v cfg.upstreams
      → v.name ≡ u.fallback
      → is_empty u.fallback ≡ false
      → lookup v.name cfg.name_to_host ≡ some host
      → failover_target (new_route_index cfg) u.name
        ≡ some (record { name = v.name; url = host; timeout = milliseconds v.timeout })
  unfolding failover_target upstream_timeout
  resolved u v host listed listed' named set at =
      let e = listed-lookup u listed in
      let f = listed-lookup v listed' in
      let g : lookup u.fallback (new_route_index cfg).upstreams ≡ some v =
        ap (λ k. lookup k (new_route_index cfg).upstreams) (sym named) ∙ f in
      let h : lookup v.name (new_route_index cfg).cfg.name_to_host ≡ some host =
        ap (λ (c : Config). lookup v.name c.name_to_host) index_cfg ∙ at in
      ground (arith, e, f, g, h)

  -- On a loaded configuration with valid upstreams a listed upstream has no failover target exactly if
  -- no fallback is configured, and otherwise has the configured one, with its host and timeout.
  pub failover_target-IsFallback :
      (u : Upstream)
      → Memᴰ u cfg.upstreams
      → ((u.fallback ≡ []) × (failover_target (new_route_index cfg) u.name ≡ none))
        ⊎ ((target : FailoverTarget) × (failover_target (new_route_index cfg) u.name ≡ some target)
            × IsFallback u target)
  unfolding failover_target
  failover_target-IsFallback u listed =
      let e = listed-lookup u listed in
      elim (All-Memᴰ _ cfg.upstreams valid.fallbacks listed) [
        | inl none_set ↦ inl (none_set, ground (arith, is_empty_iff u.fallback))
        | inr (other, mem) ↦ elim (Bool-cases (is_empty u.fallback)) [
          | inl k ↦ let none_set = (is_empty_iff u.fallback).0 k in inl (none_set, ground arith)
          | inr set ↦ elim (HasFallback-HasUpstream cfg.upstreams u (inr (other, mem))) [
            | inl none_set ↦ absurd (ground (arith, is_empty_iff u.fallback))
            | inr (v, listed', named) ↦
                let there = loaded.hosts v.name ∙ listed-member v cfg.upstreams listed' in
                elim (Option-cases (lookup v.name cfg.name_to_host)) [
                  | inl gone ↦ absurd (ground arith)
                  | inr (host, at) ↦ inr (
                    record { name = v.name; url = host; timeout = milliseconds v.timeout },
                    resolved u v host listed listed' named set at,
                    record {
                      upstream = v;
                      listed = listed';
                      named = named;
                      other = other;
                      its_name = refl;
                      its_host = at;
                      its_timeout = refl;
                    },
                  )
                ]
          ]
        ]
      ]
