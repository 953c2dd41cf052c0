-- ===== src/Proxy/Serve/Totals.antt =====
-- The metrics (metrics.go) over the requests that ServeHTTP (proxy.go) serves, one after the other.
use l7_proxy.Prelude.{
  Bool, if◌then◌else◌, ℕ, ◌+◌, ◌≡◌, ◌≢◌, ◌⊎◌, inl, inr, refl, subst, ◌∙◌, true, false, List, [],
  ◌∷◌, Option, none, some, length, arith, Bool-cases, Option-cases,
}
use l7_proxy.Prelude.Int.{ℤ}
use l7_proxy.Text.{Str}
use l7_proxy.Net.{Platform}
use l7_proxy.Config.{InfrastructureConfig}
use l7_proxy.Routing.{RouteIndex, Decision}
use l7_proxy.Routing.Decide.{Result, ok, err, panic, decide_route}
use l7_proxy.Metrics.{Vectors, RequestMetrics, request_labels, observe}
use l7_proxy.Metrics.Counts.{CountsUp, request_labels-other}
use l7_proxy.Proxy.{ProxyError}
use l7_proxy.Proxy.Transport.{Seams}
use l7_proxy.Proxy.Handler.{
  Call, ResponseWriter, on_calls, Observation, Served, serve_http, serve_decided, is_too_long,
  limit_of, upstream_unmatched,
}
use l7_proxy.Proxy.Handler.Observed.{on_calls-status}
use l7_proxy.Proxy.Serve.{
  aborted_of, Inbound, Library, Rest, read_all, reverse_proxy, with_rest, serve_as, serve,
}

-- A request, the index that the router has when it comes, and how long serving it takes.
pub record Arrival : Type 0 where
  pub index : RouteIndex
  pub inbound : Inbound
  pub duration : ℤ

-- The statuses that are ever observed.
abbrev pub IsObservable : ℕ → Type 0
IsObservable s = (s ≡ 200) ⊎ (s ≡ 404) ⊎ (s ≡ 413)

serve_http-IsObservable :
    (infra : InfrastructureConfig) (method : Str) (content_length : ℤ) (decided : Result Decision)
    (proxied : Decision → List Call) (s : Served)
    → serve_http infra true method content_length decided proxied ≡ some s
    → (o : Observation) × (s.observed ≡ o ∷ []) × IsObservable o.status
unfolding serve_http serve_decided
serve_http-IsObservable infra method content_length decided proxied s h =
    elim (Bool-cases (is_too_long infra content_length)) [
      | inl long ↦ (unmatched 413, ground (arith, long), inr (inr refl))
      | inr fits ↦ at decided h fits
    ]
  where
    unmatched : ℕ → Observation
    unmatched code = record { method = method; upstream = upstream_unmatched; status = code }

    at :
        (decided : Result Decision)
        → serve_http infra true method content_length decided proxied ≡ some s
        → is_too_long infra content_length ≡ false
        → (o : Observation) × (s.observed ≡ o ∷ []) × IsObservable o.status
    at panic h fits = absurd (ground arith)
    at (err e) h fits = (unmatched 404, ground (arith, fits), inr (inl refl))
    at (ok d) h fits =
        let w : ResponseWriter = record { status_code = 200; passed = [] } in
        let status = on_calls-status (proxied d) w (omega arith) in
        (
          record {
            method = method;
            upstream = d.upstream;
            status = (on_calls (proxied d) w).status_code;
          },
          ground (arith, fits),
          inl status,
        )

with_rest-served :
    {W : Type 0} (o : Option Served) (b : Bool) (after rest : Rest W) (s : Served)
    → with_rest o b after ≡ some (s, rest)
    → (t : Served) × (o ≡ some t) × (s.observed ≡ (if b then [] else t.observed))
with_rest-served none b after rest s h = cc
with_rest-served (some t) b after rest s h = (t, refl, ground arith)

-- Whether serving a request observes nothing, as 1 or 0, and what it adds to a count of those.
abbrev pub missed : List Observation → ℕ
missed [] = 1
missed (_ ∷ _) = 0

abbrev pub add_missed :
    {W C H : Type 0}
    → ℕ
    → Option (Rest W × RequestMetrics C H × ℕ)
    → Option (Rest W × RequestMetrics C H × ℕ)
add_missed k none = none
add_missed k (some (rest, m, n)) = some (rest, m, k + n)

add_missed-some :
    {W C H : Type 0} (k : ℕ) (o : Option (Rest W × RequestMetrics C H × ℕ)) (rest : Rest W)
    (m : RequestMetrics C H) (n : ℕ)
    → add_missed k o ≡ some (rest, m, n)
    → (l : ℕ) × (n ≡ k + l) × (o ≡ some (rest, m, l))
add_missed-some k none rest m n h = cc
add_missed-some k (some (rest', m', l)) rest m n h = (l, ground arith, ground arith)

module _ {C H : Type 0} (vectors : Vectors C H) where
  -- RequestMetrics.Observe for what serving a request observes.
  abbrev pub observe_served : ℤ → List Observation → RequestMetrics C H → RequestMetrics C H
  observe_served d [] m = m
  observe_served d (o ∷ os) m =
      observe_served d os (observe vectors o.method o.upstream o.status d m)

  module _ (counts : CountsUp vectors) where
    observe-total :
        (method upstream : Str) (status : ℕ) (d : ℤ) (m : RequestMetrics C H)
        → vectors.total (observe vectors method upstream status d m).requests_total
          ≡ vectors.total m.requests_total + 1
    unfolding observe
    observe-total method upstream status d m =
        counts.total_inc (request_labels method upstream status) m.requests_total

    observe-other :
        (method upstream other_method other_upstream : Str) (status other : ℕ) (d : ℤ)
        (m : RequestMetrics C H)
        → status ≢ other
        → vectors.value
            (request_labels other_method other_upstream other)
            (observe vectors method upstream status d m).requests_total
          ≡ vectors.value (request_labels other_method other_upstream other) m.requests_total
    unfolding observe
    observe-other method upstream other_method other_upstream status other d m h =
        counts.value_other _ _ m.requests_total
          (request_labels-other method upstream other_method other_upstream status other h)

module _ {W C H : Type 0} (vectors : Vectors C H) (os : Platform) (seams : Seams W) (lib : Library)
    (body_error : ProxyError) (infra : InfrastructureConfig) where
  -- The rest, the metrics, and how many of the requests were not observed, behind the last.
  abbrev pub serve_all :
      List Arrival → Rest W → RequestMetrics C H → Option (Rest W × RequestMetrics C H × ℕ)
  serve_all [] rest m = some (rest, m, 0)
  serve_all (a ∷ as') rest m = elim (serve os seams lib body_error infra a.index a.inbound rest) [
    | none ↦ none
    | some (s, rest') ↦
        add_missed (missed s.observed)
          (serve_all as' rest' (observe_served vectors a.duration s.observed m))
  ]

  serve-IsObservable :
      (idx : RouteIndex) (inbound : Inbound) (rest rest' : Rest W) (s : Served)
      → serve os seams lib body_error infra idx inbound rest ≡ some (s, rest')
      → (s.observed ≡ []) ⊎ ((o : Observation) × (s.observed ≡ o ∷ []) × IsObservable o.status)
  unfolding serve serve_as
  serve-IsObservable idx inbound rest rest' s h =
      let read = read_all (limit_of infra) inbound.body inbound.breaks in
      let proxied =
        λ (d : Decision). reverse_proxy seams lib body_error inbound.request read d rest in
      let decided = decide_route os idx inbound.request in
      let aborted =
        aborted_of (is_too_long infra inbound.content_length) decided (λ d. (proxied d).aborted) in
      let (t, served, observed) = with_rest-served _ aborted _ rest' s h in
      let (o, one, observable) =
        serve_http-IsObservable infra inbound.request.method inbound.content_length decided
          (λ d. (proxied d).calls) t served in
      elim (Bool-cases aborted) [
        | inl gone ↦ inl (observed ∙ rw gone refl)
        | inr kept ↦ inr (o, observed ∙ rw kept one, observable)
      ]

  -- Where vectors count as Prometheus documents, requests are served and none of them panics in DecideRoute, the request counters grow by one
  -- for each but those that are not observed. A counter of a status other than 200, 404 and 413 stays
  -- as it was, whatever upstreams answer and whatever errors there are.
  pub serve_all-total :
      (arrivals : List Arrival) (rest rest' : Rest W) (m m' : RequestMetrics C H) (n : ℕ)
      → CountsUp vectors
      → serve_all arrivals rest m ≡ some (rest', m', n)
      → (vectors.total m'.requests_total + n ≡ vectors.total m.requests_total + length arrivals)
        × ((method upstream : Str) (status : ℕ)
            → ¬ IsObservable status
            → vectors.value (request_labels method upstream status) m'.requests_total
              ≡ vectors.value (request_labels method upstream status) m.requests_total)
  serve_all-total [] rest rest' m m' n counts h =
      let same : m ≡ m' = ground arith in
      let zero_missed : 0 ≡ n = ground arith in
      (rw (same, ← zero_missed) (omega arith), λ method upstream status k. rw same refl)
  serve_all-total (a ∷ arrivals) rest rest' m m' n counts h =
      elim (Option-cases (serve os seams lib body_error infra a.index a.inbound rest)) [
        | inl e ↦ let h' = rw (e, serve_all) at h in cc
        | inr ((s, rest1), e) ↦ elim (serve-IsObservable a.index a.inbound rest rest1 s e) [
          | inl gone ↦
              let h' : add_missed 1 (serve_all arrivals rest1 m) ≡ some (rest', m', n) =
                rw (e, serve_all, gone) at h in
              let (k, same, rest_served) = add_missed-some 1 _ rest' m' n h' in
              let (sum, others) = serve_all-total arrivals rest1 rest' m m' k counts rest_served in
              (omega (arith, sum, same), others)
          | inr (o, observed, observable) ↦
              let m1 = observe vectors o.method o.upstream o.status a.duration m in
              let h' : add_missed 0 (serve_all arrivals rest1 m1) ≡ some (rest', m', n) =
                rw (e, serve_all, observed) at h in
              let (k, same, rest_served) = add_missed-some 0 _ rest' m' n h' in
              let (sum, others) = serve_all-total arrivals rest1 rest' m1 m' k counts rest_served in
              (
                omega (
                  arith,
                  sum,
                  same,
                  observe-total vectors counts o.method o.upstream o.status a.duration m,
                ),
                λ method upstream status k.
                    others method upstream status k
                    ∙ observe-other vectors counts o.method o.upstream method upstream o.status
                        status a.duration m (λ same. k (subst IsObservable same observable)),
              )
        ]
      ]
