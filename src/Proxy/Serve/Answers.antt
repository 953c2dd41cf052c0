-- ===== src/Proxy/Serve/Answers.antt =====
-- How the requests that the server gets (proxy.go) are answered.
use l7_proxy.Prelude.{
  length, Bool, if◌then◌else◌, ℕ, ◌≡◌, ◌⊎◌, inl, inr, refl, ap, ◌∙◌, true, false, List, [], ◌∷◌,
  Option, some, if◌then◌else◌, arith, Bool-cases, All,
}
use l7_proxy.Text.{Str, is_empty}
use l7_proxy.Net.{Platform, Url}
use l7_proxy.Config.{Config, InfrastructureConfig}
use l7_proxy.Config.Reports.{append_nil}
use l7_proxy.Config.Cycles.{Graph, validate}
use l7_proxy.Config.Routes.{validate_routes}
use l7_proxy.Routing.{Decision}
use l7_proxy.Routing.Decide.{Result, ok, err, decide_route, route_not_found}
use l7_proxy.Routing.Decide.Resolved.{RegexpsFit, new_route_index-cfg, decide_route_resolves}
use l7_proxy.Routing.Reload.{Monitor, Files, create_from_config, Run}
use l7_proxy.Routing.Reload.Runs.{Run-ServesValid}
use l7_proxy.Proxy.{ProxyError}
use l7_proxy.Proxy.Transport.{
  Outcome, response, failure, Seams, State, round_trip_decided, transport_round_trip,
}
use l7_proxy.Proxy.Handler.{
  Call, Observation, write_header, write, flush, Served, limit_of, is_too_long, serve_http,
  serve_decided, rewrite,
}
use l7_proxy.Proxy.Handler.Observed.{on_calls-passed}
use l7_proxy.Proxy.Serve.{
  Inbound, Library, Rest, read_all, write_outcome, aborts, reverse_proxy, serve_as, serve,
}

-- The status that net/http sends for these calls: that of the first, 200 if it is not of WriteHeader.
abbrev pub client_status : List Call → ℕ
client_status [] = 200
client_status (write_header code ∷ _) = code
client_status (write _ ∷ _) = 200
client_status (flush ∷ _) = 200

-- The status of an outcome of the transport: that of the response, or the one for an error.
abbrev pub status_of : Outcome → ℕ
status_of (response resp) = resp.status
status_of (failure e) =
    if e.is_unavailable
    then 503
    else if e.is_deadline
    then 504
    else if e.is_canceled
    then 200
    else if e.is_max_bytes
    then 413
    else 502

-- Copying the body of the upstream's response to the client ends in an error.
abbrev pub breaks_off : Outcome → Bool
breaks_off (response resp) = resp.breaks
breaks_off (failure e) = false

write_outcome-status : (o : Outcome) → client_status (write_outcome o) ≡ status_of o
unfolding write_outcome
write_outcome-status (response resp) = refl
write_outcome-status (failure e) = ground arith

validate-nil :
    (os : Platform) (order : Graph → List Str) (cfg : Config)
    → validate os order (some cfg) ≡ []
    → validate_routes os cfg.routes cfg.upstreams ≡ []
unfolding validate
validate-nil os order cfg h = ((append_nil _ _).0 ((append_nil _ _).0 h).1).0

module _ {W : Type 0} (os : Platform) (seams : Seams W) (lib : Library)
    (body_error : ProxyError) where
  -- The outcome of the transport for a decided request.
  abbrev pub outcome_of : InfrastructureConfig → Inbound → Decision → State W → Outcome
  outcome_of infra inbound d st =
      (round_trip_decided seams
        (rewrite lib.set_x_forwarded (some d)
          (read_all (limit_of infra) inbound.body inbound.breaks) (lib.clone inbound.request)).0
        d body_error st).0

  -- Too long, without a route, or decided and answered as its outcome says.
  abbrev pub IsAnswered :
      InfrastructureConfig → Inbound → Result Decision → Rest W → Served × Rest W → Type 0
  IsAnswered infra inbound decided rest (s, rest') =
      ((is_too_long infra inbound.content_length ≡ true)
        × (client_status s.calls ≡ 413)
        × (length s.observed ≡ 1)
        × (rest' ≡ rest))
      ⊎ ((is_too_long infra inbound.content_length ≡ false)
          × (((decided ≡ err route_not_found)
                × (client_status s.calls ≡ 404)
                × (length s.observed ≡ 1)
                × (rest' ≡ rest))
              ⊎ ((d : Decision) × (decided ≡ ok d)
                  × (client_status s.calls ≡ status_of (outcome_of infra inbound d rest.state))
                  × (length s.observed
                      ≡ (if breaks_off (outcome_of infra inbound d rest.state) then 0 else 1)))))

  counted_unless :
      (o : Outcome) (seen : Observation)
      → length (if aborts o then [] else seen ∷ []) ≡ (if breaks_off o then 0 else 1)
  unfolding aborts
  counted_unless (failure e) seen = refl
  counted_unless (response resp) seen = ground arith

  serve_as-IsAnswered :
      (infra : InfrastructureConfig) (inbound : Inbound) (decided : Result Decision) (rest : Rest W)
      → (decided ≡ err route_not_found) ⊎ ((d : Decision) × (decided ≡ ok d))
      → (x : Served × Rest W) × (serve_as seams lib body_error infra inbound decided rest ≡ some x)
        × IsAnswered infra inbound decided rest x
  unfolding serve_as serve_http serve_decided reverse_proxy transport_round_trip
  serve_as-IsAnswered infra inbound decided rest h =
      elim (Bool-cases (is_too_long infra inbound.content_length)) [
        | inl long ↦ rw (long, serve_as) (_, refl, inl (refl, refl, refl, refl))
        | inr fits ↦ elim h [
          | inl e ↦ rw (fits, e, serve_as) (_, refl, inr (refl, inl (refl, refl, refl, refl)))
          | inr (d, e) ↦
              let o = outcome_of infra inbound d rest.state in
              let status =
                ap client_status
                  (on_calls-passed (write_outcome o) (record { status_code = 200; passed = [] }))
                ∙ write_outcome-status o in
              rw (fits, e, serve_as)
                (_, refl, inr (refl, inr (d, refl, status, counted_unless o _)))
        ]
      ]

  -- However the configuration is reloaded from the start of the router, every request with a path is
  -- answered while the mirrors of the routes name upstreams and regexps are as documented: with 413 if
  -- it is too long, else with 404 if no route is found, else with the status of the upstream's response
  -- or the one that its error stands for. The first two leave the transport and the pool alone. Each is
  -- observed once, unless the body of the upstream's response cannot be copied: that is never observed.
  pub serve-IsAnswered :
      (order : Graph → List Str) (files : Files) (file : Str) (decoded : Option Config)
      (m q : Monitor) (infra : InfrastructureConfig) (inbound : Inbound) (url : Url) (rest : Rest W)
      → create_from_config os order decoded ≡ some m
      → Run os order files file m q
      → RegexpsFit os
      → All
          (λ route. All (λ mirror. is_empty mirror.upstream ≡ false) route.mirrors)
          q.index.cfg.routes
      → inbound.request.url ≡ some url
      → is_empty url.path ≡ false
      → (x : Served × Rest W) × (serve os seams lib body_error infra q.index inbound rest ≡ some x)
        × IsAnswered infra inbound (decide_route os q.index inbound.request) rest x
  unfolding serve
  serve-IsAnswered order files file decoded m q infra inbound url rest created run fit named u p =
      let valid = Run-ServesValid os order files file decoded m q created run in
      let same : q.index.cfg ≡ valid.cfg =
        ap (λ i. i.cfg) valid.is_its ∙ new_route_index-cfg valid.cfg in
      let resolves =
        decide_route_resolves os valid.cfg inbound.request url fit valid.loaded
          (validate-nil os order valid.cfg valid.valid) (rw (← same) named) u p in
      serve_as-IsAnswered infra inbound _ rest (rw valid.is_its resolves)
