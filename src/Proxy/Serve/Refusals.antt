-- ===== src/Proxy/Serve/Refusals.antt =====
-- What a client gets if the limiter or the gate (proxy.go) refuses every upstream.
use l7_proxy.Prelude.{◌≡◌, refl, ap, ◌∙◌, false, [], Option, none, some, arith}
use l7_proxy.Prelude.Int.{ℤ}
use l7_proxy.Text.{Str, codes}
use l7_proxy.Net.{Url}
use l7_proxy.Config.{InfrastructureConfig}
use l7_proxy.Routing.{Decision, FailoverTarget}
use l7_proxy.Routing.Decide.{ok}
use l7_proxy.Proxy.{ProxyError, unavailable, Outbound}
use l7_proxy.Proxy.Transport.{
  Outcome, failure, response, Seams, State, admits, attempt, fail_over, round_trip_decided,
  transport_round_trip,
}
use l7_proxy.Proxy.Failover.{admits-trace}
use l7_proxy.Proxy.Handler.{
  Served, http_error, limit_of, is_too_long, serve_http, serve_decided, rewrite, error_handler,
}
use l7_proxy.Proxy.Handler.Observed.{on_calls-passed}
use l7_proxy.Proxy.Serve.{Inbound, Library, Rest, read_all, write_outcome, reverse_proxy, serve_as}

write_outcome-unavailable :
    write_outcome (failure unavailable) ≡ http_error (codes "Upstream unavailable") 503
unfolding write_outcome error_handler
write_outcome-unavailable = refl

module _ {W : Type 0} (seams : Seams W) where
  -- The limiter refuses every upstream, or the gate does if the limiter allows.
  abbrev pub RefusesAll : Type 0
  RefusesAll = (name : Str) (st : State W) → (admits seams name st).0 ≡ false

  attempt-refused :
      (req : Outbound) (name : Str) (target : Url) (timeout : ℤ) (e : ProxyError) (st : State W)
      → RefusesAll
      → ((attempt seams req name target timeout e st).0 ≡ failure unavailable)
        × ((attempt seams req name target timeout e st).1.trace ≡ st.trace)
  unfolding attempt
  attempt-refused req name target timeout e st refuses =
      ground (arith, refuses name st, admits-trace seams name st)

  fail_over-refused :
      (req : Outbound) (fallback : Option FailoverTarget) (e : ProxyError)
      (first : Outcome × State W)
      → RefusesAll
      → first.0 ≡ failure unavailable
      → ((fail_over seams req fallback e first).0 ≡ failure unavailable)
        × ((fail_over seams req fallback e first).1.trace ≡ first.1.trace)
  unfolding fail_over
  fail_over-refused req none e (response r, st) refuses h = absurd (ground arith)
  fail_over-refused req (some f) e (response r, st) refuses h = absurd (ground arith)
  fail_over-refused req none e (failure x, st) refuses h = ground arith
  fail_over-refused req (some f) e (failure x, st) refuses h =
      ground (arith, attempt-refused req f.name f.url f.timeout e st refuses)

  round_trip_decided-refused :
      (req : Outbound) (d : Decision) (e : ProxyError) (st : State W)
      → RefusesAll
      → ((round_trip_decided seams req d e st).0 ≡ failure unavailable)
        × ((round_trip_decided seams req d e st).1.trace ≡ st.trace)
  unfolding round_trip_decided
  round_trip_decided-refused req d e st refuses =
      let first = attempt-refused req d.upstream d.target d.timeout e st refuses in
      let last = fail_over-refused req d.fallback e _ refuses first.0 in (last.0, last.1 ∙ first.1)

  module _ (lib : Library) (body_error : ProxyError) where
    -- A decided request that is not too long is answered with 503 if every upstream is refused, and
    -- nothing is sent.
    pub serve_as-refused :
        (infra : InfrastructureConfig) (inbound : Inbound) (d : Decision) (rest : Rest W)
        → RefusesAll
        → is_too_long infra inbound.content_length ≡ false
        → (x : Served × Rest W) × (serve_as seams lib body_error infra inbound (ok d) rest ≡ some x)
          × (x.0.calls ≡ http_error (codes "Upstream unavailable") 503)
          × (x.1.state.trace ≡ rest.state.trace)
    unfolding serve_as serve_http serve_decided reverse_proxy transport_round_trip
    serve_as-refused infra inbound d rest refuses fits =
        let read = read_all (limit_of infra) inbound.body inbound.breaks in
        let out = (rewrite lib.set_x_forwarded (some d) read (lib.clone inbound.request)).0 in
        let (outcome, trace) = round_trip_decided-refused out d body_error rest.state refuses in
        let calls =
          on_calls-passed (write_outcome (round_trip_decided seams out d body_error rest.state).0)
            (record { status_code = 200; passed = [] })
          ∙ ap write_outcome outcome in
        rw (fits, serve_as) (_, refl, calls ∙ write_outcome-unavailable, trace)
