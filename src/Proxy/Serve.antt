-- ===== src/Proxy/Serve.antt =====
-- A request from end to end (proxy.go): ServeHTTP on the router's decision, through the ReverseProxy
-- that New sets up with rewrite, the transport, errorHandler and modifyResponse, to the pool.
pub mod Bodies
pub mod Answers
pub mod Refusals
pub mod Totals
use l7_proxy.Prelude.{
  Bool, true, false, List, [], ◌∷◌, Option, none, some, if◌then◌else◌, ltb, length, take,
}
use l7_proxy.Prelude.Int.{ℤ, pos, pos_part}
use l7_proxy.Text.{Str, is_empty}
use l7_proxy.Dict.{Dict}
use l7_proxy.Net.{Platform}
use l7_proxy.Config.{InfrastructureConfig}
use l7_proxy.Routing.{Request, RouteIndex, Decision}
use l7_proxy.Routing.Decide.{Result, ok, err, panic, decide_route}
use l7_proxy.Mirroring.{Job}
use l7_proxy.Mirroring.Pool.{Pool, try_submit}
use l7_proxy.Proxy.{ProxyError, Outbound, Response}
use l7_proxy.Proxy.Transport.{Outcome, response, failure, Seams, State, transport_round_trip}
use l7_proxy.Proxy.Handler.{
  Call, write_header, write, Served, BodyRead, limit_of, is_too_long, serve_http, rewrite,
  error_handler,
}

-- A request of the server: what the router looks at, the declared length, the bytes of the body, and
-- whether reading them ends in an error.
pub record Inbound : Type 0 where
  pub request : Request
  pub content_length : ℤ
  pub body : Str
  pub breaks : Bool

-- io.ReadAll of a body, under http.MaxBytesReader if there is a limit.
unfoldable pub read_all : Option ℤ → Str → Bool → BodyRead
read_all none body breaks = record { body = body; failed = breaks }
read_all (some limit) body breaks =
    if ltb (pos_part limit) (length body)
    then record { body = take (pos_part limit) body; failed = true }
    else record { body = body; failed = breaks }

-- modifyResponse logs and returns nil.
unfoldable pub modify_response : Response → Option ProxyError
modify_response resp = none

-- What the library does and the proxy relies on: the outbound copy of a request, and SetXForwarded.
pub record Library : Type 0 where
  pub clone : Request → Outbound
  pub set_x_forwarded : Dict (List Str) → Dict (List Str)

-- The reverse proxy on an outcome of the transport: the error handler is called for an error and for
-- one of modifyResponse; a response is written. Informational responses and upgrades are left out.
unfoldable pub write_outcome : Outcome → List Call
unfolding error_handler modify_response
write_outcome (failure e) = error_handler e
write_outcome (response resp) = elim (modify_response resp) [
  | some e ↦ error_handler e
  | none ↦ write_header resp.status ∷ (if is_empty resp.body then [] else write resp.body ∷ [])
]

-- The reverse proxy panics with http.ErrAbortHandler if it cannot copy the body of a response.
unfoldable pub aborts : Outcome → Bool
unfolding modify_response
aborts (failure e) = false
aborts (response resp) = elim (modify_response resp) [ some e ↦ false | none ↦ resp.breaks ]

-- rewrite calls TrySubmit for its job, if it has one, and does not look at the result.
unfoldable pub submit : Option Job → Pool → Pool
unfolding try_submit
submit none pool = pool
submit (some job) pool = (try_submit job pool).0

-- What a request acts on.
pub record Rest (W : Type 0) : Type 0 where
  pub state : State W
  pub pool : Pool

-- What the reverse proxy does: its calls on the writer, whether it panics at their end, and the rest.
pub record Exchange (W : Type 0) : Type 0 where
  pub calls : List Call
  pub aborted : Bool
  pub rest : Rest W

-- ReverseProxy.ServeHTTP: rewrite, then the transport, then the outcome.
unfoldable pub reverse_proxy :
    {W : Type 0}
    → Seams W
    → Library
    → ProxyError
    → Request
    → BodyRead
    → Decision
    → Rest W
    → Exchange W
unfolding rewrite transport_round_trip write_outcome aborts submit
reverse_proxy seams lib body_error r read d rest =
    let out = rewrite lib.set_x_forwarded (some d) read (lib.clone r) in
    let done = transport_round_trip seams out.0 (some d) body_error rest.state in
    record {
      calls = write_outcome done.0;
      aborted = aborts done.0;
      rest = record { state = done.1; pool = submit out.1 rest.pool };
    }

-- The rest behind ServeHTTP: only a decided request gets to the reverse proxy.
abbrev pub rest_of : {W : Type 0} → Bool → Result Decision → (Decision → Rest W) → Rest W → Rest W
rest_of true decided proxied rest = rest
rest_of false (ok d) proxied rest = proxied d
rest_of false (err e) proxied rest = rest
rest_of false panic proxied rest = rest

abbrev pub aborted_of : Bool → Result Decision → (Decision → Bool) → Bool
aborted_of true decided aborted = false
aborted_of false (ok d) aborted = aborted d
aborted_of false (err e) aborted = false
aborted_of false panic aborted = false

-- A panic of the reverse proxy, which the server recovers from, passes by the call of p.observe.
abbrev pub with_rest : {W : Type 0} → Option Served → Bool → Rest W → Option (Served × Rest W)
with_rest none aborted rest = none
with_rest (some served) aborted rest =
    some (record served { observed = if aborted then [] else served.observed }, rest)

-- ServeHTTP on a decision, with the reverse proxy; `none` is a panic of DecideRoute.
unfoldable pub serve_as :
    {W : Type 0}
    → Seams W
    → Library
    → ProxyError
    → InfrastructureConfig
    → Inbound
    → Result Decision
    → Rest W
    → Option (Served × Rest W)
unfolding read_all serve_http reverse_proxy
serve_as seams lib body_error infra inbound decided rest =
    let r = inbound.request in
    let read = read_all (limit_of infra) inbound.body inbound.breaks in
    let proxied = λ (d : Decision). reverse_proxy seams lib body_error r read d rest in
    with_rest
      (serve_http infra true r.method inbound.content_length decided (λ d. (proxied d).calls))
      (aborted_of (is_too_long infra inbound.content_length) decided (λ d. (proxied d).aborted))
      (rest_of (is_too_long infra inbound.content_length) decided (λ d. (proxied d).rest) rest)

-- The router decides on the request that is served.
unfoldable pub serve :
    {W : Type 0}
    → Platform
    → Seams W
    → Library
    → ProxyError
    → InfrastructureConfig
    → RouteIndex
    → Inbound
    → Rest W
    → Option (Served × Rest W)
unfolding serve_as
serve os seams lib body_error infra idx inbound rest =
    serve_as seams lib body_error infra inbound (decide_route os idx inbound.request) rest
