-- ===== src/Proxy/Handler.antt =====
-- proxy.go: the response writer, ServeHTTP, rewrite and errorHandler. Calls of an http.ResponseWriter
-- are listed in order; the calls that httputil's ReverseProxy makes are a parameter here (Proxy/Serve has them).
pub mod Observed
pub mod Replay
use l7_proxy.Prelude.{
  ℕ, Bool, true, false, ◌&&◌, not, List, [], ◌∷◌, ◌++◌, Option, none, some, ◌==◌, if◌then◌else◌,
}
use l7_proxy.Prelude.Int.{ℤ, pos, ltb_ℤ, ◌*ℤ◌, wrap64}
use l7_proxy.Text.{Str, codes}
use l7_proxy.Dict.{Dict}
use l7_proxy.Net.{Url}
use l7_proxy.Config.{InfrastructureConfig}
use l7_proxy.Routing.{Decision, MirrorTarget}
use l7_proxy.Routing.Decide.{Result, ok, err, panic}
use l7_proxy.Mirroring.{Job}
use l7_proxy.Proxy.{ProxyError, Outbound}

-- WriteHeader and Write of an http.ResponseWriter, and Flush, which net/http's own has.
pub data Call : Type 0 where
  write_header : ℕ → Call
  write : Str → Call
  flush : Call

-- The wrapper: its status code and the calls that it has passed on, the latest first.
pub record ResponseWriter : Type 0 where
  pub status_code : ℕ
  pub passed : List Call

unfoldable pub on_call : Call → ResponseWriter → ResponseWriter
on_call (write_header code) rw' = record {
  status_code = if rw'.status_code == 0 then code else rw'.status_code;
  passed = write_header code ∷ rw'.passed;
}
on_call (write b) rw' = record {
  status_code = if rw'.status_code == 0 then 200 else rw'.status_code;
  passed = write b ∷ rw'.passed;
}
on_call flush rw' = record rw' { passed = flush ∷ rw'.passed }

-- Hijack: what the Hijack of the wrapped writer returns, if it has one, or else the error.
unfoldable pub hijack : {A : Type 0} → Option (Option A) → Option A
hijack none = none
hijack (some result) = result

unfoldable pub on_calls : List Call → ResponseWriter → ResponseWriter
unfolding on_call
on_calls [] w = w
on_calls (c ∷ cs) w = on_calls cs (on_call c w)

-- http.Error
abbrev pub http_error : Str → ℕ → List Call
http_error text code = write_header code ∷ write (text ++ 10 ∷ []) ∷ []

-- The outcomes that metrics count: method, upstream and status.
pub record Observation : Type 0 where
  pub method : Str
  pub upstream : Str
  pub status : ℕ

-- What serving a request does: the calls on the writer, the observations, the limit put on the body
-- and the deadline of the context.
pub record Served : Type 0 where
  pub calls : List Call
  pub observed : List Observation
  pub body_limit : Option ℤ
  pub deadline : Option ℤ

abbrev pub upstream_unmatched : Str
upstream_unmatched = codes "unmatched"

-- A number of seconds as a Duration, an int64 of nanoseconds.
unfoldable pub to_sec : ℤ → ℤ
to_sec d = wrap64 (d *ℤ pos 1_000_000_000)

-- p.observe: nothing without metrics
abbrev pub observe : Bool → Str → Str → ℕ → List Observation
observe metrics method upstream status =
    if metrics then record { method = method; upstream = upstream; status = status } ∷ [] else []

abbrev pub reverse : List Call → List Call → List Call
reverse [] acc = acc
reverse (c ∷ cs) acc = reverse cs (c ∷ acc)

-- The limit that http.MaxBytesReader puts on a body, if it is called.
abbrev pub limit_of : InfrastructureConfig → Option ℤ
limit_of infra = if ltb_ℤ (pos 0) infra.max_body_size then some infra.max_body_size else none

abbrev pub is_too_long : InfrastructureConfig → ℤ → Bool
is_too_long infra content_length =
    ltb_ℤ (pos 0) infra.max_body_size && ltb_ℤ infra.max_body_size content_length

-- Serving a decided request: the body is limited, the calls go through the wrapper, whose status code
-- is set to 200 before the first of them, and that status code is observed.
unfoldable pub serve_decided : InfrastructureConfig → Bool → Str → Decision → List Call → Served
unfolding on_calls to_sec
serve_decided infra metrics method d calls =
    let wrapped = on_calls calls (record { status_code = 200; passed = [] }) in
    record {
      calls = reverse wrapped.passed [];
      observed = observe metrics method d.upstream wrapped.status_code;
      body_limit = limit_of infra;
      deadline = some (to_sec infra.server.context);
    }

-- ServeHTTP for a request with this method and content length, given the result of DecideRoute and
-- the calls that the reverse proxy makes for a decision. `none` is a panic of DecideRoute.
unfoldable pub serve_http :
    InfrastructureConfig → Bool → Str → ℤ → Result Decision → (Decision → List Call) → Option Served
unfolding serve_decided
serve_http infra metrics method content_length decided proxied =
    if is_too_long infra content_length
    then some (record {
      calls = http_error (codes "Request Entity Too Large") 413;
      observed = observe metrics method upstream_unmatched 413;
      body_limit = none;
      deadline = none;
    })
    else elim decided [
      | panic ↦ none
      | err e ↦ some (record {
        calls = http_error (codes "404 page not found") 404;
        observed = observe metrics method upstream_unmatched 404;
        body_limit = none;
        deadline = none;
      })
      | ok d ↦ some (serve_decided infra metrics method d (proxied d))
    ]

-- errorHandler: the calls for an error of the transport.
unfoldable pub error_handler : ProxyError → List Call
error_handler e =
    if e.is_unavailable
    then http_error (codes "Upstream unavailable") 503
    else if e.is_deadline
    then http_error (codes "Request timed out on the server") 504
    else if e.is_canceled
    then []
    else if e.is_max_bytes
    then http_error (codes "Request body too big") 413
    else http_error (codes "Bad Gateway: unexpected error") 502

-- io.ReadAll of the inbound body: what was read, and whether it ended in an error.
pub record BodyRead : Type 0 where
  pub body : Str
  pub failed : Bool

abbrev pub is_nil : List MirrorTarget → Bool
is_nil [] = true
is_nil (_ ∷ _) = false

-- rewrite: the outbound request, and the job that is submitted to the mirroring pool. SetXForwarded
-- is a parameter on the headers of the outbound request.
unfoldable pub rewrite :
    (Dict (List Str) → Dict (List Str))
    → Option Decision
    → BodyRead
    → Outbound
    → Outbound × Option Job
rewrite set_x_forwarded none read out = (out, none)
rewrite set_x_forwarded (some d) read out =
    let header = set_x_forwarded out.header in
    (
      record {
        method = out.method;
        url = d.target;
        host = [];
        header = header;
        body = read.body;
        get_body = if read.failed then out.get_body else some (some read.body);
      },
      if not read.failed && not (is_nil d.mirrors)
          then some (record {
            method = out.method;
            body = read.body;
            header = header;
            path = d.target.path;
            raw_query = d.target.raw_query;
            targets = d.mirrors;
          })
          else none,
    )
