-- ===== src/Tests/Serving.antt =====
-- Round trips with a first upstream that fails, and requests that are served.
use l7_proxy.Prelude.{
  ◌⊎◌, ◌+◌, ◌*◌, ◌<◌, ◌≤◌, ◌≡◌, refl, List, [], ◌∷◌, none, some, true, false, All, if◌then◌else◌,
  arith,
}
use l7_proxy.Prelude.Int.{pos, ltb_ℤ}
use l7_proxy.Text.{Str, codes, eq_str}
use l7_proxy.Float.{fin}
use l7_proxy.Routing.{Decision}
use l7_proxy.Routing.Decide.{ok}
use l7_proxy.Proxy.{ProxyError, Outbound, Response}
use l7_proxy.Proxy.Transport.{
  Outcome, response, failure, Seams, Event, State, can_failover, attempt, round_trip_decided,
  allow_all_gate, discard, unlimited_limiter,
}
use l7_proxy.Proxy.Failover.Recorded.{IsRoundTrip, round_trip_decided-IsRoundTrip}
use l7_proxy.Proxy.Failover.{
  sends, cancels, deadlines, GoesWhereDecided, round_trip_decided-sends, round_trip_decided-cancels,
  round_trip_decided-GoesWhereDecided,
}
use l7_proxy.Proxy.Handler.{Call, Served, serve_http, to_sec, http_error, rewrite, BodyRead}
use l7_proxy.Proxy.Handler.Replay.{rewrite-partial_body}
use l7_proxy.Proxy.Handler.Observed.{serve_http-proxied, to_sec_range}
use l7_proxy.Tests.{url_of}
use l7_proxy.Tests.Configs.{infrastructure}

abbrev pub refused : ProxyError
refused = record {
  is_unavailable = false;
  is_deadline = false;
  is_canceled = false;
  is_max_bytes = false;
}

-- The base transport fails for the host m:80 and answers 200 otherwise.
abbrev pub seams : Seams Unit
seams = record {
  limiter_allow = unlimited_limiter;
  gate_allow = allow_all_gate;
  gate_record = discard;
  round_trip = λ out deadline w. (
    if eq_str out.url.host (codes "m:80")
        then failure refused
        else response (record { status = 200; body = []; breaks = false; releases = false }),
    w,
  );
  context_done = λ w. false;
}

abbrev pub decision : Str → Decision
decision host = record {
  upstream = codes "main";
  timeout = pos 5;
  target = url_of host (codes "/v1");
  mirrors = record { url = url_of (codes "s:81") []; ratio = fin (pos 1) } ∷ [];
  fallback =
      some (record { name = codes "spare"; url = url_of (codes "s:81") []; timeout = pos 0 });
}

abbrev outbound : Str → Outbound
outbound method = record {
  method = method;
  url = url_of (codes "m:80") (codes "/v1");
  host = [];
  header = [];
  body = codes "b";
  get_body = some (some (codes "b"));
}

abbrev pub fresh : State Unit
fresh = record { world = tt; trace = [] }

abbrev get_trace : List Event
get_trace =
    (round_trip_decided seams (outbound (codes "GET")) (decision (codes "m:80")) refused
      fresh).1.trace

abbrev post_trace : List Event
post_trace =
    (round_trip_decided seams (outbound (codes "POST")) (decision (codes "m:80")) refused
      fresh).1.trace

-- GET fails over to the fallback, POST does not.
get_twice : (sends get_trace ≡ 2) × (sends post_trace ≡ 1)
unfolding round_trip_decided can_failover l7_proxy.Proxy.Transport.idempotent
get_twice = (refl, refl)

round_trip_decided-sends_example :
    sends post_trace
    ≤ sends fresh.trace
      + (if can_failover (outbound (codes "POST")) (decision (codes "m:80")).fallback then 2 else 1)
round_trip_decided-sends_example =
    round_trip_decided-sends seams (outbound (codes "POST")) refused (decision (codes "m:80")) fresh

round_trip_decided-IsRoundTrip_example :
    IsRoundTrip seams
      (outbound (codes "GET"))
      refused
      (decision (codes "m:80"))
      fresh
      (round_trip_decided seams (outbound (codes "GET")) (decision (codes "m:80")) refused fresh)
round_trip_decided-IsRoundTrip_example =
    round_trip_decided-IsRoundTrip seams (outbound (codes "GET")) refused (decision (codes "m:80"))
      fresh (λ e. cc)

post_failed :
    (round_trip_decided seams (outbound (codes "POST")) (decision (codes "m:80")) refused fresh).0
    ≡ failure refused
unfolding round_trip_decided can_failover l7_proxy.Proxy.Transport.idempotent
post_failed = refl

round_trip_decided-cancels_example :
    cancels post_trace + deadlines fresh.trace ≡ deadlines post_trace + cancels fresh.trace
round_trip_decided-cancels_example =
    round_trip_decided-cancels seams (outbound (codes "POST")) refused (decision (codes "m:80"))
      fresh refused post_failed

abbrev answer : Response
answer = record { status = 200; body = []; breaks = false; releases = true }

abbrev answered : State Unit
answered =
    (attempt seams (outbound (codes "GET")) (codes "main") (url_of (codes "n:80") (codes "/v1"))
      (pos 5) refused fresh).1

first_answers :
    attempt seams
      (outbound (codes "GET"))
      (codes "main")
      (url_of (codes "n:80") (codes "/v1"))
      (pos 5)
      refused
      fresh
    ≡ (response answer, answered)
unfolding attempt
first_answers = refl

round_trip_decided-GoesWhereDecided_example :
    All
      (GoesWhereDecided seams (outbound (codes "GET")) refused (decision (codes "m:80")))
      get_trace
round_trip_decided-GoesWhereDecided_example =
    round_trip_decided-GoesWhereDecided seams (outbound (codes "GET")) refused
      (decision (codes "m:80")) tt

-- The reverse proxy answers 502.
abbrev proxied : Decision → List Call
proxied d = http_error (codes "Bad Gateway: unexpected error") 502

serve_http-proxied_example :
    (s : Served) × (serve_http
        (record infrastructure { max_body_size = pos 10 })
        true
        (codes "GET")
        (pos 3)
        (ok (decision (codes "m:80")))
        proxied
      ≡ some s)
    × (s.calls ≡ proxied (decision (codes "m:80")))
    × (s.observed ≡ record { method = codes "GET"; upstream = codes "main"; status = 200 } ∷ [])
serve_http-proxied_example =
    serve_http-proxied (record infrastructure { max_body_size = pos 10 }) (codes "GET") (pos 3)
      (decision (codes "m:80")) proxied refl

to_sec_range_example :
    ((9_223_372_037 < 9_223_372_037)
      × (to_sec (pos 9_223_372_037) ≡ pos (9_223_372_037 * 1_000_000_000)))
    ⊎ ((9_223_372_037 ≤ 9_223_372_037) × (ltb_ℤ (to_sec (pos 9_223_372_037)) (pos 0) ≡ true))
to_sec_range_example = to_sec_range 9_223_372_037 (omega arith)

-- A body that breaks off, of a request without a GetBody.
abbrev partial_read : BodyRead
partial_read = record { body = codes "b"; failed = true }

abbrev no_get_body : Outbound
no_get_body = record (outbound (codes "GET")) { get_body = none }

rewrite-partial_body_example :
    ((rewrite (λ h. h) (some (decision (codes "m:80"))) partial_read no_get_body).1 ≡ none)
    × (sends
          (round_trip_decided seams
            (rewrite (λ h. h) (some (decision (codes "m:80"))) partial_read no_get_body).0
            (decision (codes "m:80"))
            refused
            fresh).1.trace
        ≤ sends fresh.trace + 1)
rewrite-partial_body_example =
    rewrite-partial_body seams (λ h. h) (decision (codes "m:80")) partial_read no_get_body refused
      fresh refl refl
