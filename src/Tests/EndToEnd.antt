-- ===== src/Tests/EndToEnd.antt =====
-- Requests that are served on the test configuration.
use l7_proxy.Prelude.{
  ℕ, ◌+◌, ◌≡◌, ◌<◌, ◌≤◌, refl, List, [], ◌∷◌, none, some, true, false, All, length, take, arith,
}
use l7_proxy.Prelude.Int.{pos, negsuc}
use l7_proxy.Text.{Str, codes}
use l7_proxy.Routing.Index.{new_route_index}
use l7_proxy.Routing.Decide.{ok}
use l7_proxy.Mirroring.Pool.{new_pool}
use l7_proxy.Proxy.{Outbound}
use l7_proxy.Routing.{Decision}
use l7_proxy.Proxy.Failover.{sends}
use l7_proxy.Proxy.Transport.{Seams, admits, State, round_trip_decided}
use l7_proxy.Proxy.Handler.{Served, http_error, is_too_long}
use l7_proxy.Proxy.Serve.{Inbound, Library, Rest, serve, serve_as}
use l7_proxy.Proxy.Serve.Bodies.{Carries, serve-first_bytes}
use l7_proxy.Metrics.{RequestMetrics, request_labels, observe}
use l7_proxy.Tests.Metering.{Counts, Durations, vectors, vectors-CountsUp}
use l7_proxy.Proxy.Serve.Totals.{Arrival, serve_all, IsObservable, serve_all-total}
use l7_proxy.Proxy.Serve.Refusals.{RefusesAll, serve_as-refused}
use l7_proxy.Config.Cycles.{keys}
use l7_proxy.Tests.{parsers, url_of, request, loaded_config}
use l7_proxy.Tests.Configs.{infrastructure}
use l7_proxy.Tests.Decisions.{parsers-RegexpsFit, api_decision, api_decided}
use l7_proxy.Proxy.Serve.Answers.{IsAnswered}
use l7_proxy.Routing.Decide.{decide_route}
use l7_proxy.Startup.Serves.{main-serves}
use l7_proxy.Tests.Cycles.{keys-Ranges}
use l7_proxy.Tests.Startups.{system, process, boots}
use l7_proxy.Tests.Reloads.{files, cooling, hup-Run}
use l7_proxy.Tests.Serving.{refused, seams, decision, fresh}

abbrev library : Library
library = record {
  clone = λ r. record {
    method = r.method;
    url = url_of [] [];
    host = r.host;
    header = r.header;
    body = [];
    get_body = none;
  };
  set_x_forwarded = λ h. h;
}

-- Six bytes of unknown length, where the limit is one byte.
abbrev chunked : Inbound
chunked = record {
  request = request (codes "/api/items");
  content_length = negsuc 0;
  body = codes "larger";
  breaks = false;
}

abbrev inbound : Inbound
inbound = record {
  request = request (codes "/x");
  content_length = pos 1;
  body = codes "b";
  breaks = false;
}

abbrev rest : Rest Unit
rest = record { state = fresh; pool = new_pool (pos 1) (pos 1) }

main-serves_example :
    (x : Served × Rest Unit) × (serve parsers seams library refused process.proxy.infra
        cooling.index inbound rest
      ≡ some x)
    × IsAnswered parsers seams library refused process.proxy.infra inbound
        (decide_route parsers cooling.index inbound.request)
        rest
        x
unfolding new_route_index
main-serves_example =
    main-serves parsers keys system process seams library refused files cooling inbound
      (url_of [] (codes "/x")) rest keys-Ranges boots hup-Run parsers-RegexpsFit
      (tt, ((refl, tt), (tt, tt))) refl refl

-- A gate that refuses everything.
abbrev shut_seams : Seams Unit
shut_seams = record seams { gate_allow = λ name w. (false, w) }

refuses : RefusesAll shut_seams
unfolding l7_proxy.Proxy.Transport.admits
refuses name st = refl

serve_as-refused_example :
    (x : Served × Rest Unit) × (serve_as shut_seams library refused infrastructure inbound
        (ok (decision (codes "m:80")))
        rest
      ≡ some x)
    × (x.0.calls ≡ http_error (codes "Upstream unavailable") 503)
    × (x.1.state.trace ≡ [])
serve_as-refused_example =
    serve_as-refused shut_seams library refused infrastructure inbound (decision (codes "m:80"))
      rest refuses refl

abbrev after : Rest Unit
after = record {
  state = record {
    world = tt;
    trace =
        (round_trip_decided seams
          (record (library.clone chunked.request) {
            url = api_decision.target;
            host = [];
            body = codes "l";
          })
          api_decision refused fresh).1.trace;
  };
  pool = rest.pool;
}

-- The client gets a 502, which is observed as 200.
abbrev answered : Served
answered = record {
  calls = http_error (codes "Bad Gateway: unexpected error") 502;
  observed = record { method = codes "GET"; upstream = codes "main"; status = 200 } ∷ [];
  body_limit = some (pos 1);
  deadline = some (pos 30_000_000_000);
}

chunked_served :
    serve parsers seams library refused infrastructure (new_route_index loaded_config) chunked rest
    ≡ some (answered, after)
unfolding serve round_trip_decided l7_proxy.Proxy.Transport.can_failover
    l7_proxy.Proxy.Transport.idempotent
chunked_served = rw api_decided refl

serve-first_bytes_example :
    All (Carries (take 1 (codes "larger"))) after.state.trace
    × (1 < length (codes "larger") → after.pool ≡ rest.pool)
    × ((d : Decision)
        → decide_route parsers (new_route_index loaded_config) chunked.request ≡ ok d
        → is_too_long infrastructure chunked.content_length ≡ false
        → (admits seams d.upstream fresh).0 ≡ true
        → 1 ≤ sends after.state.trace)
serve-first_bytes_example =
    serve-first_bytes seams library refused parsers infrastructure (new_route_index loaded_config)
      chunked tt rest.pool 1 answered after refl (omega arith) refl chunked_served

abbrev arrivals : List Arrival
arrivals =
    record { index = new_route_index loaded_config; inbound = chunked; duration = pos 5 } ∷ []

abbrev no_metrics : RequestMetrics Counts Durations
no_metrics = record { requests_total = []; request_duration = [] }

abbrev one_counted : RequestMetrics Counts Durations
one_counted = observe vectors (codes "GET") (codes "main") 200 (pos 5) no_metrics

all_served :
    serve_all vectors parsers seams library refused infrastructure arrivals rest no_metrics
    ≡ some (after, one_counted, 0)
all_served = rw (chunked_served, serve_all) refl

serve_all-total_example :
    (vectors.total one_counted.requests_total + 0
      ≡ vectors.total no_metrics.requests_total + length arrivals)
    × ((method upstream : Str) (status : ℕ)
        → ¬ IsObservable status
        → vectors.value (request_labels method upstream status) one_counted.requests_total
          ≡ vectors.value (request_labels method upstream status) no_metrics.requests_total)
serve_all-total_example =
    serve_all-total vectors parsers seams library refused infrastructure arrivals rest after
      no_metrics one_counted 0 vectors-CountsUp all_served
