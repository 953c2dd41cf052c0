-- ===== src/Startup/Serves.antt =====
-- What becomes of the requests of a process that main (cmd/proxy/main.go) has started.
use l7_proxy.Prelude.{◌≡◌, false, List, some, All}
use l7_proxy.Text.{Str, is_empty}
use l7_proxy.Net.{Platform, Url}
use l7_proxy.Config.Cycles.{Graph}
use l7_proxy.Config.Cycles.Accepted.{Ranges}
use l7_proxy.Routing.Decide.{decide_route}
use l7_proxy.Routing.Decide.Resolved.{RegexpsFit}
use l7_proxy.Routing.Reload.{Monitor, Files, Run}
use l7_proxy.Proxy.{ProxyError}
use l7_proxy.Proxy.Transport.{Seams}
use l7_proxy.Proxy.Handler.{Served}
use l7_proxy.Proxy.Serve.{Inbound, Library, Rest, serve}
use l7_proxy.Proxy.Serve.Answers.{IsAnswered, serve-IsAnswered}
use l7_proxy.Startup.{System, Process, serving, main}
use l7_proxy.Startup.Ready.{main-serving}

-- A process that main has started, however its configuration has been reloaded since, answers every
-- request with a path that its server hands to ServeHTTP, while the mirrors of the routes name
-- upstreams and regexps are as documented: with 413 if it is too long, else with 404 if no route is
-- found, else with the status of the upstream's response or the one that its error stands for. The
-- first two leave the transport and the pool alone. Each is observed once, unless copying the body of
-- the upstream's response to the client fails: that is never observed.
pub main-serves :
    {W : Type 0} (os : Platform) (order : Graph → List Str) (sys : System) (q : Process)
    (seams : Seams W) (lib : Library) (body_error : ProxyError) (files : Files) (m : Monitor)
    (inbound : Inbound) (url : Url) (rest : Rest W)
    → Ranges order
    → main os order sys ≡ serving q
    → Run os order files q.watched q.router m
    → RegexpsFit os
    → All
        (λ route. All (λ mirror. is_empty mirror.upstream ≡ false) route.mirrors)
        m.index.cfg.routes
    → inbound.request.url ≡ some url
    → is_empty url.path ≡ false
    → (x : Served × Rest W) × (serve os seams lib body_error q.proxy.infra m.index inbound rest
        ≡ some x)
      × IsAnswered os seams lib body_error q.proxy.infra inbound
          (decide_route os m.index inbound.request)
          rest
          x
main-serves os order sys q seams lib body_error files m inbound url rest ranges h run fit named u
      p =
    let (c, ready) = main-serving os order sys q ranges h in
    serve-IsAnswered os seams lib body_error order files q.watched _ q.router m q.proxy.infra
      inbound url rest ready.created run fit named u p
