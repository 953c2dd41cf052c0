-- ===== src/Proxy/Shutdown/Ends.antt =====
-- How a server (proxy.go, Run) comes to its end when its context is cancelled.
use l7_proxy.Prelude.{List}
use l7_proxy.Mirroring.Pool.{Pool, Label}
use l7_proxy.Proxy.Shutdown
use l7_proxy.Proxy.Shutdown.{System, Run}

-- Some run leads from one state to another.
abbrev pub Leads : System → System → Type 0
Leads s t = (ls : List Label) × Run s ls t
