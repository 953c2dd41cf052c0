-- ===== src/Proxy/Handler/Replay.antt =====
-- What rewrite (proxy.go) makes of a body that breaks off.
use l7_proxy.Prelude.{◌+◌, ◌≤◌, ◌≡◌, true, false, List, none, some, arith}
use l7_proxy.Text.{Str}
use l7_proxy.Dict.{Dict}
use l7_proxy.Routing.{Decision}
use l7_proxy.Proxy.{ProxyError, Outbound}
use l7_proxy.Proxy.Transport.{Seams, State, round_trip_decided, can_failover}
use l7_proxy.Proxy.Failover.{sends, round_trip_decided-sends}
use l7_proxy.Proxy.Handler.{BodyRead, rewrite}

rewrite-get_body :
    (x : Dict (List Str) → Dict (List Str)) (d : Decision) (read : BodyRead) (out : Outbound)
    → read.failed ≡ true
    → (rewrite x (some d) read out).0.get_body ≡ out.get_body
unfolding rewrite
rewrite-get_body x d read out h = ground arith

can_failover-nil :
    (req : Outbound) (d : Decision) → req.get_body ≡ none → can_failover req d.fallback ≡ false
unfolding can_failover
can_failover-nil req d h = ground arith

-- A request whose body could not be read in full, and that had no GetBody of its own, is neither
-- mirrored nor sent more than once.
pub rewrite-partial_body :
    {W : Type 0} (seams : Seams W) (x : Dict (List Str) → Dict (List Str)) (d : Decision)
    (read : BodyRead) (out : Outbound) (e : ProxyError) (st : State W)
    → read.failed ≡ true
    → out.get_body ≡ none
    → ((rewrite x (some d) read out).1 ≡ none)
      × (sends (round_trip_decided seams (rewrite x (some d) read out).0 d e st).1.trace
          ≤ sends st.trace + 1)
unfolding rewrite
rewrite-partial_body seams x d read out e st h g =
    let out' = (rewrite x (some d) read out).0 in
    (
      ground arith,
      ground (
        arith,
        round_trip_decided-sends seams out' e d st,
        can_failover-nil out' d,
        rewrite-get_body x d read out h,
      ),
    )
