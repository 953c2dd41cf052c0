-- ===== src/Proxy/Transport.antt =====
-- proxy.go: attemptingTransport. The gate, the limiter, the base transport and the request's context
-- act on a world of their own; the trace lists what the transport does, the latest first.
use l7_proxy.Prelude.{
  Bool, true, false, ◌&&◌, ◌||◌, not, List, [], ◌∷◌, Option, none, some, if◌then◌else◌, is_some,
}
use l7_proxy.Prelude.Int.{ℤ, pos, ltb_ℤ}
use l7_proxy.Text.{Str, codes}
use l7_proxy.Dict.{member}
use l7_proxy.Net.{Url}
use l7_proxy.Routing.{Decision, FailoverTarget}
use l7_proxy.Proxy.{ProxyError, unavailable, Outbound, Response}

-- A response or an error.
pub data Outcome : Type 0 where
  response : Response → Outcome
  failure : ProxyError → Outcome

-- The error of an outcome, nil for a response.
abbrev pub error_of : Outcome → Option ProxyError
error_of (response _) = none
error_of (failure e) = some e

-- What the transport calls: Gate, Limiter, http.RoundTripper and Context.Err.
pub record Seams (W : Type 0) : Type 0 where
  pub limiter_allow : Str → W → Bool × W
  pub gate_allow : Str → W → Bool × W
  pub gate_record : Str → Option ProxyError → W → W
  pub round_trip : Outbound → Option ℤ → W → Outcome × W
  pub context_done : W → Bool

-- `armed` is context.WithTimeout for an attempt, `cancelled` a call of its cancel function.
pub data Event : Type 0 where
  armed : ℤ → Event
  sent : Outbound → Option ℤ → Event
  recorded : Str → Option ProxyError → Event
  cancelled : Event

pub record State (W : Type 0) : Type 0 where
  pub world : W
  pub trace : List Event

-- The default Gate and Limiter admit everything and discard outcomes.
abbrev pub allow_all_gate : {W : Type 0} → Str → W → Bool × W
allow_all_gate name w = (true, w)

abbrev pub discard : {W : Type 0} → Str → Option ProxyError → W → W
discard name e w = w

abbrev pub unlimited_limiter : {W : Type 0} → Str → W → Bool × W
unlimited_limiter name w = (true, w)

abbrev pub idempotent_methods : List Str
idempotent_methods =
    codes "GET" ∷ codes "HEAD" ∷ codes "PUT" ∷ codes "DELETE" ∷ codes "OPTIONS" ∷ codes "TRACE" ∷ []

unfoldable pub idempotent : Str → Bool
idempotent method = member method idempotent_methods

unfoldable pub can_failover : Outbound → Option FailoverTarget → Bool
can_failover req fallback = is_some fallback && (idempotent req.method && is_some req.get_body)

-- The clone of the request for a target: its scheme and host replace those of the URL.
abbrev pub clone_for : Outbound → Url → Outbound
clone_for req target = record req {
  url = record (req.url) { scheme = target.scheme; host = target.host };
  host = [];
}

module _ {W : Type 0} (seams : Seams W) where
  open seams use {limiter_allow, gate_allow, gate_record, round_trip, context_done}

  abbrev pub log : Event → State W → State W
  log e st = record st { trace = e ∷ st.trace }

  -- `if cancel != nil { cancel() }`
  abbrev pub cancel_if : Bool → State W → State W
  cancel_if b st = if b then log cancelled st else st

  -- What send makes of the base transport's outcome; `timed` says that the attempt has a deadline.
  abbrev pub settle : Bool → Outcome → State W → Outcome × State W
  settle timed (failure e) st = (failure e, cancel_if timed st)
  settle timed (response resp) st =
      (response (if timed then record resp { releases = true } else resp), st)

  abbrev pub run : Outbound → Option ℤ → State W → Outcome × State W
  run out deadline st =
      let done = round_trip out deadline st.world in
      (done.0, record { world = done.1; trace = sent out deadline ∷ st.trace })

  unfoldable pub send_body : Bool → Option ℤ → Outbound → State W → Outcome × State W
  send_body timed deadline out st = let done = run out deadline st in settle timed done.0 done.1

  -- An error of GetBody is returned as it is.
  unfoldable pub send : Outbound → Url → ℤ → ProxyError → State W → Outcome × State W
  unfolding send_body
  send req target timeout body_error st =
      let timed = ltb_ℤ (pos 0) timeout in
      let deadline = if timed then some timeout else none in
      let st' = if timed then log (armed timeout) st else st in
      elim req.get_body [
        | none ↦ send_body timed deadline (clone_for req target) st'
        | some none ↦ (failure body_error, cancel_if timed st')
        | some (some b) ↦ send_body timed deadline (record (clone_for req target) { body = b }) st'
      ]

  abbrev pub note : Str → Outcome × State W → Outcome × State W
  note name (o, st) = (
    o,
    record {
      world = gate_record name (error_of o) st.world;
      trace = recorded name (error_of o) ∷ st.trace;
    },
  )

  -- The gate is asked only if the limiter allows.
  unfoldable pub admits : Str → State W → Bool × State W
  admits name st =
      let l = limiter_allow name st.world in
      if l.0
      then (let g = gate_allow name l.1 in (g.0, record st { world = g.1 }))
      else (false, record st { world = l.1 })

  unfoldable pub attempt : Outbound → Str → Url → ℤ → ProxyError → State W → Outcome × State W
  unfolding admits send
  attempt req name target timeout body_error st =
      let asked = admits name st in
      if asked.0
      then note name (send req target timeout body_error asked.1)
      else (failure unavailable, asked.1)

  abbrev pub try_fallback :
      Outbound → Option FailoverTarget → ProxyError → Outcome × State W → Outcome × State W
  try_fallback req none body_error first = first
  try_fallback req (some f) body_error (o, st) = attempt req f.name f.url f.timeout body_error st

  -- The rest of RoundTrip behind the first attempt.
  unfoldable pub fail_over :
      Outbound → Option FailoverTarget → ProxyError → Outcome × State W → Outcome × State W
  unfolding attempt
  fail_over req fallback body_error (response resp, st) = (response resp, st)
  fail_over req fallback body_error (failure e, st) =
      if context_done st.world || not (can_failover req fallback)
      then (failure e, st)
      else try_fallback req fallback body_error (failure e, st)

  unfoldable pub round_trip_decided : Outbound → Decision → ProxyError → State W → Outcome × State W
  unfolding attempt fail_over
  round_trip_decided req d body_error st =
      fail_over req d.fallback body_error (attempt req d.upstream d.target d.timeout body_error st)

  -- Without a decision in the context the base transport is called as it is.
  unfoldable pub transport_round_trip :
      Outbound → Option Decision → ProxyError → State W → Outcome × State W
  unfolding round_trip_decided
  transport_round_trip req none body_error st = run req none st
  transport_round_trip req (some d) body_error st = round_trip_decided req d body_error st
