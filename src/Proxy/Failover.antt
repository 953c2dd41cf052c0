-- ===== src/Proxy/Failover.antt =====
-- Failover in proxy.go (RoundTrip, attempt, send): how often and where a request is sent.
pub mod Recorded
use l7_proxy.Prelude.{
  ℕ, suc, ◌+◌, ◌≤◌, ◌≡◌, ◌≢◌, refl, ◌⊎◌, inl, inr, Bool, true, false, ◌||◌, not, List, [], ◌∷◌,
  Option, none, some, if◌then◌else◌, arith, All, Bool-cases, Option-cases,
}
use l7_proxy.Prelude.Int.{ℤ, pos, ltb_ℤ}
use l7_proxy.Text.{Str}
use l7_proxy.Net.{Url}
use l7_proxy.Routing.{Decision, FailoverTarget}
use l7_proxy.Proxy.{ProxyError, Outbound, Response}
use l7_proxy.Proxy.Transport.{
  Outcome, response, failure, Seams, Event, armed, sent, recorded, cancelled, State, can_failover,
  admits, clone_for, cancel_if, log, settle, send, send_body, attempt, try_fallback, fail_over,
  round_trip_decided,
}

-- How often a trace sends, sets a deadline and cancels one.
abbrev pub sends : List Event → ℕ
sends [] = 0
sends (sent _ _ ∷ t) = suc (sends t)
sends (_ ∷ t) = sends t

abbrev pub deadlines : List Event → ℕ
deadlines [] = 0
deadlines (armed _ ∷ t) = suc (deadlines t)
deadlines (_ ∷ t) = deadlines t

abbrev pub cancels : List Event → ℕ
cancels [] = 0
cancels (cancelled ∷ t) = suc (cancels t)
cancels (_ ∷ t) = cancels t

module _ {W : Type 0} (seams : Seams W) where
  pub admits-trace : (name : Str) (st : State W) → (admits seams name st).1.trace ≡ st.trace
  unfolding admits
  admits-trace name st = ground arith

  module _ (req : Outbound) (body_error : ProxyError) where
    attempt-sends :
        (name : Str) (target : Url) (timeout : ℤ) (st : State W)
        → sends (attempt seams req name target timeout body_error st).1.trace ≤ sends st.trace + 1
    unfolding attempt
    attempt-sends name target timeout st = ground (arith, admits-trace name st)

    attempt-cancels :
        (name : Str) (target : Url) (timeout : ℤ) (st : State W) (e : ProxyError)
        → (attempt seams req name target timeout body_error st).0 ≡ failure e
        → cancels (attempt seams req name target timeout body_error st).1.trace + deadlines st.trace
          ≡ deadlines (attempt seams req name target timeout body_error st).1.trace
            + cancels st.trace
    unfolding attempt
    attempt-cancels name target timeout st e h = ground (arith, admits-trace name st)

    fail_over-sends :
        (fallback : Option FailoverTarget) (first : Outcome × State W)
        → sends (fail_over seams req fallback body_error first).1.trace
          ≤ sends first.1.trace + (if can_failover req fallback then 1 else 0)
    unfolding fail_over
    fail_over-sends none (response r, st) = ground arith
    fail_over-sends none (failure e, st) = ground arith
    fail_over-sends (some f) (response r, st) = ground arith
    fail_over-sends (some f) (failure e, st) =
        ground (arith, attempt-sends f.name f.url f.timeout st)

    -- A request is sent at most twice, and at most once if it may not fail over: no fallback is
    -- configured, the method is not idempotent, or the body was not buffered.
    pub round_trip_decided-sends :
        (d : Decision) (st : State W)
        → sends (round_trip_decided seams req d body_error st).1.trace
          ≤ sends st.trace + (if can_failover req d.fallback then 2 else 1)
    unfolding round_trip_decided
    round_trip_decided-sends d st = ground (
      arith,
      attempt-sends d.upstream d.target d.timeout st,
      fail_over-sends d.fallback (attempt seams req d.upstream d.target d.timeout body_error st),
    )

    -- A round trip that fails has cancelled every deadline that it set.
    pub round_trip_decided-cancels :
        (d : Decision) (st : State W) (e : ProxyError)
        → (round_trip_decided seams req d body_error st).0 ≡ failure e
        → cancels (round_trip_decided seams req d body_error st).1.trace + deadlines st.trace
          ≡ deadlines (round_trip_decided seams req d body_error st).1.trace + cancels st.trace
    unfolding round_trip_decided fail_over
    round_trip_decided-cancels d st e h = ground (
      arith,
      λ (e : ProxyError). attempt-cancels d.upstream d.target d.timeout st e,
      λ (f : FailoverTarget).
          attempt-cancels f.name f.url f.timeout
            (attempt seams req d.upstream d.target d.timeout body_error st).1 e,
    )

    -- The first attempt's response is the result, whatever its status, with no second attempt.
    pub round_trip_decided-response :
        (d : Decision) (st st' : State W) (resp : Response)
        → attempt seams req d.upstream d.target d.timeout body_error st ≡ (response resp, st')
        → round_trip_decided seams req d body_error st ≡ (response resp, st')
    unfolding round_trip_decided fail_over
    round_trip_decided-response d st st' resp h = ground arith

    -- Where an event may send a request: to a host with its scheme, the rest of the request unchanged,
    -- its body perhaps replayed.
    abbrev pub GoesTo : Url → Event → Type 0
    GoesTo target (sent out _) =
        (out.method ≡ req.method)
        × (out.url.path ≡ req.url.path)
        × (out.url.raw_query ≡ req.url.raw_query)
        × (out.url.host ≡ target.host)
        × (out.url.scheme ≡ target.scheme)
        × ((out.body ≡ req.body) ⊎ (req.get_body ≡ some (some out.body)))
    GoesTo target _ = Unit

    -- To the decided target or to the host of the fallback.
    abbrev pub GoesWhereDecided : Decision → Event → Type 0
    GoesWhereDecided d e =
        GoesTo d.target e ⊎ ((f : FailoverTarget) × (d.fallback ≡ some f) × GoesTo f.url e)

    module _ (P : Event → Type 0) (target : Url) (keep : (e : Event) → GoesTo target e → P e) where
      cancel_if-All :
          (b : Bool) (st : State W) → All P st.trace → All P (cancel_if seams b st).trace
      cancel_if-All true st h = (keep cancelled tt, h)
      cancel_if-All false st h = h

      settle-All :
          (b : Bool) (o : Outcome) (st : State W)
          → All P st.trace
          → All P (settle seams b o st).1.trace
      settle-All b (failure e) st h = cancel_if-All b st h
      settle-All b (response r) st h = h

      arm-All :
          (b : Bool) (timeout : ℤ) (st : State W)
          → All P st.trace
          → All P (if b then log seams (armed timeout) st else st).trace
      arm-All true timeout st h = (keep (armed timeout) tt, h)
      arm-All false timeout st h = h

      send_body-All :
          (b : Bool) (deadline : Option ℤ) (out : Outbound) (st : State W)
          → P (sent out deadline)
          → All P st.trace
          → All P (send_body seams b deadline out st).1.trace
      unfolding send_body
      send_body-All b deadline out st p h =
          let done = seams.round_trip out deadline st.world in
          settle-All b done.0 (record { world = done.1; trace = sent out deadline ∷ st.trace })
            (p, h)

      send-All :
          (timeout : ℤ) (st : State W)
          → All P st.trace
          → All P (send seams req target timeout body_error st).1.trace
      unfolding send
      send-All timeout st h =
          let timed = ltb_ℤ (pos 0) timeout in
          let deadline : Option ℤ = if timed then some timeout else none in
          let out = clone_for req target in
          let k = arm-All timed timeout st h in
          elim (Option-cases req.get_body) [
            | inl e ↦
                rw (e, send)
                  (send_body-All timed deadline out _
                    (keep (sent out deadline) (refl, refl, refl, refl, refl, inl refl)) k)
            | inr (none, e) ↦ rw (e, send) (cancel_if-All timed _ k)
            | inr (some b, e) ↦
                rw (e, send)
                  (send_body-All timed deadline (record out { body = b }) _
                    (keep (sent (record out { body = b }) deadline)
                      (refl, refl, refl, refl, refl, inr e))
                    k)
          ]

      attempt-All :
          (name : Str) (timeout : ℤ) (st : State W)
          → All P st.trace
          → All P (attempt seams req name target timeout body_error st).1.trace
      unfolding attempt
      attempt-All name timeout st h =
          let asked = admits seams name st in
          let k : All P asked.1.trace = rw (admits-trace name st) h in
          elim (Bool-cases asked.0) [
            | inl e ↦ rw (e, attempt) (keep _ tt, send-All timeout asked.1 k)
            | inr e ↦ rw (e, attempt) k
          ]

    -- Every request that is sent keeps the method, path and query, has the body or a replay of it, and
    -- goes to the scheme and host of the decided target or of the decided fallback.
    pub round_trip_decided-GoesWhereDecided :
        (d : Decision) (w : W)
        → All
            (GoesWhereDecided d)
            (round_trip_decided seams req d body_error (record { world = w; trace = [] })).1.trace
    unfolding round_trip_decided fail_over
    round_trip_decided-GoesWhereDecided d w =
        fail_over-All d.fallback refl (attempt seams req d.upstream d.target d.timeout body_error _)
          (attempt-All (GoesWhereDecided d) d.target (λ e g. inl g) d.upstream d.timeout _ tt)
      where
        retry :
            (fallback : Option FailoverTarget)
            → d.fallback ≡ fallback
            → (first : Outcome × State W) → All (GoesWhereDecided d) first.1.trace
            → All (GoesWhereDecided d) (try_fallback seams req fallback body_error first).1.trace
        retry none same first h = h
        retry (some f) same (o, st) h =
            attempt-All (GoesWhereDecided d) f.url (λ e g. inr (f, same, g)) f.name f.timeout st h

        fail_over-All :
            (fallback : Option FailoverTarget)
            → d.fallback ≡ fallback
            → (first : Outcome × State W) → All (GoesWhereDecided d) first.1.trace
            → All (GoesWhereDecided d) (fail_over seams req fallback body_error first).1.trace
        fail_over-All fallback same (response r, st) h = h
        fail_over-All fallback same (failure e, st) h =
            elim (Bool-cases (seams.context_done st.world || not (can_failover req fallback))) [
              | inl stop ↦ rw stop h
              | inr go ↦ rw go (retry fallback same (failure e, st) h)
            ]
