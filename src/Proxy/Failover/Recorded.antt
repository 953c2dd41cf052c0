-- ===== src/Proxy/Failover/Recorded.antt =====
-- What an attempt of proxy.go's transport tells the gate (attempt, g.Record), and that one which is
-- admitted is sent.
use l7_proxy.Prelude.{
  suc, ◌≤◌, ◌≡◌, ◌≢◌, refl, ◌⊎◌, inl, inr, true, false, ◌||◌, not, List, [], ◌∷◌, Option, none,
  some, arith, Bool-cases, Option-cases,
}
use l7_proxy.Prelude.Int.{ℤ}
use l7_proxy.Text.{Str}
use l7_proxy.Net.{Url}
use l7_proxy.Routing.{Decision, FailoverTarget}
use l7_proxy.Proxy.{ProxyError, unavailable, Outbound}
use l7_proxy.Proxy.Transport.{
  Outcome, response, failure, error_of, Seams, Event, recorded, State, can_failover, admits, send,
  send_body, attempt, fail_over, round_trip_decided,
}
use l7_proxy.Proxy.Failover.{sends, admits-trace}

-- The outcomes that were recorded, with the names that they were recorded for, the latest first.
abbrev pub records_of : List Event → List (Str × Option ProxyError)
records_of [] = []
records_of (recorded name e ∷ t) = (name, e) ∷ records_of t
records_of (_ ∷ t) = records_of t

module _ {W : Type 0} (seams : Seams W) where
  -- An attempt that is not admitted ends in ErrUpstreamUnavailable, and nothing is sent or recorded.
  -- One that is admitted sends once, and its own outcome is recorded for the upstream's name.
  abbrev pub IsAttempt : Str → State W → Outcome × State W → Type 0
  IsAttempt name st done =
      (((admits seams name st).0 ≡ false)
        × (done.0 ≡ failure unavailable)
        × (records_of done.1.trace ≡ records_of st.trace)
        × (sends done.1.trace ≡ sends st.trace))
      ⊎ (((admits seams name st).0 ≡ true)
          × (records_of done.1.trace ≡ (name, error_of done.0) ∷ records_of st.trace)
          × (sends done.1.trace ≡ suc (sends st.trace)))

  module _ (req : Outbound) (body_error : ProxyError) where
    send-once :
        (target : Url) (timeout : ℤ) (st : State W)
        → req.get_body ≢ some none
        → (records_of (send seams req target timeout body_error st).1.trace ≡ records_of st.trace)
          × (sends (send seams req target timeout body_error st).1.trace ≡ suc (sends st.trace))
    unfolding send send_body
    send-once target timeout st h = (ground (arith, h), ground (arith, h))

    attempt-IsAttempt :
        (name : Str) (target : Url) (timeout : ℤ) (st : State W)
        → req.get_body ≢ some none
        → IsAttempt name st (attempt seams req name target timeout body_error st)
    unfolding attempt
    attempt-IsAttempt name target timeout st h =
        let asked = admits seams name st in
        elim (Bool-cases asked.0) [
          | inl open' ↦
              let (silent, once) = send-once target timeout asked.1 h in
              let same = admits-trace seams name st in
              rw (open', attempt)
                (inr (refl, ground (arith, silent, same), ground (arith, once, same)))
          | inr shut ↦
              let same = admits-trace seams name st in
              rw (shut, attempt) (inl (refl, refl, rw same refl, rw same refl))
        ]

    -- One attempt for the decided upstream, or, after an error of it while the context lasts, one for
    -- the fallback of a request that may fail over too.
    abbrev pub IsRoundTrip : Decision → State W → Outcome × State W → Type 0
    IsRoundTrip d st done =
        IsAttempt d.upstream st done
        ⊎ ((f : FailoverTarget) × (e : ProxyError) × (between : State W) × (d.fallback ≡ some f)
            × (can_failover req d.fallback ≡ true)
            × (seams.context_done between.world ≡ false)
            × IsAttempt d.upstream st (failure e, between)
            × IsAttempt f.name between done)

    -- Where GetBody does not fail, a round trip is one attempt for the decided upstream, or, after an
    -- error of it while the context lasts, one for the fallback of a request that may fail over too.
    -- An attempt that the limiter and the gate admit is sent once and its own outcome, which is the
    -- result for the last, is recorded for the name of its upstream; for one that they refuse, nothing
    -- is sent or recorded, and its outcome is ErrUpstreamUnavailable.
    pub round_trip_decided-IsRoundTrip :
        (d : Decision) (st : State W)
        → req.get_body ≢ some none
        → IsRoundTrip d st (round_trip_decided seams req d body_error st)
    unfolding round_trip_decided fail_over
    round_trip_decided-IsRoundTrip d st h =
        at (attempt seams req d.upstream d.target d.timeout body_error st)
          (attempt-IsAttempt d.upstream d.target d.timeout st h)
      where
        at :
            (first : Outcome × State W)
            → IsAttempt d.upstream st first
            → IsRoundTrip d st (fail_over seams req d.fallback body_error first)
        at (response r, between) k = inl k
        at (failure e, between) k =
            elim (Bool-cases
              (seams.context_done between.world || not (can_failover req d.fallback))) [
                | inl stop ↦ inl (rw (stop, fail_over) k)
                | inr go ↦ elim (Option-cases d.fallback) [
                  | inl gone ↦ inl (rw (go, gone, fail_over) k)
                  | inr (f, there) ↦
                      let second = attempt-IsAttempt f.name f.url f.timeout between h in
                      inr (
                        f,
                        e,
                        between,
                        there,
                        ground arith,
                        ground arith,
                        k,
                        rw (go, there, fail_over) second,
                      )
                ]
              ]

    -- An admitted first attempt is sent.
    pub round_trip_decided-sent :
        (d : Decision) (st : State W)
        → req.get_body ≢ some none
        → (admits seams d.upstream st).0 ≡ true
        → suc (sends st.trace) ≤ sends (round_trip_decided seams req d body_error st).1.trace
    round_trip_decided-sent d st h admitted = elim (round_trip_decided-IsRoundTrip d st h) [
      | inl (inl (shut, _, _, _)) ↦ absurd (ground arith)
      | inl (inr (_, _, once)) ↦ ground (arith, once)
      | inr (f, e, between, _, _, _, inl (shut, _, _, _), _) ↦ absurd (ground arith)
      | inr (f, e, between, _, _, _, inr (_, _, once), inl (_, _, _, same)) ↦
          omega (arith, once, same)
      | inr (f, e, between, _, _, _, inr (_, _, once), inr (_, _, twice)) ↦
          omega (arith, once, twice)
    ]
