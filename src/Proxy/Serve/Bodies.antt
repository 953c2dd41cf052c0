-- ===== src/Proxy/Serve/Bodies.antt =====
-- What becomes of the body of a request (proxy.go: ServeHTTP with MaxBytesReader, then rewrite).
use l7_proxy.Prelude.{
  ℕ, zero, suc, ◌≤◌, ◌<◌, ◌≡◌, inl, inr, refl, ap, sym, ◌≢◌, ◌∙◌, subst, Bool, true, false, List,
  [], ◌∷◌, Option, none, some, arith, All, length, take,
}
use l7_proxy.Prelude.Int.{pos}
use l7_proxy.Text.{Str}
use l7_proxy.Net.{Platform}
use l7_proxy.Config.{InfrastructureConfig}
use l7_proxy.Routing.{RouteIndex, Decision}
use l7_proxy.Routing.Decide.{Result, ok, err, panic, decide_route}
use l7_proxy.Mirroring.Pool.{Pool}
use l7_proxy.Proxy.{ProxyError, Outbound}
use l7_proxy.Proxy.Transport.{
  Seams, Event, admits, sent, armed, recorded, cancelled, transport_round_trip,
}
use l7_proxy.Proxy.Failover.Recorded.{round_trip_decided-sent}
use l7_proxy.Proxy.Failover.{sends, GoesTo, round_trip_decided-GoesWhereDecided}
use l7_proxy.Proxy.Handler.{Served, BodyRead, limit_of, is_too_long, rewrite}
use l7_proxy.Proxy.Serve.{
  Inbound, Library, Rest, read_all, submit, reverse_proxy, with_rest, rest_of, serve_as, serve,
}

take-short : (n : ℕ) (xs : Str) → length xs ≤ n → take n xs ≡ xs
take-short zero [] h = refl
take-short zero (x ∷ xs) h = absurd (omega arith)
take-short (suc n) [] h = refl
take-short (suc n) (x ∷ xs) h = ap (λ ys. x ∷ ys) (take-short n xs (omega arith))

All-map :
    {A : Type 0} {P Q : A → Type 0} (f : (a : A) → P a → Q a) (xs : List A) → All P xs → All Q xs
All-map f [] h = tt
All-map f (x ∷ xs) (p, h) = (f x p, All-map f xs h)

-- A request that is sent has this body.
abbrev pub Carries : Str → Event → Type 0
Carries body (sent out _) = out.body ≡ body
Carries body _ = Unit

read_all-body :
    (n : ℕ) (body : Str) (breaks : Bool) → (read_all (some (pos n)) body breaks).body ≡ take n body
unfolding read_all
read_all-body n body breaks = ground (arith, take-short n body)

read_all-failed :
    (n : ℕ) (body : Str) (breaks : Bool)
    → n < length body
    → (read_all (some (pos n)) body breaks).failed ≡ true
unfolding read_all
read_all-failed n body breaks h = ground arith

-- The outbound request has the body that was read, and so has a replay of it.
rewrite-body :
    (lib : Library) (d : Decision) (read : BodyRead) (out : Outbound) (b : Str)
    → out.get_body ≡ none
    → ((rewrite lib.set_x_forwarded (some d) read out).0.body ≡ read.body)
      × ((rewrite lib.set_x_forwarded (some d) read out).0.get_body ≡ some (some b) → b ≡ read.body)
unfolding rewrite
rewrite-body lib d read out b h = ground arith

-- GetBody never fails for what is sent.
rewrite-get_body_ok :
    (lib : Library) (d : Decision) (read : BodyRead) (out : Outbound)
    → out.get_body ≡ none
    → (rewrite lib.set_x_forwarded (some d) read out).0.get_body ≢ some none
unfolding rewrite
rewrite-get_body_ok lib d read out h k = ground arith

with_rest-some :
    {W : Type 0} (o : Option Served) (b : Bool) (after rest : Rest W) (s : Served)
    → with_rest o b after ≡ some (s, rest)
    → after ≡ rest
with_rest-some none b after rest s h = cc
with_rest-some (some t) b after rest s h = cc

-- What holds before, and behind the reverse proxy for any decision, holds behind ServeHTTP.
rest_of-keeps :
    {W : Type 0} (P : Rest W → Type 0) (long : Bool) (decided : Result Decision)
    (proxied : Decision → Rest W) (rest : Rest W)
    → P rest
    → ((d : Decision) → P (proxied d))
    → P (rest_of long decided proxied rest)
rest_of-keeps P true decided proxied rest p q = p
rest_of-keeps P false (ok d) proxied rest p q = q d
rest_of-keeps P false (err e) proxied rest p q = p
rest_of-keeps P false panic proxied rest p q = p

rest_of-decided :
    {W : Type 0} (long : Bool) (decided : Result Decision) (proxied : Decision → Rest W)
    (rest : Rest W) (d : Decision)
    → decided ≡ ok d
    → long ≡ false
    → rest_of long decided proxied rest ≡ proxied d
rest_of-decided long decided proxied rest d e fits = rw (e, fits) refl

limit_of-pos :
    (infra : InfrastructureConfig) (n : ℕ)
    → infra.max_body_size ≡ pos n
    → 1 ≤ n
    → limit_of infra ≡ some (pos n)
limit_of-pos infra n size positive = rw size (ground (arith, positive))

module _ {W : Type 0} (seams : Seams W) (lib : Library) (body_error : ProxyError) where
  GoesTo-Carries :
      (req : Outbound) (body : Str) (target : _) (e : Event)
      → req.body ≡ body
      → ((b : Str) → req.get_body ≡ some (some b) → b ≡ body)
      → GoesTo seams req body_error target e
      → Carries body e
  GoesTo-Carries req body target (sent out deadline) same replayed (_, _, _, _, _, inl h) = h ∙ same
  GoesTo-Carries req body target (sent out deadline) same replayed (_, _, _, _, _, inr h) =
      replayed out.body h
  GoesTo-Carries req body target (armed _) same replayed h = tt
  GoesTo-Carries req body target (recorded _ _) same replayed h = tt
  GoesTo-Carries req body target cancelled same replayed h = tt

  reverse_proxy-Carries :
      (inbound : Inbound) (read : BodyRead) (d : Decision) (w : W) (pool : Pool)
      → (lib.clone inbound.request).get_body ≡ none
      → All
          (Carries read.body)
          (reverse_proxy seams lib body_error inbound.request read d
            (record { state = record { world = w; trace = [] }; pool = pool })).rest.state.trace
  unfolding reverse_proxy transport_round_trip
  reverse_proxy-Carries inbound read d w pool h =
      let req = lib.clone inbound.request in
      let out = (rewrite lib.set_x_forwarded (some d) read req).0 in
      let same = (rewrite-body lib d read req [] h).0 in
      let replayed = λ (b : Str). (rewrite-body lib d read req b h).1 in
      All-map
        (λ e g. elim g [
          | inl at_target ↦ GoesTo-Carries out read.body d.target e same replayed at_target
          | inr (f, _, at_fallback) ↦ GoesTo-Carries out read.body f.url e same replayed at_fallback
        ])
        _ (round_trip_decided-GoesWhereDecided seams out body_error d w)

  -- A request that is decided on is sent if its upstream is admitted.
  reverse_proxy-sent :
      (inbound : Inbound) (read : BodyRead) (d : Decision) (rest : Rest W)
      → (lib.clone inbound.request).get_body ≡ none
      → rest.state.trace ≡ []
      → (admits seams d.upstream rest.state).0 ≡ true
      → 1 ≤ sends (reverse_proxy seams lib body_error inbound.request read d rest).rest.state.trace
  unfolding reverse_proxy transport_round_trip
  reverse_proxy-sent inbound read d rest h start admitted =
      let out = (rewrite lib.set_x_forwarded (some d) read (lib.clone inbound.request)).0 in
      let replays = rewrite-get_body_ok lib d read (lib.clone inbound.request) h in
      let none_before : sends rest.state.trace ≡ 0 = rw start refl in
      let some_after = round_trip_decided-sent seams out body_error d rest.state replays admitted in
      omega (arith, none_before, some_after)

  reverse_proxy-failed :
      (inbound : Inbound) (read : BodyRead) (d : Decision) (rest : Rest W)
      → read.failed ≡ true
      → (reverse_proxy seams lib body_error inbound.request read d rest).rest.pool ≡ rest.pool
  unfolding reverse_proxy rewrite submit
  reverse_proxy-failed inbound read d rest h = rw h refl

  -- Where a request of the server has no GetBody, what is sent for it, and sent again to a fallback,
  -- has the first bytes of its body up to the limit: all of a body that is not longer. A body that is
  -- longer is cut off and not mirrored. A request whose declared length, if it has one, is within the
  -- limit and which is decided on is sent, its body cut off or not, if its upstream is admitted.
  pub serve-first_bytes :
      (os : Platform) (infra : InfrastructureConfig) (idx : RouteIndex) (inbound : Inbound) (w : W)
      (pool : Pool) (n : ℕ) (s : Served) (rest : Rest W)
      → infra.max_body_size ≡ pos n
      → 1 ≤ n
      → (lib.clone inbound.request).get_body ≡ none
      → serve os seams lib body_error infra idx inbound
          (record { state = record { world = w; trace = [] }; pool = pool })
        ≡ some (s, rest)
      → All (Carries (take n inbound.body)) rest.state.trace
        × (n < length inbound.body → rest.pool ≡ pool)
        × ((d : Decision)
            → decide_route os idx inbound.request ≡ ok d
            → is_too_long infra inbound.content_length ≡ false
            → (admits seams d.upstream (record { world = w; trace = [] })).0 ≡ true
            → 1 ≤ sends rest.state.trace)
  unfolding serve serve_as
  serve-first_bytes os infra idx inbound w pool n s rest size positive h served =
      let limit = limit_of-pos infra n size positive in
      let read = read_all (limit_of infra) inbound.body inbound.breaks in
      let body : read.body ≡ take n inbound.body =
        rw limit (read_all-body n inbound.body inbound.breaks) in
      let failed : n < length inbound.body → read.failed ≡ true =
        rw limit (read_all-failed n inbound.body inbound.breaks) in
      let start : Rest W = record { state = record { world = w; trace = [] }; pool = pool } in
      let (carried, kept) =
        subst
          (λ r.
            All (Carries (take n inbound.body)) r.state.trace
            × (n < length inbound.body → r.pool ≡ pool))
          (with_rest-some _ _ _ rest s served)
          (rest_of-keeps
            (λ r.
              All (Carries (take n inbound.body)) r.state.trace
              × (n < length inbound.body → r.pool ≡ pool))
            (is_too_long infra inbound.content_length) (decide_route os idx inbound.request) _ start
            (tt, λ _. refl)
            (λ d. (
              rw (← body) (reverse_proxy-Carries inbound read d w pool h),
              λ long. reverse_proxy-failed inbound read d start (failed long),
            ))) in
      (
        carried,
        kept,
        λ d decided fits admitted.
            subst (λ r. 1 ≤ sends r.state.trace)
              (sym (
                  rest_of-decided _ _
                    (λ e. (reverse_proxy seams lib body_error inbound.request read e start).rest)
                    start d decided fits)
                ∙ with_rest-some _ _ _ rest s served)
              (reverse_proxy-sent inbound read d start h refl admitted),
      )
