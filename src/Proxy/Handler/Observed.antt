-- ===== src/Proxy/Handler/Observed.antt =====
-- What ServeHTTP (proxy.go) writes and what it observes.
use l7_proxy.Prelude.{
  ◌⊎◌, inl, inr, ltb, Bool-cases, false, ℕ, ◌≤◌, ◌<◌, ◌*◌, ◌≡◌, ◌≢◌, refl, ap, true, List, [], ◌∷◌,
  ◌++◌, some, arith,
}
use l7_proxy.Prelude.Int.{ℤ, pos, ltb_ℤ}
use l7_proxy.Text.{Str}
use l7_proxy.Config.{InfrastructureConfig}
use l7_proxy.Routing.{Decision}
use l7_proxy.Routing.Decide.{ok}
use l7_proxy.Proxy.Handler.{
  Call, write_header, write, flush, ResponseWriter, on_call, on_calls, Served, reverse, serve_http,
  serve_decided, to_sec,
}

-- Under a status code other than 0 no call changes it.
pub on_calls-status :
    (cs : List Call) (w : ResponseWriter)
    → w.status_code ≢ 0
    → (on_calls cs w).status_code ≡ w.status_code
unfolding on_calls
on_calls-status [] w h = refl
on_calls-status (write_header code ∷ cs) w h =
    ground (arith, on_calls-status cs (on_call (write_header code) w))
on_calls-status (write b ∷ cs) w h = ground (arith, on_calls-status cs (on_call (write b) w))
on_calls-status (flush ∷ cs) w h = ground (arith, on_calls-status cs (on_call flush w))

reverse-append : (xs ys zs : List Call) → reverse xs (ys ++ zs) ≡ reverse xs ys ++ zs
reverse-append [] ys zs = refl
reverse-append (x ∷ xs) ys zs = reverse-append xs (x ∷ ys) zs

pub on_calls-passed :
    (cs : List Call) (w : ResponseWriter) → reverse (on_calls cs w).passed [] ≡ reverse w.passed cs
unfolding on_calls
on_calls-passed [] w = refl
on_calls-passed (write_header code ∷ cs) w = on_calls-passed cs (on_call (write_header code) w)
on_calls-passed (write b ∷ cs) w = on_calls-passed cs (on_call (write b) w)
on_calls-passed (flush ∷ cs) w = on_calls-passed cs (on_call flush w)

-- A request that is proxied is observed with the status 200 whatever status the reverse proxy writes,
-- while all of its calls are passed on to the client unchanged.
pub serve_http-proxied :
    (infra : InfrastructureConfig) (method : Str) (content_length : ℤ) (d : Decision)
    (proxied : Decision → List Call)
    → ltb_ℤ infra.max_body_size content_length ≡ false
    → (s : Served) × (serve_http infra true method content_length (ok d) proxied ≡ some s)
      × (s.calls ≡ proxied d)
      × (s.observed ≡ record { method = method; upstream = d.upstream; status = 200 } ∷ [])
unfolding serve_http
serve_http-proxied infra method content_length d proxied h = (
  serve_decided infra true method d (proxied d),
  ground (arith, h),
  on_calls-passed (proxied d) (record { status_code = 200; passed = [] }),
  ap (λ k. record { method = method; upstream = d.upstream; status = k } ∷ [])
      (on_calls-status (proxied d) (record { status_code = 200; passed = [] }) (omega arith)),
)

-- A timeout of so many seconds is an exact duration below 9223372037, and a negative one from there to
-- 18446744073.
pub to_sec_range :
    (n : ℕ)
    → n < 18_446_744_073
    → ((n < 9_223_372_037) × (to_sec (pos n) ≡ pos (n * 1_000_000_000)))
      ⊎ ((9_223_372_037 ≤ n) × (ltb_ℤ (to_sec (pos n)) (pos 0) ≡ true))
unfolding to_sec
to_sec_range n h = elim (Bool-cases (ltb n 9_223_372_037)) [
  | inl lt ↦ inl (ground arith, ground arith)
  | inr ge ↦ inr (ground arith, ground arith)
]
