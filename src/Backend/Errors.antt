-- ===== src/Backend/Errors.antt =====
-- How often the backend (cmd/backend/main.go) answers with an error.
use l7_proxy.Prelude.{◌≡◌, true, false, List, [], ◌∷◌, ◌++◌, arith, if◌then◌else◌}
use l7_proxy.Text.{codes}
use l7_proxy.Text.Laws.{eq_str_refl}
use l7_proxy.Float.{Float64, flt, fle, zero_f, one_f}
use l7_proxy.Proxy.Handler.{Call}
use l7_proxy.Proxy.Serve.Answers.{client_status}
use l7_proxy.Backend.{Settings, Action, sleep, set_header, call, handler, serve_backend}

abbrev pub calls_of : List Action → List Call
calls_of [] = []
calls_of (call c ∷ as') = c ∷ calls_of as'
calls_of (sleep _ ∷ as') = calls_of as'
calls_of (set_header _ _ ∷ as') = calls_of as'

handler-status :
    (s : Settings) (rnd : Float64)
    → client_status (calls_of (handler s rnd)) ≡ (if flt rnd s.error_rate then 500 else 200)
unfolding handler
handler-status s rnd = ground arith

-- The service's path is answered with 500 for a random number below the error rate, and otherwise with
-- 200: never with 500 at a rate of 0 or less and always at a rate of 1 or more, as the number is at
-- least 0 and less than 1.
pub serve_backend-status :
    (s : Settings) (rnd : Float64)
    → fle zero_f rnd ≡ true
    → flt rnd one_f ≡ true
    → (client_status (calls_of (serve_backend s rnd (codes "/api/" ++ s.service_name)))
        ≡ (if flt rnd s.error_rate then 500 else 200))
      × (fle s.error_rate zero_f ≡ true → flt rnd s.error_rate ≡ false)
      × (fle one_f s.error_rate ≡ true → flt rnd s.error_rate ≡ true)
unfolding serve_backend flt fle
serve_backend-status s rnd low high = (
  rw (eq_str_refl (codes "/api/" ++ s.service_name)) (handler-status s rnd),
  ground arith,
  ground arith,
)
