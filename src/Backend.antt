-- ===== src/Backend.antt =====
-- cmd/backend/main.go: the backend that the tests run the proxy against. A handler is the list of what
-- it does; what strconv makes of a setting and the random number are parameters.
pub mod Errors
use l7_proxy.Prelude.{Bool, true, false, List, [], ◌∷◌, ◌++◌, if◌then◌else◌}
use l7_proxy.Prelude.Int.{ℤ, pos, ltb_ℤ, ◌*ℤ◌, wrap64}
use l7_proxy.Text.{Str, codes, eq_str}
use l7_proxy.Float.{Float64, flt}
use l7_proxy.Proxy.Handler.{Call, write_header, write, flush, http_error}
use l7_proxy.Startup.{getenv}

-- strconv.Atoi and strconv.ParseFloat, by the value that they return, an error or not.
pub record Numbers : Type 0 where
  pub atoi : Str → ℤ
  pub parse_float : Str → Float64

pub record Settings : Type 0 where
  pub service_name : Str
  pub port : Str
  pub config_latency : ℤ
  pub error_rate : Float64

unfoldable pub settings : (Str → Str) → Numbers → Settings
unfolding getenv
settings env numbers = record {
  service_name = getenv env (codes "SERVICE_NAME") (codes "unnamed");
  port = getenv env (codes "PORT") (codes "3000");
  config_latency = numbers.atoi (getenv env (codes "LATENCY_MS") (codes "0"));
  error_rate = numbers.parse_float (getenv env (codes "ERROR_RATE") (codes "0"));
}

-- A sleep is its nanoseconds.
pub data Action : Type 0 where
  sleep : ℤ → Action
  set_header : Str → Str → Action
  call : Call → Action

abbrev text_plain : Action
text_plain = set_header (codes "Content-Type") (codes "text/plain")

-- The closure `handler`, given the random number.
unfoldable pub handler : Settings → Float64 → List Action
handler s rnd =
    let delay =
      if ltb_ℤ (pos 0) s.config_latency
      then sleep (wrap64 (s.config_latency *ℤ pos 1_000_000)) ∷ []
      else [] in
    delay
    ++ (if flt rnd s.error_rate
        then text_plain
          ∷ call (write_header 500)
          ∷ call (write (s.service_name ++ codes ": internal error" ++ 10 ∷ []))
          ∷ []
        else text_plain
          ∷ call (write_header 200)
          ∷ call (write (s.service_name ++ codes ": success" ++ 10 ∷ []))
          ∷ [])

abbrev pub a_minute : ℤ
a_minute = pos 60_000_000_000

abbrev pub hang_body : List Action
hang_body =
    set_header (codes "Content-Length") (codes "100")
    ∷ call (write_header 200)
    ∷ call (write (codes "part"))
    ∷ call flush
    ∷ sleep a_minute
    ∷ []

abbrev pub actions_of : List Call → List Action
actions_of [] = []
actions_of (c ∷ cs) = call c ∷ actions_of cs

-- The handler that http.DefaultServeMux has for a clean path, where the service name is of letters,
-- digits and dashes: other characters can mean something else in a pattern.
unfoldable pub serve_backend : Settings → Float64 → Str → List Action
unfolding handler
serve_backend s rnd path =
    if eq_str path (codes "/api/" ++ s.service_name)
    then handler s rnd
    else if eq_str path (codes "/health")
    then call (write_header 200) ∷ []
    else if eq_str path (codes "/hang")
    then sleep a_minute ∷ []
    else if eq_str path (codes "/hang-body")
    then hang_body
    else actions_of (http_error (codes "404 page not found") 404)
