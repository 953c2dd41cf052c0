-- ===== src/Metrics.antt =====
-- internal/metrics/metrics.go: what is observed, with which labels, and the names of the collectors.
-- The vectors themselves are a parameter.
pub mod Counts
use l7_proxy.Prelude.{
  ℕ, zero, suc, ◌+◌, ◌/◌, ◌%◌, Bool, true, false, ◌&&◌, List, [], ◌∷◌, ◌++◌, Option, none, some,
  if◌then◌else◌, ltb,
}
use l7_proxy.Prelude.Int.{ℤ}
use l7_proxy.Text.{Str, codes, eq_str}
use l7_proxy.Dict.{member}

-- strconv.Itoa for a number that is not negative. Each round takes a digit off, so there are no more
-- rounds than the number and one.
unfoldable pub itoa_from : ℕ → ℕ → Str → Str
itoa_from zero n acc = acc
itoa_from (suc fuel) n acc =
    let digits = (b'0' + n % 10) ∷ acc in
    let rest = itoa_from fuel (n / 10) digits in if ltb n 10 then digits else rest

unfoldable pub itoa : ℕ → Str
unfolding itoa_from
itoa n = itoa_from (suc n) n []

abbrev pub Labels : Type 0
Labels = List Str

-- What the code calls of the vectors of Prometheus, which is not the repository's: C and H are what a
-- CounterVec and a HistogramVec are. `inc` is WithLabelValues(labels).Inc(), `observe_seconds` is
-- WithLabelValues(labels).Observe(d.Seconds()) for a Duration of nanoseconds. `value` is what the
-- counter for some labels has when it is read, and `total` the sum over all labels.
pub record Vectors (C H : Type 0) : Type 0 where
  pub inc : Labels → C → C
  pub observe_seconds : Labels → ℤ → H → H
  pub value : Labels → C → ℕ
  pub total : C → ℕ

pub record RequestMetrics (C H : Type 0) : Type 0 where
  pub requests_total : C
  pub request_duration : H

abbrev pub request_labels : Str → Str → ℕ → Labels
request_labels method upstream status = method ∷ upstream ∷ itoa status ∷ []

-- RequestMetrics.Observe
unfoldable pub observe :
    {C H : Type 0} → Vectors C H → Str → Str → ℕ → ℤ → RequestMetrics C H → RequestMetrics C H
observe vectors method upstream status d m = record {
  requests_total = vectors.inc (request_labels method upstream status) m.requests_total;
  request_duration =
      vectors.observe_seconds (request_labels method upstream status) d m.request_duration;
}

abbrev pub mirror_sent : Str
mirror_sent = codes "sent"

abbrev pub mirror_failed : Str
mirror_failed = codes "failed"

abbrev pub mirror_dropped : Str
mirror_dropped = codes "dropped"

-- MirrorMetrics.Observe on its only counter
unfoldable pub observe_mirror : {C H : Type 0} → Vectors C H → Str → C → C
observe_mirror vectors result vec = vectors.inc (result ∷ []) vec

-- The names of the collectors that are registered.
abbrev pub http_requests_total : Str
http_requests_total = codes "http_requests_total"

abbrev pub http_request_duration : Str
http_request_duration = codes "http_request_duration_seconds"

abbrev pub config_reload_errors_total : Str
config_reload_errors_total = codes "config_reload_errors_total"

abbrev pub mirror_requests_total : Str
mirror_requests_total = codes "mirror_requests_total"
