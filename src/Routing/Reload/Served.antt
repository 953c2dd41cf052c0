-- ===== src/Routing/Reload/Served.antt =====
-- What the router serves over the rounds of its listener loop (routing.go).
use l7_proxy.Prelude.{◌≡◌, ◌⊎◌, inl, inr, refl, false, List, Option, some}
use l7_proxy.Text.{Str, codes}
use l7_proxy.Net.{Platform}
use l7_proxy.Config.{Config}
use l7_proxy.Config.Cycles.{Graph}
use l7_proxy.Routing.Reload.{Monitor, Signal, sighup, Files, on_signal, create_from_config, Run}
use l7_proxy.Routing.Reload.Runs.{ServesValid, Run-ServesValid}
use l7_proxy.Routing.Reload.Reading.{IsReading, IsKept, reload_cases, on_signal-IsRound}

module _ (os : Platform) (order : Graph → List Str) where
  -- On every run of a router from its start it serves a configuration that was loaded and has no
  -- error. In the next round, whatever signal comes, the file is not read and what is served stays; or
  -- it is read: a file that cannot be parsed or is not valid leaves what is served and is counted, and
  -- one that is valid is served from then on. With no cooldown, SIGHUP reads the file.
  pub Run-serves :
      (files : Files) (target : Str) (first : Option Config) (m q : Monitor)
      → create_from_config os order first ≡ some m
      → Run os order files target m q
      → ServesValid os order q.index
        × ((s : Signal) (decoded : Option Config) (n : Monitor)
            → on_signal os order files target s decoded q ≡ some n
            → IsKept os order q n ⊎ IsReading os order decoded q n)
        × ((decoded : Option Config)
            → q.on_cooldown ≡ false
            → (n : Monitor) × (on_signal os order files target sighup decoded q ≡ some n)
              × IsReading os order decoded q n)
  unfolding on_signal
  Run-serves files target first m q created run = (
    Run-ServesValid os order files target first m q created run,
    λ s decoded n h. elim (on_signal-IsRound os order files target s decoded q n h) [
      | inl reads ↦ inr reads
      | inr (kept, _) ↦ inl kept
    ],
    λ decoded idle. (
      _,
      refl,
      elim (reload_cases os order decoded (codes "SIGHUP") q) [
        | inl (_, reads) ↦ reads
        | inr (e, _) ↦ cc
      ],
    ),
  )
