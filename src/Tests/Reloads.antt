-- ===== src/Tests/Reloads.antt =====
-- A listener that starts, reads a change, and holds the next one back until its cooldown ends.
use l7_proxy.Prelude.{◌≡◌, ◌⊎◌, inr, Option, refl, [], ◌∷◌, none, some, true, false}
use l7_proxy.Text.{Str, codes, eq_str}
use l7_proxy.Config.Cycles.{keys}
use l7_proxy.Routing.Index.{new_route_index}
use l7_proxy.Routing.Reload.{
  Monitor, sighup, file_event, FileEvent, Files, Run, here, next, on_signal, create_from_config,
  parse, is_target_path,
}
use l7_proxy.Config.{Config}
use l7_proxy.Routing.Reload.{Signal}
use l7_proxy.Routing.Reload.Runs.{ServesValid}
use l7_proxy.Routing.Reload.Reading.{IsReading, IsKept}
use l7_proxy.Routing.Reload.Served.{Run-serves}
use l7_proxy.Routing.Reload.Changes.{IsRead, IsChange-IsRead}
use l7_proxy.Tests.{parsers, decoded, loaded_config, loaded}
use l7_proxy.Tests.Cycles.{config_accepted}

abbrev pub files : Files
files = record { info = λ s. none; same_file = eq_str }

abbrev pub created : Monitor
created = record {
  index = new_route_index loaded_config;
  on_cooldown = false;
  pending_reload = [];
  timer = false;
  errors = [];
}

pub starts : create_from_config parsers keys (some decoded) ≡ some created
unfolding create_from_config
starts = rw (loaded, config_accepted) refl

-- SIGHUP finds a file that cannot be read: the error is counted, and the index stays.
abbrev pub cooling : Monitor
cooling = record created { on_cooldown = true; timer = true; errors = parse ∷ [] }

cools : on_signal parsers keys files (codes "/routes.yaml") sighup none created ≡ some cooling
unfolding on_signal new_route_index l7_proxy.Config.Load.parse_config
cools = refl

pub hup-Run : Run parsers keys files (codes "/routes.yaml") created cooling
hup-Run = next sighup none tt cools here

Run-serves_example :
    ServesValid parsers keys cooling.index
    × ((s : Signal) (decoded : Option Config) (n : Monitor)
        → on_signal parsers keys files (codes "/routes.yaml") s decoded cooling ≡ some n
        → IsKept parsers keys cooling n ⊎ IsReading parsers keys decoded cooling n)
    × ((decoded : Option Config)
        → cooling.on_cooldown ≡ false
        → (n : Monitor) × (on_signal parsers keys files
              (codes "/routes.yaml")
              sighup
              decoded
              cooling
            ≡ some n)
          × IsReading parsers keys decoded cooling n)
Run-serves_example =
    Run-serves parsers keys files (codes "/routes.yaml") (some decoded) created cooling starts
      hup-Run

abbrev written : FileEvent
written = record {
  path = some (codes "/routes.yaml");
  removes = false;
  renames = false;
  writes = true;
  creates = false;
  exists = true;
}

targeted :
    (path : Str) × (written.path ≡ some path)
    × (is_target_path files path (codes "/routes.yaml") ≡ true)
    × (((false ≡ true) × (true ≡ true)) ⊎ ((false ≡ false) × (true ≡ true)))
unfolding is_target_path l7_proxy.Text.to_lower
targeted = (codes "/routes.yaml", refl, refl, inr (refl, refl))

IsChange-IsRead_example :
    (n : Monitor) × (on_signal parsers keys files
        (codes "/routes.yaml")
        (file_event written)
        (some decoded)
        cooling
      ≡ some n)
    × IsRead parsers keys files (codes "/routes.yaml") (some decoded) cooling n
IsChange-IsRead_example =
    IsChange-IsRead parsers keys files (codes "/routes.yaml") (some decoded) (some decoded) created
      cooling (file_event written) starts hup-Run targeted
