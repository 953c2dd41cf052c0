-- ===== src/Routing/Reload.antt =====
-- routing.go: CreateFromConfig and the listener loop that reloads the configuration. One round of the
-- loop is a step on what the listener keeps, given the signal that its select receives and the
-- decoded file that a reload in that round would read; `none` is a file that cannot be read.
pub mod Runs
pub mod Reading
pub mod Served
pub mod Changes
use l7_proxy.Prelude.{
  Bool, true, false, ◌&&◌, ◌||◌, not, List, [], ◌∷◌, Option, none, some, if◌then◌else◌, ◌≡◌,
}
use l7_proxy.Text.{Str, codes, eq_str, is_empty, to_lower}
use l7_proxy.Net.{Platform}
use l7_proxy.Config.{Config, ConfigError}
use l7_proxy.Config.Load.{parse_config}
use l7_proxy.Config.Cycles.{Graph, validate}
use l7_proxy.Routing.{RouteIndex}
use l7_proxy.Routing.Index.{new_route_index}

-- The reasons by which reload errors are counted.
pub data Reason : Type 0 where
  parse invalid removed : Reason

-- The router's index, the two variables of the loop, whether the timer runs, and the errors counted,
-- the latest first.
pub record Monitor : Type 0 where
  pub index : RouteIndex
  pub on_cooldown : Bool
  pub pending_reload : Str
  pub timer : Bool
  pub errors : List Reason

-- An fsnotify event: its absolute path, if there is one, what it reports, and whether os.Stat finds
-- the watched file.
pub record FileEvent : Type 0 where
  pub path : Option Str
  pub removes : Bool
  pub renames : Bool
  pub writes : Bool
  pub creates : Bool
  pub exists : Bool

-- What the select of the loop receives.
pub data Signal : Type 0 where
  cancelled sighup cooldown_over events_closed errors_closed watcher_error : Signal
  file_event : FileEvent → Signal

-- os.Stat and os.SameFile on the files of the system.
pub record Files : Type 0 where
  pub info : Str → Option Str
  pub same_file : Str → Str → Bool

abbrev same_info : Files → Option Str → Option Str → Bool
same_info files (some a) (some b) = files.same_file a b
same_info files _ _ = false

unfoldable pub is_target_path : Files → Str → Str → Bool
is_target_path files event_path target =
    if eq_str (to_lower event_path) (to_lower target)
    then true
    else same_info files (files.info event_path) (files.info target)

abbrev is_nil : List ConfigError → Bool
is_nil [] = true
is_nil (_ ∷ _) = false

-- A new configuration or the reason why there is none.
pub data Update : Type 0 where
  swapped : Config → Update
  rejected : Reason → Update

-- What setting up the watcher brings: whether fsnotify.NewWatcher succeeds, the absolute path of the
-- configuration file, if there is one, and whether adding its directory succeeds.
pub record Watch : Type 0 where
  pub creates : Bool
  pub abs : Option Str
  pub adds : Bool

abbrev watching : Bool → Option Str → Option Str
watching adds none = none
watching adds (some target) = if adds then some target else none

-- startMonitoringConfigUpdates up to the loop: the file that is watched, or an error.
unfoldable pub start_monitoring : Watch → Option Str
start_monitoring watch = if watch.creates then watching watch.adds watch.abs else none

abbrev pub with_target : Option Monitor → Option Str → Option (Monitor × Str)
with_target none target = none
with_target (some m) none = none
with_target (some m) (some target) = some (m, target)

module _ (os : Platform) (order : Graph → List Str) where
  abbrev checked : Option Config → Update
  checked none = rejected parse
  checked (some cfg) =
      if is_nil (validate os order (some cfg)) then swapped cfg else rejected invalid

  -- ParseConfig and Validate, as updateConfig and CreateFromConfig call them.
  unfoldable pub update_config : Option Config → Update
  update_config decoded = checked (parse_config os decoded)

  abbrev pub apply_update : Update → Monitor → Monitor
  apply_update (swapped cfg) m = record m { index = new_route_index cfg }
  apply_update (rejected reason) m = record m { errors = reason ∷ m.errors }

  unfoldable pub reload_config : Option Config → Monitor → Monitor
  unfolding update_config
  reload_config decoded m = apply_update (update_config decoded) m

  -- The closure `reload`.
  unfoldable pub reload : Option Config → Str → Monitor → Monitor
  unfolding reload_config
  reload decoded source m =
      if m.on_cooldown
      then record m { pending_reload = source }
      else record (reload_config decoded m) { on_cooldown = true; timer = true }

  unfoldable pub on_file_event : Files → Str → Option Config → FileEvent → Monitor → Monitor
  unfolding reload
  on_file_event files target decoded e m = elim e.path [
    | none ↦ m
    | some path ↦
        if not (is_target_path files path target)
        then m
        else if e.removes || e.renames
        then (if e.exists
            then reload decoded (codes "config replaced") m
            else record m { errors = removed ∷ m.errors })
        else if e.writes || e.creates
        then reload decoded (codes "config modified") m
        else m
  ]

  unfoldable pub on_cooldown_over : Option Config → Monitor → Monitor
  unfolding reload
  on_cooldown_over decoded m =
      let idle = record m { on_cooldown = false; timer = false } in
      if is_empty m.pending_reload
      then idle
      else reload decoded m.pending_reload (record idle { pending_reload = [] })

  -- One round of the loop; `none` is its return.
  unfoldable pub on_signal : Files → Str → Signal → Option Config → Monitor → Option Monitor
  unfolding on_file_event on_cooldown_over
  on_signal files target cancelled decoded m = none
  on_signal files target sighup decoded m = some (reload decoded (codes "SIGHUP") m)
  on_signal files target cooldown_over decoded m = some (on_cooldown_over decoded m)
  on_signal files target events_closed decoded m = none
  on_signal files target errors_closed decoded m = none
  on_signal files target watcher_error decoded m = some m
  on_signal files target (file_event e) decoded m = some (on_file_event files target decoded e m)

  abbrev started : Update → Option Monitor
  started (rejected reason) = none
  started (swapped cfg) = some (record {
    index = new_route_index cfg;
    on_cooldown = false;
    pending_reload = [];
    timer = false;
    errors = [];
  })

  -- CreateFromConfig up to the start of the listener; `none` is an error.
  unfoldable pub create_from_config : Option Config → Option Monitor
  unfolding update_config
  create_from_config decoded = started (update_config decoded)

  -- CreateFromConfig: the router, and the file that its listener watches.
  unfoldable pub create_watched : Watch → Option Config → Option (Monitor × Str)
  unfolding create_from_config start_monitoring
  create_watched watch decoded = with_target (create_from_config decoded) (start_monitoring watch)

  -- The runs of the loop: only a running timer brings the end of a cooldown.
  abbrev pub CanCome : Signal → Monitor → Type 0
  CanCome cooldown_over m = m.timer ≡ true
  CanCome _ m = Unit

  pub data Run (files : Files) (target : Str) : Monitor → Monitor → Type 0 where
    here : {m : Monitor} → Run files target m m
    next :
        {m n q : Monitor} (s : Signal) (decoded : Option Config)
        → CanCome s m
        → on_signal files target s decoded m ≡ some n
        → Run files target n q
        → Run files target m q
