-- ===== src/Routing/Reload/Runs.antt =====
-- What the listener loop (routing.go) keeps.
use l7_proxy.Prelude.{
  ◌≡◌, ◌≢◌, ◌⊎◌, inl, inr, refl, sym, ap, Bool, true, false, ◌||◌, not, List, [], ◌∷◌, Option, none,
  some, if◌then◌else◌, arith, Bool-cases, Option-cases, subst,
}
use l7_proxy.Text.{Str, codes, is_empty}
use l7_proxy.Text.Laws.{is_empty_iff}
use l7_proxy.Net.{Platform}
use l7_proxy.Config.{Config}
use l7_proxy.Config.Load.{parse_config}
use l7_proxy.Config.Load.Hosts.{IsLoaded, parse_config-IsLoaded}
use l7_proxy.Config.Cycles.{Graph, validate}
use l7_proxy.Routing.{RouteIndex}
use l7_proxy.Routing.Index.{new_route_index}
use l7_proxy.Routing.Reload.{
  Monitor, FileEvent, Signal, cancelled, sighup, cooldown_over, events_closed, errors_closed,
  watcher_error, file_event, Files, is_target_path, Reason, removed, Update, swapped, rejected,
  update_config, reload_config, reload, on_file_event, on_cooldown_over, on_signal,
  create_from_config, Run, here, next,
}

pub Update-cases :
    (u : Update) → ((c : Config) × (u ≡ swapped c)) ⊎ ((r : Reason) × (u ≡ rejected r))
Update-cases (swapped c) = inl (c, refl)
Update-cases (rejected r) = inr (r, refl)

some_inj : {x y : Monitor} → some x ≡ some y → x ≡ y
some_inj h = cc

module _ (os : Platform) (order : Graph → List Str) where
  -- The index is that of a configuration that was loaded and has no error.
  pub record ServesValid (index : RouteIndex) : Type 0 where
    pub cfg : Config
    pub is_its : index ≡ new_route_index cfg
    pub loaded : IsLoaded os cfg
    pub valid : validate os order (some cfg) ≡ []

  -- A reload is pending only during a cooldown, which is while the timer runs.
  pub record Inv (m : Monitor) : Type 0 where
    pub serves : ServesValid m.index
    pub timed : m.timer ≡ m.on_cooldown
    pub waits : m.pending_reload ≢ [] → m.on_cooldown ≡ true

  swapped-ServesValid :
      (decoded : Option Config) (cfg : Config)
      → update_config os order decoded ≡ swapped cfg
      → ServesValid (new_route_index cfg)
  unfolding update_config
  swapped-ServesValid decoded cfg h = elim (Option-cases (parse_config os decoded)) [
    | inl e ↦ absurd (ground arith)
    | inr (c, e) ↦
        let same : c ≡ cfg = ground arith in
        record {
          cfg = c;
          is_its = ap new_route_index (sym same);
          loaded = parse_config-IsLoaded os decoded c e;
          valid = ground arith;
        }
  ]

  reload_config-ServesValid :
      (decoded : Option Config) (m : Monitor)
      → ServesValid m.index
      → ServesValid (reload_config os order decoded m).index
  unfolding reload_config
  reload_config-ServesValid decoded m h = elim (Update-cases (update_config os order decoded)) [
    | inl (c, e) ↦ rw e (swapped-ServesValid decoded c e)
    | inr (r, e) ↦ rw e h
  ]

  reload-Inv :
      (decoded : Option Config) (source : Str) (m : Monitor)
      → Inv m
      → Inv (reload os order decoded source m)
  unfolding reload
  reload-Inv decoded source m inv = on m.on_cooldown refl
    where
      on :
          (b : Bool)
          → m.on_cooldown ≡ b
          → Inv (
              if b
              then record m { pending_reload = source }
              else record (reload_config os order decoded m) { on_cooldown = true; timer = true })
      on true e = record { serves = inv.serves; timed = inv.timed; waits = λ h. e }
      on false e = record {
        serves = reload_config-ServesValid decoded m inv.serves;
        timed = refl;
        waits = λ h. refl;
      }

  errors-Inv : (m : Monitor) (r : Reason) → Inv m → Inv (record m { errors = r ∷ m.errors })
  errors-Inv m r inv = record { serves = inv.serves; timed = inv.timed; waits = inv.waits }

  on_file_event-Inv :
      (files : Files) (target : Str) (decoded : Option Config) (e : FileEvent) (m : Monitor)
      → Inv m
      → Inv (on_file_event os order files target decoded e m)
  unfolding on_file_event
  on_file_event-Inv files target decoded e m inv = at e.path
    where
      by_case :
          (a b c d : Bool)
          → Inv (
              if a
              then m
              else if b
              then (if c
                  then reload os order decoded (codes "config replaced") m
                  else record m { errors = removed ∷ m.errors })
              else if d
              then reload os order decoded (codes "config modified") m
              else m)
      by_case true b c d = inv
      by_case false true true d = reload-Inv decoded (codes "config replaced") m inv
      by_case false true false d = errors-Inv m removed inv
      by_case false false c true = reload-Inv decoded (codes "config modified") m inv
      by_case false false c false = inv

      at :
          (path : Option Str)
          → Inv (elim path [
            | none ↦ m
            | some p ↦
                if not (is_target_path files p target)
                then m
                else if e.removes || e.renames
                then (if e.exists
                    then reload os order decoded (codes "config replaced") m
                    else record m { errors = removed ∷ m.errors })
                else if e.writes || e.creates
                then reload os order decoded (codes "config modified") m
                else m
          ])
      at none = inv
      at (some p) =
          by_case (not (is_target_path files p target)) (e.removes || e.renames) e.exists
            (e.writes || e.creates)

  on_cooldown_over-Inv :
      (decoded : Option Config) (m : Monitor) → Inv m → Inv (on_cooldown_over os order decoded m)
  unfolding on_cooldown_over
  on_cooldown_over-Inv decoded m inv = elim (Bool-cases (is_empty m.pending_reload)) [
    | inl e ↦ rw e (record {
      serves = inv.serves;
      timed = refl;
      waits = λ h. absurd (ground (arith, is_empty_iff m.pending_reload));
    })
    | inr e ↦ rw e (
        reload-Inv decoded m.pending_reload
          (record m { on_cooldown = false; timer = false; pending_reload = [] })
          (record { serves = inv.serves; timed = refl; waits = λ h. absurd (h refl) }))
  ]

  pub on_signal-Inv :
      (files : Files) (target : Str) (s : Signal) (decoded : Option Config) (m n : Monitor)
      → Inv m
      → on_signal os order files target s decoded m ≡ some n
      → Inv n
  unfolding on_signal
  on_signal-Inv files target cancelled decoded m n inv h = cc
  on_signal-Inv files target events_closed decoded m n inv h = cc
  on_signal-Inv files target errors_closed decoded m n inv h = cc
  on_signal-Inv files target watcher_error decoded m n inv h = subst Inv (some_inj h) inv
  on_signal-Inv files target sighup decoded m n inv h =
      subst Inv (some_inj h) (reload-Inv decoded (codes "SIGHUP") m inv)
  on_signal-Inv files target cooldown_over decoded m n inv h =
      subst Inv (some_inj h) (on_cooldown_over-Inv decoded m inv)
  on_signal-Inv files target (file_event e) decoded m n inv h =
      subst Inv (some_inj h) (on_file_event-Inv files target decoded e m inv)

  pub Run-keeps :
      {files : Files} {target : Str} {m q : Monitor} → Run os order files target m q → Inv m → Inv q
  Run-keeps here inv = inv
  Run-keeps {files} {target} {m} (next {n} s decoded _ h rest) inv =
      Run-keeps rest (on_signal-Inv files target s decoded m n inv h)

  pub create_from_config-Inv :
      (decoded : Option Config) (m : Monitor) → create_from_config os order decoded ≡ some m → Inv m
  unfolding create_from_config
  create_from_config-Inv decoded m h = elim (Update-cases (update_config os order decoded)) [
    | inr (r, e) ↦ absurd (ground arith)
    | inl (c, e) ↦
        let same : record {
          index = new_route_index c;
          on_cooldown = false;
          pending_reload = [];
          timer = false;
          errors = [];
        }
            ≡ m =
          ground arith in
        subst Inv same (record {
          serves = swapped-ServesValid decoded c e;
          timed = refl;
          waits = λ k. absurd (k refl);
        })
  ]

  -- Whatever signals come, the router serves a configuration that was loaded and has no error: a
  -- reload that fails leaves the one before it.
  pub Run-ServesValid :
      (files : Files) (target : Str) (decoded : Option Config) (m q : Monitor)
      → create_from_config os order decoded ≡ some m
      → Run os order files target m q
      → ServesValid q.index
  Run-ServesValid files target decoded m q created run =
      (Run-keeps run (create_from_config-Inv decoded m created)).serves
