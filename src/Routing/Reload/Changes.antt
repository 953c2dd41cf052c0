-- ===== src/Routing/Reload/Changes.antt =====
-- What becomes of a change of the file in the listener loop (routing.go).
use l7_proxy.Prelude.{
  ◌≡◌, ◌≢◌, ◌⊎◌, inl, inr, refl, sym, ◌∙◌, true, false, ◌||◌, List, [], Option, some, subst,
}
use l7_proxy.Text.{Str, codes}
use l7_proxy.Net.{Platform}
use l7_proxy.Config.{Config}
use l7_proxy.Config.Cycles.{Graph}
use l7_proxy.Routing.Reload.{
  Monitor, FileEvent, Signal, cancelled, sighup, cooldown_over, events_closed, errors_closed,
  watcher_error, file_event, Files, is_target_path, reload, on_file_event, on_signal,
  create_from_config, Run, here, next,
}
use l7_proxy.Routing.Reload.Runs.{Inv, Run-keeps, create_from_config-Inv}
use l7_proxy.Routing.Reload.Reading.{
  IsReading, reload_cases, on_cooldown_over-IsReading, on_signal-IsRound,
}

module _ (os : Platform) (order : Graph → List Str) where
  -- A change of the file: SIGHUP, a write or creation of the watched path, or its removal or renaming
  -- when there is a file again.
  abbrev pub IsChange : Files → Str → Signal → Type 0
  IsChange files target sighup = Unit
  IsChange files target (file_event e) =
      (path : Str) × (e.path ≡ some path)
      × (is_target_path files path target ≡ true)
      × ((((e.removes || e.renames) ≡ true) × (e.exists ≡ true))
          ⊎ (((e.removes || e.renames) ≡ false) × ((e.writes || e.creates) ≡ true)))
  IsChange files target _ = ⊥

  -- The file is read in some round of a run.
  abbrev pub WasRead :
      {files : Files} {target : Str} {m q : Monitor} → Run os order files target m q → Type 0
  WasRead here = ⊥
  WasRead (next {m} {n} s decoded _ _ rest) = IsReading os order decoded m n ⊎ WasRead rest

  -- The timer runs, and when it ends the file is read.
  abbrev pub IsDue : Files → Str → Monitor → Type 0
  IsDue files target m =
      (m.timer ≡ true)
      × ((later : Option Config)
          → (n : Monitor) × (on_signal os order files target cooldown_over later m ≡ some n)
            × IsReading os order later m n)

  pending-IsDue :
      (files : Files) (target : Str) (m : Monitor)
      → Inv os order m
      → m.pending_reload ≢ []
      → IsDue files target m
  unfolding on_signal
  pending-IsDue files target m inv h =
      (inv.timed ∙ inv.waits h, λ later. (_, refl, on_cooldown_over-IsReading os order later m h))

  -- A reload that is pending is so until the file is read.
  Run-pending :
      {files : Files} {target : Str} {m q : Monitor} (run : Run os order files target m q)
      → Inv os order m
      → m.pending_reload ≢ []
      → WasRead run ⊎ IsDue files target q
  Run-pending {files} {target} {m} here inv h = inr (pending-IsDue files target m inv h)
  Run-pending {files} {target} {m} (next {n} s decoded can e rest) inv h =
      elim (on_signal-IsRound os order files target s decoded m n e) [
        | inl reads ↦ inl (inl reads)
        | inr (_, pending) ↦
            elim (Run-pending rest (Run-keeps os order (next s decoded can e here) inv)
              (pending h)) [ inl was ↦ inl (inr was) | inr due ↦ inr due ]
      ]

  -- Read in the round that leads from one state to another, or on every run from there in one of its
  -- rounds or due at its end.
  abbrev pub IsRead : Files → Str → Option Config → Monitor → Monitor → Type 0
  IsRead files target decoded m n =
      IsReading os order decoded m n
      ⊎ ((q : Monitor) (run : Run os order files target n q) → WasRead run ⊎ IsDue files target q)

  reload-IsRead :
      (files : Files) (target : Str) (decoded : Option Config) (source : Str) (m n : Monitor)
      → Inv os order n
      → source ≢ []
      → reload os order decoded source m ≡ n
      → IsRead files target decoded m n
  reload-IsRead files target decoded source m n inv named same =
      elim (reload_cases os order decoded source m) [
        | inl (_, reads) ↦ inl (subst (IsReading os order decoded m) same reads)
        | inr (_, e) ↦
            let pending = subst (λ (k : Monitor). k.pending_reload ≢ []) (sym e ∙ same) named in
            inr (λ q run. Run-pending run inv pending)
      ]

  on_file_event-change :
      (files : Files) (target : Str) (decoded : Option Config) (e : FileEvent) (m : Monitor)
      → IsChange files target (file_event e)
      → (source : Str) × (source ≢ [])
        × (reload os order decoded source m ≡ on_file_event os order files target decoded e m)
  unfolding on_file_event
  on_file_event-change files target decoded e m (path, at, targeted, inl (gone, back)) =
      (codes "config replaced", λ h. cc, rw (at, targeted, gone, back) refl)
  on_file_event-change files target decoded e m (path, at, targeted, inr (kept, changed)) =
      (codes "config modified", λ h. cc, rw (at, targeted, kept, changed) refl)

  -- On every run of a router from its start, SIGHUP or a change of the watched file is not lost,
  -- whatever signals follow: the file is read in that round, or on every run from there it is read in
  -- a later one or, at the end of the run, a timer still runs at whose end it is read.
  pub IsChange-IsRead :
      (files : Files) (target : Str) (first decoded : Option Config) (m q : Monitor) (s : Signal)
      → create_from_config os order first ≡ some m
      → Run os order files target m q
      → IsChange files target s
      → (n : Monitor) × (on_signal os order files target s decoded q ≡ some n)
        × IsRead files target decoded q n
  unfolding on_signal
  IsChange-IsRead files target first decoded m q sighup created run change =
      let inv = Run-keeps os order run (create_from_config-Inv os order first m created) in
      let inv' =
        Run-keeps os order {files = files} {target = target} (next sighup decoded tt refl here)
          inv in
      (_, refl, reload-IsRead files target decoded (codes "SIGHUP") q _ inv' (λ h. cc) refl)
  IsChange-IsRead files target first decoded m q (file_event e) created run change =
      let inv = Run-keeps os order run (create_from_config-Inv os order first m created) in
      let inv' =
        Run-keeps os order {files = files} {target = target}
          (next (file_event e) decoded tt refl here) inv in
      let (source, named, same) = on_file_event-change files target decoded e q change in
      (_, refl, reload-IsRead files target decoded source q _ inv' named same)
  IsChange-IsRead files target first decoded m q cancelled created run change = absurd change
  IsChange-IsRead files target first decoded m q cooldown_over created run change = absurd change
  IsChange-IsRead files target first decoded m q events_closed created run change = absurd change
  IsChange-IsRead files target first decoded m q errors_closed created run change = absurd change
  IsChange-IsRead files target first decoded m q watcher_error created run change = absurd change
