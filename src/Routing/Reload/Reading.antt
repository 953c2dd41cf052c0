-- ===== src/Routing/Reload/Reading.antt =====
-- What a round of the listener loop (routing.go) makes of the file, and when it reads it.
use l7_proxy.Prelude.{
  ◌≡◌, ◌≢◌, ◌⊎◌, inl, inr, refl, Bool, true, false, ◌||◌, not, List, [], ◌∷◌, Option, none, some,
  if◌then◌else◌, arith, Option-cases, List-cases, subst,
}
use l7_proxy.Text.{Str, codes, is_empty}
use l7_proxy.Text.Laws.{is_empty_iff}
use l7_proxy.Net.{Platform}
use l7_proxy.Config.{Config}
use l7_proxy.Config.Load.{parse_config}
use l7_proxy.Config.Cycles.{Graph, validate}
use l7_proxy.Routing.Index.{new_route_index}
use l7_proxy.Routing.Reload.{
  Monitor, FileEvent, Signal, cancelled, sighup, cooldown_over, events_closed, errors_closed,
  watcher_error, file_event, Files, is_target_path, parse, invalid, removed, update_config,
  reload_config, reload, on_file_event, on_cooldown_over, on_signal,
}

module _ (os : Platform) (order : Graph → List Str) where
  -- The file was read: what cannot be parsed or is not valid leaves the index and is counted, and
  -- what is valid is served from then on.
  abbrev pub IsReading : Option Config → Monitor → Monitor → Type 0
  IsReading decoded m n =
      ((parse_config os decoded ≡ none) × (n.index ≡ m.index) × (n.errors ≡ parse ∷ m.errors))
      ⊎ ((cfg : Config) × (parse_config os decoded ≡ some cfg)
          × (((validate os order (some cfg) ≢ [])
                × (n.index ≡ m.index)
                × (n.errors ≡ invalid ∷ m.errors))
              ⊎ ((validate os order (some cfg) ≡ [])
                  × (n.index ≡ new_route_index cfg)
                  × (n.errors ≡ m.errors))))

  -- The file was not read: the index is kept, and at most its removal is counted.
  abbrev pub IsKept : Monitor → Monitor → Type 0
  IsKept m n = (n.index ≡ m.index) × ((n.errors ≡ m.errors) ⊎ (n.errors ≡ removed ∷ m.errors))

  reload_config-IsReading :
      (decoded : Option Config) (m : Monitor)
      → IsReading decoded m (reload_config os order decoded m)
  unfolding reload_config update_config
  reload_config-IsReading decoded m = elim (Option-cases (parse_config os decoded)) [
    | inl e ↦ inl (e, rw (e, reload_config) refl, rw (e, reload_config) refl)
    | inr (cfg, e) ↦ elim (List-cases (validate os order (some cfg))) [
      | inl v ↦ inr (cfg, e, inr (v, rw (e, v, reload_config) refl, rw (e, v, reload_config) refl))
      | inr (x, xs, v) ↦ inr (
        cfg,
        e,
        inl (
          λ k. absurd (ground arith),
          rw (e, v, reload_config) refl,
          rw (e, v, reload_config) refl,
        ),
      )
    ]
  ]

  -- A reload reads the file or, during a cooldown, is pending.
  pub reload_cases :
      (decoded : Option Config) (source : Str) (m : Monitor)
      → ((m.on_cooldown ≡ false) × IsReading decoded m (reload os order decoded source m))
        ⊎ ((m.on_cooldown ≡ true)
            × (reload os order decoded source m ≡ record m { pending_reload = source }))
  unfolding reload
  reload_cases decoded source m = on m.on_cooldown refl
    where
      on :
          (b : Bool)
          → m.on_cooldown ≡ b
          → ((m.on_cooldown ≡ false)
              × IsReading decoded m (
                  if b
                  then record m { pending_reload = source }
                  else record (reload_config os order decoded m) {
                    on_cooldown = true;
                    timer = true;
                  }))
            ⊎ ((m.on_cooldown ≡ true)
                × ((if b
                      then record m { pending_reload = source }
                      else record (reload_config os order decoded m) {
                        on_cooldown = true;
                        timer = true;
                      })
                    ≡ record m { pending_reload = source }))
      on true e = inr (e, refl)
      on false e = inl (e, reload_config-IsReading decoded m)

  -- One round: the file is read or kept, and a reload that was pending, or comes to be, is so
  -- afterwards unless the file is read.
  abbrev pub IsRound : Option Config → Monitor → Monitor → Type 0
  IsRound decoded m n =
      IsReading decoded m n ⊎ (IsKept m n × (m.pending_reload ≢ [] → n.pending_reload ≢ []))

  reload-IsRound :
      (decoded : Option Config) (source : Str) (m : Monitor)
      → source ≢ []
      → IsRound decoded m (reload os order decoded source m)
  reload-IsRound decoded source m named = elim (reload_cases decoded source m) [
    | inl (e, reads) ↦ inl reads
    | inr (e, same) ↦ rw same (inr ((refl, inl refl), λ h. named))
  ]

  on_file_event-IsRound :
      (files : Files) (target : Str) (decoded : Option Config) (e : FileEvent) (m : Monitor)
      → IsRound decoded m (on_file_event os order files target decoded e m)
  unfolding on_file_event
  on_file_event-IsRound files target decoded e m = at e.path
    where
      kept : IsRound decoded m m
      kept = inr ((refl, inl refl), λ h. h)

      by_case :
          (a b c d : Bool)
          → IsRound decoded m (
              if a
              then m
              else if b
              then (if c
                  then reload os order decoded (codes "config replaced") m
                  else record m { errors = removed ∷ m.errors })
              else if d
              then reload os order decoded (codes "config modified") m
              else m)
      by_case true b c d = kept
      by_case false true true d = reload-IsRound decoded (codes "config replaced") m (λ h. cc)
      by_case false true false d = inr ((refl, inr refl), λ h. h)
      by_case false false c true = reload-IsRound decoded (codes "config modified") m (λ h. cc)
      by_case false false c false = kept

      at :
          (path : Option Str)
          → IsRound decoded m (elim path [
            | none ↦ m
            | some p ↦
                if not (is_target_path files p target)
                then m
                else if e.removes || e.renames
                then (if e.exists
                    then reload os order decoded (codes "config replaced") m
                    else record m { errors = removed ∷ m.errors })
                else if e.writes || e.creates
                then reload os order decoded (codes "config modified") m
                else m
          ])
      at none = kept
      at (some p) =
          by_case (not (is_target_path files p target)) (e.removes || e.renames) e.exists
            (e.writes || e.creates)

  -- When a cooldown ends, a reload that is pending is done.
  pub on_cooldown_over-IsReading :
      (decoded : Option Config) (m : Monitor)
      → m.pending_reload ≢ []
      → IsReading decoded m (on_cooldown_over os order decoded m)
  unfolding on_cooldown_over
  on_cooldown_over-IsReading decoded m h = at (is_empty m.pending_reload) refl
    where
      idle : Monitor
      idle = record m { on_cooldown = false; timer = false }

      at :
          (b : Bool)
          → is_empty m.pending_reload ≡ b
          → IsReading decoded m (
              if b
              then idle
              else reload os order decoded m.pending_reload (record idle { pending_reload = [] }))
      at true e = absurd (h ((is_empty_iff m.pending_reload).0 e))
      at false e =
          elim (reload_cases decoded m.pending_reload (record idle { pending_reload = [] })) [
            | inl (_, reads) ↦ reads
            | inr (f, _) ↦ cc
          ]

  on_cooldown_over-IsRound :
      (decoded : Option Config) (m : Monitor)
      → IsRound decoded m (on_cooldown_over os order decoded m)
  unfolding on_cooldown_over
  on_cooldown_over-IsRound decoded m = at (is_empty m.pending_reload) refl
    where
      idle : Monitor
      idle = record m { on_cooldown = false; timer = false }

      at :
          (b : Bool)
          → is_empty m.pending_reload ≡ b
          → IsRound decoded m (
              if b
              then idle
              else reload os order decoded m.pending_reload (record idle { pending_reload = [] }))
      at true e = inr ((refl, inl refl), λ h. absurd (h ((is_empty_iff m.pending_reload).0 e)))
      at false e =
          elim (reload_cases decoded m.pending_reload (record idle { pending_reload = [] })) [
            | inl (_, reads) ↦ inl reads
            | inr (f, _) ↦ cc
          ]

  monitor_inj : {x y : Monitor} → some x ≡ some y → x ≡ y
  monitor_inj h = cc

  pub on_signal-IsRound :
      (files : Files) (target : Str) (s : Signal) (decoded : Option Config) (m n : Monitor)
      → on_signal os order files target s decoded m ≡ some n
      → IsRound decoded m n
  unfolding on_signal
  on_signal-IsRound files target cancelled decoded m n h = cc
  on_signal-IsRound files target events_closed decoded m n h = cc
  on_signal-IsRound files target errors_closed decoded m n h = cc
  on_signal-IsRound files target watcher_error decoded m n h =
      subst (IsRound decoded m) (monitor_inj h) (inr ((refl, inl refl), λ k. k))
  on_signal-IsRound files target sighup decoded m n h =
      subst (IsRound decoded m) (monitor_inj h)
        (reload-IsRound decoded (codes "SIGHUP") m (λ k. cc))
  on_signal-IsRound files target cooldown_over decoded m n h =
      subst (IsRound decoded m) (monitor_inj h) (on_cooldown_over-IsRound decoded m)
  on_signal-IsRound files target (file_event e) decoded m n h =
      subst (IsRound decoded m) (monitor_inj h) (on_file_event-IsRound files target decoded e m)
