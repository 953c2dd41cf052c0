-- ===== src/Startup/Ready.antt =====
-- When main (cmd/proxy/main.go) gets to serve requests.
use l7_proxy.Prelude.{
  ◌≡◌, ◌↔◌, ◌⊎◌, inl, inr, refl, true, false, List, [], ◌∷◌, Option, some, arith, Bool-cases,
  Option-cases, All,
}
use l7_proxy.Text.{Str}
use l7_proxy.Dict.{member}
use l7_proxy.Net.{Platform}
use l7_proxy.Config.{Config, InfrastructureConfig}
use l7_proxy.Config.Load.{parse_config}
use l7_proxy.Config.Infrastructure.{parse_infrastructure_config, validate_infrastructure}
use l7_proxy.Config.Infrastructure.Valid.{IsValidInfrastructure, validate_infrastructure_iff}
use l7_proxy.Config.Cycles.{Graph, validate}
use l7_proxy.Config.Cycles.Accepted.{Ranges, IsValidConfig, validate_iff}
use l7_proxy.Routing.Index.{new_route_index}
use l7_proxy.Routing.Reload.{
  Monitor, Watch, start_monitoring, update_config, create_from_config, create_watched,
}
use l7_proxy.Mirroring.Pool.{new_pool}
use l7_proxy.Metrics.{
  http_requests_total, http_request_duration, config_reload_errors_total, mirror_requests_total,
}
use l7_proxy.Proxy.Server.{new}
use l7_proxy.Startup.{
  System, Process, serving, infra_config_path, routes_config_path, register_all, register_collector,
  with_port, no_errors, main,
}

no_errors_iff : (errs : List _) → (no_errors errs ≡ true) ↔ (errs ≡ [])
no_errors_iff [] = (λ h. refl, λ h. refl)
no_errors_iff (e ∷ errs) = (λ h. cc, λ h. cc)

-- What Prometheus documents of a registry that has collectors by the `taken` names already:
-- MustRegister does not panic on another name, if the process has not registered it either.
abbrev pub RegistersNew : System → List Str → Type 0
RegistersNew sys taken =
    (names : List Str) (name : Str)
    → member name taken ≡ false
    → member name names ≡ false
    → sys.registers names name ≡ true

-- None of the proxy's own collectors is among them.
abbrev pub IsFresh : List Str → Type 0
IsFresh taken =
    All (λ n. member n taken ≡ false)
      (http_requests_total ∷ http_request_duration ∷ config_reload_errors_total
        ∷ mirror_requests_total ∷ [])

register_all-IsFresh :
    (sys : System) (taken : List Str)
    → RegistersNew sys taken
    → IsFresh taken
    → (names : List Str) × (register_all sys ≡ some names)
unfolding register_all register_collector
register_all-IsFresh sys taken new_ones (a, (b, (c, (d, _)))) =
    rw
      (
        new_ones _ http_requests_total a refl,
        new_ones _ http_request_duration b refl,
        new_ones _ config_reload_errors_total c refl,
        new_ones _ mirror_requests_total d refl,
      )
      (_, refl)

List-cases : {A : Type 0} → (xs : List A) → (xs ≡ []) ⊎ ((y : A) × (ys : List A) × (xs ≡ y ∷ ys))
List-cases [] = inl refl
List-cases (y ∷ ys) = inr (y, ys, refl)

create_from_config_iff :
    (os : Platform) (order : Graph → List Str) (decoded : Option Config) (m : Monitor)
    → Ranges order
    → (create_from_config os order decoded ≡ some m) ↔ (
        (cfg : Config) × (parse_config os decoded ≡ some cfg)
        × IsValidConfig os cfg
        × (m ≡ record {
          index = new_route_index cfg;
          on_cooldown = false;
          pending_reload = [];
          timer = false;
          errors = [];
        }))
unfolding create_from_config update_config
create_from_config_iff os order decoded m ranges = elim (Option-cases (parse_config os decoded)) [
  | inl e ↦ (λ h. absurd (ground arith), λ (c, p, _, _). absurd (ground arith))
  | inr (c, e) ↦ elim (List-cases (validate os order (some c))) [
    | inl v ↦ (
      λ h. (c, e, (validate_iff os order c ranges).0 v, ground arith),
      λ (d, p, _, r). ground arith,
    )
    | inr (x, xs, v) ↦ (
      λ h. absurd (ground arith),
      λ (d, p, a, _).
          let same : c ≡ d = ground arith in
          let w = (validate_iff os order d ranges).1 a in absurd (ground arith),
    )
  ]
]

create_watched_iff :
    (os : Platform) (order : Graph → List Str) (watch : Watch) (decoded : Option Config)
    (m : Monitor) (target : Str)
    → (create_watched os order watch decoded ≡ some (m, target))
      ↔ ((create_from_config os order decoded ≡ some m) × (start_monitoring watch ≡ some target))
unfolding create_watched
create_watched_iff os order watch decoded m target =
    elim (Option-cases (create_from_config os order decoded)) [
      | inl e ↦ (λ h. absurd (ground arith), λ (f, g). absurd (ground arith))
      | inr (n, e) ↦ elim (Option-cases (start_monitoring watch)) [
        | inl k ↦ (λ h. absurd (ground arith), λ (f, g). absurd (ground arith))
        | inr (t, k) ↦ (λ h. ground arith, λ (f, g). ground arith)
      ]
    ]

-- The files that the process reads are there and valid, and the routes file can be watched.
pub record CanStart (os : Platform) (sys : System) : Type 0 where
  pub infra : InfrastructureConfig
  pub infra_is_read :
      parse_infrastructure_config (sys.decode_infrastructure (infra_config_path sys)) ≡ some infra
  pub infra_is_valid : IsValidInfrastructure infra
  pub cfg : Config
  pub cfg_is_loaded : parse_config os (sys.decode_routes (routes_config_path sys)) ≡ some cfg
  pub cfg_is_valid : IsValidConfig os cfg
  pub target : Str
  pub is_watched : start_monitoring (sys.watch (routes_config_path sys)) ≡ some target

-- What a process that serves requests has made of them.
pub record IsReady (os : Platform) (order : Graph → List Str) (sys : System)
    (infra : InfrastructureConfig) (cfg : Config) (q : Process) : Type 0 where
  pub proxy : q.proxy ≡ new (with_port sys infra) true
  pub created :
      create_from_config os order (sys.decode_routes (routes_config_path sys)) ≡ some q.router
  pub index : q.router.index ≡ new_route_index cfg
  pub pool : q.pool ≡ new_pool infra.mirroring.workers infra.mirroring.queue_size

pub main-serving :
    (os : Platform) (order : Graph → List Str) (sys : System) (q : Process)
    → Ranges order
    → main os order sys ≡ serving q
    → (c : CanStart os sys) × IsReady os order sys c.infra c.cfg q
unfolding main
main-serving os order sys q ranges h =
    elim (Option-cases
      (parse_infrastructure_config (sys.decode_infrastructure (infra_config_path sys)))) [
        | inl e ↦ absurd (ground arith)
        | inr (infra, e) ↦ elim (Bool-cases (no_errors (validate_infrastructure infra))) [
          | inr v ↦ absurd (ground arith)
          | inl v ↦
              let decoded = sys.decode_routes (routes_config_path sys) in
              let watch = sys.watch (routes_config_path sys) in
              elim (Option-cases (create_watched os order watch decoded)) [
                | inl f ↦ absurd (ground arith)
                | inr ((router, target), f) ↦ elim (Option-cases (register_all sys)) [
                  | inl r ↦ absurd (ground arith)
                  | inr (names, r) ↦
                      let (created, is_watched) =
                        (create_watched_iff os order watch decoded router target).0 f in
                      let (cfg, loaded, valid, made) =
                        (create_from_config_iff os order decoded router ranges).0 created in
                      let same : serving (record {
                        proxy = new (with_port sys infra) true;
                        router = router;
                        watched = target;
                        pool = new_pool infra.mirroring.workers infra.mirroring.queue_size;
                        collectors = names;
                      })
                          ≡ serving q =
                        ground arith in
                      (
                        record {
                          infra = infra;
                          infra_is_read = e;
                          infra_is_valid =
                              (validate_infrastructure_iff infra).0 ((no_errors_iff _).0 v);
                          cfg = cfg;
                          cfg_is_loaded = loaded;
                          cfg_is_valid = valid;
                          target = target;
                          is_watched = is_watched;
                        },
                        record {
                          proxy = ground arith;
                          created = ground arith;
                          index = ground arith;
                          pool = ground arith;
                        },
                      )
                ]
              ]
        ]
      ]

serving-main :
    (os : Platform) (order : Graph → List Str) (sys : System) (taken : List Str)
    → Ranges order
    → RegistersNew sys taken
    → IsFresh taken
    → CanStart os sys
    → (q : Process) × (main os order sys ≡ serving q)
unfolding main
serving-main os order sys taken ranges new_ones fresh c =
    let created =
      (create_from_config_iff os order _ _ ranges).1
        (c.cfg, c.cfg_is_loaded, c.cfg_is_valid, refl) in
    let made = (create_watched_iff os order _ _ _ c.target).1 (created, c.is_watched) in
    let (names, registered) = register_all-IsFresh sys taken new_ones fresh in
    let valid = (no_errors_iff _).1 ((validate_infrastructure_iff c.infra).1 c.infra_is_valid) in
    rw (c.infra_is_read, valid, made, registered) (_, refl)

-- Ranging over a map brings its keys, and the registry, which is as documented, has none of the proxy's
-- collectors: the process serves requests exactly if both of its files are read, decoded and valid and
-- the routes file can be watched.
pub main-CanStart :
    (os : Platform) (order : Graph → List Str) (sys : System) (taken : List Str)
    → Ranges order
    → RegistersNew sys taken
    → IsFresh taken
    → ((q : Process) × (main os order sys ≡ serving q)) ↔ CanStart os sys
main-CanStart os order sys taken ranges new_ones fresh = (
  λ (q, h). (main-serving os order sys q ranges h).0,
  serving-main os order sys taken ranges new_ones fresh,
)
