-- ===== src/Config/Infrastructure.antt =====
-- config.go: the validation of the infrastructure configuration.
pub mod Valid
use l7_proxy.Prelude.{Bool, not, List, [], ◌∷◌, ◌++◌, Option, none, some, if◌then◌else◌}
use l7_proxy.Prelude.Int.{ℤ, pos, ltb_ℤ}
use l7_proxy.Text.{Str, codes}
use l7_proxy.Config.{
  InfrastructureConfig, ConfigError, negative_setting, max_body_size_not_positive, report_if,
}

-- `if v < 0 { errs = append(errs, ...) }` for a setting, by its key
abbrev pub at_least_0 : Str → ℤ → List ConfigError
at_least_0 key v = report_if (ltb_ℤ v (pos 0)) (negative_setting key v)

unfoldable pub validate_timeouts : InfrastructureConfig → List ConfigError
validate_timeouts cfg =
    at_least_0 (codes "net-timeouts-s.transport.tcp") cfg.transport.tcp
    ++ (at_least_0 (codes "net-timeouts-s.transport.keep-alive") cfg.transport.keep_alive
        ++ (at_least_0 (codes "net-timeouts-s.transport.tls") cfg.transport.tls
            ++ (at_least_0 (codes "net-timeouts-s.transport.response-header")
                  cfg.transport.response_header
                ++ (at_least_0 (codes "net-timeouts-s.transport.idle-conn") cfg.transport.idle_conn
                    ++ (at_least_0 (codes "net-timeouts-s.server.context") cfg.server.context
                        ++ (at_least_0 (codes "net-timeouts-s.server.read-header")
                              cfg.server.read_header
                            ++ at_least_0 (codes "net-timeouts-s.server.idle") cfg.server.idle))))))

unfoldable pub validate_connection_pool : InfrastructureConfig → List ConfigError
validate_connection_pool cfg =
    at_least_0 (codes "connection-pool.max-idle-conns") cfg.connection_pool.max_idle_conns
    ++ at_least_0 (codes "connection-pool.max-idle-conns-per-host")
        cfg.connection_pool.max_idle_conns_per_host

unfoldable pub validate_mirroring_config : InfrastructureConfig → List ConfigError
validate_mirroring_config cfg =
    at_least_0 (codes "mirroring.workers") cfg.mirroring.workers
    ++ at_least_0 (codes "mirroring.queue-size") cfg.mirroring.queue_size

unfoldable pub validate_max_body_size : InfrastructureConfig → List ConfigError
validate_max_body_size cfg =
    report_if (not (ltb_ℤ (pos 0) cfg.max_body_size)) (max_body_size_not_positive cfg.max_body_size)

unfoldable pub validate_infrastructure : InfrastructureConfig → List ConfigError
unfolding validate_timeouts validate_connection_pool validate_mirroring_config
    validate_max_body_size
validate_infrastructure cfg =
    validate_timeouts cfg
    ++ (validate_connection_pool cfg
        ++ (validate_mirroring_config cfg ++ validate_max_body_size cfg))

-- ParseInfrastructureConfig on what opening and decoding the file brings; `none` is an error of
-- either.
unfoldable pub parse_infrastructure_config :
    Option InfrastructureConfig → Option InfrastructureConfig
parse_infrastructure_config none = none
parse_infrastructure_config (some infra) = some infra
