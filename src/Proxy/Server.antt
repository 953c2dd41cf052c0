-- ===== src/Proxy/Server.antt =====
-- proxy.go: New, buildTransport and setupMux, which wire the proxy together: the settings that reach
-- the library's server and transport, and the patterns of the mux.
use l7_proxy.Prelude.{Bool, true, false, List, [], ◌∷◌, ◌++◌, Option}
use l7_proxy.Prelude.Int.{ℤ, pos}
use l7_proxy.Text.{Str, codes}
use l7_proxy.Config.{InfrastructureConfig}
use l7_proxy.Proxy.Handler.{to_sec}
use l7_proxy.Proxy.Transport.{Outcome, Seams, allow_all_gate, discard, unlimited_limiter}
use l7_proxy.Proxy.{Outbound}

-- The fields of the http.Transport that buildTransport sets; a Duration is its nanoseconds.
pub record TransportSettings : Type 0 where
  pub dial_timeout : ℤ
  pub dial_keep_alive : ℤ
  pub tls_handshake_timeout : ℤ
  pub response_header_timeout : ℤ
  pub idle_conn_timeout : ℤ
  pub max_idle_conns : ℤ
  pub max_idle_conns_per_host : ℤ
  pub disable_keep_alives : Bool
  pub max_conns_per_host : ℤ
  pub force_attempt_http2 : Bool

unfoldable pub build_transport : InfrastructureConfig → TransportSettings
build_transport infra = record {
  dial_timeout = to_sec infra.transport.tcp;
  dial_keep_alive = to_sec infra.transport.keep_alive;
  tls_handshake_timeout = to_sec infra.transport.tls;
  response_header_timeout = to_sec infra.transport.response_header;
  idle_conn_timeout = to_sec infra.transport.idle_conn;
  max_idle_conns = infra.connection_pool.max_idle_conns;
  max_idle_conns_per_host = infra.connection_pool.max_idle_conns_per_host;
  disable_keep_alives = false;
  max_conns_per_host = pos 0;
  force_attempt_http2 = true;
}

-- The fields of the http.Server that New sets.
pub record ServerSettings : Type 0 where
  pub addr : Str
  pub read_header_timeout : ℤ
  pub idle_timeout : ℤ

-- The handlers of the mux: promhttp's, and the proxy itself.
pub data MuxHandler : Type 0 where
  metrics_handler proxy_handler : MuxHandler

-- The patterns that setupMux registers with http.ServeMux, in order, and their handlers. Matching a
-- request with them, its path cleaned before, is the library's.
unfoldable pub setup_mux : List (Str × MuxHandler)
setup_mux = (codes "/metrics", metrics_handler) ∷ (codes "/", proxy_handler) ∷ []

pub record L7Proxy : Type 0 where
  pub infra : InfrastructureConfig
  pub transport : TransportSettings
  pub mux : List (Str × MuxHandler)
  pub server : ServerSettings
  pub has_metrics : Bool

-- New. The gate and the limiter are the defaults, which the seams of a proxy take.
unfoldable pub new : InfrastructureConfig → Bool → L7Proxy
unfolding build_transport setup_mux
new infra has_metrics = record {
  infra = infra;
  transport = build_transport infra;
  mux = setup_mux;
  server = record {
    addr = codes ":" ++ infra.port;
    read_header_timeout = to_sec infra.server.read_header;
    idle_timeout = to_sec infra.server.idle;
  };
  has_metrics = has_metrics;
}

-- The seams of a new proxy, for a base transport and a context.
unfoldable pub default_seams :
    {W : Type 0} → (Outbound → Option ℤ → W → Outcome × W) → (W → Bool) → Seams W
default_seams base done = record {
  limiter_allow = unlimited_limiter;
  gate_allow = allow_all_gate;
  gate_record = discard;
  round_trip = base;
  context_done = done;
}
