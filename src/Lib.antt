-- ===== src/Lib.antt =====
-- l7proxy, an HTTP reverse proxy with routing by rules, mirroring and failover: a model of its Go
-- code and what holds of it.
--
-- Parts and how they interact. internal/config reads and validates the two configuration files.
-- internal/routing builds an index of the routes of a configuration and decides, for a request, on
-- an upstream, a target URL, mirrors and a fallback. internal/proxy serves a request by that
-- decision: its reverse proxy sends it through a transport that fails over to the fallback, and
-- hands a copy to internal/mirroring, whose pool of workers sends it to the mirrors.
-- internal/metrics counts both. cmd/proxy reads the configuration, puts the parts together and runs
-- the server until a signal, after which the server, the listener of the configuration and the pool
-- end in this order.
--
-- Files and the code they model:
--   Prelude, Text, Dict, Float, Net   shared: Booleans, lists and integers; Go strings as bytes; maps
--                                     as association lists; float64; URLs, addresses and the
--                                     parsers of the standard library (Net.Platform).
--   Config                            internal/config/config.go. Config/Upstreams, Rules, Routes and
--                                     Infrastructure are the validations, each with a module
--                                     Valid that says what is accepted; Config/Load is ParseConfig,
--                                     Config/Cycles findCycle and Config.Validate.
--   Routing                           internal/routing. Routing/Trie is trie.go; Conditions, Index,
--                                     Rewrite and Decide are routing.go; below Decide, Reference,
--                                     Choice, Resolved and Fallback hold the proofs on decisions.
--                                     Routing/Reload is the listener that reloads the configuration.
--   Mirroring                         internal/mirroring/mirroring.go: jobs and headers;
--                                     Mirroring/Pool is the pool with its workers as steps.
--   Proxy                             internal/proxy/proxy.go. Proxy/Transport is attemptingTransport,
--                                     Proxy/Handler is ServeHTTP, rewrite and errorHandler,
--                                     Proxy/Serve the two with the router and the pool, Proxy/Server
--                                     is New, and Proxy/Shutdown is Run.
--   Metrics                           internal/metrics/metrics.go.
--   Startup                           cmd/proxy/main.go.
--   Backend                           cmd/backend/main.go, a server to test the proxy against.
--   Tests                             a configuration, requests and runs on which the others compute.
--
-- How state and operations correspond. A Go struct is a record and a method that changes it is a
-- function to the new record. An error is a value: a constructor of ConfigError or RouteError,
-- `none`, or `failure`; a panic of a slice is `none` in Routing/Rewrite and `panic` in Routing/Decide.
-- The prefix tree is a tree of lists of children. Concurrency of the pool is a step relation: a
-- submission, the stop, or one move of one worker, interleaved in any order; the listener's loop is a
-- step for each signal it receives. The transport runs on a world of the gate, the limiter and the
-- network, and records what it does in a trace. Run and its goroutines are steps on one state, which
-- holds the pool (Proxy/Shutdown); its runs are runs of the pool.
--
-- Bounds. Loops are structural recursion. The depth-first search of findCycle runs on fuel, as much
-- as the graph names nodes: each nested call colours a white one (Config/Cycles/Fuel). The decimal of
-- a status takes at most as many rounds as the number and one (Metrics). Go's int and time.Duration
-- are 64 bits: a product with a unit of time wraps. A float64 is exact, as a multiple of 2^-1074.
--
-- Not modelled: opening and decoding files, the HTTP client and server and the base transport, which
-- are parameters, as are what setting up the file watcher brings and the vectors and the registry of
-- Prometheus (Metrics.Vectors, Startup.System); how http.ServeMux cleans and matches the path of a
-- request by the patterns of setupMux; informational responses and upgraded connections; logging,
-- pprof and the exposition of Prometheus; case folding and white space outside of ASCII.
pub mod Backend
pub mod Config
pub mod Dict
pub mod Float
pub mod Metrics
pub mod Mirroring
pub mod Net
pub mod Prelude
pub mod Proxy
pub mod Routing
pub mod Startup
pub mod Tests
pub mod Text
