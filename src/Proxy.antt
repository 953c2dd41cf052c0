-- ===== src/Proxy.antt =====
-- internal/proxy/proxy.go: requests, errors and responses as the proxy sees them. The children hold
-- the transport with its failover, the handler with the response writer and the error handler, a
-- request from end to end, and the construction, the run and the shutdown of the server.
pub mod Transport
pub mod Failover
pub mod Handler
pub mod Server
pub mod Serve
pub mod Shutdown
use l7_proxy.Prelude.{ℕ, Bool, true, false, Option, List}
use l7_proxy.Prelude.Int.{ℤ}
use l7_proxy.Text.{Str}
use l7_proxy.Dict.{Dict}
use l7_proxy.Net.{Url}

-- An error, by what errors.Is and errors.As find in its chain.
pub record ProxyError : Type 0 where
  pub is_unavailable : Bool
  pub is_deadline : Bool
  pub is_canceled : Bool
  pub is_max_bytes : Bool

-- fmt.Errorf("%w: ...", errUpstreamUnavailable)
abbrev pub unavailable : ProxyError
unavailable = record {
  is_unavailable = true;
  is_deadline = false;
  is_canceled = false;
  is_max_bytes = false;
}

-- A request of the transport. `get_body` is nil, or what a call returns: the body or an error.
pub record Outbound : Type 0 where
  pub method : Str
  pub url : Url
  pub host : Str
  pub header : Dict (List Str)
  pub body : Str
  pub get_body : Option (Option Str)

-- A response; `breaks` says that copying its body ends in an error, and `releases` that closing the
-- body cancels the attempt's deadline.
pub record Response : Type 0 where
  pub status : ℕ
  pub body : Str
  pub breaks : Bool
  pub releases : Bool
