-- ===== src/Proxy.antt =====
-- backend/src/services/proxyService.ts: what decides whether a proxied request is let through, what it
-- uses up on the way, what is sent, and what is recorded of its end. Times are milliseconds.
pub mod Address
pub mod Networks
pub mod Attempts
pub mod Auth
pub mod Admission
pub mod Headers
pub mod Fields
pub mod Build
pub mod Dispatch
pub mod Harden
pub mod Location
pub mod Serve
pub mod Order
pub mod KeyChecked
mod Tests
use cluster_gate.Prelude.{ℕ, [], ◌∷◌, ok, String, Option, Table, Bool, M, List, ◌++◌}
use cluster_gate.ApiKeys.{World as KeyWorld}
use cluster_gate.Breaker.{RouteRow, CbState}
use cluster_gate.RateLimit.{Counter}
use cluster_gate.LoadBalancer.{RouteIndex, RouteTarget, LbStrategy, Balancer}

pub data AuthType : Type 0 where
  no_auth api_key basic bearer : AuthType

-- The columns of the route that are read here; the breaker's own are in `breaker`.
pub record ProxyRoute : Type 0 where
  pub id : String
  pub public_path : String
  pub breaker : RouteRow
  pub ip_allowlist : List String
  pub path_allowlist : List String
  pub rate_limit_enabled : Bool
  pub rate_limit_max : ℕ
  pub rate_limit_window : ℕ
  pub require_auth : Bool
  pub auth_type : AuthType
  pub auth_value : Option String
  pub webhook_secret : Option String
  pub target_url : String
  pub targets : List RouteTarget
  pub lb_strategy : LbStrategy
  pub retry_count : ℕ

-- `req.ip || req.socket.remoteAddress`, the path that is matched, the method, the headers by name
-- (`req.get`), and the body, decoded.
pub record Request : Type 0 where
  pub ip : Option String
  pub path : String
  pub method : String
  pub header : String → Option String
  pub body : String
  pub is_streamed : Bool

-- The headers that the checks set on the response, and their values.
pub data ResponseHeader : Type 0 where
  circuit_breaker_state : CbState → ResponseHeader
  rate_limit_limit rate_limit_remaining rate_limit_reset retry_after : ℕ → ResponseHeader

-- decryptSecret, and validateWebhookSignature on a body, a secret and a signature: HMAC and AES of
-- the runtime.
pub record Secrets : Type 0 where
  pub decrypt : Option String → Option String
  pub is_signed : String → String → String → Bool

module _ (routes : Table RouteRow) (counters : Table Counter) (indices : Table RouteIndex)
    (targets : Table RouteTarget) where
  pub record World : Type 0 where
    pub breakers : routes.State
    pub counted : counters.State
    pub keys : KeyWorld
    pub balancer : Balancer indices
    pub health : targets.State
    pub shown : List ResponseHeader

  -- A computation on one part of the state.
  abbrev pub on_breakers : {A : Type 0} → M routes.State A → M World A
  on_breakers m w = let (r, s) = m w.breakers in (r, record w { breakers = s })

  abbrev pub show : ResponseHeader → M World (Unit {0})
  show h w = (ok tt, record w { shown = w.shown ++ h ∷ [] })
