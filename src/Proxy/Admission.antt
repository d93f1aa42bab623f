-- ===== src/Proxy/Admission.antt =====
-- proxyRequest up to the check of the webhook's signature: the checks in their order, and what they
-- leave behind.
use mathlib.Core.Option
use cluster_gate.Proxy.{
  no_auth, ProxyRoute, Request, ResponseHeader, Secrets, rate_limit_limit, World, on_breakers,
  rate_limit_remaining, rate_limit_reset, circuit_breaker_state, retry_after,
}
use cluster_gate.Prelude.{
  ℕ, none, some, true, false, [], ◌∷◌, ok, throw, Table, List, String, Bool, ◌&&◌, if◌then◌else◌,
  ◌||◌, ltb, Option, utf16, M, ◌++◌, ensure, present, map, ◌>>◌, ◌>>=◌, forbidden, unauthorized,
  path_not_allowed, too_many_requests, service_unavailable, ◌-◌, ◌+◌, ◌/◌,
}
use cluster_gate.Breaker.{RouteRow, CircuitBreakerResult, check_circuit_breaker}
use cluster_gate.RateLimit.{Counter, Hit, RateLimitResult, check_rate_limit}
use cluster_gate.LoadBalancer.{RouteIndex, RouteTarget}
use cluster_gate.PathAllowlist.Match.{is_path_allowed, route_sub_path}
use cluster_gate.Proxy.Address.{is_ip_allowed}
use cluster_gate.Proxy.Auth.{validate_route_auth}

abbrev pub is_empty : {A : Type 0} → List A → Bool
is_empty [] = true
is_empty (x ∷ xs) = false

-- `req.ip || req.socket.remoteAddress || ''`
abbrev pub client_ip : Request → String
client_ip req = Option.get_or req.ip ""

unfoldable pub ip_passes : ProxyRoute → Request → Bool
ip_passes route req =
    is_empty route.ip_allowlist || is_ip_allowed (client_ip req) route.ip_allowlist

unfoldable pub path_passes : ProxyRoute → Request → Bool
path_passes route req =
    is_empty route.path_allowlist
    || is_path_allowed (route_sub_path (utf16 route.public_path) (utf16 req.path))
        (map utf16 route.path_allowlist)

abbrev pub limits_rate : ProxyRoute → Bool
limits_rate route = route.rate_limit_enabled && ltb 0 route.rate_limit_max

abbrev pub wants_auth : ProxyRoute → Bool
wants_auth route = route.require_auth && elim route.auth_type [ no_auth ↦ false | _ ↦ true ]

abbrev pub shown_limit : ℕ → ℕ → RateLimitResult → List ResponseHeader
shown_limit now max r =
    if r.allowed
    then rate_limit_limit max ∷ rate_limit_remaining r.remaining ∷ rate_limit_reset r.reset_at ∷ []
    else rate_limit_limit max
      ∷ rate_limit_remaining 0
      ∷ rate_limit_reset r.reset_at
      ∷ retry_after ((r.reset_at - now + 999) / 1000)
      ∷ []

abbrev pub hit_of : ℕ → Bool → ProxyRoute → Request → Hit
hit_of now up route req = record {
  route_id = route.id;
  client_ip = client_ip req;
  now = now;
  up = up;
}

module _ (routes : Table RouteRow) (counters : Table Counter) (indices : Table RouteIndex)
    (targets : Table RouteTarget) (hash_key : String → String) (secrets : Secrets) where
  abbrev W : Type 0
  W = World routes counters indices targets

  abbrev pub shown_state : CircuitBreakerResult → M W (Unit {0})
  shown_state r w =
      let w' = record w { shown = w.shown ++ circuit_breaker_state r.state ∷ [] } in
      ensure r.allowed service_unavailable w'

  unfoldable pub check_breaker : ℕ → ProxyRoute → M W (Unit {0})
  check_breaker now route w =
      if route.breaker.circuit_breaker_enabled
      then (on_breakers routes counters indices targets
              (check_circuit_breaker routes now route.id route.breaker)
            >>= shown_state)
          w
      else (ok tt, w)

  unfoldable pub check_ip : ProxyRoute → Request → M W (Unit {0})
  check_ip route req = ensure (ip_passes route req) forbidden

  unfoldable pub check_path : ProxyRoute → Request → M W (Unit {0})
  check_path route req = ensure (path_passes route req) path_not_allowed

  unfoldable pub check_limit : ℕ → Bool → ProxyRoute → Request → M W (Unit {0})
  check_limit now up route req w =
      let (r, s) =
        check_rate_limit counters (hit_of now up route req) route.rate_limit_max
          route.rate_limit_window false w.counted in
      let w' : W = record w {
        counted = s;
        shown = w.shown ++ shown_limit now route.rate_limit_max r;
      } in
      if limits_rate route then ensure r.allowed too_many_requests w' else (ok tt, w)

  unfoldable pub check_auth : ℕ → ProxyRoute → Request → M W (Option String)
  check_auth now route req w =
      let (r, k) = validate_route_auth hash_key secrets now route req w.keys in
      if wants_auth route then (r, record w { keys = k }) else (ok none, w)

  -- `up` says whether the store of the counters answers. The result is the header to be dropped.
  unfoldable pub admit : ℕ → Bool → ProxyRoute → Request → M W (Option String)
  unfolding check_breaker check_ip check_path check_limit check_auth
  admit now up route req =
      check_breaker now route
      >> (check_ip route req
          >> (check_path route req >> (check_limit now up route req >> check_auth now route req)))

  abbrev signature_of : Request → Option String
  signature_of req = elim (present (req.header "X-Hub-Signature-256")) [
    | some s ↦ some s
    | none ↦ present (req.header "X-Webhook-Signature")
  ]

  unfoldable pub check_webhook : ProxyRoute → Request → M W (Unit {0})
  check_webhook route req w = elim (present route.webhook_secret) [
    | none ↦ (ok tt, w)
    | some secret ↦ elim (signature_of req) [
      | none ↦ (throw unauthorized, w)
      | some signature ↦
          ensure
            (secrets.is_signed req.body (Option.get_or (secrets.decrypt (some secret)) "")
              signature)
            unauthorized w
    ]
  ]
