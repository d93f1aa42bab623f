-- ===== src/Proxy/KeyChecked.antt =====
-- A route that asks for an API key is served for valid keys only.
use cluster_gate.Prelude.{
  ℕ, some, false, inl, inr, ok, Table, String, Option, result, ◌≡◌, Bool, exec, arith, Option-cases,
  Bool-cases, ◌&&◌, not, bind-ok, ◌>>◌, ◌∙◌, true, refl, List, ◌≤◌, sym,
}
use cluster_gate.ApiKeys.{World as KeyWorld, Verified, verify_api_key, lookup_key}
use cluster_gate.ApiKeys.Runs.{run, Event, InOrder, last_time, run-lookup_key}
use cluster_gate.ApiKeys.Clearing.{IsCleared}
use cluster_gate.ApiKeys.CacheKey.{NoColon}
use cluster_gate.Breaker.{RouteRow}
use cluster_gate.RateLimit.{Counter}
use cluster_gate.LoadBalancer.{RouteIndex, RouteTarget}
use cluster_gate.Proxy.Auth.{check_key, validate_route_auth, given_key, is_read, is_safe_method}
use cluster_gate.Proxy.{Secrets, ProxyRoute, Request, World, api_key}
use cluster_gate.Proxy.Admission.{
  admit, check_limit, check_ip, check_path, check_auth, check_breaker, wants_auth,
}
use cluster_gate.Proxy.Order.{check_breaker-Untouched}
use cluster_gate.Proxy.Serve.{proxy_request, Surroundings}

-- The request shows a key that the check accepts, and may use it for its method.
abbrev pub ShowsKey : (String → Option Verified) → Request → Type 0
ShowsKey accepts req =
    (key : String) × (header : String) × (v : Verified) × (given_key req ≡ some (key, header))
    × (accepts key ≡ some v)
    × ((is_read v.scope && not (is_safe_method req.method)) ≡ false)

module _ (hash_key : String → String) where
  check_key-ok :
      (now : ℕ) (route : ProxyRoute) (req : Request) (w : KeyWorld) (h : Option String)
      → result (check_key hash_key now route req (given_key req)) w ≡ ok h
      → ShowsKey (λ key. (verify_api_key hash_key now key route.id req.ip w).0) req
  unfolding check_key
  check_key-ok now route req w h okay = elim (Option-cases (given_key req)) [
    | inl missing ↦ absurd (ground arith)
    | inr ((key, header), given) ↦
        elim (Option-cases ((verify_api_key hash_key now key route.id req.ip w).0)) [
          | inl unknown ↦ absurd (ground arith)
          | inr (v, known) ↦
              elim (Bool-cases (is_read v.scope && not (is_safe_method req.method))) [
                | inl writes ↦ absurd (ground arith)
                | inr fine ↦ (key, header, v, given, known, fine)
              ]
        ]
  ]

  validate_route_auth-ok :
      (secrets : Secrets) (now : ℕ) (route : ProxyRoute) (req : Request) (w : KeyWorld)
      (h : Option String)
      → route.auth_type ≡ api_key
      → result (validate_route_auth hash_key secrets now route req) w ≡ ok h
      → ShowsKey (λ key. (verify_api_key hash_key now key route.id req.ip w).0) req
  unfolding validate_route_auth
  validate_route_auth-ok secrets now route req w h keyed okay =
      check_key-ok now route req w h (ground arith)

module _ (routes : Table RouteRow) (counters : Table Counter) (indices : Table RouteIndex)
    (targets : Table RouteTarget) (hash_key : String → String) (secrets : Secrets) where
  abbrev W : Type 0
  W = World routes counters indices targets

  check_ip-keys :
      (route : ProxyRoute) (req : Request) (x : W)
      → (exec (check_ip routes counters indices targets hash_key secrets route req) x).keys ≡ x.keys
  unfolding check_ip
  check_ip-keys route req x = ground arith

  check_path-keys :
      (route : ProxyRoute) (req : Request) (x : W)
      → (exec (check_path routes counters indices targets hash_key secrets route req) x).keys
        ≡ x.keys
  unfolding check_path
  check_path-keys route req x = ground arith

  check_limit-keys :
      (now : ℕ) (up : Bool) (route : ProxyRoute) (req : Request) (x : W)
      → (exec
          (check_limit routes counters indices targets hash_key secrets now up route req)
          x).keys
        ≡ x.keys
  unfolding check_limit
  check_limit-keys now up route req x = ground arith

  admit-auth :
      (now : ℕ) (up : Bool) (route : ProxyRoute) (req : Request) (w : W) (h : Option String)
      → result (admit routes counters indices targets hash_key secrets now up route req) w ≡ ok h
      → (x : W) × (x.keys ≡ w.keys)
        × (result (check_auth routes counters indices targets hash_key secrets now route req) x
            ≡ ok h)
  unfolding admit
  admit-auth now up route req w h okay =
      let breaker = check_breaker routes counters indices targets hash_key secrets now route in
      let ip = check_ip routes counters indices targets hash_key secrets route req in
      let path = check_path routes counters indices targets hash_key secrets route req in
      let limit = check_limit routes counters indices targets hash_key secrets now up route req in
      let auth = check_auth routes counters indices targets hash_key secrets now route req in
      let (_, _, ok1) = bind-ok breaker (λ _. ip >> (path >> (limit >> auth))) w h okay in
      let (_, _, ok2) = bind-ok ip (λ _. path >> (limit >> auth)) (exec breaker w) h ok1 in
      let (_, _, ok3) = bind-ok path (λ _. limit >> auth) (exec ip (exec breaker w)) h ok2 in
      let (_, _, ok4) = bind-ok limit (λ _. auth) (exec path (exec ip (exec breaker w))) h ok3 in
      let (_, (keys1, _, _)) =
        check_breaker-Untouched routes counters indices targets hash_key secrets now route w in
      (
        exec limit (exec path (exec ip (exec breaker w))),
        check_limit-keys now up route req (exec path (exec ip (exec breaker w)))
            ∙ check_path-keys route req (exec ip (exec breaker w))
            ∙ check_ip-keys route req (exec breaker w)
            ∙ keys1,
        ok4,
      )

  check_auth-ok :
      (now : ℕ) (route : ProxyRoute) (req : Request) (x : W) (h : Option String)
      → wants_auth route ≡ true
      → result (check_auth routes counters indices targets hash_key secrets now route req) x ≡ ok h
      → result (validate_route_auth hash_key secrets now route req) x.keys ≡ ok h
  unfolding check_auth
  check_auth-ok now route req x h wanted okay = ground arith

  -- A request to a route that requires an API key is answered by the target only if it shows a key
  -- that a query of the database at that moment accepts for the route, and which is not for reading
  -- only where the method may write. The cache of keys is any that this replica comes to from an empty
  -- one by events in the order of their times, and no digest has a colon.
  pub proxy_request-key :
      (hexadecimal : (key : String) → NoColon (hash_key key)) (s : Surroundings)
      (route : ProxyRoute) (req : Request) (w : W) (t : ℕ) (es : List Event) (start : KeyWorld)
      (status : ℕ)
      → route.require_auth ≡ true
      → route.auth_type ≡ api_key
      → IsCleared start
      → InOrder t es
      → last_time t es ≤ s.now
      → w.keys ≡ run hash_key es start
      → result (proxy_request routes counters indices targets hash_key secrets s route req) w
        ≡ ok status
      → ShowsKey (λ key. lookup_key hash_key s.now (hash_key key) route.id w.keys.db) req
  unfolding proxy_request
  proxy_request-key hexadecimal s route req w t es start status required keyed cleared order le ran
        answered =
      let (h, admitted, _) =
        bind-ok (admit routes counters indices targets hash_key secrets s.now s.up route req) _ w
          status answered in
      let (x, same, authorized) = admit-auth s.now s.up route req w h admitted in
      let (key, header, v, given, known, fine) =
        validate_route_auth-ok hash_key secrets s.now route req x.keys h keyed
          (check_auth-ok s.now route req x h (rw (required, keyed) refl) authorized) in
      let reads =
        run-lookup_key hash_key hexadecimal t es start cleared order s.now key route.id req.ip le in
      (key, header, v, given, rw ran (sym reads ∙ rw⁻¹ (same ∙ ran) known), fine)
