-- ===== src/Proxy/Order.antt =====
-- What a refused request has used up.
use cluster_gate.Prelude.{
  ℕ, Table, String, ◌≡◌, exec, true, false, refl, inl, inr, Bool-cases, Bool, bind-keeps, M, Option,
  ◌&&◌, Refuses, ◌>>◌, too_many_requests, forbidden, arith, path_not_allowed, ok, ◌>>=◌,
  if◌then◌else◌, Refuses-bind, bind-Refuses,
}
use cluster_gate.Breaker.{RouteRow, CircuitBreakerResult, check_circuit_breaker}
use cluster_gate.RateLimit.{Counter, check_rate_limit}
use cluster_gate.LoadBalancer.{RouteIndex, RouteTarget}
use cluster_gate.Proxy.{Secrets, World, ProxyRoute, Request, on_breakers}
use cluster_gate.Proxy.Admission.{
  check_breaker, check_limit, check_ip, check_path, shown_state, limits_rate, ip_passes, hit_of,
  path_passes, check_auth, admit,
}
use cluster_gate.Proxy.Serve.{proxy_request, Surroundings}

module _ (routes : Table RouteRow) (counters : Table Counter) (indices : Table RouteIndex)
    (targets : Table RouteTarget) (hash_key : String → String) (secrets : Secrets) where
  abbrev W : Type 0
  W = World routes counters indices targets

  -- What is left alone, from the keys on, and with the counters of the limiter.
  abbrev pub Kept : W → W → Type 0
  Kept w w' = (w'.keys ≡ w.keys) × (w'.balancer ≡ w.balancer) × (w'.health ≡ w.health)

  abbrev pub Untouched : W → W → Type 0
  Untouched w w' = (w'.counted ≡ w.counted) × Kept w w'

  shown_state-Untouched :
      (w x : W) (r : CircuitBreakerResult)
      → Untouched w x
      → Untouched w (exec (shown_state routes counters indices targets hash_key secrets r) x)
  shown_state-Untouched w x r h = elim (Bool-cases r.allowed) [
    | inl yes_ ↦ rw (exec, yes_) h
    | inr no_ ↦ rw (exec, no_) h
  ]

  pub check_breaker-Untouched :
      (now : ℕ) (route : ProxyRoute) (w : W)
      → Untouched w
          (exec (check_breaker routes counters indices targets hash_key secrets now route) w)
  unfolding check_breaker
  check_breaker-Untouched now route w =
      let checked : M W (Unit {0}) =
        on_breakers routes counters indices targets
          (check_circuit_breaker routes now route.id route.breaker)
        >>= shown_state routes counters indices targets hash_key secrets in
      let kept : Untouched w (exec checked w) =
        bind-keeps (Untouched w)
          (on_breakers routes counters indices targets
            (check_circuit_breaker routes now route.id route.breaker))
          (shown_state routes counters indices targets hash_key secrets) w
          (refl, (refl, refl, refl)) (λ r x h. shown_state-Untouched w x r h) in
      elim route.breaker.circuit_breaker_enabled
        as (λ b. Untouched w (if b then checked w else (ok tt, w)).1) [
          | true ↦ kept
          | false ↦ (refl, (refl, refl, refl))
        ]

  check_limit-Refuses :
      (now : ℕ) (up : Bool) (route : ProxyRoute) (req : Request) (w x : W)
      → limits_rate route ≡ true
      → (check_rate_limit counters
          (hit_of now up route req)
          route.rate_limit_max
          route.rate_limit_window
          false
          w.counted).0.allowed
        ≡ false
      → Untouched w x
      → Refuses
          (Kept w)
          (check_limit routes counters indices targets hash_key secrets now up route req x)
  unfolding check_limit
  check_limit-Refuses now up route req w x limited over (counted, kept) =
      rw (check_limit, limited, counted, over) ((too_many_requests, refl), kept)

  abbrev the_rest : ℕ → Bool → ProxyRoute → Request → M W (Option String)
  the_rest now up route req =
      check_limit routes counters indices targets hash_key secrets now up route req
      >> check_auth routes counters indices targets hash_key secrets now route req

  listed :
      (now : ℕ) (up : Bool) (route : ProxyRoute) (req : Request) (w x : W)
      → (ip_passes route req && path_passes route req) ≡ false
      → Untouched w x
      → Refuses (Untouched w) (
          (check_ip routes counters indices targets hash_key secrets route req
              >> (check_path routes counters indices targets hash_key secrets route req
                  >> the_rest now up route req))
            x)
  unfolding check_ip check_path
  listed now up route req w x unlisted h = elim (Bool-cases (ip_passes route req)) [
    | inr foreign ↦ rw (foreign) ((forbidden, refl), h)
    | inl known ↦
        let hidden : path_passes route req ≡ false = ground arith in
        rw (known, hidden) ((path_not_allowed, refl), h)
  ]

  over_limit :
      (now : ℕ) (up : Bool) (route : ProxyRoute) (req : Request) (w x : W)
      → limits_rate route ≡ true
      → (check_rate_limit counters
          (hit_of now up route req)
          route.rate_limit_max
          route.rate_limit_window
          false
          w.counted).0.allowed
        ≡ false
      → Untouched w x
      → Refuses (Kept w) (
          (check_ip routes counters indices targets hash_key secrets route req
              >> (check_path routes counters indices targets hash_key secrets route req
                  >> the_rest now up route req))
            x)
  unfolding check_ip check_path
  over_limit now up route req w x limited over h =
      let refused =
        Refuses-bind (Kept w)
          (check_limit routes counters indices targets hash_key secrets now up route req)
          (λ _. check_auth routes counters indices targets hash_key secrets now route req) x
          (check_limit-Refuses now up route req w x limited over h) in
      elim (Bool-cases (ip_passes route req)) [
        | inr foreign ↦ rw (foreign) ((forbidden, refl), h.1)
        | inl known ↦ elim (Bool-cases (path_passes route req)) [
          | inr hidden ↦ rw (known, hidden) ((path_not_allowed, refl), h.1)
          | inl exposed ↦ rw (known, exposed) refused
        ]
      ]

  -- A request that the address list or the path list of the route refuses ends in an error and has
  -- used up nothing of its rate limit, no API key and no turn of the balancer, and says nothing of a
  -- target's health. Nor has one that the limiter refuses, of all that but its count.
  pub proxy_request-refused :
      (s : Surroundings) (route : ProxyRoute) (req : Request) (w : W)
      → ((ip_passes route req && path_passes route req) ≡ false
          → Refuses
              (Untouched w)
              (proxy_request routes counters indices targets hash_key secrets s route req w))
        × (limits_rate route ≡ true
            → (check_rate_limit counters
                (hit_of s.now s.up route req)
                route.rate_limit_max
                route.rate_limit_window
                false
                w.counted).0.allowed
              ≡ false
            → Refuses
                (Kept w)
                (proxy_request routes counters indices targets hash_key secrets s route req w))
  unfolding proxy_request admit
  proxy_request-refused s route req w = (
    λ unlisted.
        Refuses-bind (Untouched w)
          (admit routes counters indices targets hash_key secrets s.now s.up route req) _ w
          (bind-Refuses (Untouched w) (Untouched w)
            (check_breaker routes counters indices targets hash_key secrets s.now route) _ w
            (check_breaker-Untouched s.now route w) (λ _ h. h)
            (λ _ x h. listed s.now s.up route req w x unlisted h)),
    λ limited over.
        Refuses-bind (Kept w)
          (admit routes counters indices targets hash_key secrets s.now s.up route req) _ w
          (bind-Refuses (Untouched w) (Kept w)
            (check_breaker routes counters indices targets hash_key secrets s.now route) _ w
            (check_breaker-Untouched s.now route w) (λ _ (counted, kept). kept)
            (λ _ x h. over_limit s.now s.up route req w x limited over h)),
  )
