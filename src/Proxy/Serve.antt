-- ===== src/Proxy/Serve.antt =====
-- The whole of proxyRequest for a response that is buffered: the checks, the choice of a target, the
-- calls, and what is recorded of their end.
use mathlib.Core.Option
use cluster_gate.Prelude.{
  ℕ, none, some, ok, throw, Table, Bool, String, M, Option, service_unavailable, if◌then◌else◌,
  exec, ◌>>=◌, ◌>>◌, ◌==◌, present,
}
use cluster_gate.Breaker.{RouteRow, record_success, record_failure}
use cluster_gate.RateLimit.{Counter}
use cluster_gate.LoadBalancer.{
  RouteIndex, RouteTarget, Chance, Selected, select_target, mark_target_healthy,
  mark_target_unhealthy,
}
use cluster_gate.Proxy.{Secrets, ProxyRoute, World, Request}
use cluster_gate.Proxy.Attempts.{Answer, forward}
use cluster_gate.Proxy.Admission.{is_empty, admit, check_webhook}

-- What a request meets outside: the clock at its start and at its end, whether the store of the counters answers, what the
-- balancer draws, whether the chosen url starts with https://, what each call
-- of axios ends in, and the message of its error.
pub record Surroundings : Type 0 where
  pub now : ℕ
  pub ended : ℕ
  pub up : Bool
  pub chance : Chance
  pub is_https : String → Bool
  pub answers : ℕ → Answer
  pub error : String

module _ (routes : Table RouteRow) (counters : Table Counter) (indices : Table RouteIndex)
    (targets : Table RouteTarget) (hash_key : String → String) (secrets : Secrets) where
  abbrev W : Type 0
  W = World routes counters indices targets

  -- The target, or none where the route has no list of targets; an error where none is healthy.
  unfoldable pub choose_target : Surroundings → ProxyRoute → M W (Option Selected)
  choose_target s route w =
      let (chosen, b) =
        select_target indices s.chance route.id route.lb_strategy route.targets w.balancer in
      if is_empty route.targets then (ok none, w) else elim chosen [
        | none ↦ (throw service_unavailable, record w { balancer = b })
        | some t ↦ (ok (some t), record w { balancer = b })
      ]

  abbrev pub record_health : (String → targets.State → targets.State) → Option Selected → W → W
  record_health mark chosen w = elim chosen [
    | none ↦ w
    | some t ↦ record w { health = mark t.target_id w.health }
  ]

  -- The calls for whose end nobody waits are taken where they are made.
  abbrev pub record_breaker : {A : Type 0} → M routes.State A → ProxyRoute → W → W
  record_breaker m route w =
      if route.breaker.circuit_breaker_enabled then record w { breakers = exec m w.breakers } else w

  unfoldable pub recorded : Surroundings → ProxyRoute → Option Selected → Option ℕ → M W ℕ
  recorded s route chosen (some status) w = (
    ok (if status == 0 then 502 else status),
    record_health (mark_target_healthy targets) chosen
        (record_breaker (record_success routes route.id) route w),
  )
  recorded s route chosen none w = (
    throw service_unavailable,
    record_health
        (λ id.
          mark_target_unhealthy targets id (Option.get_or (present (some s.error)) "Proxy error"))
        chosen (record_breaker (record_failure routes s.ended route.id) route w),
  )

  abbrev pub url_of : ProxyRoute → Option Selected → String
  url_of route none = route.target_url
  url_of route (some t) = t.url

  unfoldable pub call_target : Surroundings → ProxyRoute → Request → Option Selected → M W ℕ
  unfolding recorded
  call_target s route req chosen =
      let f =
        forward s.answers req.is_streamed route.retry_count (s.is_https (url_of route chosen)) in
      recorded s route chosen f.status

  unfoldable pub proxy_request : Surroundings → ProxyRoute → Request → M W ℕ
  unfolding choose_target call_target
  proxy_request s route req =
      admit routes counters indices targets hash_key secrets s.now s.up route req >>= λ consumed.
      check_webhook routes counters indices targets hash_key secrets route req
      >> (choose_target s route >>= call_target s route req)
