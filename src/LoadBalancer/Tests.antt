-- ===== src/LoadBalancer/Tests.antt =====
-- The balancer's theorems at concrete targets, and tests.
use cluster_gate.Prelude.{
  ℕ, none, some, true, false, [], ◌∷◌, refl, All, List, String, Table, length, ◌≡◌, Bool, memory,
  ◌⊎◌, drop, ◌%◌, ◌++◌, take, arith, ◌*◌,
}
use cluster_gate.LoadBalancer.{
  RouteTarget, healthy_of, Balancer, pick_weighted, Chance, RouteIndex, select_target, failover,
  selected, Selected,
}
use cluster_gate.LoadBalancer.Fair.{selections, chosen, selections-round}
use cluster_gate.LoadBalancer.Health.{NamesHealthy, select_target-healthy}
use cluster_gate.LoadBalancer.Weights.{Share, weight_sum, pick_weighted-Share}

abbrev target : String → ℕ → ℕ → Bool → RouteTarget
target name weight priority up = record {
  id = name;
  route_id = "r1";
  url = "http://svc";
  weight = weight;
  priority = priority;
  is_healthy = up;
  last_error = none;
}

abbrev a : RouteTarget
a = target "a" 100 2 true

abbrev b : RouteTarget
b = target "b" 300 1 true

abbrev down : RouteTarget
down = target "down" 500 0 false

abbrev pool : List RouteTarget
pool = a ∷ down ∷ b ∷ []

abbrev indices : Table RouteIndex
indices = memory RouteIndex

abbrev start : Balancer indices
start = record { stored = λ k. some (record { lb_rr_index = 6 }); rr_index_map = λ k. none }

abbrev chance : Chance
chance = record { up = true; draw = 30; scale = 100 }

round_robin_run :
    selections indices chance "r1" pool 3 start
    ≡ some (selected b) ∷ some (selected a) ∷ some (selected b) ∷ []
unfolding selections select_target
round_robin_run = refl

weighted_run :
    (pick_weighted 25 100 (a ∷ b ∷ []) ≡ some (selected a))
    × (pick_weighted 26 100 (a ∷ b ∷ []) ≡ some (selected b))
unfolding pick_weighted
weighted_run = (refl, refl)

selections-round_example :
    selections indices chance "r1" pool (length (healthy_of pool)) start
    ≡ chosen (
        drop (7 % length (healthy_of pool)) (healthy_of pool)
        ++ take (7 % length (healthy_of pool)) (healthy_of pool))
unfolding healthy_of
selections-round_example =
    selections-round indices chance "r1" pool refl (omega arith) start (record { lb_rr_index = 6 })
      refl

pick_weighted-Share_example :
    (t : RouteTarget) × (pick_weighted 26 100 (a ∷ b ∷ []) ≡ some (selected t))
    × Share (26 * weight_sum (a ∷ b ∷ [])) 100 0 (a ∷ b ∷ []) t
pick_weighted-Share_example = pick_weighted-Share 26 100 (a ∷ b ∷ []) (omega arith) (omega arith)

select_target-healthy_example :
    (All (λ t. t.is_healthy ≡ false) pool
      × ((select_target indices chance "r1" failover pool start).0 ≡ none))
    ⊎ ((sel : Selected) × ((select_target indices chance "r1" failover pool start).0 ≡ some sel)
        × NamesHealthy sel pool)
select_target-healthy_example = select_target-healthy indices chance "r1" failover pool start
