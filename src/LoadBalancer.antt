-- ===== src/LoadBalancer.antt =====
-- backend/src/services/loadBalancerService.ts: the choice of a target, and the operations on the
-- route_targets table.
pub mod Fair
pub mod Weights
pub mod Priority
pub mod Health
mod Tests
use mathlib.Core.Option
use cluster_gate.Prelude.{
  ℕ, none, some, true, false, [], ◌∷◌, Bool, String, Table, M, List, Option, update, if◌then◌else◌,
  delete, ◌+◌, get_elem?, str_eq, leb, create, ◌*◌, ◌%◌, length,
}

pub data LbStrategy : Type 0 where
  round_robin weighted failover : LbStrategy

pub record RouteTarget : Type 0 where
  pub id : String
  pub route_id : String
  pub url : String
  pub weight : ℕ
  pub priority : ℕ
  pub is_healthy : Bool
  pub last_error : Option String

-- `{ url, targetId }`
pub record Selected : Type 0 where
  pub url : String
  pub target_id : String

abbrev pub selected : RouteTarget → Selected
selected t = record { url = t.url; target_id = t.id }

-- targets.filter((t) => t.isHealthy)
unfoldable pub healthy_of : List RouteTarget → List RouteTarget
healthy_of [] = []
healthy_of (t ∷ ts) = if t.is_healthy then t ∷ healthy_of ts else healthy_of ts

-- `targets[idx % targets.length]`, at an index that the caller has drawn.
unfoldable pub pick_round_robin : ℕ → List RouteTarget → Option Selected
pick_round_robin idx targets = Option.map selected (get_elem? targets (idx % length targets))

unfoldable pub total_weight : ℕ → List RouteTarget → ℕ
total_weight sum [] = sum
total_weight sum (t ∷ ts) = total_weight (sum + t.weight) ts

-- The loop of `weighted`. `Math.random()` is the fraction u / scale, and all is multiplied by the
-- scale: `draw` is u * totalWeight and `spent` what was subtracted from `random` so far, so that
-- `random <= 0` reads draw ≤ scale * spent. The rounding of the floats is left out.
unfoldable pub weighted_from : ℕ → ℕ → ℕ → RouteTarget → List RouteTarget → RouteTarget
weighted_from draw scale spent last [] = last
weighted_from draw scale spent last (t ∷ ts) =
    let rest = weighted_from draw scale (spent + t.weight) t ts in
    if leb draw (scale * (spent + t.weight)) then t else rest

-- Where there is no target the source does not call it.
unfoldable pub pick_weighted : ℕ → ℕ → List RouteTarget → Option Selected
unfolding weighted_from total_weight
pick_weighted u scale [] = none
pick_weighted u scale (t ∷ ts) =
    some (selected (weighted_from (u * total_weight 0 (t ∷ ts)) scale 0 t (t ∷ ts)))

-- `[...targets].sort((a, b) => a.priority - b.priority)`: the language's sort is stable.
unfoldable pub insert_by_priority : RouteTarget → List RouteTarget → List RouteTarget
insert_by_priority t [] = t ∷ []
insert_by_priority t (x ∷ xs) =
    if leb t.priority x.priority then t ∷ x ∷ xs else x ∷ insert_by_priority t xs

unfoldable pub sort_by_priority : List RouteTarget → List RouteTarget
unfolding insert_by_priority
sort_by_priority [] = []
sort_by_priority (t ∷ ts) = insert_by_priority t (sort_by_priority ts)

abbrev first : List RouteTarget → Option Selected
first [] = none
first (t ∷ ts) = some (selected t)

unfoldable pub pick_failover : List RouteTarget → Option Selected
unfolding sort_by_priority
pick_failover targets = first (sort_by_priority targets)

abbrev pub is_empty : List RouteTarget → Bool
is_empty [] = true
is_empty (t ∷ ts) = false

-- The column of routes that the round robin counts in.
pub record RouteIndex : Type 0 where
  pub lb_rr_index : ℕ

-- What a choice takes from outside: whether the store answers, and `Math.random()`.
pub record Chance : Type 0 where
  pub up : Bool
  pub draw : ℕ
  pub scale : ℕ

module _ (indices : Table RouteIndex) where
  open indices use {State, find_unique, write}

  -- The shared column, and the replica's own rrIndexMap.
  pub record Balancer : Type 0 where
    pub stored : State
    pub rr_index_map : String → Option ℕ

  abbrev index_or_zero : Option ℕ → ℕ
  index_or_zero none = 0
  index_or_zero (some n) = n

  -- The index of this call, and what it leaves. UPDATE … RETURNING gives no row where there is no
  -- such route, and then the index is 0.
  unfoldable pub next_index : Bool → String → Balancer → ℕ × Balancer
  next_index true route_id b = elim (find_unique route_id b.stored) [
    | none ↦ (0, b)
    | some r ↦
        let n = r.lb_rr_index + 1 in
        (n, record b { stored = write route_id (record { lb_rr_index = n }) b.stored })
  ]
  next_index false route_id b =
      let idx = index_or_zero (b.rr_index_map route_id) in
      (
        idx,
        record b {
          rr_index_map = λ k. if str_eq route_id k then some (idx + 1) else b.rr_index_map k;
        },
      )

  -- The `switch` over the strategy, for targets of which one at least is healthy.
  unfoldable pub select_healthy :
      Chance → String → LbStrategy → List RouteTarget → Balancer → Option Selected × Balancer
  unfolding next_index pick_round_robin pick_weighted pick_failover
  select_healthy chance route_id round_robin healthy b =
      let (idx, b') = next_index chance.up route_id b in (pick_round_robin idx healthy, b')
  select_healthy chance route_id weighted healthy b =
      (pick_weighted chance.draw chance.scale healthy, b)
  select_healthy chance route_id failover healthy b = (pick_failover healthy, b)

  unfoldable pub select_target :
      Chance → String → LbStrategy → List RouteTarget → Balancer → Option Selected × Balancer
  unfolding select_healthy healthy_of
  select_target chance route_id strategy targets b =
      let healthy = healthy_of targets in
      if is_empty healthy then (none, b) else select_healthy chance route_id strategy healthy b

-- Errors of the two updates are logged and dropped.
abbrev dropping : {S : Type 0} {A : Type 0} → M S A → S → S
dropping m s = (m s).1

module _ (targets : Table RouteTarget) where
  open targets use {State}

  unfoldable pub mark_target_unhealthy : String → String → State → State
  mark_target_unhealthy id error =
      dropping (update targets id (λ t. record t { is_healthy = false; last_error = some error }))

  unfoldable pub mark_target_healthy : String → State → State
  mark_target_healthy id =
      dropping (update targets id (λ t. record t { is_healthy = true; last_error = none }))

  -- `data.weight ?? 100`, `data.priority ?? 0`; the column isHealthy starts as true.
  unfoldable pub add_target : String → String → String → Option ℕ → Option ℕ → M State RouteTarget
  add_target new_id route_id url weight priority = create targets new_id (record {
    id = new_id;
    route_id = route_id;
    url = url;
    weight = Option.get_or weight 100;
    priority = Option.get_or priority 0;
    is_healthy = true;
    last_error = none;
  })

  unfoldable pub delete_target : String → M State RouteTarget
  delete_target id = delete targets id

  -- A field that is `undefined` is left as it is.
  unfoldable pub update_target :
      String → Option String → Option ℕ → Option ℕ → Option Bool → M State RouteTarget
  update_target id url weight priority is_healthy = update targets id (λ t. record t {
    url = Option.get_or url t.url;
    weight = Option.get_or weight t.weight;
    priority = Option.get_or priority t.priority;
    is_healthy = Option.get_or is_healthy t.is_healthy;
  })
