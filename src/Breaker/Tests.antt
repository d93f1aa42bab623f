-- ===== src/Breaker/Tests.antt =====
-- The breaker's theorems at concrete routes, and tests.
use cluster_gate.Breaker.{
  RouteRow, open_, half_open, closed, record_failure, check_and_create_from_cb_open,
}
use cluster_gate.Breaker.Invariant.{IsValid}
use cluster_gate.Breaker.Traces.{
  run, failure, failures, success, request, run-IsValid, record_failure-trips,
}
use cluster_gate.Prelude.{
  Table, true, memory, some, arith, none, if◌then◌else◌, ◌∷◌, [], str_eq, ◌≡◌, ok, refl, exec,
  result, ℕ, ◌≤◌, ◌++◌,
}
use cluster_gate.Breaker.Recovery.{IsClosedIn, run-recovers}

abbrev fresh : RouteRow
fresh = record {
  name = "docs";
  circuit_breaker_enabled = true;
  cb_failure_threshold = 3;
  cb_recovery_timeout = 30000;
  cb_state = closed;
  cb_failure_count = 0;
  cb_last_failure_at = none;
  cb_opened_at = none;
}

abbrev tripped : RouteRow
tripped = record fresh {
  cb_state = open_;
  cb_failure_count = 3;
  cb_last_failure_at = some 1000;
  cb_opened_at = some 1000;
}

abbrev probing : RouteRow
probing = record tripped { cb_state = half_open }

abbrev routes : Table RouteRow
routes = memory RouteRow

abbrev only : RouteRow → routes.State
only r id = if str_eq id "r1" then some r else none

fresh-IsValid : IsValid fresh
fresh-IsValid = ground arith

run-IsValid_example :
    (r' : RouteRow) × (only_after : routes.find_unique "r1"
        (run routes "r1" (failure 1 ∷ success ∷ failure 2 ∷ request 3 ∷ []) (only fresh))
      ≡ some r')
    × IsValid r'
run-IsValid_example =
    run-IsValid routes "r1" (failure 1 ∷ success ∷ failure 2 ∷ request 3 ∷ []) (only fresh) fresh
      refl fresh-IsValid

record_failure-trips_example :
    let s' = run routes "r1" (failures (5 ∷ 6 ∷ [])) (only fresh) in
    (r' : RouteRow) × (r'' : RouteRow) × (routes.find_unique "r1" s' ≡ some r')
    × (r'.cb_state ≡ closed)
    × (routes.find_unique "r1" (exec (record_failure routes 7 "r1") s') ≡ some r'')
    × (r''.cb_state ≡ open_)
    × (r''.cb_opened_at ≡ some 7)
    × (r''.cb_failure_count ≡ 3)
    × (result (record_failure routes 7 "r1") s'
        ≡ ok (check_and_create_from_cb_open "r1" r'.name ∷ []))
record_failure-trips_example =
    record_failure-trips routes "r1" (5 ∷ 6 ∷ []) 7 (only fresh) fresh 0 refl (refl, refl, refl)
      refl

-- Closed, tripped by the third failure, let through after the recovery time, closed by a success.
life_cycle :
    routes.find_unique "r1" (
      run routes "r1"
        (failure 1 ∷ failure 2 ∷ failure 1000 ∷ request 30999 ∷ request 31000 ∷ success ∷ [])
        (only fresh))
    ≡ some fresh
unfolding run
life_cycle = refl

run-recovers_example :
    (limit : ℕ) × ((now : ℕ)
      → limit ≤ now
      → IsClosedIn routes "r1" (
          run routes "r1" (failures (5 ∷ 6 ∷ 7 ∷ []) ++ (request now ∷ success ∷ [])) (only fresh)))
run-recovers_example =
    run-recovers routes "r1" (failures (5 ∷ 6 ∷ 7 ∷ [])) (only fresh) fresh refl refl
