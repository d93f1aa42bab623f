-- ===== src/Breaker/Steps.antt =====
-- What each operation of the circuit breaker does to the route that it is called for, and that it
-- leaves every other route alone.
use cluster_gate.Prelude.{
  result, ◌≤◌, ◌∷◌, ℕ, ◌+◌, ◌≡◌, [], String, false, none, some, leb, if◌then◌else◌, exec, ok, Table,
  arith, find_unique-write_self, find_unique-write_ne, str_eq, true,
}
use cluster_gate.Breaker.{
  check_and_create_from_cb_open, closed, open_, half_open, RouteRow, check_circuit_breaker,
  record_success, record_failure, to_half_open, reset_data, reopen_data, trip_data, count_data,
}

-- The row that a failed request leaves.
abbrev pub failed : ℕ → RouteRow → RouteRow
failed now r =
    if r.circuit_breaker_enabled
    then elim r.cb_state [
      | half_open ↦ reopen_data now r
      | _ ↦
          if leb r.cb_failure_threshold (r.cb_failure_count + 1)
          then trip_data now (r.cb_failure_count + 1) r
          else count_data now (r.cb_failure_count + 1) r
    ]
    else r

-- The row that a successful request leaves.
abbrev pub succeeded : RouteRow → RouteRow
succeeded r =
    if r.circuit_breaker_enabled
    then elim r.cb_state [
      | half_open ↦ reset_data r
      | closed ↦ record r { cb_failure_count = 0 }
      | open_ ↦ r
    ]
    else r

-- The row that a check before a request leaves.
abbrev pub checked : ℕ → RouteRow → RouteRow
checked now r =
    if r.circuit_breaker_enabled
    then elim r.cb_state [
      | open_ ↦ elim r.cb_opened_at [
        | none ↦ reset_data r
        | some t ↦ if leb (t + r.cb_recovery_timeout) now then to_half_open r else r
      ]
      | _ ↦ r
    ]
    else r

module _ (routes : Table RouteRow) (id : String) (s : routes.State) where
  open routes use {State, find_unique, write}

  module _ {r : RouteRow} (found : find_unique id s ≡ some r) where
    pub record_failure-find :
        (now : ℕ) → find_unique id (exec (record_failure routes now id) s) ≡ some (failed now r)
    unfolding record_failure
    record_failure-find now = grind (arith, find_unique-write_self)

    pub record_success-find :
        find_unique id (exec (record_success routes id) s) ≡ some (succeeded r)
    unfolding record_success
    record_success-find = grind (arith, find_unique-write_self)

    pub check_circuit_breaker-find :
        (now : ℕ)
        → find_unique id (exec (check_circuit_breaker routes now id r) s) ≡ some (checked now r)
    unfolding check_circuit_breaker
    check_circuit_breaker-find now = grind (arith, find_unique-write_self)

    -- The failure that opens a closed breaker asks for an incident under the route's name.
    pub record_failure-notice :
        (now : ℕ)
        → r.circuit_breaker_enabled ≡ true
        → r.cb_state ≡ closed
        → r.cb_failure_threshold ≤ r.cb_failure_count + 1
        → result (record_failure routes now id) s
          ≡ ok (check_and_create_from_cb_open id r.name ∷ [])
    unfolding record_failure
    record_failure-notice now on c h = grind (arith, find_unique-write_self)

  -- A route is left alone by an operation on another.
  module _ (j : String) (apart : str_eq id j ≡ false) where
    pub record_failure-other :
        (now : ℕ) → find_unique j (exec (record_failure routes now id) s) ≡ find_unique j s
    unfolding record_failure
    record_failure-other now = grind (arith, find_unique-write_ne)

    pub record_success-other : find_unique j (exec (record_success routes id) s) ≡ find_unique j s
    unfolding record_success
    record_success-other = grind (arith, find_unique-write_ne)

    pub check_circuit_breaker-other :
        (now : ℕ) (r : RouteRow)
        → find_unique j (exec (check_circuit_breaker routes now id r) s) ≡ find_unique j s
    unfolding check_circuit_breaker
    check_circuit_breaker-other now r = grind (arith, find_unique-write_ne)

-- A row that is not there: nothing is written and nothing is thrown.
pub record_failure-missing :
    (routes : Table RouteRow) (now : ℕ) (id : String) (s : routes.State)
    → routes.find_unique id s ≡ none
    → record_failure routes now id s ≡ (ok [], s)
unfolding record_failure
record_failure-missing routes now id s h = rw h
