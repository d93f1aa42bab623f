-- ===== src/Breaker.antt =====
-- backend/src/services/circuitBreakerService.ts: the columns of a route that the breaker reads and
-- writes, and the service's operations. Times are milliseconds.
mod Steps
pub mod Invariant
pub mod Traces
mod Recovery
mod Tests
use cluster_gate.Prelude.{
  ℕ, ◌+◌, List, [], ◌∷◌, String, Bool, true, false, Option, none, some, leb, if◌then◌else◌, M, pure,
  ◌>>=◌, ◌>>◌, Table, find, update,
}

pub data CbState : Type 0 where
  closed open_ half_open : CbState

pub record RouteRow : Type 0 where
  pub name : String
  pub circuit_breaker_enabled : Bool
  pub cb_failure_threshold : ℕ
  pub cb_recovery_timeout : ℕ
  pub cb_state : CbState
  pub cb_failure_count : ℕ
  pub cb_last_failure_at : Option ℕ
  pub cb_opened_at : Option ℕ

pub record CircuitBreakerResult : Type 0 where
  pub allowed : Bool
  pub state : CbState

abbrev allow : Bool → CbState → CircuitBreakerResult
allow b s = record { allowed = b; state = s }

-- The calls of incidentService that the breaker makes without waiting for their end.
pub data Notice : Type 0 where
  auto_resolve_if_healthy : String → Notice
  check_and_create_from_cb_open : String → String → Notice

-- The data of the service's five `update` calls.
abbrev to_half_open : RouteRow → RouteRow
to_half_open r = record r { cb_state = half_open }

abbrev reset_data : RouteRow → RouteRow
reset_data r = record r {
  cb_state = closed;
  cb_failure_count = 0;
  cb_opened_at = none;
  cb_last_failure_at = none;
}

abbrev reopen_data : ℕ → RouteRow → RouteRow
reopen_data now r = record r {
  cb_state = open_;
  cb_opened_at = some now;
  cb_last_failure_at = some now;
}

abbrev trip_data : ℕ → ℕ → RouteRow → RouteRow
trip_data now count r = record r {
  cb_state = open_;
  cb_failure_count = count;
  cb_last_failure_at = some now;
  cb_opened_at = some now;
}

abbrev count_data : ℕ → ℕ → RouteRow → RouteRow
count_data now count r = record r { cb_failure_count = count; cb_last_failure_at = some now }

module _ (routes : Table RouteRow) where
  open routes use {State, find_unique}

  pub reset_circuit_breaker : String → M State RouteRow
  reset_circuit_breaker id = update routes id reset_data

  -- The test of `elapsed >= cbRecoveryTimeout`, with the subtraction moved to the other side, since
  -- `openedAt` may lie ahead of a replica's clock.
  check_open : ℕ → String → RouteRow → Option ℕ → M State CircuitBreakerResult
  unfolding reset_circuit_breaker
  check_open now id route none = reset_circuit_breaker id >> pure (allow true closed)
  check_open now id route (some opened_at) =
      if leb (opened_at + route.cb_recovery_timeout) now
      then update routes id to_half_open >> pure (allow true half_open)
      else pure (allow false open_)

  check_state : ℕ → String → RouteRow → CbState → M State CircuitBreakerResult
  unfolding check_open
  check_state now id route closed = pure (allow true closed)
  check_state now id route open_ = check_open now id route route.cb_opened_at
  check_state now id route half_open = pure (allow true half_open)

  -- The route is the caller's copy, read before.
  unfoldable pub check_circuit_breaker : ℕ → String → RouteRow → M State CircuitBreakerResult
  unfolding check_state
  check_circuit_breaker now id route =
      if route.circuit_breaker_enabled
      then check_state now id route route.cb_state
      else pure (allow true closed)

  success_of : String → CbState → M State (List Notice)
  unfolding reset_circuit_breaker
  success_of id half_open = reset_circuit_breaker id >> pure (auto_resolve_if_healthy id ∷ [])
  success_of id closed = update routes id (λ r. record r { cb_failure_count = 0 }) >> pure []
  success_of id open_ = pure []

  record_success_row : String → Option RouteRow → M State (List Notice)
  unfolding success_of
  record_success_row id none = pure []
  record_success_row id (some route) =
      if route.circuit_breaker_enabled then success_of id route.cb_state else pure []

  unfoldable pub record_success : String → M State (List Notice)
  unfolding record_success_row
  record_success id = find routes id >>= record_success_row id

  opened_notice : String → Option RouteRow → List Notice
  opened_notice id none = []
  opened_notice id (some r) = check_and_create_from_cb_open id r.name ∷ []

  -- The threshold is reached: the route opens, and an incident is asked for under its name.
  trip : ℕ → String → ℕ → M State (List Notice)
  unfolding opened_notice
  trip now id new_count = do
    update routes id (trip_data now new_count)
    full_route ← find routes id
    pure (opened_notice id full_route)

  -- What follows the early return for HALF_OPEN: it runs in CLOSED and in OPEN.
  count_failure : ℕ → String → RouteRow → M State (List Notice)
  unfolding trip
  count_failure now id route =
      let new_count = route.cb_failure_count + 1 in
      if leb route.cb_failure_threshold new_count
      then trip now id new_count
      else update routes id (count_data now new_count) >> pure []

  failure_of : ℕ → String → RouteRow → CbState → M State (List Notice)
  unfolding count_failure
  failure_of now id route half_open = update routes id (reopen_data now) >> pure []
  failure_of now id route closed = count_failure now id route
  failure_of now id route open_ = count_failure now id route

  record_failure_row : ℕ → String → Option RouteRow → M State (List Notice)
  unfolding failure_of
  record_failure_row now id none = pure []
  record_failure_row now id (some route) =
      if route.circuit_breaker_enabled then failure_of now id route route.cb_state else pure []

  unfoldable pub record_failure : ℕ → String → M State (List Notice)
  unfolding record_failure_row
  record_failure now id = find routes id >>= record_failure_row now id

  pub get_circuit_breaker_status : String → M State (Option RouteRow)
  get_circuit_breaker_status id = find routes id
