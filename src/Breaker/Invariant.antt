-- ===== src/Breaker/Invariant.antt =====
-- What holds of the breaker's columns between two requests.
use cluster_gate.Prelude.{
  ℕ, ◌+◌, ◌≤◌, ◌<◌, ◌≡◌, ◌≢◌, ◌↔◌, String, true, false, none, some, ok, Table, arith,
}
use cluster_gate.Breaker.{closed, open_, RouteRow, allow, check_circuit_breaker}
use cluster_gate.Breaker.Steps.{failed, succeeded, checked}

pub record IsValid (r : RouteRow) : Type 0 where
  pub positive : 0 < r.cb_failure_threshold
  pub below : r.cb_state ≡ closed → r.cb_failure_count < r.cb_failure_threshold
  pub reached : r.cb_state ≢ closed → r.cb_failure_threshold ≤ r.cb_failure_count
  pub timed : r.cb_state ≡ open_ → r.cb_opened_at ≢ none
  pub clear : r.cb_state ≡ closed → r.cb_opened_at ≡ none

pub failed-IsValid : (now : ℕ) (r : RouteRow) → IsValid r → IsValid (failed now r)
failed-IsValid now r v = ground arith

pub succeeded-IsValid : (r : RouteRow) → IsValid r → IsValid (succeeded r)
succeeded-IsValid r v = ground arith

pub checked-IsValid : (now : ℕ) (r : RouteRow) → IsValid r → IsValid (checked now r)
checked-IsValid now r v = ground arith

-- When a request is turned away: the breaker is on and open, and its recovery time is not over.
abbrev pub Blocked : ℕ → RouteRow → Type 0
Blocked now r =
    (r.circuit_breaker_enabled ≡ true)
    × (r.cb_state ≡ open_)
    × ((t : ℕ) × (r.cb_opened_at ≡ some t) × (now < t + r.cb_recovery_timeout))

abbrev pub Refuses : (routes : Table RouteRow) → ℕ → String → RouteRow → routes.State → Type 0
Refuses routes now id r s = check_circuit_breaker routes now id r s ≡ (ok (allow false open_), s)

-- For a route that is in the table, the check refuses (answering OPEN and writing nothing) exactly
-- when the breaker is enabled and open and less than the recovery timeout has passed.
pub check_circuit_breaker-Refuses_iff :
    (routes : Table RouteRow) (now : ℕ) (id : String) (r : RouteRow) (s : routes.State)
    → routes.find_unique id s ≡ some r
    → Refuses routes now id r s ↔ Blocked now r
unfolding check_circuit_breaker
check_circuit_breaker-Refuses_iff routes now id r s found = (λ e. grind arith, λ b. grind arith)
