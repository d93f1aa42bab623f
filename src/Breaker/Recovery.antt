-- ===== src/Breaker/Recovery.antt =====
-- A breaker is never stuck.
use cluster_gate.Prelude.{ℕ, some, true, [], ◌∷◌, ◌≡◌, Table, ◌+◌, String, ◌≤◌, arith, List, ◌++◌}
use cluster_gate.Breaker.{RouteRow, closed}
use cluster_gate.Breaker.Traces.{Event, request, success, run, step-find, stepped, failure, step}
use cluster_gate.Breaker.Steps.{succeeded, checked}
use mathlib.Core.Option

-- The time from which an open breaker lets a request through.
abbrev ready_at : RouteRow → ℕ
ready_at r = Option.get_or r.cb_opened_at 0 + r.cb_recovery_timeout

succeeded-checked :
    (now : ℕ) (r : RouteRow)
    → r.circuit_breaker_enabled ≡ true
    → ready_at r ≤ now
    → ((succeeded (checked now r)).cb_state ≡ closed)
      × ((succeeded (checked now r)).cb_failure_count ≡ 0)
succeeded-checked now r on late = ground arith

module _ (routes : Table RouteRow) (id : String) where
  open routes use {State, find_unique}

  stepped-enabled :
      (e : Event) (r : RouteRow)
      → r.circuit_breaker_enabled ≡ true
      → (stepped routes id e r).circuit_breaker_enabled ≡ true
  stepped-enabled (request now) r on = ground arith
  stepped-enabled success r on = ground arith
  stepped-enabled (failure now) r on = ground arith

  -- The row is found and its breaker is closed, with no failure counted.
  abbrev pub IsClosedIn : State → Type 0
  IsClosedIn s =
      (r : RouteRow) × (find_unique id s ≡ some r)
      × (r.cb_state ≡ closed)
      × (r.cb_failure_count ≡ 0)

  -- After any sequence of requests, successes and failures of a route whose breaker is enabled,
  -- there is a time from which one request followed by one success always closes the breaker and
  -- forgets the failures.
  pub run-recovers :
      (es : List Event) (s : State) (r : RouteRow)
      → find_unique id s ≡ some r
      → r.circuit_breaker_enabled ≡ true
      → (limit : ℕ) × ((now : ℕ)
          → limit ≤ now
          → IsClosedIn (run routes id (es ++ (request now ∷ success ∷ [])) s))
  unfolding run
  run-recovers [] s r found on = (
    ready_at r,
    λ now late.
        let asked = step-find routes id (request now) s found in
        let done = step-find routes id success (step routes id (request now) s) asked in
        let (state, count) = succeeded-checked now r on late in
        (succeeded (checked now r), done, state, count),
  )
  run-recovers (e ∷ es) s r found on =
      run-recovers es (step routes id e s) (stepped routes id e r) (step-find routes id e s found)
        (stepped-enabled e r on)
