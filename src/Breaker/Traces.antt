-- ===== src/Breaker/Traces.antt =====
-- What holds of one route's breaker over every sequence of requests and outcomes.
use cluster_gate.Prelude.{
  ℕ, suc, ◌+◌, ◌<◌, ◌≡◌, refl, List, [], ◌∷◌, String, true, Option, none, some, exec, result, ok,
  Table, arith, length, All,
}
use cluster_gate.Breaker.{
  check_and_create_from_cb_open, open_, half_open, allow, check_circuit_breaker, closed, RouteRow,
  record_success, record_failure,
}
use cluster_gate.Breaker.Steps.{
  record_failure-notice, failed, succeeded, checked, record_failure-find, record_success-find,
  check_circuit_breaker-find,
}
use cluster_gate.Breaker.Invariant.{
  Refuses, check_circuit_breaker-Refuses_iff, IsValid, failed-IsValid, succeeded-IsValid,
  checked-IsValid,
}

-- What happens to a route: a request arrives and is checked, or its outcome is recorded.
pub data Event : Type 0 where
  request : ℕ → Event
  success : Event
  failure : ℕ → Event

abbrev pub failures : List ℕ → List Event
failures [] = []
failures (t ∷ ts) = failure t ∷ failures ts

abbrev pub IsCounting : RouteRow → ℕ → Type 0
IsCounting r n =
    (r.circuit_breaker_enabled ≡ true) × (r.cb_state ≡ closed) × (r.cb_failure_count ≡ n)

abbrev pub requests : List ℕ → List Event
requests [] = []
requests (t ∷ ts) = request t ∷ requests ts

-- Every time lies before the limit.
abbrev pub Before : ℕ → List ℕ → Type 0
Before limit [] = Unit
Before limit (now ∷ ts) = (now < limit) × Before limit ts

module _ (routes : Table RouteRow) (id : String) where
  open routes use {State, find_unique}

  -- The proxy loads the route, and hands its copy to the check.
  check_loaded : ℕ → Option RouteRow → State → State
  check_loaded now none s = s
  check_loaded now (some r) s = exec (check_circuit_breaker routes now id r) s

  unfoldable pub step : Event → State → State
  unfolding check_loaded check_circuit_breaker record_success record_failure
  step (request now) s = check_loaded now (find_unique id s) s
  step success s = exec (record_success routes id) s
  step (failure now) s = exec (record_failure routes now id) s

  unfoldable pub run : List Event → State → State
  unfolding step
  run [] s = s
  run (e ∷ es) s = run es (step e s)

  abbrev pub stepped : Event → RouteRow → RouteRow
  stepped (request now) r = checked now r
  stepped success r = succeeded r
  stepped (failure now) r = failed now r

  pub step-find :
      (e : Event) (s : State) {r : RouteRow}
      → find_unique id s ≡ some r
      → find_unique id (step e s) ≡ some (stepped e r)
  unfolding step
  step-find (request now) s found = rw found (check_circuit_breaker-find routes id s found now)
  step-find success s found = record_success-find routes id s found
  step-find (failure now) s found = record_failure-find routes id s found now

  stepped-IsValid : (e : Event) (r : RouteRow) → IsValid r → IsValid (stepped e r)
  stepped-IsValid (request now) r v = checked-IsValid now r v
  stepped-IsValid success r v = succeeded-IsValid r v
  stepped-IsValid (failure now) r v = failed-IsValid now r v

  -- Whatever requests, successes and failures of a route arrive, in any order and at any times, its
  -- row stays in the table and, where it was valid, stays valid: the threshold is positive, the count
  -- is below it exactly while the breaker is closed, an open breaker has its time of opening, and a
  -- closed one has none.
  pub run-IsValid :
      (es : List Event) (s : State) (r : RouteRow)
      → find_unique id s ≡ some r
      → IsValid r
      → (r' : RouteRow) × (find_unique id (run es s) ≡ some r') × IsValid r'
  unfolding run
  run-IsValid [] s r found v = (r, found, v)
  run-IsValid (e ∷ es) s r found v =
      run-IsValid es (step e s) (stepped e r) (step-find e s found) (stepped-IsValid e r v)

  failed-IsCounting :
      (now n : ℕ) (r : RouteRow)
      → IsCounting r n
      → n + 1 < r.cb_failure_threshold
      → IsCounting (failed now r) (n + 1)
        × ((failed now r).cb_failure_threshold ≡ r.cb_failure_threshold)
  failed-IsCounting now n r c h = ground arith

  -- Failures in a row that leave the count of a closed, enabled breaker below the threshold leave it
  -- closed, with each of them counted and the threshold as it was.
  pub run-failures-closed :
      (ts : List ℕ) (s : State) (r : RouteRow) (n : ℕ)
      → find_unique id s ≡ some r
      → IsCounting r n
      → n + length ts < r.cb_failure_threshold
      → (r' : RouteRow) × (find_unique id (run (failures ts) s) ≡ some r')
        × IsCounting r' (n + length ts)
        × (r'.cb_failure_threshold ≡ r.cb_failure_threshold)
  unfolding run
  run-failures-closed [] s r n found c h = (r, found, ground arith, refl)
  run-failures-closed (t ∷ ts) s r n found c h =
      let (c', same) = failed-IsCounting t n r c (omega arith) in
      let (r', at, counting, thr) =
        run-failures-closed ts (step (failure t) s) (failed t r) (n + 1)
          (step-find (failure t) s found) c' (omega arith) in
      (r', at, (counting.0, counting.1, omega arith), omega arith)

  -- A closed, enabled breaker, and as many failures in a row as bring its count to one less than the
  -- threshold: it is still closed then, and the next failure opens it at its own time, with the
  -- count at the threshold, and asks for an incident under the route's name.
  pub record_failure-trips :
      (ts : List ℕ) (now : ℕ) (s : State) (r : RouteRow) (n : ℕ)
      → find_unique id s ≡ some r
      → IsCounting r n
      → suc (n + length ts) ≡ r.cb_failure_threshold
      → let s' = run (failures ts) s in
        (r' : RouteRow) × (r'' : RouteRow) × (find_unique id s' ≡ some r')
        × (r'.cb_state ≡ closed)
        × (find_unique id (exec (record_failure routes now id) s') ≡ some r'')
        × (r''.cb_state ≡ open_)
        × (r''.cb_opened_at ≡ some now)
        × (r''.cb_failure_count ≡ r.cb_failure_threshold)
        × (result (record_failure routes now id) s'
            ≡ ok (check_and_create_from_cb_open id r'.name ∷ []))
  record_failure-trips ts now s r n found c h =
      let (r', at, c', thr) = run-failures-closed ts s r n found c (omega arith) in
      let s' : State = run (failures ts) s in
      (
        r',
        failed now r',
        at,
        c'.1,
        record_failure-find routes id s' at now,
        ground arith,
        ground arith,
        ground arith,
        record_failure-notice routes id s' at now c'.0 c'.1 (omega arith),
      )

  -- While the recovery time of an open, enabled breaker lasts, every request is refused, and the
  -- requests change nothing in the table.
  pub run-requests-blocked :
      (ts : List ℕ) (s : State) (r : RouteRow) (t : ℕ)
      → find_unique id s ≡ some r
      → r.circuit_breaker_enabled ≡ true
      → r.cb_state ≡ open_
      → r.cb_opened_at ≡ some t
      → Before (t + r.cb_recovery_timeout) ts
      → (run (requests ts) s ≡ s) × All (λ now. Refuses routes now id r s) ts
  unfolding run step
  run-requests-blocked [] s r t found on o at b = (refl, tt)
  run-requests-blocked (now ∷ ts) s r t found on o at (b, bs) =
      let refused : Refuses routes now id r s =
        (check_circuit_breaker-Refuses_iff routes now id r s found).1 (on, o, (t, at, b)) in
      let (same, later) = run-requests-blocked ts s r t found on o at bs in
      (rw (run, requests, step, found, check_loaded, exec, refused) same, (refused, later))

  -- After any number of requests and with no outcome recorded, a breaker that is enabled and
  -- half-open lets the next request through too, and none of the requests has changed the table.
  pub run-requests-half_open :
      (ts : List ℕ) (now : ℕ) (s : State) (r : RouteRow)
      → find_unique id s ≡ some r
      → r.circuit_breaker_enabled ≡ true
      → r.cb_state ≡ half_open
      → (run (requests ts) s ≡ s)
        × (check_circuit_breaker routes now id r s ≡ (ok (allow true half_open), s))
  unfolding run step check_circuit_breaker
  run-requests-half_open [] now s r found on h = (refl, ground arith)
  run-requests-half_open (t ∷ ts) now s r found on h =
      rw (run, requests, step, found, check_loaded)
        (ground (arith, run-requests-half_open ts now s r found on h))
