-- ===== src/Incidents/Tests.antt =====
-- A route whose health check fails while its breaker opens and closes.
use cluster_gate.Prelude.{[], ◌∷◌, count_by, List, arith}
use cluster_gate.Breaker.{auto_resolve_if_healthy, check_and_create_from_cb_open}
use cluster_gate.Incidents.{World}
use cluster_gate.Incidents.OneOpen.{AtMostOne, Event, run, health_failed, run-AtMostOne, noticed}

abbrev nothing : World
nothing = record { incidents = []; events = [] }

abbrev test_events : List Event
test_events =
    health_failed "i1" "r1" "orders" "timeout"
    ∷ noticed 5 "i2" (check_and_create_from_cb_open "r1" "orders")
    ∷ noticed 9 "i3" (auto_resolve_if_healthy "r1")
    ∷ health_failed "i4" "r1" "orders" "timeout"
    ∷ []

run-AtMostOne_example : AtMostOne (run test_events nothing).incidents
unfolding count_by
run-AtMostOne_example = run-AtMostOne test_events nothing (λ r. omega arith)
