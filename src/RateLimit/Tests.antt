-- ===== src/RateLimit/Tests.antt =====
-- The limiter's theorems at concrete calls, and tests.
use cluster_gate.Prelude.{
  none, some, true, false, [], ◌∷◌, refl, ℕ, List, Table, String, ◌≤◌, ◌≡◌, ◌-◌, memory, arith,
}
use cluster_gate.RateLimit.{check_rate_limit, Hit, Counter}
use cluster_gate.RateLimit.Window.{admitted, used, key_of}
use cluster_gate.RateLimit.Bound.{admitted-le_left}

abbrev counters : Table Counter
counters = memory Counter

abbrev empty : counters.State
empty key = none

abbrev hit : ℕ → Hit
hit t = record { route_id = "r1"; client_ip = "10.0.0.7"; now = t; up = true }

abbrev other : ℕ → Hit
other t = record { route_id = "r1"; client_ip = "10.0.0.8"; now = t; up = true }

abbrev burst : List Hit
burst = hit 60000 ∷ other 60001 ∷ hit 60002 ∷ hit 119999 ∷ hit 120000 ∷ []

burst-admitted : admitted counters 2 60000 false "r1:10.0.0.7" 60000 burst empty ≡ 2
unfolding admitted check_rate_limit
burst-admitted = refl

admitted-le_left_example :
    admitted counters 2 60000 false "r1:10.0.0.7" 60000 burst empty
    ≤ 2 - used counters "r1:10.0.0.7" 60000 empty
admitted-le_left_example =
    admitted-le_left counters 2 60000 false "r1:10.0.0.7" 60000 burst 60000 empty (ground arith) tt

abbrev example_key : String
example_key = key_of counters (hit 61000)

abbrev later : counters.State
later key = some (record { window_start = 7200000; count = 4 })
