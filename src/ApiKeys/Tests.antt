-- ===== src/ApiKeys/Tests.antt =====
-- A key on a route, one that is shared with it, and a revocation.
use cluster_gate.Prelude.{
  none, some, true, false, [], ◌∷◌, refl, inl, inr, exec, List, String, Bool-cases, if◌then◌else◌,
  ◌≡◌, str_eq, arith, find_first,
}
use cluster_gate.ApiKeys.{verify_api_key, World, ApiKey, read, verified_of, lookup_key}
use cluster_gate.ApiKeys.CacheKey.{NoColon, colon_in}
use cluster_gate.ApiKeys.Runs.{run, Event, flushed, run-lookup_key, polled, detached}
use cluster_gate.ApiKeys.Manage.{revoke_begin, revoke_commit, key_by_id}
use cluster_gate.ApiKeys.Race.{revoke_begin-race}

test_hash : String → String
test_hash key = if str_eq key "cgk_1" then "a1" else "b2"

test_hash-NoColon : (key : String) → NoColon (test_hash key)
unfolding test_hash NoColon colon_in
test_hash-NoColon key = elim (Bool-cases (str_eq key "cgk_1")) [
  | inl one ↦ rw one refl
  | inr other ↦ rw other refl
]

abbrev test_key : ApiKey
test_key = record {
  id = "k1";
  key_hash = "a1";
  route_id = "orders";
  scope = read;
  is_active = true;
  expires_at = none;
  shared_routes = "billing" ∷ [];
  shared_folders = [];
  last_used_ip = none;
  usage_count = 0;
}

abbrev test_world : World
test_world = record {
  db = record {
    keys = test_key ∷ [];
    folder_of = λ r. none;
    live_routes = "orders" ∷ "billing" ∷ [];
    folders = [];
    epoch = none;
  };
  valid_cache = λ c. none;
  pending_usage = λ k. none;
  last_seen_epoch = none;
}

abbrev test_events : List Event
test_events =
    Event.checked 5 "cgk_1" "billing" (some "10.0.0.1")
    ∷ flushed
    ∷ polled
    ∷ detached 9 "k1" "billing"
    ∷ Event.checked 11 "cgk_1" "orders" none
    ∷ []

run-lookup_key_example :
    (verify_api_key test_hash 12 "cgk_1" "billing" none (run test_hash test_events test_world)).0
    ≡ lookup_key test_hash 12
        (test_hash "cgk_1")
        "billing"
        (run test_hash test_events test_world).db
run-lookup_key_example =
    run-lookup_key test_hash test_hash-NoColon 0 test_events test_world (λ ck. refl) (omega arith)
      12 "cgk_1" "billing" none (omega arith)

revoke_begin-race_example :
    let between = exec (revoke_begin 100 "k1" "orders") test_world in
    let checked = verify_api_key test_hash 100 "cgk_1" "orders" none between in
    let after = exec (revoke_commit "k1") checked.1 in
    (checked.0 ≡ some (verified_of test_key))
    × (key_by_id "k1" after ≡ some (record test_key { is_active = false }))
    × ((verify_api_key test_hash 30099 "cgk_1" "orders" none after).0 ≡ some (verified_of test_key))
unfolding find_first test_hash cluster_gate.ApiKeys.key_covers_route
revoke_begin-race_example =
    revoke_begin-race test_hash 100 30099 "cgk_1" "k1" "orders" none test_world test_key refl refl
      refl refl (omega arith)
