-- ===== src/Proxy/Tests.antt =====
-- A route with an address list, a limit and API keys, and requests to it.
mod Headers
mod Dispatch
use cluster_gate.Prelude.{
  ℕ, none, some, true, false, [], ◌∷◌, suc, refl, inl, inr, has_char, String, Table, List,
  Bool-cases, ◌≤◌, if◌then◌else◌, memory, split_at, ◌&&◌, some_of, ◌==◌, ◌≡◌, parse_int, ◌+◌,
  str_eq, Refuses, arith, strip_prefix, find_first, text_in, is_blank, All, count_by, before, trim,
  trim_start, trim_end, filter_by, Option,
}
use cluster_gate.Breaker.{RouteRow, closed}
use cluster_gate.RateLimit.{Counter, check_rate_limit, counter_key}
use cluster_gate.LoadBalancer.{RouteIndex, RouteTarget, LbStrategy}
use cluster_gate.ApiKeys.{
  World as KeyWorld, ApiKey, KeyScope, lookup_key, verify_api_key, verify_uncached, remember,
  record_usage, key_covers_route, cache_key,
}
use cluster_gate.ApiKeys.CacheKey.{NoColon, colon_in}
use cluster_gate.ApiKeys.Runs.{Event, run}
use cluster_gate.Proxy.Attempts.{
  Answer, forward, attempts, responded, tls_mismatch, failed, forward-calls,
}
use cluster_gate.Proxy.Address.{is_ip_allowed, ip_in_cidr, ip_to_num, octets, host_bits}
use cluster_gate.Proxy.KeyChecked.{ShowsKey, proxy_request-key}
use cluster_gate.Proxy.Admission.{
  ip_passes, path_passes, limits_rate, hit_of, admit, check_breaker, check_ip, check_path,
  check_limit, check_auth, check_webhook,
}
use cluster_gate.Proxy.{World, Secrets, ProxyRoute, api_key, Request}
use cluster_gate.Proxy.Serve.{Surroundings, proxy_request, choose_target, call_target, recorded}
use cluster_gate.Proxy.Networks.{is_ip_allowed-undotted}
use cluster_gate.Proxy.Order.{Untouched, Kept, proxy_request-refused}
use cluster_gate.Proxy.Auth.{validate_route_auth, check_key, given_key}
use cluster_gate.Cookies.{strip_cookies, cookies, is_own}

networks :
    (is_ip_allowed "::ffff:10.0.5.7" ("10.0.0.0/16" ∷ []) ≡ true)
    × (is_ip_allowed "10.1.5.7" ("10.0.0.0/16" ∷ []) ≡ false)
    × (is_ip_allowed "192.168.1.9" ("10.0.0.1" ∷ "192.168.1.9" ∷ []) ≡ true)
    × (is_ip_allowed "192.168.1.9" ("192.168.1.8/31" ∷ []) ≡ true)
    × (is_ip_allowed "192.168.1.9" ("0.0.0.0/0" ∷ []) ≡ true)
unfolding is_ip_allowed some_of ip_in_cidr strip_prefix has_char split_at parse_int is_blank
    ip_to_num octets host_bits
networks = (refl, refl, refl, refl, refl)

is_ip_allowed-undotted_example : is_ip_allowed "2001:db8::7" ("fd00::/8" ∷ []) ≡ true
unfolding has_char split_at parse_int is_blank
is_ip_allowed-undotted_example =
    is_ip_allowed-undotted "2001:db8::7" "fd00::/8" "fd00::" "8" 8 [] refl refl refl (omega arith)
      (refl, inl refl) (refl, inr (2001, refl, omega arith))

abbrev test_answers : ℕ → Answer
test_answers n = if n == 0 then tls_mismatch else if n == 3 then responded 204 else failed

forward-calls_example :
    let f = forward test_answers false 2 true in
    (f.calls ≤ 3 + 1)
    × ((f.status ≡ none → 3 ≤ f.calls)
        × ((s : ℕ)
            → f.status ≡ some s
            → (k : ℕ) × (f.calls ≡ suc k) × (test_answers k ≡ responded s)))
forward-calls_example = forward-calls test_answers false 2 true

forwards :
    forward test_answers false 2 true ≡ record { status = some 204; calls = 4; https = false }
unfolding forward attempts
forwards = refl

abbrev breaker : RouteRow
breaker = record {
  name = "orders";
  circuit_breaker_enabled = false;
  cb_failure_threshold = 5;
  cb_recovery_timeout = 1000;
  cb_state = closed;
  cb_failure_count = 0;
  cb_last_failure_at = none;
  cb_opened_at = none;
}

abbrev test_route : ProxyRoute
test_route = record {
  id = "orders";
  public_path = "/r/orders/*";
  breaker = breaker;
  ip_allowlist = "10.0.0.0/16" ∷ [];
  path_allowlist = [];
  rate_limit_enabled = true;
  rate_limit_max = 1;
  rate_limit_window = 1000;
  require_auth = true;
  auth_type = api_key;
  auth_value = none;
  webhook_secret = none;
  target_url = "https://orders";
  targets = [];
  lb_strategy = LbStrategy.failover;
  retry_count = 2;
}

abbrev test_request : String → String → Request
test_request ip method = record {
  ip = some ip;
  path = "/r/orders/7";
  method = method;
  header = λ name. if str_eq name "X-API-Key" then some "cgk_1" else none;
  body = "";
  is_streamed = false;
}

abbrev test_secrets : Secrets
test_secrets = record { decrypt = λ s. s; is_signed = λ body secret signature. false }

test_hash : String → String
test_hash key = if str_eq key "cgk_1" then "a1" else "b2"

test_hash-NoColon : (key : String) → NoColon (test_hash key)
unfolding test_hash NoColon colon_in
test_hash-NoColon key = elim (Bool-cases (str_eq key "cgk_1")) [
  | inl same ↦ rw same refl
  | inr other ↦ rw other refl
]

abbrev test_key : ApiKey
test_key = record {
  id = "k1";
  key_hash = "a1";
  route_id = "orders";
  scope = KeyScope.read;
  is_active = true;
  expires_at = none;
  shared_routes = [];
  shared_folders = [];
  last_used_ip = none;
  usage_count = 0;
}

abbrev no_keys_seen : KeyWorld
no_keys_seen = record {
  db = record {
    keys = test_key ∷ [];
    folder_of = λ r. none;
    live_routes = "orders" ∷ [];
    folders = [];
    epoch = none;
  };
  valid_cache = λ c. none;
  pending_usage = λ k. none;
  last_seen_epoch = none;
}

abbrev test_events : List Event
test_events = Event.checked 5 "cgk_1" "orders" none ∷ []

abbrev R : Table RouteRow
R = memory RouteRow

abbrev C : Table Counter
C = memory Counter

abbrev I : Table RouteIndex
I = memory RouteIndex

abbrev T : Table RouteTarget
T = memory RouteTarget

abbrev test_world : World R C I T
test_world = record {
  breakers = λ k. none;
  counted = λ k. none;
  keys = run test_hash test_events no_keys_seen;
  balancer = record { stored = λ k. none; rr_index_map = λ k. none };
  health = λ k. none;
  shown = [];
}

abbrev around : Surroundings
around = record {
  now = 12;
  ended = 20;
  up = true;
  chance = record { up = true; draw = 0; scale = 1 };
  is_https = λ url. true;
  answers = test_answers;
  error = "";
}

proxy_request-key_example :
    ShowsKey
      (λ key. lookup_key test_hash 12 (test_hash key) "orders" test_world.keys.db)
      (test_request "10.0.0.9" "GET")
unfolding proxy_request admit check_breaker check_ip check_path check_limit check_auth is_ip_allowed
    some_of ip_in_cidr strip_prefix has_char split_at parse_int is_blank ip_to_num octets host_bits
    validate_route_auth check_key given_key verify_api_key lookup_key test_hash run check_webhook
    choose_target call_target forward attempts recorded check_rate_limit find_first ip_passes
    path_passes cluster_gate.ApiKeys.Runs.step verify_uncached remember record_usage
    key_covers_route counter_key cache_key text_in
proxy_request-key_example =
    proxy_request-key R C I T test_hash test_secrets test_hash-NoColon around test_route
      (test_request "10.0.0.9" "GET") test_world 0 test_events no_keys_seen 204 refl refl
      (λ ck. refl) (omega arith) (omega arith) refl refl

proxy_request-refused_example :
    ((ip_passes test_route (test_request "10.7.0.9" "GET")
          && path_passes test_route (test_request "10.7.0.9" "GET"))
        ≡ false
      → Refuses (Untouched R C I T test_hash test_secrets test_world) (
          proxy_request R C I T test_hash test_secrets around test_route
            (test_request "10.7.0.9" "GET")
            test_world))
    × (limits_rate test_route ≡ true
        → (check_rate_limit C
            (hit_of 12 true test_route (test_request "10.7.0.9" "GET"))
            1
            1000
            false
            test_world.counted).0.allowed
          ≡ false
        → Refuses (Kept R C I T test_hash test_secrets test_world) (
            proxy_request R C I T test_hash test_secrets around test_route
              (test_request "10.7.0.9" "GET")
              test_world))
proxy_request-refused_example =
    proxy_request-refused R C I T test_hash test_secrets around test_route
      (test_request "10.7.0.9" "GET") test_world
