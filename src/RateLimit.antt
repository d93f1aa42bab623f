-- ===== src/RateLimit.antt =====
-- backend/src/lib/rateLimitStore.ts: the fixed-window counters behind the route limiter and the
-- login limiter. Times are milliseconds; `up` says whether the store answers the query.
pub mod Window
pub mod Bound
mod Tests
use cluster_gate.Prelude.{
  String, ℕ, Table, Bool, if◌then◌else◌, leb, ◌/◌, Option, false, ltb, true, ◌-◌, ◌+◌, ◌*◌, some,
  str_append, ◌==◌, none,
}

pub record RateLimitResult : Type 0 where
  pub allowed : Bool
  pub remaining : ℕ
  pub reset_at : ℕ

-- A row of rate_limit_counters, under its key.
pub record Counter : Type 0 where
  pub window_start : ℕ
  pub count : ℕ

-- Math.floor(now / windowMs) * windowMs
abbrev pub window_of : ℕ → ℕ → ℕ
window_of now window_ms = now / window_ms * window_ms

-- `${routeId}:${clientIp}`
unfoldable pub counter_key : String → String → String
counter_key route_id client_ip = str_append route_id (str_append ":" client_ip)

-- The row that the upsert leaves: INSERT …, or ON CONFLICT the CASE of its UPDATE.
abbrev pub upserted : ℕ → Option Counter → Counter
upserted start none = record { window_start = start; count = 1 }
upserted start (some c) = record {
  window_start = start;
  count = if c.window_start == start then c.count + 1 else 1;
}

abbrev answer : ℕ → ℕ → ℕ → RateLimitResult
answer max reset_at count = record {
  allowed = leb count max;
  remaining = max - count;
  reset_at = reset_at;
}

-- The `catch` branch.
abbrev store_down : Bool → ℕ → ℕ → RateLimitResult
store_down true max reset_at = record { allowed = false; remaining = 0; reset_at = reset_at }
store_down false max reset_at = record { allowed = true; remaining = max; reset_at = reset_at }

-- A call of checkRateLimit: its arguments, the clock, and whether the store answers.
pub record Hit : Type 0 where
  pub route_id : String
  pub client_ip : String
  pub now : ℕ
  pub up : Bool

module _ (counters : Table Counter) where
  open counters use {State, find_unique, write, delete_many}

  unfoldable pub check_rate_limit : Hit → ℕ → ℕ → Bool → State → RateLimitResult × State
  unfolding counter_key
  check_rate_limit hit max window_ms fail_closed s =
      let start = window_of hit.now window_ms in
      let key = counter_key hit.route_id hit.client_ip in
      let row = upserted start (find_unique key s) in
      if hit.up
      then (answer max (start + window_ms) row.count, write key row s)
      else (store_down fail_closed max (start + window_ms), s)

  -- `windowStart < now - 3_600_000`, with the subtraction moved to the other side.
  abbrev pub is_stale : ℕ → String → Counter → Bool
  is_stale now key c = ltb (c.window_start + 3600000) now

  unfoldable pub cleanup_rate_limit_counters : ℕ → Bool → State → ℕ × State
  cleanup_rate_limit_counters now up s = if up then delete_many (is_stale now) s else (0, s)
