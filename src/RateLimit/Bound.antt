-- ===== src/RateLimit/Bound.antt =====
-- The limit holds over every sequence of calls.
use cluster_gate.Prelude.{
  none, some, [], ◌∷◌, refl, Table, ℕ, Option, Bool, ◌≤◌, String, List, ◌-◌, ◌<◌, ◌≡◌, arith, true,
  false, ◌+◌,
}
use cluster_gate.RateLimit.{
  Counter, window_of, Hit, check_rate_limit, cleanup_rate_limit_counters, is_stale,
}
use cluster_gate.RateLimit.Window.{
  admitted, InOrder, window_of_mono, check_rate_limit-find, used, check_rate_limit-allowed,
}

-- The counter of a key was last reset in a window that had begun by the time `t`.
abbrev pub ResetBy : ℕ → ℕ → Option Counter → Type 0
ResetBy window_ms t none = Unit
ResetBy window_ms t (some c) = c.window_start ≤ window_of t window_ms

module _ (counters : Table Counter) (max window_ms : ℕ) (fail_closed : Bool) (key : String)
    (w : ℕ) where
  open counters use {State, find_unique}

  abbrev count_of : List Hit → State → ℕ
  count_of = admitted counters max window_ms fail_closed key w

  abbrev after_hit : Hit → State → State
  after_hit hit s = (check_rate_limit counters hit max window_ms fail_closed s).1

  -- A window that has passed lets nothing more through.
  admitted-past :
      (hits : List Hit) (t : ℕ) (s : State)
      → InOrder fail_closed t hits
      → w < window_of t window_ms
      → count_of hits s ≡ 0
  unfolding admitted
  admitted-past [] t s o h = refl
  admitted-past (hit ∷ hits) t s (later, up, o) h =
      let m = window_of_mono t hit.now window_ms later in
      let ih = admitted-past hits hit.now (after_hit hit s) o (omega arith) in ground arith

  after_hit-ResetBy :
      (hit : Hit) (t : ℕ) (s : State)
      → t ≤ hit.now
      → ResetBy window_ms t (find_unique key s)
      → ResetBy window_ms hit.now (find_unique key (after_hit hit s))
  after_hit-ResetBy hit t s h r =
      let m = window_of_mono t hit.now window_ms h in
      rw (check_rate_limit-find counters hit max window_ms fail_closed key s) (ground arith)

  -- In every sequence of calls by any number of clients, in the order of their times, with the store
  -- answering or `failClosed` set, and from a counter that was not reset in a later window: of the
  -- calls of one key in one window, at most the limit less what was counted in it before are let
  -- through.
  pub admitted-le_left :
      (hits : List Hit) (t : ℕ) (s : State)
      → InOrder fail_closed t hits
      → ResetBy window_ms t (find_unique key s)
      → count_of hits s ≤ max - used counters key w s
  unfolding admitted
  admitted-le_left [] t s o r = omega arith
  admitted-le_left (hit ∷ hits) t s (later, up, o) r =
      let m = window_of_mono t hit.now window_ms later in
      let s' : State = after_hit hit s in
      let ih = admitted-le_left hits hit.now s' o (after_hit-ResetBy hit t s later r) in
      let past = admitted-past hits hit.now s' o in
      ground (
        arith,
        check_rate_limit-find counters hit max window_ms fail_closed key s,
        check_rate_limit-allowed counters hit max window_ms fail_closed key s,
      )

window_of-lt : (now m : ℕ) → 0 < m → now < window_of now m + m
window_of-lt now m h = grind arith

module _ (counters : Table Counter) where
  -- Cleaning up keeps what is counted of every key in the window of the present moment, where a
  -- window is no longer than an hour.
  pub cleanup_rate_limit_counters-used :
      (now window_ms : ℕ) (up : Bool) (key : String) (s : counters.State)
      → 0 < window_ms
      → window_ms ≤ 3600000
      → used counters key
          (window_of now window_ms)
          (cleanup_rate_limit_counters counters now up s).1
        ≡ used counters key (window_of now window_ms) s
  unfolding cleanup_rate_limit_counters
  cleanup_rate_limit_counters-used now window_ms false key s h k = refl
  cleanup_rate_limit_counters-used now window_ms true key s h k = ground (
    arith,
    counters.find_unique-delete_many key (is_stale counters now) s,
    window_of-lt now window_ms h,
  )
