-- ===== src/RateLimit/Window.antt =====
-- How many requests of one client a window lets through.
use cluster_gate.Prelude.{
  Table, String, ℕ, Bool, Option, ◌≡◌, true, ◌↔◌, ◌<◌, ◌+◌, ◌-◌, arith, find_unique-write_self,
  some, if◌then◌else◌, ◌==◌, none, false, [], ◌∷◌, suc, inl, inr, str_eq, ◌≤◌, List, ◌⊎◌,
  find_unique-write_ne, leb, ◌&&◌, not, Bool-cases, eq_iff,
}
use cluster_gate.RateLimit.{
  Counter, check_rate_limit, Hit, counter_key, window_of, RateLimitResult, upserted,
}

module _ (counters : Table Counter) where
  open counters use {State, find_unique}

  -- How many requests of this key were counted in the window that starts at `w`.
  abbrev used_in : ℕ → Option Counter → ℕ
  used_in w none = 0
  used_in w (some c) = if c.window_start == w then c.count else 0

  abbrev pub used : String → ℕ → State → ℕ
  used key w s = used_in w (find_unique key s)

  abbrev pub key_of : Hit → String
  key_of hit = counter_key hit.route_id hit.client_ip

  -- While the store answers, a request is let through exactly when fewer than `max` requests of
  -- its key were counted in its window; it is counted itself either way, and `remaining` is what is left.
  pub check_rate_limit-allowed_iff :
      (hit : Hit) (max window_ms : ℕ) (fail_closed : Bool) (s : State)
      → hit.up ≡ true
      → let w = window_of hit.now window_ms in
        let (answer, s') = check_rate_limit counters hit max window_ms fail_closed s in
        ((answer.allowed ≡ true) ↔ (used (key_of hit) w s < max))
        × (used (key_of hit) w s' ≡ used (key_of hit) w s + 1)
        × (answer.remaining ≡ max - (used (key_of hit) w s + 1))
        × (answer.reset_at ≡ w + window_ms)
  unfolding check_rate_limit
  check_rate_limit-allowed_iff hit max window_ms fail_closed s up = (
    grind (arith, find_unique-write_self),
    grind (arith, find_unique-write_self),
    grind arith,
    grind arith,
  )

  -- What a call leaves under its own key, and under another.
  check_rate_limit-find_self :
      (hit : Hit) (max window_ms : ℕ) (fail_closed : Bool) (s : State)
      → find_unique (key_of hit) (check_rate_limit counters hit max window_ms fail_closed s).1 ≡ (
          if hit.up
          then some (upserted (window_of hit.now window_ms) (find_unique (key_of hit) s))
          else find_unique (key_of hit) s)
  unfolding check_rate_limit
  check_rate_limit-find_self hit max window_ms fail_closed s = grind (arith, find_unique-write_self)

  check_rate_limit-find_other :
      (hit : Hit) (max window_ms : ℕ) (fail_closed : Bool) (key : String) (s : State)
      → str_eq (key_of hit) key ≡ false
      → find_unique key (check_rate_limit counters hit max window_ms fail_closed s).1
        ≡ find_unique key s
  unfolding check_rate_limit
  check_rate_limit-find_other hit max window_ms fail_closed key s h =
      grind (arith, find_unique-write_ne)

  pub check_rate_limit-find :
      (hit : Hit) (max window_ms : ℕ) (fail_closed : Bool) (key : String) (s : State)
      → find_unique key (check_rate_limit counters hit max window_ms fail_closed s).1 ≡ (
          if str_eq (key_of hit) key && hit.up
          then some (upserted (window_of hit.now window_ms) (find_unique key s))
          else find_unique key s)
  check_rate_limit-find hit max window_ms fail_closed key s =
      elim (Bool-cases (str_eq (key_of hit) key)) [
        | inl same ↦
            rw (same, ← (eq_iff (key_of hit) key).0 same)
              (check_rate_limit-find_self hit max window_ms fail_closed s)
        | inr other ↦
            rw other (check_rate_limit-find_other hit max window_ms fail_closed key s other)
      ]

  pub check_rate_limit-allowed :
      (hit : Hit) (max window_ms : ℕ) (fail_closed : Bool) (key : String) (s : State)
      → str_eq (key_of hit) key ≡ true
      → (check_rate_limit counters hit max window_ms fail_closed s).0.allowed ≡ (
          if hit.up
          then leb (upserted (window_of hit.now window_ms) (find_unique key s)).count max
          else not fail_closed)
  unfolding check_rate_limit
  check_rate_limit-allowed hit max window_ms fail_closed key s same =
      rw (← (eq_iff (key_of hit) key).0 same) (ground arith)

module _ (counters : Table Counter) (max window_ms : ℕ) (fail_closed : Bool) (key : String)
    (w : ℕ) where
  open counters use {State, find_unique}

  counts : Hit → RateLimitResult → Bool
  counts hit answer =
      str_eq (key_of counters hit) key && (window_of hit.now window_ms == w) && answer.allowed

  -- How many of the calls that ask for this key in the window that starts at `w` are let through.
  unfoldable pub admitted : List Hit → State → ℕ
  unfolding counts
  admitted [] s = 0
  admitted (hit ∷ hits) s =
      let (answer, s') = check_rate_limit counters hit max window_ms fail_closed s in
      let rest = admitted hits s' in if counts hit answer then suc rest else rest

-- The calls come in the order of time, none of them before `t`, and the store answers each of them,
-- or an outage refuses.
abbrev pub InOrder : Bool → ℕ → List Hit → Type 0
InOrder fail_closed t [] = Unit
InOrder fail_closed t (hit ∷ hits) =
    (t ≤ hit.now) × ((hit.up ≡ true) ⊎ (fail_closed ≡ true)) × InOrder fail_closed hit.now hits

pub window_of_mono : (a b m : ℕ) → a ≤ b → window_of a m ≤ window_of b m
window_of_mono a b m h = grind arith
