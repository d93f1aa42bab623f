-- ===== src/TwoFactor/Lockout.antt =====
-- Guessing: wrong tokens are counted, the fifth locks the user out, and nobody gets past the lock.
use cluster_gate.Prelude.{
  ℕ, some, true, false, [], ◌∷◌, suc, inl, inr, ok, throw, Table, String, ◌≡◌, List, present, exec,
  result, All, ◌+◌, length, ◌<◌, arith, find_unique-write_self, too_many_requests, ◌∙◌,
}
use cluster_gate.TwoFactor.{
  Codes, UserRow, verify_enabled, is_locked, verify_token, failure_data, max_2fa_attempts,
  lockout_ms,
}
use cluster_gate.TwoFactor.Access.{Matches, verify_token-open, use_recovery_code-cases}

module _ (codes : Codes) (users : Table UserRow) where
  open users use {State, find_unique}

  -- A guess at a time when the user is not locked out, that is neither the secret's token nor a
  -- recovery code.
  abbrev pub IsWrong : UserRow → String → ℕ × String → Type 0
  IsWrong u secret (now, token) =
      (is_locked now u ≡ false)
      × (codes.validate now secret token ≡ false)
      × (¬ Matches codes token u.recovery_codes)

  -- The row after some more wrong guesses.
  abbrev counted : UserRow → ℕ → UserRow
  counted u n = record u { two_factor_failed_attempts = n }

  abbrev locked : UserRow → ℕ → UserRow
  locked u until = record u { two_factor_failed_attempts = 0; two_factor_locked_until = some until }

  unfoldable pub run : String → List (ℕ × String) → State → State
  run id [] s = s
  run id ((now, token) ∷ gs) s = run id gs (exec (verify_token codes users now id token) s)

  wrong_guess :
      (now : ℕ) (id token secret : String) (s : State) (u : UserRow)
      → find_unique id s ≡ some u
      → u.two_factor_enabled ≡ true
      → present u.two_factor_secret ≡ some secret
      → IsWrong u secret (now, token)
      → (result (verify_token codes users now id token) s ≡ ok false)
        × (find_unique id (exec (verify_token codes users now id token) s)
            ≡ some (failure_data now (u.two_factor_failed_attempts + 1) u))
  unfolding verify_enabled
  wrong_guess now id token secret s u found on has (free, invalid, differ) =
      rw (result, exec, verify_token-open codes users now id token secret s u found (on, has, free))
        (elim (use_recovery_code-cases codes token u.recovery_codes) [
          | inl (nothing, _) ↦ grind (arith, find_unique-write_self)
          | inr (left, some_left, m) ↦ absurd (differ m)
        ])

  run-counts :
      (id secret : String) (gs : List (ℕ × String)) (s : State) (u : UserRow)
      → find_unique id s ≡ some u
      → u.two_factor_enabled ≡ true
      → present u.two_factor_secret ≡ some secret
      → All (IsWrong u secret) gs
      → u.two_factor_failed_attempts + length gs < max_2fa_attempts
      → find_unique id (run id gs s) ≡ some (counted u (u.two_factor_failed_attempts + length gs))
  unfolding run
  run-counts id secret [] s u found on has wrong few = ground arith
  run-counts id secret ((now, token) ∷ gs) s u found on has (w, ws) few =
      let (refused, at) = wrong_guess now id token secret s u found on has w in
      let s' = exec (verify_token codes users now id token) s in
      let u' = counted u (u.two_factor_failed_attempts + 1) in
      let ih = run-counts id secret gs s' u' (ground arith) on has ws (omega arith) in ground arith

  verify_token-locked :
      (now : ℕ) (id token secret : String) (s : State) (u : UserRow)
      → find_unique id s ≡ some u
      → u.two_factor_enabled ≡ true
      → present u.two_factor_secret ≡ some secret
      → is_locked now u ≡ true
      → verify_token codes users now id token s ≡ (throw too_many_requests, s)
  unfolding verify_token
  verify_token-locked now id token secret s u found on has lock = ground arith

  -- Wrong guesses in a row that bring the count of failed attempts to one below the maximum, and one
  -- more: that one is refused too, it locks the user out for fifteen minutes from its time and starts
  -- the count again; until then every token, even a right one, is turned away with
  -- `too_many_requests`, and nothing is written.
  pub run-locks :
      (id secret : String) (gs : List (ℕ × String)) (now : ℕ) (token : String) (s : State)
      (u : UserRow)
      → find_unique id s ≡ some u
      → u.two_factor_enabled ≡ true
      → present u.two_factor_secret ≡ some secret
      → All (IsWrong u secret) gs
      → IsWrong u secret (now, token)
      → suc (u.two_factor_failed_attempts + length gs) ≡ max_2fa_attempts
      → let (answer, s') = verify_token codes users now id token (run id gs s) in
        (answer ≡ ok false)
        × (find_unique id s' ≡ some (locked u (now + lockout_ms)))
        × ((later : ℕ) (any : String)
            → later < now + lockout_ms
            → verify_token codes users later id any s' ≡ (throw too_many_requests, s'))
  run-locks id secret gs now token s u found on has wrong w h =
      let at = run-counts id secret gs s u found on has wrong (omega (arith, h)) in
      let u' = counted u (u.two_factor_failed_attempts + length gs) in
      let (refused, after) = wrong_guess now id token secret (run id gs s) u' at on has w in
      let s' = exec (verify_token codes users now id token) (run id gs s) in
      let lock : find_unique id s' ≡ some (locked u (now + lockout_ms)) = after ∙ ground arith in
      (
        refused,
        lock,
        λ later any early.
            verify_token-locked later id any secret s' (locked u (now + lockout_ms)) lock on has
              (ground arith),
      )
