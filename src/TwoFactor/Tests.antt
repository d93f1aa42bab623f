-- ===== src/TwoFactor/Tests.antt =====
-- The second factor at a concrete user: the codes are kept as they are, and one TOTP token is right.
use cluster_gate.Prelude.{
  ℕ, none, some, true, false, [], ◌∷◌, refl, ok, throw, List, result, Table, ◌≡◌, String, str_eq,
  memory, if◌then◌else◌, ◌<◌, length, ◌==◌, too_many_requests, exec, All, arith, ◌≢◌,
}
use text.Mathlib.TextPositions.{eq_refl}
use cluster_gate.TwoFactor.{
  UserRow, verify_token, Drawn, verify_and_enable, Codes, verify_enabled, draw_codes,
  use_recovery_code, recovery_code_count, success_data, is_locked,
}
use cluster_gate.TwoFactor.Lockout.{run, run-locks}
use cluster_gate.TwoFactor.Access.{Matches}
use cluster_gate.TwoFactor.Recovery.{FirstMatch, verify_and_enable-accepts, verify_token-consumes}

abbrev codes : Codes
codes = record {
  validate = λ now secret token. str_eq token "123456";
  hash = λ salt code. code;
  compare = λ token h. str_eq token h;
}

abbrev users : Table UserRow
users = memory UserRow

abbrev anna : UserRow
anna = record {
  email = "anna@example.com";
  password_hash = "x";
  two_factor_enabled = true;
  two_factor_secret = some "JBSW";
  recovery_codes = "aa" ∷ "bb" ∷ "cc" ∷ [];
  two_factor_failed_attempts = 2;
  two_factor_locked_until = some 100;
  two_factor_challenge = none;
}

abbrev fresh : UserRow
fresh = record anna { two_factor_enabled = false; recovery_codes = [] }

abbrev only : UserRow → users.State
only u id = if str_eq id "u1" then some u else none

abbrev guesses : List (ℕ × String)
guesses = (1000, "0") ∷ (2000, "1") ∷ []

run-locks_example :
    let (answer, s') =
      verify_token codes users 3000 "u1" "2" (run codes users "u1" guesses (only anna)) in
    (answer ≡ ok false)
    × (users.find_unique "u1" s'
        ≡ some
            (record anna { two_factor_failed_attempts = 0; two_factor_locked_until = some 903000 }))
    × ((later : ℕ) (any : String)
        → later < 903000
        → verify_token codes users later "u1" any s' ≡ (throw too_many_requests, s'))
run-locks_example =
    run-locks codes users "u1" "JBSW" guesses 3000 "2" (only anna) anna refl refl refl
      ((refl, refl, ground arith), ((refl, refl, ground arith), tt)) (refl, refl, ground arith) refl

verify_token-consumes_example :
    let s' = exec (verify_token codes users 1000 "u1" "bb") (only anna) in
    (left : List String) × (users.find_unique "u1" s' ≡ some (success_data left anna))
    × (f : FirstMatch codes "bb" ("aa" ∷ "bb" ∷ "cc" ∷ []) left) × (¬ Matches codes "bb" f.after
        → (later : ℕ) → codes.validate later "JBSW" "bb" ≡ false
        → result (verify_token codes users later "u1" "bb") s' ≢ ok true)
unfolding verify_token verify_enabled use_recovery_code
verify_token-consumes_example =
    verify_token-consumes codes users 1000 "u1" "bb" "JBSW" (only anna) anna refl (refl, refl, refl)
      refl refl

abbrev draw : ℕ → Drawn
draw i = record { code = if i == 3 then "dd" else "ee"; salt = "s" }

abbrev drawn : List String
drawn = "ee" ∷ "ee" ∷ "ee" ∷ "dd" ∷ "ee" ∷ "ee" ∷ "ee" ∷ "ee" ∷ "ee" ∷ "ee" ∷ []

verify_and_enable-accepts_example :
    (length drawn ≡ recovery_code_count)
    × All
        (λ c.
          (later : ℕ)
          → is_locked later fresh ≡ false
          → result
              (verify_token codes users later "u1" c)
              (exec (verify_and_enable codes users 1000 "u1" draw "123456") (only fresh))
            ≡ ok true)
        drawn
unfolding verify_and_enable draw_codes
verify_and_enable-accepts_example =
    verify_and_enable-accepts codes users (λ salt c. eq_refl c) 1000 "u1" "123456" draw (only fresh)
      fresh drawn refl refl
