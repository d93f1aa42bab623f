-- ===== src/TwoFactor.antt =====
-- backend/src/services/twoFactorService.ts: the second factor of a login. otpauth and bcryptjs are
-- no part of the repository: `Codes` holds the answers that the service takes from them. The
-- provisioning URI of generateSetup is left out. Times are milliseconds.
pub mod Lockout
pub mod Recovery
pub mod Access
mod Tests
use mathlib.Core.Option
use cluster_gate.Prelude.{
  ◌>>=◌, ℕ, none, some, true, false, [], ◌∷◌, zero, suc, ok, throw, Bool, List, String,
  if◌then◌else◌, ◌*◌, Table, M, leb, Option, ltb, ◌+◌, update, not_found, fail, ◌>>◌, bad_request,
  ensure, pure, not, present, too_many_requests,
}

pub record UserRow : Type 0 where
  pub email : String
  pub password_hash : String
  pub two_factor_enabled : Bool
  pub two_factor_secret : Option String
  pub recovery_codes : List String
  pub two_factor_failed_attempts : ℕ
  pub two_factor_locked_until : Option ℕ
  pub two_factor_challenge : Option String

-- `totp.validate({ token, window: 1 }) !== null` at a time, for a secret; and bcrypt's `hash` with
-- the salt that it draws, and its `compare`.
pub record Codes : Type 0 where
  pub validate : ℕ → String → String → Bool
  pub hash : String → String → String
  pub compare : String → String → Bool

-- A recovery code and its salt, as they are drawn.
pub record Drawn : Type 0 where
  pub code : String
  pub salt : String

-- MAX_2FA_ATTEMPTS and LOCKOUT_MS
abbrev pub max_2fa_attempts : ℕ
max_2fa_attempts = 5

abbrev pub lockout_ms : ℕ
lockout_ms = 15 * 60 * 1000

abbrev pub recovery_code_count : ℕ
recovery_code_count = 10

-- `user.twoFactorLockedUntil && user.twoFactorLockedUntil.getTime() > Date.now()`
abbrev pub is_locked : ℕ → UserRow → Bool
is_locked now u = elim u.two_factor_locked_until [ none ↦ false | some t ↦ ltb now t ]

-- The data of onVerifySuccess.
abbrev pub success_data : List String → UserRow → UserRow
success_data codes u = record u {
  recovery_codes = codes;
  two_factor_failed_attempts = 0;
  two_factor_locked_until = none;
  two_factor_challenge = none;
}

-- The data of onVerifyFailure.
abbrev pub failure_data : ℕ → ℕ → UserRow → UserRow
failure_data now attempts u =
    if leb max_2fa_attempts attempts
    then record u {
      two_factor_failed_attempts = 0;
      two_factor_locked_until = some (now + lockout_ms);
    }
    else record u { two_factor_failed_attempts = attempts }

module _ (codes : Codes) where
  -- The loop over the recovery codes: the list without the first that matches, if there is one.
  unfoldable pub use_recovery_code : String → List String → Option (List String)
  use_recovery_code token [] = none
  use_recovery_code token (h ∷ hs) =
      let rest = use_recovery_code token hs in
      if codes.compare token h then some hs else Option.map (λ r. h ∷ r) rest

  -- The loop that draws the codes, from the i-th on: `n` of them are still to be drawn.
  unfoldable pub draw_codes : (ℕ → Drawn) → ℕ → ℕ → List String × List String
  draw_codes draw i zero = ([], [])
  draw_codes draw i (suc n) =
      let (plain, hashed) = draw_codes draw (i + 1) n in
      ((draw i).code ∷ plain, codes.hash (draw i).salt (draw i).code ∷ hashed)

  module _ (users : Table UserRow) where
    open users use {State}

    -- `findUnique`, and the error where there is no such user.
    abbrev find_user : String → M State UserRow
    find_user id s = elim (users.find_unique id s) [
      | none ↦ (throw not_found, s)
      | some u ↦ (ok u, s)
    ]

    unfoldable pub start_login_challenge : String → String → M State String
    start_login_challenge id nonce = do
      update users id (λ u. record u { two_factor_challenge = some nonce })
      pure nonce

    unfoldable pub generate_setup : String → String → M State String
    generate_setup id base32_secret = do
      user ← find_user id
      ensure (not user.two_factor_enabled) bad_request
      update users id (λ u. record u { two_factor_secret = some base32_secret })
      pure base32_secret

    enable_with : String → List String × List String → M State (List String)
    enable_with id (plain, hashed) = do
      update users id (λ u. record u { two_factor_enabled = true; recovery_codes = hashed })
      pure plain

    verify_setup : ℕ → String → (ℕ → Drawn) → String → Option String → M State (List String)
    unfolding enable_with draw_codes
    verify_setup now id draw token none = fail bad_request
    verify_setup now id draw token (some secret) = do
      ensure (codes.validate now secret token) bad_request
      enable_with id (draw_codes draw 0 recovery_code_count)

    unfoldable pub verify_and_enable : ℕ → String → (ℕ → Drawn) → String → M State (List String)
    unfolding verify_setup
    verify_and_enable now id draw token = do
      user ← find_user id
      ensure (not user.two_factor_enabled) bad_request
      verify_setup now id draw token (present user.two_factor_secret)

    -- What follows once neither the TOTP nor the lock has decided.
    try_recovery : ℕ → String → UserRow → Option (List String) → M State Bool
    try_recovery now id user none = do
      update users id (failure_data now (user.two_factor_failed_attempts + 1))
      pure false
    try_recovery now id user (some updated) = do update users id (success_data updated); pure true

    unfoldable pub verify_enabled : ℕ → String → UserRow → String → String → M State Bool
    unfolding try_recovery use_recovery_code
    verify_enabled now id user token secret =
        if codes.validate now secret token
        then update users id (success_data user.recovery_codes) >> pure true
        else try_recovery now id user (use_recovery_code token user.recovery_codes)

    unfoldable pub verify_token : ℕ → String → String → M State Bool
    unfolding verify_enabled
    verify_token now id token = do
      user ← find_user id
      ensure user.two_factor_enabled bad_request
      elim (present user.two_factor_secret) [
        | none ↦ fail bad_request
        | some secret ↦ do
          ensure (not (is_locked now user)) too_many_requests
          verify_enabled now id user token secret
      ]

    unfoldable pub disable : String → String → M State (Unit {0})
    disable id password = do
      user ← find_user id
      ensure user.two_factor_enabled bad_request
      ensure (codes.compare password user.password_hash) bad_request
      update users id (λ u. record u {
        two_factor_secret = none;
        two_factor_enabled = false;
        recovery_codes = [];
      })
      pure tt
