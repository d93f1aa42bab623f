-- ===== src/Prelude/Results.antt =====
-- lib/errors.ts (the constructors of AppError) and computations that may throw: what was written
-- before a throw stays written, so a computation always returns the state.
use mathlib.Core.Bool.{Bool, true, false}

pub data AppError : Type 0 where
  bad_request unauthorized forbidden not_found conflict too_many_requests : AppError
  internal service_unavailable path_not_allowed : AppError
  -- Prisma's P2025: an update or a delete that found no row
  record_not_found : AppError

pub data Result {ℓ} (A : Type ℓ) : Type ℓ where
  ok : A → Result A
  throw : AppError → Result A

abbrev pub M {ℓ} : Type ℓ → Type ℓ → Type ℓ
M S A = S → Result A × S

abbrev pub after {ℓ} : {S A B : Type ℓ} → Result A × S → (A → M S B) → Result B × S
after (ok a, s) f = f a s
after (throw e, s) f = (throw e, s)

infixl 5 ◌>>=◌ ◌>>◌
abbrev pub ◌>>=◌ {ℓ} : {S A B : Type ℓ} → M S A → (A → M S B) → M S B
◌>>=◌ m f s = after (m s) f

abbrev pub ◌>>◌ {ℓ} : {S A B : Type ℓ} → M S A → M S B → M S B
m >> k = m >>= λ _. k

abbrev pub pure {ℓ} : {S A : Type ℓ} → A → M S A
pure a s = (ok a, s)

abbrev pub fail {ℓ} : {S A : Type ℓ} → AppError → M S A
fail e s = (throw e, s)

-- `if (!test) throw e`
abbrev pub ensure : {S : Type 0} → Bool → AppError → M S (Unit {0})
ensure true e s = (ok tt, s)
ensure false e s = (throw e, s)

-- What happens to the state, whether or not the computation throws.
abbrev pub exec {ℓ} : {S A : Type ℓ} → M S A → S → S
exec m s = (m s).1

abbrev pub result {ℓ} : {S A : Type ℓ} → M S A → S → Result A
result m s = (m s).0
