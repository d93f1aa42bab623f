-- ===== src/Users.antt =====
-- backend/src/services/userService.ts, authService.ts and inviteService.ts: the users, the invites
-- and the operations on them. Prisma's lists of users and invites are lists of their rows, in which
-- a row is found by a column without repetitions. Times are milliseconds.
pub mod Manage
pub mod Auth
pub mod Invites
mod Reading
mod Keeping
mod Runs
mod Spent
pub mod Admins
pub mod Login
pub mod Once
mod Tests
use cluster_gate.Prelude.{
  ℕ, none, some, true, false, [], ◌∷◌, ok, throw, String, Table, Option, List, ◌+◌, Bool, ◌&&◌,
  find_first, count_by, not, ◌||◌, leb, utf16, M, record_not_found, str_eq, conflict, if◌then◌else◌,
  ◌>>◌, unauthorized, ◌++◌, ensure, not_found, length, some_of, pure, bad_request, update_first,
  ◌==◌, forbidden, ◌>>=◌,
}
use cluster_gate.OrgAccess.{Role, admin, operator, viewer}
use cluster_gate.Session.{
  SessionRow, SessionContext, SessionUser, TokenPayload, Sessions, issue_session,
}
use mathlib.Core.Option

pub record User : Type 0 where
  pub id : String
  pub email : String
  pub password_hash : String
  pub name : String
  pub role : Role
  pub is_active : Bool
  pub two_factor_enabled : Bool
  pub two_factor_secret : Option String
  pub recovery_codes : List String
  pub token_version : ℕ
  pub last_login_at : Option ℕ

pub record Invite : Type 0 where
  pub id : String
  pub email : String
  pub role : Role
  pub token : String
  pub expires_at : ℕ
  pub used_at : Option ℕ

-- `email.toLowerCase().trim()`, which follows the tables of Unicode, and what bcryptjs answers: its
-- `hash` with the salt that it draws, and its `compare`.
pub record Host : Type 0 where
  pub normalize : String → String
  pub hash : String → String → String
  pub compare : String → String → Bool

-- What the callers of `login` are given of a user.
pub record SafeUser : Type 0 where
  pub id : String
  pub email : String
  pub name : String
  pub role : Role
  pub is_active : Bool
  pub two_factor_enabled : Bool
  pub token_version : ℕ
  pub last_login_at : Option ℕ

abbrev pub safe_user : User → SafeUser
safe_user u = record {
  id = u.id;
  email = u.email;
  name = u.name;
  role = u.role;
  is_active = u.is_active;
  two_factor_enabled = u.two_factor_enabled;
  token_version = u.token_version;
  last_login_at = u.last_login_at;
}

-- The token is '' where a second factor is still asked for.
pub record LoginResult : Type 0 where
  pub user : SafeUser
  pub token : Option TokenPayload

pub data PasswordError : Type 0 where
  too_short no_uppercase no_lowercase no_number no_special : PasswordError

abbrev in_range : ℕ → ℕ → ℕ → Bool
in_range low high c = leb low c && leb c high

abbrev is_alphanumeric : ℕ → Bool
is_alphanumeric c = in_range 65 90 c || in_range 97 122 c || in_range 48 57 c

abbrev unless_met : Bool → PasswordError → List PasswordError
unless_met true e = []
unless_met false e = e ∷ []

-- The errors; the password is valid when there is none.
unfoldable pub validate_password : String → List PasswordError
validate_password password =
    let units = utf16 password in
    unless_met (leb 12 (length units)) too_short
    ++ (unless_met (some_of (in_range 65 90) units) no_uppercase
        ++ (unless_met (some_of (in_range 97 122) units) no_lowercase
            ++ (unless_met (some_of (in_range 48 57) units) no_number
                ++ unless_met (some_of (λ c. not (is_alphanumeric c)) units) no_special)))

abbrev pub is_valid : List PasswordError → Bool
is_valid [] = true
is_valid (e ∷ es) = false

abbrev pub is_admin : Role → Bool
is_admin admin = true
is_admin operator = false
is_admin viewer = false

abbrev pub is_active_admin : User → Bool
is_active_admin u = is_admin u.role && u.is_active

-- `count({ where: { role: Role.ADMIN, isActive: true } })`
pub admin_count : List User → ℕ
admin_count us = count_by is_active_admin us

pub record CreateUserData : Type 0 where
  pub email : String
  pub password : String
  pub name : String
  pub role : Option Role

pub record UpdateUserData : Type 0 where
  pub name : Option String
  pub role : Option Role
  pub is_active : Option Bool

-- `data.role !== undefined && data.role !== Role.ADMIN || data.isActive === false`
abbrev demotes : UpdateUserData → Bool
demotes d =
    elim d.role [ none ↦ false | some r ↦ not (is_admin r) ]
    || elim d.is_active [ none ↦ false | some b ↦ not b ]

abbrev pub updated : UpdateUserData → User → User
updated d u = record u {
  name = Option.get_or d.name u.name;
  role = Option.get_or d.role u.role;
  is_active = Option.get_or d.is_active u.is_active;
}

-- A new row: the columns that `create` does not name have their defaults.
abbrev pub new_user : String → String → String → String → Role → User
new_user id email password_hash name role = record {
  id = id;
  email = email;
  password_hash = password_hash;
  name = name;
  role = role;
  is_active = true;
  two_factor_enabled = false;
  two_factor_secret = none;
  recovery_codes = [];
  token_version = 0;
  last_login_at = none;
}

abbrev pub deactivated : User → User
deactivated u = record u { is_active = false; token_version = u.token_version + 1 }

abbrev pub restored : User → User
restored u = record u { is_active = true }

abbrev pub without_2fa : User → User
without_2fa u = record u {
  two_factor_secret = none;
  two_factor_enabled = false;
  recovery_codes = [];
}

abbrev pub with_password : String → User → User
with_password h u = record u { password_hash = h; token_version = u.token_version + 1 }

module _ (sessions : Table SessionRow) (host : Host) where
  pub record World : Type 0 where
    pub users : List User
    pub invites : List Invite
    pub issued : Sessions sessions

  abbrev pub find_by_id : String → World → Option User
  find_by_id id w = find_first (λ u. str_eq u.id id) w.users

  abbrev pub find_by_email : String → World → Option User
  find_by_email email w = find_first (λ u. str_eq u.email email) w.users

  -- `findUnique`, and `throw AppError.notFound('User')` without one.
  unfoldable pub found_user : String → M World User
  found_user id w = elim (find_by_id id w) [ none ↦ (throw not_found, w) | some u ↦ (ok u, w) ]

  -- `update({ where: { id }, data })`
  unfoldable pub update_user : String → (User → User) → M World User
  update_user id f w = elim (find_by_id id w) [
    | none ↦ (throw record_not_found, w)
    | some u ↦ (ok (f u), record w { users = update_first (λ v. str_eq v.id id) f w.users })
  ]

  abbrev pub insert_user : User → M World User
  insert_user u w = (ok u, record w { users = w.users ++ u ∷ [] })

  -- `if (adminCount <= 1) throw`, where the user is an administrator to be lost.
  unfoldable pub keep_admin : Bool → M World (Unit {0})
  keep_admin at_risk w = ensure (not (at_risk && leb (admin_count w.users) 1)) bad_request w

  unfoldable pub email_is_free : String → M World (Unit {0})
  email_is_free email w = elim (find_by_email email w) [
    | none ↦ (ok tt, w)
    | some u ↦ (throw conflict, w)
  ]

  abbrev pub check_password : String → M World (Unit {0})
  check_password password w = ensure (is_valid (validate_password password)) bad_request w
