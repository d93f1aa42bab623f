-- ===== src/Session.antt =====
-- backend/src/services/sessionService.ts: the sessions of users, and the replica's record of when it
-- last wrote lastSeenAt. Times are milliseconds. The listing, which only reads, is left out.
pub mod Lifetime
pub mod Revoked
pub mod Effects
mod Tests
use cluster_gate.Prelude.{
  ℕ, none, some, true, false, ok, throw, String, Bool, Table, Option, M, exec, clip, str_eq, leb,
  present, if◌then◌else◌, ltb, ◌+◌, ◌||◌, create, not_found, ◌&&◌, update, not,
}
use cluster_gate.OrgAccess.{Role}

pub record SessionRow : Type 0 where
  pub user_id : String
  pub ip : Option String
  pub user_agent : Option String
  pub last_seen_at : ℕ
  pub expires_at : ℕ
  pub revoked_at : Option ℕ

pub record SessionContext : Type 0 where
  pub ip : Option String
  pub user_agent : Option String

-- The fields of the user that a token carries, and the token's content.
pub record SessionUser : Type 0 where
  pub id : String
  pub email : String
  pub role : Role
  pub token_version : ℕ

pub record TokenPayload : Type 0 where
  pub user : SessionUser
  pub sid : String

-- `session.revokedAt || session.expiresAt < new Date()`, negated.
abbrev pub is_live : ℕ → SessionRow → Bool
is_live now r = elim r.revoked_at [ none ↦ leb now r.expires_at | some t ↦ false ]

abbrev is_active : SessionRow → Bool
is_active r = elim r.revoked_at [ none ↦ true | some t ↦ false ]

abbrev revoked : ℕ → SessionRow → SessionRow
revoked now r = record r { revoked_at = some now }

abbrev clipped : ℕ → Option String → Option String
clipped n none = none
clipped n (some s) = some (clip n s)

-- `...(ip ? { ip: ip.slice(0, 64) } : {})`
abbrev seen_from : Option String → Option String → Option String
seen_from none old = old
seen_from (some ip) old = some (clip 64 ip)

abbrev touched : ℕ → Option String → SessionRow → SessionRow
touched now ip r = record r { last_seen_at = now; ip = seen_from (present ip) r.ip }

abbrev or_zero : Option ℕ → ℕ
or_zero none = 0
or_zero (some n) = n

module _ (sessions : Table SessionRow) where
  open sessions use {State, find_unique, update_many, delete_many}

  -- The table, and the map lastTouch.
  pub record Sessions : Type 0 where
    pub stored : State
    pub last_touch : String → Option ℕ

  -- What `signToken` is given; the row's id is made up by the database, and lastSeenAt starts at
  -- the creation.
  unfoldable pub issue_session :
      ℕ → ℕ → String → SessionUser → SessionContext → Sessions → TokenPayload × Sessions
  issue_session now lifetime_ms new_id user ctx w = (
    record { user = user; sid = new_id },
    record w {
      stored =
          exec
            (create sessions new_id (record {
              user_id = user.id;
              ip = clipped 64 ctx.ip;
              user_agent = clipped 512 ctx.user_agent;
              last_seen_at = now;
              expires_at = now + lifetime_ms;
              revoked_at = none;
            }))
            w.stored;
    },
  )

  -- The update, for which nobody waits and whose errors are dropped, at most once a minute.
  touch : ℕ → String → Option String → Sessions → Sessions
  touch now id ip w =
      if ltb (or_zero (w.last_touch id) + 60000) now
      then record {
        stored = exec (update sessions id (touched now ip)) w.stored;
        last_touch = λ k. if str_eq id k then some now else w.last_touch k;
      }
      else w

  unfoldable pub validate_session : ℕ → String → Option String → Sessions → Bool × Sessions
  unfolding touch
  validate_session now id ip w = elim (find_unique id w.stored) [
    | none ↦ (false, w)
    | some r ↦ if is_live now r then (true, touch now id ip w) else (false, w)
  ]

  revoke_own : ℕ → String → M Sessions (Unit {0})
  revoke_own now id w = (
    ok tt,
    record {
      stored = (update_many (λ k r. str_eq id k && is_active r) (revoked now) w.stored).1;
      last_touch = λ k. if str_eq id k then none else w.last_touch k;
    },
  )

  unfoldable pub revoke_session : ℕ → String → String → M Sessions (Unit {0})
  unfolding revoke_own
  revoke_session now user_id id w = elim (find_unique id w.stored) [
    | none ↦ (throw not_found, w)
    | some r ↦ if str_eq r.user_id user_id then revoke_own now id w else (throw not_found, w)
  ]

  unfoldable pub revoke_other_sessions : ℕ → String → String → Sessions → ℕ × Sessions
  revoke_other_sessions now user_id keep w =
      let (n, s) =
        update_many (λ k r. str_eq r.user_id user_id && is_active r && not (str_eq k keep))
          (revoked now) w.stored in
      (n, record w { stored = s })

  unfoldable pub cleanup_sessions : ℕ → Sessions → ℕ × Sessions
  cleanup_sessions now w =
      let (n, s) = delete_many (λ k r. ltb r.expires_at now || not (is_active r)) w.stored in
      (n, record w { stored = s })
