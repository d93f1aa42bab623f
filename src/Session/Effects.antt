-- ===== src/Session/Effects.antt =====
-- What issuing, revoking the others and cleaning up mean for the sessions that validate.
use cluster_gate.Prelude.{
  ℕ, some, true, Table, String, Option, ◌≡◌, ◌≤◌, ◌↔◌, ◌+◌, ◌⊎◌, ◌≢◌, refl, inl, inr,
  find_unique-write_self, arith, Option-cases, eq_iff,
}
use cluster_gate.Session.{
  SessionRow, issue_session, cleanup_sessions, SessionUser, Sessions, SessionContext,
  revoke_other_sessions,
}
use cluster_gate.Session.Revoked.{is_valid, validate_session-live}

module _ (sessions : Table SessionRow) where
  open sessions use {State, find_unique}

  -- A session that was just issued validates until its lifetime is over, and not after it; the
  -- token that is signed carries the session's id and the user.
  pub issue_session-validates_iff :
      (now lifetime t : ℕ) (id : String) (user : SessionUser) (ctx : SessionContext)
      (ip : Option String) (w : Sessions sessions)
      → let (payload, w') = issue_session sessions now lifetime id user ctx w in
        (payload.sid ≡ id)
        × (payload.user ≡ user)
        × ((is_valid sessions t id ip w' ≡ true) ↔ (t ≤ now + lifetime))
  unfolding issue_session
  issue_session-validates_iff now lifetime t id user ctx ip w =
      (refl, refl, rw (validate_session-live, find_unique-write_self) (ground arith))

  -- After the user's other sessions are revoked, a session validates exactly if it did before and is
  -- the one that is kept or belongs to another user.
  pub revoke_other_sessions-valid_iff :
      (now t : ℕ) (user keep id : String) (ip : Option String) (w : Sessions sessions)
      → (is_valid sessions t id ip (revoke_other_sessions sessions now user keep w).1 ≡ true) ↔ (
          (is_valid sessions t id ip w ≡ true)
          × ((id ≡ keep)
              ⊎ ((r : SessionRow) × (find_unique id w.stored ≡ some r) × (r.user_id ≢ user))))
  unfolding revoke_other_sessions
  revoke_other_sessions-valid_iff now t user keep id ip w =
      rw
        (
          validate_session-live,
          sessions.find_unique-update_many,
          validate_session-live sessions t id ip w,
        )
        (elim (Option-cases (find_unique id w.stored)) [
          | inl missing ↦ ground arith
          | inr (r, found) ↦
              let e = eq_iff id keep in
              let f = eq_iff r.user_id user in rw found (grind (arith, e, f))
        ])

  -- Cleaning up changes no answer of a validation at the present moment or later.
  pub cleanup_sessions-valid :
      (now t : ℕ) (id : String) (ip : Option String) (w : Sessions sessions)
      → now ≤ t
      → is_valid sessions t id ip (cleanup_sessions sessions now w).1 ≡ is_valid sessions t id ip w
  unfolding cleanup_sessions
  cleanup_sessions-valid now t id ip w le =
      rw
        (
          validate_session-live,
          sessions.find_unique-delete_many,
          validate_session-live sessions t id ip w,
        )
        (grind arith)
