-- ===== src/Session/Revoked.antt =====
-- A session that was revoked or has expired stays useless, whatever follows.
use text.Mathlib.TextPositions.{eq_refl}
use cluster_gate.Prelude.{
  ℕ, none, some, false, [], ◌∷◌, String, Table, Option, str_eq, ◌≡◌, Bool, List, arith,
  find_unique-write_ne, inl, inr, Bool-cases, eq_iff, find_unique-write_self, ok, throw, All,
  not_found, ◌≤◌, ◌≢◌, ◌⊎◌, ◌∙◌, Option-cases, true, refl, sym,
}
use cluster_gate.Session.{
  SessionRow, SessionUser, Sessions, issue_session, SessionContext, validate_session,
  revoke_session, is_live, revoke_other_sessions, cleanup_sessions, revoke_own,
}

-- Everything that can happen to the sessions.
pub data Event : Type 0 where
  issued : ℕ → ℕ → String → SessionUser → SessionContext → Event
  validated : ℕ → String → Option String → Event
  revoked_one : ℕ → String → String → Event
  revoked_others : ℕ → String → String → Event
  cleaned : ℕ → Event

-- The database never makes up an id twice.
abbrev pub Other : String → Event → Type 0
Other id (issued now lifetime new_id user ctx) = str_eq new_id id ≡ false
Other id (validated now k ip) = Unit
Other id (revoked_one now user k) = Unit
Other id (revoked_others now user keep) = Unit
Other id (cleaned now) = Unit

abbrev live_row : ℕ → Option SessionRow → Bool
live_row now none = false
live_row now (some r) = is_live now r

module _ (sessions : Table SessionRow) where
  open sessions use {State, find_unique}

  step : Event → Sessions sessions → Sessions sessions
  unfolding issue_session validate_session revoke_session revoke_other_sessions cleanup_sessions
  step (issued now lifetime new_id user ctx) w =
      (issue_session sessions now lifetime new_id user ctx w).1
  step (validated now id ip) w = (validate_session sessions now id ip w).1
  step (revoked_one now user id) w = (revoke_session sessions now user id w).1
  step (revoked_others now user keep) w = (revoke_other_sessions sessions now user keep w).1
  step (cleaned now) w = (cleanup_sessions sessions now w).1

  unfoldable pub run : List Event → Sessions sessions → Sessions sessions
  unfolding step
  run [] w = w
  run (e ∷ es) w = run es (step e w)

  abbrev pub is_valid : ℕ → String → Option String → Sessions sessions → Bool
  is_valid now id ip w = (validate_session sessions now id ip w).0

  pub validate_session-live :
      (now : ℕ) (id : String) (ip : Option String) (w : Sessions sessions)
      → is_valid now id ip w ≡ live_row now (find_unique id w.stored)
  unfolding validate_session
  validate_session-live now id ip w = ground arith

  validate_session-kept :
      (t now : ℕ) (id : String) (ip : Option String) (w : Sessions sessions)
      → live_row t (find_unique id w.stored) ≡ false
      → live_row t (find_unique id (validate_session sessions now id ip w).1.stored) ≡ false
  unfolding validate_session
  validate_session-kept t now id ip w h = grind (arith, find_unique-write_self)

  -- No event makes a session live that was not.
  step-live :
      (t : ℕ) (id : String) (e : Event) (w : Sessions sessions)
      → Other id e
      → live_row t (find_unique id w.stored) ≡ false
      → live_row t (find_unique id (step e w).stored) ≡ false
  unfolding step issue_session validate_session revoke_session revoke_other_sessions
      cleanup_sessions
  step-live t id (issued now lifetime new_id user ctx) w o h =
      grind (arith, find_unique-write_ne, o, h)
  step-live t id (validated now k ip) w o h = elim (Bool-cases (str_eq k id)) [
    | inl same ↦
        let e : k ≡ id = (eq_iff k id).0 same in
        rw (← e) (validate_session-kept t now k ip w (rw e h))
    | inr apart ↦ grind (arith, find_unique-write_ne sessions k id)
  ]
  step-live t id (revoked_one now user k) w o h = grind (arith, sessions.find_unique-update_many)
  step-live t id (revoked_others now user keep) w o h =
      grind (arith, sessions.find_unique-update_many)
  step-live t id (cleaned now) w o h = grind (arith, sessions.find_unique-delete_many)

  run-live :
      (t : ℕ) (id : String) (es : List Event) (w : Sessions sessions)
      → All (Other id) es
      → live_row t (find_unique id w.stored) ≡ false
      → live_row t (find_unique id (run es w).stored) ≡ false
  unfolding run
  run-live t id [] w o h = h
  run-live t id (e ∷ es) w (o, os) h = run-live t id es (step e w) os (step-live t id e w o h)

  live_row-later :
      (t later : ℕ) (o : Option SessionRow)
      → t ≤ later
      → live_row t o ≡ false
      → live_row later o ≡ false
  live_row-later t later o le h = ground arith

  revoke_own-live :
      (now t : ℕ) (id : String) (w : Sessions sessions)
      → live_row t (find_unique id (revoke_own sessions now id w).1.stored) ≡ false
  unfolding revoke_own
  revoke_own-live now t id w = grind (arith, sessions.find_unique-update_many, eq_refl)

  abbrev revoked_world : ℕ → String → Sessions sessions → Sessions sessions
  revoked_world now id w = (revoke_own sessions now id w).1

  revoke_session-own :
      (now : ℕ) (user id : String) (w : Sessions sessions) (r : SessionRow)
      → find_unique id w.stored ≡ some r
      → str_eq r.user_id user ≡ true
      → revoke_session sessions now user id w ≡ revoke_own sessions now id w
  unfolding revoke_session
  revoke_session-own now user id w r found own = rw (revoke_session, found, own)

  -- Revoking a session either throws, where there is none under the id or it belongs to another
  -- user, and writes nothing; or it succeeds, and then the session never validates again, at any
  -- time and whatever events follow, as long as its id is not issued again.
  pub revoke_session-final :
      (now : ℕ) (user id : String) (w : Sessions sessions) (es : List Event) (t : ℕ)
      (ip : Option String)
      → All (Other id) es
      → let (answer, w') = revoke_session sessions now user id w in
        ((answer ≡ throw not_found)
          × (w' ≡ w)
          × ((r : SessionRow) → find_unique id w.stored ≡ some r → r.user_id ≢ user))
        ⊎ ((answer ≡ ok tt) × (is_valid t id ip (run es w') ≡ false))
  unfolding revoke_session
  revoke_session-final now user id w es t ip o = elim (Option-cases (find_unique id w.stored)) [
    | inl missing ↦ inl (ground arith)
    | inr (r, found) ↦ elim (Bool-cases (str_eq r.user_id user)) [
      | inl own ↦ rw (revoke_session-own now user id w r found own) (
          inr (
            refl,
            validate_session-live t id ip (run es (revoked_world now id w))
                ∙ run-live t id es (revoked_world now id w) o (revoke_own-live now t id w),
          ))
      | inr foreign ↦
          inl (ground arith, ground arith, λ r' at same. grind (arith, (eq_iff r.user_id user).1))
    ]
  ]

  -- A session that does not validate at some time, since it is not there, is revoked or has expired,
  -- does not validate at that time or later after any events in which its id is not issued.
  pub run-never_valid :
      (t : ℕ) (id : String) (ip : Option String) (es : List Event) (w : Sessions sessions)
      → All (Other id) es
      → is_valid t id ip w ≡ false
      → (later : ℕ) (from : Option String) → t ≤ later
      → is_valid later id from (run es w) ≡ false
  run-never_valid t id ip es w o h later from le =
      let dead = validate_session-live t id ip w in
      validate_session-live later id from (run es w)
      ∙ run-live later id es w o
          (live_row-later t later (find_unique id w.stored) le (sym dead ∙ h))
