-- ===== src/Users/Auth.antt =====
-- authService: login, change of password and the setup of the first administrator.
use cluster_gate.Prelude.{
  ℕ, none, some, ok, throw, Table, String, M, if◌then◌else◌, unauthorized, pure, ◌>>◌, ◌&&◌, ensure,
  ◌>>=◌, length, bad_request, ◌==◌, forbidden,
}
use cluster_gate.OrgAccess.{admin}
use cluster_gate.Session.{SessionRow, SessionContext, SessionUser, issue_session}
use cluster_gate.Users.{
  Host, User, update_user, found_user, CreateUserData, World, LoginResult, safe_user,
  check_password, find_by_email, with_password, insert_user, new_user,
}

module _ (sessions : Table SessionRow) (host : Host) where
  unfoldable pub change_password : String → String → String → String → M (World sessions host) User
  unfolding found_user update_user
  change_password salt id current_password new_password = do
    user ← found_user sessions host id
    λ w. ensure (host.compare current_password user.password_hash) bad_request w
    check_password sessions host new_password
    update_user sessions host id (with_password (host.hash salt new_password))

  abbrev pub session_user : User → SessionUser
  session_user u = record {
    id = u.id;
    email = u.email;
    role = u.role;
    token_version = u.token_version;
  }

  -- What a login draws from outside: the clock, the lifetime of tokens and the id of the session.
  pub record Draw : Type 0 where
    pub now : ℕ
    pub lifetime_ms : ℕ
    pub session_id : String

  unfoldable pub start_session : Draw → SessionContext → User → M (World sessions host) LoginResult
  start_session d ctx u w =
      let (token, s) =
        issue_session sessions d.now d.lifetime_ms d.session_id (session_user u) ctx w.issued in
      (ok (record { user = safe_user u; token = some token }), record w { issued = s })

  -- What follows the check of the password.
  unfoldable pub logged_in : Draw → SessionContext → User → M (World sessions host) LoginResult
  unfolding update_user start_session
  logged_in d ctx u =
      if u.two_factor_enabled
      then pure (record { user = safe_user u; token = none })
      else (update_user sessions host u.id (λ v. record v { last_login_at = some d.now }) >>= λ v.
          start_session d ctx (record u { last_login_at = some d.now }))

  unfoldable pub login :
      Draw → SessionContext → String → String → M (World sessions host) LoginResult
  unfolding logged_in
  login d ctx email password w = elim (find_by_email sessions host (host.normalize email) w) [
    | none ↦ (throw unauthorized, w)
    | some u ↦
        if u.is_active && host.compare password u.password_hash
        then logged_in d ctx u w
        else (throw unauthorized, w)
  ]

  unfoldable pub setup_initial_admin :
      Draw → SessionContext → String → String → CreateUserData → M (World sessions host) LoginResult
  unfolding start_session
  setup_initial_admin d ctx new_id salt input =
      check_password sessions host input.password
      >> ((λ w. ensure (length w.users == 0) forbidden w)
          >> (insert_user sessions host (
                new_user new_id (host.normalize input.email) (host.hash salt input.password)
                  input.name admin)
              >>= start_session d ctx))
