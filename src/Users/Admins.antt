-- ===== src/Users/Admins.antt =====
-- An active administrator is never lost.
use cluster_gate.Prelude.{
  some, inl, inr, Table, String, ◌<◌, Option-cases, exec, str_eq, Bool-cases, [], ◌∷◌, Reads-bind,
  ensure-Reads, ◌&&◌, ℕ, ensure, length, ◌==◌, forbidden, find_first, bind-keeps, List,
}
use cluster_gate.Session.{SessionRow, SessionContext}
use cluster_gate.Users.{
  Host, World, update_user, admin_count, User, insert_user, email_is_free, CreateUserData,
  find_by_email, check_password, new_user, LoginResult,
}
use cluster_gate.Users.Invites.{
  revoke_invite, mark_invite, create_invite, accept_invite, open_invite, accept_open,
}
use cluster_gate.Users.Auth.{setup_initial_admin, login, logged_in, start_session, Draw}
use cluster_gate.OrgAccess.{Role}
use cluster_gate.Users.Runs.{
  run, step, Event, created, changed_data, deleted, brought_back, disabled_2fa, reset_password,
  changed_password, entered, set_up, invited, accepted, revoked,
}
use cluster_gate.Users.Reading.{open_invite-Reads, email_is_free-Reads}
use cluster_gate.Users.Keeping.{
  HasAdmin, insert_user-HasAdmin, plain_update-HasAdmin, create_user-HasAdmin,
  update_user_data-HasAdmin, delete_user-HasAdmin, restore_user-HasAdmin,
  admin_disable_2fa-HasAdmin, admin_reset_password-HasAdmin, change_password-HasAdmin,
}

module _ (sessions : Table SessionRow) (host : Host) where
  logged_in-HasAdmin :
      (d : Draw sessions host) (ctx : SessionContext) (u : User) (w : World sessions host)
      → HasAdmin sessions host w
      → HasAdmin sessions host (exec (logged_in sessions host d ctx u) w)
  unfolding logged_in start_session
  logged_in-HasAdmin d ctx u w h = elim (Bool-cases u.two_factor_enabled) [
    | inl more ↦ rw (exec, more) h
    | inr enough ↦
        rw (exec, enough)
          (bind-keeps (HasAdmin sessions host)
            (update_user sessions host u.id (λ v. record v { last_login_at = some d.now })) _ w
            (plain_update-HasAdmin sessions host u.id _ w h (λ v active. active)) (λ v x k. k))
  ]

  login-HasAdmin :
      (d : Draw sessions host) (ctx : SessionContext) (email password : String)
      (w : World sessions host)
      → HasAdmin sessions host w
      → HasAdmin sessions host (exec (login sessions host d ctx email password) w)
  unfolding login logged_in start_session
  login-HasAdmin d ctx email password w h =
      elim (Option-cases (find_by_email sessions host (host.normalize email) w)) [
        | inl missing ↦ rw (exec, login, missing) h
        | inr (u, found) ↦
            elim (Bool-cases (u.is_active && host.compare password u.password_hash)) [
              | inl passed ↦ rw (exec, login, found, passed) (logged_in-HasAdmin d ctx u w h)
              | inr failed ↦ rw (exec, login, found, failed) h
            ]
      ]

  setup_initial_admin-HasAdmin :
      (d : Draw sessions host) (ctx : SessionContext) (id salt : String) (input : CreateUserData)
      (w : World sessions host)
      → HasAdmin sessions host w
      → HasAdmin sessions host (exec (setup_initial_admin sessions host d ctx id salt input) w)
  unfolding setup_initial_admin start_session
  setup_initial_admin-HasAdmin d ctx id salt input w h =
      Reads-bind (HasAdmin sessions host) (check_password sessions host input.password) _ w
        (ensure-Reads _ _ w) h
        (λ _ _.
          Reads-bind (HasAdmin sessions host) (λ x. ensure (length x.users == 0) forbidden x) _ w
            (ensure-Reads _ _ w) h (λ _ _. insert_user-HasAdmin sessions host _ w h))

  create_invite-HasAdmin :
      (now : ℕ) (id token email : String) (role : Role) (w : World sessions host)
      → HasAdmin sessions host w
      → HasAdmin sessions host (exec (create_invite sessions host now id token email role) w)
  unfolding create_invite
  create_invite-HasAdmin now id token email role w h =
      Reads-bind (HasAdmin sessions host) (email_is_free sessions host (host.normalize email)) _ w
        (email_is_free-Reads sessions host _ w) h (λ _ _. h)

  mark_invite-HasAdmin :
      (now : ℕ) (id : String) (w : World sessions host)
      → HasAdmin sessions host w
      → HasAdmin sessions host (exec (mark_invite sessions host now id) w)
  mark_invite-HasAdmin now id w h =
      elim (Option-cases (find_first (λ i. str_eq i.id id) w.invites)) [
        | inl missing ↦ rw (exec, missing) h
        | inr (i, found) ↦ rw (exec, found) h
      ]

  accept_invite-HasAdmin :
      (d : Draw sessions host) (ctx : SessionContext) (id salt token name password : String)
      (w : World sessions host)
      → HasAdmin sessions host w
      → HasAdmin sessions host
          (exec (accept_invite sessions host d ctx id salt token name password) w)
  unfolding accept_invite accept_open start_session
  accept_invite-HasAdmin d ctx id salt token name password w h =
      Reads-bind (HasAdmin sessions host) (check_password sessions host password) _ w
        (ensure-Reads _ _ w) h
        (λ _ _.
          Reads-bind (HasAdmin sessions host) (open_invite sessions host d.now token) _ w
            (open_invite-Reads sessions host d.now token w) h
            (λ i _.
              Reads-bind (HasAdmin sessions host) (email_is_free sessions host i.email) _ w
                (email_is_free-Reads sessions host i.email w) h
                (λ _ _.
                  bind-keeps {B = LoginResult} (HasAdmin sessions host)
                    (mark_invite sessions host d.now i.id) _ w (mark_invite-HasAdmin d.now i.id w h)
                    (λ _ x k.
                      bind-keeps {B = LoginResult} (HasAdmin sessions host)
                        (insert_user sessions host
                          (new_user id i.email (host.hash salt password) name i.role))
                        (start_session sessions host d ctx) x
                        (insert_user-HasAdmin sessions host _ x k) (λ u y j. j)))))

  revoke_invite-HasAdmin :
      (now : ℕ) (id : String) (w : World sessions host)
      → HasAdmin sessions host w
      → HasAdmin sessions host (exec (revoke_invite sessions host now id) w)
  unfolding revoke_invite
  revoke_invite-HasAdmin now id w h =
      elim (Option-cases (find_first (λ i. str_eq i.id id) w.invites)) [
        | inl missing ↦ rw (exec, missing) h
        | inr (i, found) ↦ elim (Option-cases i.used_at) [
          | inl unused ↦ rw (exec, found, unused) (mark_invite-HasAdmin now id w h)
          | inr (t, used) ↦ rw (exec, found, used) h
        ]
      ]

  step-HasAdmin :
      (e : Event sessions host) (w : World sessions host)
      → HasAdmin sessions host w
      → HasAdmin sessions host (step sessions host e w)
  unfolding step
  step-HasAdmin (created id salt d) w h = create_user-HasAdmin sessions host id salt d w h
  step-HasAdmin (changed_data id d) w h = update_user_data-HasAdmin sessions host id d w h
  step-HasAdmin (deleted id by) w h = delete_user-HasAdmin sessions host id by w h
  step-HasAdmin (brought_back id) w h = restore_user-HasAdmin sessions host id w h
  step-HasAdmin (disabled_2fa id) w h = admin_disable_2fa-HasAdmin sessions host id w h
  step-HasAdmin (reset_password salt id new) w h =
      admin_reset_password-HasAdmin sessions host salt id new w h
  step-HasAdmin (changed_password salt id old new) w h =
      change_password-HasAdmin sessions host salt id old new w h
  step-HasAdmin (entered d ctx email password) w h = login-HasAdmin d ctx email password w h
  step-HasAdmin (set_up d ctx id salt input) w h =
      setup_initial_admin-HasAdmin d ctx id salt input w h
  step-HasAdmin (invited now id token email role) w h =
      create_invite-HasAdmin now id token email role w h
  step-HasAdmin (accepted d ctx id salt token name password) w h =
      accept_invite-HasAdmin d ctx id salt token name password w h
  step-HasAdmin (revoked now id) w h = revoke_invite-HasAdmin now id w h

  -- After any sequence of operations of the three services on users and invites, by whomever and
  -- with whatever arguments, an instance that has an active administrator still has one.
  pub run-keeps_admin :
      (es : List (Event sessions host)) (w : World sessions host)
      → 0 < admin_count w.users
      → 0 < admin_count (run sessions host es w).users
  unfolding run
  run-keeps_admin [] w h = h
  run-keeps_admin (e ∷ es) w h = run-keeps_admin es (step sessions host e w) (step-HasAdmin e w h)
