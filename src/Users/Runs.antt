-- ===== src/Users/Runs.antt =====
-- Any sequence of the operations on users and invites.
use cluster_gate.Prelude.{ℕ, [], ◌∷◌, Table, String, List, exec}
use cluster_gate.OrgAccess.{Role}
use cluster_gate.Session.{SessionRow, SessionContext}
use cluster_gate.Users.{Host, CreateUserData, World, UpdateUserData}
use cluster_gate.Users.Manage.{
  create_user, update_user_data, delete_user, restore_user, admin_disable_2fa, admin_reset_password,
}
use cluster_gate.Users.Auth.{Draw, change_password, login, setup_initial_admin}
use cluster_gate.Users.Invites.{create_invite, accept_invite, revoke_invite}

module _ (sessions : Table SessionRow) (host : Host) where
  pub data Event : Type 0 where
    created : String → String → CreateUserData → Event
    changed_data : String → UpdateUserData → Event
    deleted : String → String → Event
    brought_back disabled_2fa : String → Event
    reset_password : String → String → String → Event
    changed_password : String → String → String → String → Event
    entered : Draw sessions host → SessionContext → String → String → Event
    set_up : Draw sessions host → SessionContext → String → String → CreateUserData → Event
    invited : ℕ → String → String → String → Role → Event
    accepted :
        Draw sessions host → SessionContext → String → String → String → String → String → Event
    revoked : ℕ → String → Event

  unfoldable pub step : Event → World sessions host → World sessions host
  unfolding create_user update_user_data delete_user restore_user admin_disable_2fa
      admin_reset_password change_password login setup_initial_admin create_invite accept_invite
      revoke_invite
  step (created id salt d) w = exec (create_user sessions host id salt d) w
  step (changed_data id d) w = exec (update_user_data sessions host id d) w
  step (deleted id by) w = exec (delete_user sessions host id by) w
  step (brought_back id) w = exec (restore_user sessions host id) w
  step (disabled_2fa id) w = exec (admin_disable_2fa sessions host id) w
  step (reset_password salt id new) w = exec (admin_reset_password sessions host salt id new) w
  step (changed_password salt id old new) w = exec (change_password sessions host salt id old new) w
  step (entered d ctx email password) w = exec (login sessions host d ctx email password) w
  step (set_up d ctx id salt input) w =
      exec (setup_initial_admin sessions host d ctx id salt input) w
  step (invited now id token email role) w =
      exec (create_invite sessions host now id token email role) w
  step (accepted d ctx id salt token name password) w =
      exec (accept_invite sessions host d ctx id salt token name password) w
  step (revoked now id) w = exec (revoke_invite sessions host now id) w

  unfoldable pub run : List Event → World sessions host → World sessions host
  unfolding step
  run [] w = w
  run (e ∷ es) w = run es (step e w)
