-- ===== src/Users/Manage.antt =====
-- userService's operations on the users.
use cluster_gate.OrgAccess.{viewer}
use cluster_gate.Session.{SessionRow}
use cluster_gate.Prelude.{Table, String, M, ◌>>◌, ensure, not, str_eq, bad_request, ◌>>=◌, ◌&&◌}
use cluster_gate.Users.{
  Host, found_user, email_is_free, update_user, keep_admin, CreateUserData, UpdateUserData, World,
  User, check_password, insert_user, new_user, restored, is_active_admin, without_2fa,
  with_password, is_admin, deactivated, demotes, updated,
}
use mathlib.Core.Option

module _ (sessions : Table SessionRow) (host : Host) where
  unfoldable pub create_user : String → String → CreateUserData → M (World sessions host) User
  unfolding email_is_free
  create_user new_id salt d =
      email_is_free sessions host (host.normalize d.email)
      >> (check_password sessions host d.password
          >> insert_user sessions host (
              new_user new_id (host.normalize d.email) (host.hash salt d.password) d.name
                (Option.get_or d.role viewer)))

  unfoldable pub update_user_data : String → UpdateUserData → M (World sessions host) User
  unfolding found_user keep_admin update_user
  update_user_data id d = do
    user ← found_user sessions host id
    keep_admin sessions host (is_admin user.role && demotes d)
    update_user sessions host id (updated d)

  unfoldable pub delete_user : String → String → M (World sessions host) User
  unfolding found_user keep_admin update_user
  delete_user id requesting_user_id = do
    λ w. ensure (not (str_eq id requesting_user_id)) bad_request w
    user ← found_user sessions host id
    keep_admin sessions host (is_active_admin user)
    update_user sessions host id deactivated

  unfoldable pub restore_user : String → M (World sessions host) User
  unfolding found_user update_user
  restore_user id = do
    user ← found_user sessions host id
    λ w. ensure (not user.is_active) bad_request w
    update_user sessions host id restored

  unfoldable pub admin_disable_2fa : String → M (World sessions host) User
  unfolding found_user update_user
  admin_disable_2fa id = do
    user ← found_user sessions host id
    λ w. ensure user.two_factor_enabled bad_request w
    update_user sessions host id without_2fa

  unfoldable pub admin_reset_password : String → String → String → M (World sessions host) User
  unfolding found_user update_user
  admin_reset_password salt id new_password = do
    user ← found_user sessions host id
    check_password sessions host new_password
    update_user sessions host id (with_password (host.hash salt new_password))
