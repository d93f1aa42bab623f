-- ===== src/Users/Keeping.antt =====
-- The operations of userService, and the change of a password, keep an active administrator.
use cluster_gate.Prelude.{
  some, true, inl, inr, Table, String, ◌<◌, Option-cases, ◌≡◌, arith, ◌⊎◌, exec,
  count_by-update_first, str_eq, Bool-cases, [], ◌∷◌, count_by-append, Bool, Reads-bind,
  ensure-Reads, ◌&&◌, not, bad_request, ◌>>=◌, ensure,
}
use cluster_gate.Session.{SessionRow}
use cluster_gate.Users.{
  Host, World, found_user, update_user, admin_count, User, find_by_id, is_active_admin, insert_user,
  email_is_free, UpdateUserData, keep_admin, CreateUserData, updated, check_password, is_admin,
  demotes, with_password, deactivated, without_2fa, restored,
}
use cluster_gate.Users.Manage.{
  create_user, update_user_data, restore_user, delete_user, admin_reset_password, admin_disable_2fa,
}
use cluster_gate.Users.Auth.{change_password}
use cluster_gate.Users.Reading.{
  found_user-Reads, email_is_free-Reads, keep_admin-Reads, found_user-find_by_id, keep_admin-guards,
}

module _ (sessions : Table SessionRow) (host : Host) where
  abbrev pub HasAdmin : World sessions host → Type 0
  HasAdmin w = 0 < admin_count w.users

  update_user-HasAdmin :
      (id : String) (f : User → User) (w : World sessions host)
      → HasAdmin w
      → ((u : User)
          → find_by_id sessions host id w ≡ some u
          → (is_active_admin u ≡ true)
          → (is_active_admin (f u) ≡ true) ⊎ (1 < admin_count w.users))
      → HasAdmin (exec (update_user sessions host id f) w)
  unfolding update_user admin_count
  update_user-HasAdmin id f w h keeps = elim (Option-cases (find_by_id sessions host id w)) [
    | inl missing ↦ rw (exec, update_user, missing) h
    | inr (u, found) ↦
        let counts =
          count_by-update_first (λ v. str_eq v.id id) f is_active_admin w.users u found in
        elim (Bool-cases (is_active_admin u)) [
          | inl yes_ ↦ elim (keeps u found yes_) [
            | inl still ↦ rw (exec, update_user, found) (ground arith)
            | inr more ↦ rw (exec, update_user, found) (ground arith)
          ]
          | inr no_ ↦ rw (exec, update_user, found) (ground arith)
        ]
  ]

  pub insert_user-HasAdmin :
      (u : User) (w : World sessions host)
      → HasAdmin w
      → HasAdmin (exec (insert_user sessions host u) w)
  unfolding admin_count
  insert_user-HasAdmin u w h = omega (arith, count_by-append is_active_admin w.users (u ∷ []))

  pub create_user-HasAdmin :
      (id salt : String) (d : CreateUserData) (w : World sessions host)
      → HasAdmin w
      → HasAdmin (exec (create_user sessions host id salt d) w)
  unfolding create_user
  create_user-HasAdmin id salt d w h =
      Reads-bind HasAdmin (email_is_free sessions host (host.normalize d.email)) _ w
        (email_is_free-Reads sessions host (host.normalize d.email) w) h
        (λ _ _.
          Reads-bind HasAdmin (check_password sessions host d.password) _ w (ensure-Reads _ _ w) h
            (λ _ _. insert_user-HasAdmin _ w h))

  updated-demotes :
      (d : UpdateUserData) (u : User)
      → is_active_admin u ≡ true
      → (is_active_admin (updated d u) ≡ true) ⊎ ((is_admin u.role && demotes d) ≡ true)
  updated-demotes d u active = elim (Bool-cases (demotes d)) [
    | inl lost ↦ inr (ground arith)
    | inr kept ↦ inl (ground arith)
  ]

  guarded_update-HasAdmin :
      (id : String) (risk : User → Bool) (f : User → User) (w : World sessions host)
      → HasAdmin w
      → ((u : User) → is_active_admin u ≡ true → (is_active_admin (f u) ≡ true) ⊎ (risk u ≡ true))
      → HasAdmin (
          exec
            (found_user sessions host id >>= λ u.
              keep_admin sessions host (risk u) >>= λ _. update_user sessions host id f)
            w)
  guarded_update-HasAdmin id risk f w h keeps =
      Reads-bind HasAdmin (found_user sessions host id) _ w (found_user-Reads sessions host id w) h
        (λ u looked_up.
          Reads-bind HasAdmin (keep_admin sessions host (risk u)) _ w
            (keep_admin-Reads sessions host _ w) h
            (λ _ kept. update_user-HasAdmin id f w h (λ v found active.
              let same : u ≡ v =
                ground (arith, found_user-find_by_id sessions host id w u looked_up) in
              elim (keeps v active) [
                | inl still ↦ inl still
                | inr risky ↦ inr (keep_admin-guards sessions host (risk u) w kept (rw same risky))
              ])))

  -- An update that leaves the role and the activity as they are, or makes active.
  pub plain_update-HasAdmin :
      (id : String) (f : User → User) (w : World sessions host)
      → HasAdmin w
      → ((u : User) → is_active_admin u ≡ true → is_active_admin (f u) ≡ true)
      → HasAdmin (exec (update_user sessions host id f) w)
  plain_update-HasAdmin id f w h keeps =
      update_user-HasAdmin id f w h (λ u found active. inl (keeps u active))

  pub update_user_data-HasAdmin :
      (id : String) (d : UpdateUserData) (w : World sessions host)
      → HasAdmin w
      → HasAdmin (exec (update_user_data sessions host id d) w)
  unfolding update_user_data
  update_user_data-HasAdmin id d w h =
      guarded_update-HasAdmin id (λ u. is_admin u.role && demotes d) (updated d) w h
        (updated-demotes d)

  pub delete_user-HasAdmin :
      (id by : String) (w : World sessions host)
      → HasAdmin w
      → HasAdmin (exec (delete_user sessions host id by) w)
  unfolding delete_user
  delete_user-HasAdmin id by w h =
      Reads-bind HasAdmin (λ x. ensure (not (str_eq id by)) bad_request x) _ w (ensure-Reads _ _ w)
        h
        (λ _ _. guarded_update-HasAdmin id is_active_admin deactivated w h (λ u active. inr active))

  pub restore_user-HasAdmin :
      (id : String) (w : World sessions host)
      → HasAdmin w
      → HasAdmin (exec (restore_user sessions host id) w)
  unfolding restore_user
  restore_user-HasAdmin id w h =
      Reads-bind HasAdmin (found_user sessions host id) _ w (found_user-Reads sessions host id w) h
        (λ u _.
          Reads-bind HasAdmin (λ x. ensure (not u.is_active) bad_request x) _ w (ensure-Reads _ _ w)
            h (λ _ _. plain_update-HasAdmin id restored w h (λ v active. ground arith)))

  pub admin_disable_2fa-HasAdmin :
      (id : String) (w : World sessions host)
      → HasAdmin w
      → HasAdmin (exec (admin_disable_2fa sessions host id) w)
  unfolding admin_disable_2fa
  admin_disable_2fa-HasAdmin id w h =
      Reads-bind HasAdmin (found_user sessions host id) _ w (found_user-Reads sessions host id w) h
        (λ u _.
          Reads-bind HasAdmin (λ x. ensure u.two_factor_enabled bad_request x) _ w
            (ensure-Reads _ _ w) h
            (λ _ _. plain_update-HasAdmin id without_2fa w h (λ v active. active)))

  new_password-HasAdmin :
      (salt id new : String) (w : World sessions host)
      → HasAdmin w
      → HasAdmin (
          exec
            (check_password sessions host new >>= λ _.
              update_user sessions host id (with_password (host.hash salt new)))
            w)
  new_password-HasAdmin salt id new w h =
      Reads-bind HasAdmin (check_password sessions host new) _ w (ensure-Reads _ _ w) h
        (λ _ _. plain_update-HasAdmin id _ w h (λ v active. active))

  pub admin_reset_password-HasAdmin :
      (salt id new : String) (w : World sessions host)
      → HasAdmin w
      → HasAdmin (exec (admin_reset_password sessions host salt id new) w)
  unfolding admin_reset_password
  admin_reset_password-HasAdmin salt id new w h =
      Reads-bind HasAdmin (found_user sessions host id) _ w (found_user-Reads sessions host id w) h
        (λ u _. new_password-HasAdmin salt id new w h)

  pub change_password-HasAdmin :
      (salt id old new : String) (w : World sessions host)
      → HasAdmin w
      → HasAdmin (exec (change_password sessions host salt id old new) w)
  unfolding change_password
  change_password-HasAdmin salt id old new w h =
      Reads-bind HasAdmin (found_user sessions host id) _ w (found_user-Reads sessions host id w) h
        (λ u _.
          Reads-bind HasAdmin (λ x. ensure (host.compare old u.password_hash) bad_request x) _ w
            (ensure-Reads _ _ w) h (λ _ _. new_password-HasAdmin salt id new w h))
