-- ===== src/Users/Spent.antt =====
-- An invite that is marked used stays so.
use cluster_gate.Prelude.{
  ℕ, some, refl, inl, inr, Table, String, List, find_first, Bool, ◌++◌, map, str_eq,
  find_first-append, exec, Option-cases, Reads-bind, ◌≡◌, if◌then◌else◌, find_first-map,
  ensure-Reads, arith, ◌∙◌, Bool-cases, bind-keeps, [], ◌∷◌,
}
use text.Mathlib.TextPositions.{eq_refl}
use cluster_gate.Session.{SessionRow, SessionContext}
use cluster_gate.Users.{
  Host, Invite, World, email_is_free, check_password, LoginResult, CreateUserData, found_user,
  update_user, keep_admin, UpdateUserData,
}
use cluster_gate.Users.Runs.{
  step, run, Event, created, changed_data, deleted, brought_back, disabled_2fa, reset_password,
  changed_password, entered, set_up, invited, accepted, revoked,
}
use cluster_gate.Users.Invites.{
  create_invite, accept_invite, revoke_invite, accept_open, mark_invite, marked_used, is_pending,
  open_invite,
}
use cluster_gate.OrgAccess.{Role}
use cluster_gate.Users.Auth.{
  start_session, Draw, setup_initial_admin, change_password, login, logged_in,
}
use cluster_gate.Users.Reading.{email_is_free-Reads, open_invite-Reads}
use cluster_gate.Users.Manage.{
  delete_user, create_user, restore_user, admin_disable_2fa, update_user_data, admin_reset_password,
}

abbrev pub IsSpent : String → List Invite → Type 0
IsSpent token is =
    (i : Invite) × (find_first (λ j. str_eq j.token token) is ≡ some i)
    × ((t : ℕ) × (i.used_at ≡ some t))

-- An update that keeps the tokens and never unmarks.
map-IsSpent :
    (token : String) (p : Invite → Bool) (now : ℕ) (is : List Invite)
    → IsSpent token is
    → IsSpent token (map (λ i. if p i then marked_used now i else i) is)
map-IsSpent token p now is (i, found, (t, used)) =
    let g : Invite → Invite = λ j. if p j then marked_used now j else j in
    let through : find_first (λ j. str_eq j.token token) (map g is) ≡ some (g i) =
      find_first-map (λ j. str_eq j.token token) g is (λ j. ground arith) ∙ rw found refl in
    elim (Bool-cases (p i)) [
      | inl hit ↦ (g i, through, (now, rw hit refl))
      | inr miss ↦ (g i, through, (t, rw miss used))
    ]

pub mark-IsSpent :
    (token : String) (now : ℕ) (is : List Invite) (i : Invite)
    → find_first (λ j. str_eq j.token token) is ≡ some i
    → IsSpent token (map (λ j. if str_eq j.id i.id then marked_used now j else j) is)
mark-IsSpent token now is i found =
    let g : Invite → Invite = λ j. if str_eq j.id i.id then marked_used now j else j in
    let through : find_first (λ j. str_eq j.token token) (map g is) ≡ some (g i) =
      find_first-map (λ j. str_eq j.token token) g is (λ j. ground arith) ∙ rw found refl in
    (g i, through, (now, rw eq_refl refl))

append-IsSpent :
    (token : String) (is js : List Invite) → IsSpent token is → IsSpent token (is ++ js)
append-IsSpent token is js (i, found, (t, used)) =
    (i, find_first-append (λ j. str_eq j.token token) is js i found, (t, used))

module _ (sessions : Table SessionRow) (host : Host) where
  mark_invite-IsSpent :
      (token : String) (now : ℕ) (id : String) (w : World sessions host)
      → IsSpent token w.invites
      → IsSpent token (exec (mark_invite sessions host now id) w).invites
  mark_invite-IsSpent token now id w h =
      elim (Option-cases (find_first (λ i. str_eq i.id id) w.invites)) [
        | inl missing ↦ rw (exec, missing) h
        | inr (i, found) ↦
            rw (exec, found) (map-IsSpent token (λ j. str_eq j.id id) now w.invites h)
      ]

  revoke_invite-IsSpent :
      (token : String) (now : ℕ) (id : String) (w : World sessions host)
      → IsSpent token w.invites
      → IsSpent token (exec (revoke_invite sessions host now id) w).invites
  unfolding revoke_invite
  revoke_invite-IsSpent token now id w h =
      elim (Option-cases (find_first (λ i. str_eq i.id id) w.invites)) [
        | inl missing ↦ rw (exec, missing) h
        | inr (i, found) ↦ elim (Option-cases i.used_at) [
          | inl unused ↦ rw (exec, found, unused) (mark_invite-IsSpent token now id w h)
          | inr (t, used) ↦ rw (exec, found, used) h
        ]
      ]

  create_invite-IsSpent :
      (token : String) (now : ℕ) (id new email : String) (role : Role) (w : World sessions host)
      → IsSpent token w.invites
      → IsSpent token (exec (create_invite sessions host now id new email role) w).invites
  unfolding create_invite
  create_invite-IsSpent token now id new email role w h =
      Reads-bind (λ x. IsSpent token x.invites) (email_is_free sessions host (host.normalize email))
        _ w (email_is_free-Reads sessions host _ w) h
        (λ _ _.
          append-IsSpent token _ _
            (map-IsSpent token (is_pending (host.normalize email)) now w.invites h))

  accept_invite-IsSpent :
      (token : String) (d : Draw sessions host) (ctx : SessionContext)
      (id salt other name password : String) (w : World sessions host)
      → IsSpent token w.invites
      → IsSpent token
          (exec (accept_invite sessions host d ctx id salt other name password) w).invites
  unfolding accept_invite accept_open start_session
  accept_invite-IsSpent token d ctx id salt other name password w h =
      let Q : World sessions host → Type 0 = λ x. IsSpent token x.invites in
      Reads-bind Q (check_password sessions host password) _ w (ensure-Reads _ _ w) h (λ _ _.
        Reads-bind Q (open_invite sessions host d.now other) _ w
          (open_invite-Reads sessions host d.now other w) h
          (λ i _.
            Reads-bind Q (email_is_free sessions host i.email) _ w
              (email_is_free-Reads sessions host i.email w) h
              (λ _ _.
                bind-keeps {B = LoginResult} Q (mark_invite sessions host d.now i.id) _ w
                  (mark_invite-IsSpent token d.now i.id w h) (λ _ x k. k))))

  create_user-invites :
      (id : String) (salt : String) (d : CreateUserData) (w : World sessions host)
      → (exec (create_user sessions host id salt d) w).invites ≡ w.invites
  unfolding create_user email_is_free
  create_user-invites id salt d w = ground arith

  update_user_data-invites :
      (id : String) (d : UpdateUserData) (w : World sessions host)
      → (exec (update_user_data sessions host id d) w).invites ≡ w.invites
  unfolding update_user_data found_user keep_admin update_user
  update_user_data-invites id d w = ground arith

  delete_user-invites :
      (id : String) (by : String) (w : World sessions host)
      → (exec (delete_user sessions host id by) w).invites ≡ w.invites
  unfolding delete_user found_user keep_admin update_user
  delete_user-invites id by w = ground arith

  restore_user-invites :
      (id : String) (w : World sessions host)
      → (exec (restore_user sessions host id) w).invites ≡ w.invites
  unfolding restore_user found_user update_user
  restore_user-invites id w = ground arith

  admin_disable_2fa-invites :
      (id : String) (w : World sessions host)
      → (exec (admin_disable_2fa sessions host id) w).invites ≡ w.invites
  unfolding admin_disable_2fa found_user update_user
  admin_disable_2fa-invites id w = ground arith

  admin_reset_password-invites :
      (salt : String) (id : String) (new : String) (w : World sessions host)
      → (exec (admin_reset_password sessions host salt id new) w).invites ≡ w.invites
  unfolding admin_reset_password found_user update_user
  admin_reset_password-invites salt id new w = ground arith

  change_password-invites :
      (salt : String) (id : String) (old : String) (new : String) (w : World sessions host)
      → (exec (change_password sessions host salt id old new) w).invites ≡ w.invites
  unfolding change_password found_user update_user
  change_password-invites salt id old new w = ground arith

  login-invites :
      (d : Draw sessions host) (ctx : SessionContext) (email : String) (password : String)
      (w : World sessions host)
      → (exec (login sessions host d ctx email password) w).invites ≡ w.invites
  unfolding login logged_in update_user start_session
  login-invites d ctx email password w = ground arith

  setup_initial_admin-invites :
      (d : Draw sessions host) (ctx : SessionContext) (id : String) (salt : String)
      (input : CreateUserData) (w : World sessions host)
      → (exec (setup_initial_admin sessions host d ctx id salt input) w).invites ≡ w.invites
  unfolding setup_initial_admin start_session
  setup_initial_admin-invites d ctx id salt input w = ground arith

  step-IsSpent :
      (token : String) (e : Event sessions host) (w : World sessions host)
      → IsSpent token w.invites
      → IsSpent token (step sessions host e w).invites
  unfolding step
  step-IsSpent token (created id salt d) w h = rw (create_user-invites id salt d w) h
  step-IsSpent token (changed_data id d) w h = rw (update_user_data-invites id d w) h
  step-IsSpent token (deleted id by) w h = rw (delete_user-invites id by w) h
  step-IsSpent token (brought_back id) w h = rw (restore_user-invites id w) h
  step-IsSpent token (disabled_2fa id) w h = rw (admin_disable_2fa-invites id w) h
  step-IsSpent token (reset_password salt id new) w h =
      rw (admin_reset_password-invites salt id new w) h
  step-IsSpent token (changed_password salt id old new) w h =
      rw (change_password-invites salt id old new w) h
  step-IsSpent token (entered d ctx email password) w h =
      rw (login-invites d ctx email password w) h
  step-IsSpent token (set_up d ctx id salt input) w h =
      rw (setup_initial_admin-invites d ctx id salt input w) h
  step-IsSpent token (invited now id new email role) w h =
      create_invite-IsSpent token now id new email role w h
  step-IsSpent token (accepted d ctx id salt other name password) w h =
      accept_invite-IsSpent token d ctx id salt other name password w h
  step-IsSpent token (revoked now id) w h = revoke_invite-IsSpent token now id w h

  pub run-IsSpent :
      (token : String) (es : List (Event sessions host)) (w : World sessions host)
      → IsSpent token w.invites
      → IsSpent token (run sessions host es w).invites
  unfolding run
  run-IsSpent token [] w h = h
  run-IsSpent token (e ∷ es) w h =
      run-IsSpent token es (step sessions host e w) (step-IsSpent token e w h)
