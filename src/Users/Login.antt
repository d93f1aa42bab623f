-- ===== src/Users/Login.antt =====
-- A user who was created can log in.
use cluster_gate.Prelude.{
  none, some, false, [], ◌∷◌, inl, inr, ok, Table, String, result, ◌≡◌, true, exec, ◌++◌,
  Option-cases, ap, arith, Bool-cases, refl, find_first-append_none, ◌&&◌, str_eq, ◌∙◌, find_first,
  eq_iff, Bool, List,
}
use text.Mathlib.TextPositions.{eq_refl}
use cluster_gate.OrgAccess.{viewer}
use cluster_gate.Session.{SessionRow, SessionContext, issue_session}
use cluster_gate.Users.{
  Host, update_user, email_is_free, CreateUserData, World, User, find_by_id, find_by_email,
  safe_user, new_user, is_valid, validate_password,
}
use cluster_gate.Users.Auth.{logged_in, start_session, Draw, session_user, login}
use cluster_gate.Users.Manage.{create_user}
use mathlib.Core.Option

find_first-last :
    (p : User → Bool) (us : List User) (u : User)
    → find_first p us ≡ none
    → p u ≡ true
    → find_first p (us ++ u ∷ []) ≡ some u
unfolding find_first
find_first-last p us u missing here = find_first-append_none p us (u ∷ []) missing ∙ rw here refl

module _ (sessions : Table SessionRow) (host : Host) where
  create_user-adds :
      (id salt : String) (d : CreateUserData) (w : World sessions host) (u : User)
      → result (create_user sessions host id salt d) w ≡ ok u
      → (find_by_email sessions host (host.normalize d.email) w ≡ none)
        × (u
            ≡ new_user id
                (host.normalize d.email)
                (host.hash salt d.password)
                d.name
                (Option.get_or d.role viewer))
        × (exec (create_user sessions host id salt d) w ≡ record w { users = w.users ++ u ∷ [] })
  unfolding create_user email_is_free
  create_user-adds id salt d w u h =
      elim (Option-cases (find_by_email sessions host (host.normalize d.email) w)) [
        | inr (v, taken) ↦ absurd (ground arith)
        | inl free ↦ elim (Bool-cases (is_valid (validate_password d.password))) [
          | inr bad ↦ absurd (ground arith)
          | inl good ↦ (free, ground arith, ground arith)
        ]
      ]

  logged_in-new :
      (draw : Draw sessions host) (ctx : SessionContext) (w : World sessions host) (u : User)
      → u.two_factor_enabled ≡ false
      → find_by_id sessions host u.id w ≡ some u
      → result (logged_in sessions host draw ctx u) w
        ≡ ok (record {
          user = safe_user (record u { last_login_at = some draw.now });
          token = some (record { user = session_user sessions host u; sid = draw.session_id });
        })
  unfolding logged_in update_user start_session issue_session
  logged_in-new draw ctx w u one found = ground arith

  login-enters :
      (draw : Draw sessions host) (ctx : SessionContext) (email password : String)
      (w : World sessions host) (u : User)
      → find_by_email sessions host (host.normalize email) w ≡ some u
      → (u.is_active && host.compare password u.password_hash) ≡ true
      → result (login sessions host draw ctx email password) w
        ≡ result (logged_in sessions host draw ctx u) w
  unfolding login
  login-enters draw ctx email password w u found passes = rw (result, login, found, passes)

  -- A user who has been created can log in with the password, under any spelling of the email that
  -- normalizes alike: the answer is that user, with the time of the login, and a token for it. The
  -- id is new, and bcrypt accepts a password for its own hash.
  pub create_user-login :
      (bcrypt : (salt password : String) → host.compare password (host.hash salt password) ≡ true)
      → (id salt : String) (d : CreateUserData) (w : World sessions host) (u : User)
      → find_by_id sessions host id w ≡ none
      → result (create_user sessions host id salt d) w ≡ ok u
      → (draw : Draw sessions host) (ctx : SessionContext) (email : String)
      → host.normalize email ≡ host.normalize d.email
      → result
          (login sessions host draw ctx email d.password)
          (exec (create_user sessions host id salt d) w)
        ≡ ok (record {
          user = safe_user (record u { last_login_at = some draw.now });
          token = some (record { user = session_user sessions host u; sid = draw.session_id });
        })
  unfolding login
  create_user-login bcrypt id salt d w u unused created draw ctx email spelled =
      let (free, made, after) = create_user-adds id salt d w u created in
      let w' : World sessions host = record w { users = w.users ++ u ∷ [] } in
      let same : u.email ≡ host.normalize d.email = ap (λ v. v.email) made in
      let by_email : find_by_email sessions host (host.normalize email) w' ≡ some u = rw spelled (
        find_first-last (λ v. str_eq v.email (host.normalize d.email)) w.users u free
          ((eq_iff u.email (host.normalize d.email)).1 same)) in
      let own : u.id ≡ id = ap (λ v. v.id) made in
      let by_id : find_by_id sessions host u.id w' ≡ some u =
        find_first-last (λ v. str_eq v.id u.id) w.users u (rw own unused) (eq_refl u.id) in
      let hashed : u.password_hash ≡ host.hash salt d.password = ap (λ v. v.password_hash) made in
      let active : u.is_active ≡ true = ap (λ v. v.is_active) made in
      let passes : (u.is_active && host.compare d.password u.password_hash) ≡ true =
        rw (active, hashed) (bcrypt salt d.password) in
      let second : u.two_factor_enabled ≡ false = ap (λ v. v.two_factor_enabled) made in
      rw after (
        login-enters draw ctx email d.password w' u by_email passes
        ∙ logged_in-new draw ctx w' u second by_id)
