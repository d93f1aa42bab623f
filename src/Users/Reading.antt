-- ===== src/Users/Reading.antt =====
-- The steps of the operations that read and may throw.
use cluster_gate.Prelude.{
  ℕ, some, true, inl, inr, ok, Table, String, Bool, Reads, ◌≡◌, Option-cases, ◌<◌, ensure-Reads,
  not_found, arith, not, ◌&&◌, bad_request, conflict, leb, Bool-cases, ltb,
}
use cluster_gate.Session.{SessionRow}
use cluster_gate.Users.{
  Host, found_user, keep_admin, email_is_free, World, User, find_by_id, admin_count, find_by_email,
}
use cluster_gate.Users.Invites.{open_invite, find_by_token}

module _ (sessions : Table SessionRow) (host : Host) where
  pub found_user-Reads :
      (id : String) (w : World sessions host) → Reads (found_user sessions host id) w
  unfolding found_user
  found_user-Reads id w = elim (Option-cases (find_by_id sessions host id w)) [
    | inl missing ↦ inr (not_found, rw (found_user, missing))
    | inr (u, found) ↦ inl (u, rw (found_user, found))
  ]

  pub found_user-find_by_id :
      (id : String) (w : World sessions host) (u : User)
      → found_user sessions host id w ≡ (ok u, w)
      → find_by_id sessions host id w ≡ some u
  unfolding found_user
  found_user-find_by_id id w u h = elim (Option-cases (find_by_id sessions host id w)) [
    | inl missing ↦ absurd (ground arith)
    | inr (v, found) ↦ ground arith
  ]

  pub keep_admin-guards :
      (at_risk : Bool) (w : World sessions host)
      → keep_admin sessions host at_risk w ≡ (ok tt, w)
      → at_risk ≡ true
      → 1 < admin_count w.users
  unfolding keep_admin
  keep_admin-guards at_risk w h risk = ground arith

  pub keep_admin-Reads :
      (at_risk : Bool) (w : World sessions host) → Reads (keep_admin sessions host at_risk) w
  unfolding keep_admin
  keep_admin-Reads at_risk w =
      ensure-Reads (not (at_risk && leb (admin_count w.users) 1)) bad_request w

  pub email_is_free-Reads :
      (email : String) (w : World sessions host) → Reads (email_is_free sessions host email) w
  unfolding email_is_free
  email_is_free-Reads email w = elim (Option-cases (find_by_email sessions host email w)) [
    | inl missing ↦ inl (tt, rw (email_is_free, missing))
    | inr (u, found) ↦ inr (conflict, rw (email_is_free, found))
  ]

  pub open_invite-Reads :
      (now : ℕ) (token : String) (w : World sessions host)
      → Reads (open_invite sessions host now token) w
  unfolding open_invite
  open_invite-Reads now token w = elim (Option-cases (find_by_token sessions host token w)) [
    | inl missing ↦ inr (not_found, rw (open_invite, missing))
    | inr (i, found) ↦ elim (Option-cases i.used_at) [
      | inr (t, used) ↦ inr (bad_request, rw (open_invite, found, used))
      | inl unused ↦ elim (Bool-cases (ltb i.expires_at now)) [
        | inl late ↦ inr (bad_request, rw (open_invite, found, unused, late))
        | inr early ↦ inl (i, simp (open_invite, found, unused, early))
      ]
    ]
  ]
