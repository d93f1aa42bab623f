-- ===== src/Users/Invites.antt =====
-- backend/src/services/inviteService.ts: invites, and the accounts that are made from them.
use cluster_gate.Prelude.{
  ℕ, none, some, true, false, [], ◌∷◌, ok, throw, Table, ◌*◌, String, Bool, str_eq, M, ◌&&◌, map,
  not_found, Option, ◌>>=◌, ◌>>◌, find_first, record_not_found, ◌+◌, bad_request, pure,
  if◌then◌else◌, ◌++◌, ltb,
}
use cluster_gate.OrgAccess.{Role}
use cluster_gate.Session.{SessionRow, SessionContext}
use cluster_gate.Users.{
  Invite, Host, email_is_free, World, LoginResult, insert_user, check_password, new_user,
}
use cluster_gate.Users.Auth.{Draw, start_session}

abbrev pub invite_expiry_ms : ℕ
invite_expiry_ms = 72 * 60 * 60 * 1000

abbrev pub is_pending : String → Invite → Bool
is_pending email i = str_eq i.email email && elim i.used_at [ none ↦ true | some t ↦ false ]

abbrev pub marked_used : ℕ → Invite → Invite
marked_used now i = record i { used_at = some now }

module _ (sessions : Table SessionRow) (host : Host) where
  abbrev pub find_by_token : String → World sessions host → Option Invite
  find_by_token token w = find_first (λ i. str_eq i.token token) w.invites

  abbrev pub replace_pending : ℕ → Invite → M (World sessions host) Invite
  replace_pending now new w = (
    ok new,
    record w {
      invites =
          map (λ i. if is_pending new.email i then marked_used now i else i) w.invites ++ new ∷ [];
    },
  )

  -- The id and the token are drawn.
  unfoldable pub create_invite :
      ℕ → String → String → String → Role → M (World sessions host) Invite
  unfolding email_is_free
  create_invite now new_id token email role =
      email_is_free sessions host (host.normalize email)
      >> replace_pending now (record {
        id = new_id;
        email = host.normalize email;
        role = role;
        token = token;
        expires_at = now + invite_expiry_ms;
        used_at = none;
      })

  -- The errors of validateInvite and of the transaction of acceptInvite.
  unfoldable pub open_invite : ℕ → String → M (World sessions host) Invite
  open_invite now token w = elim (find_by_token token w) [
    | none ↦ (throw not_found, w)
    | some i ↦ elim i.used_at [
      | some t ↦ (throw bad_request, w)
      | none ↦ if ltb i.expires_at now then (throw bad_request, w) else (ok i, w)
    ]
  ]

  unfoldable pub validate_invite : ℕ → String → M (World sessions host) (String × Role)
  unfolding open_invite
  validate_invite now token = open_invite now token >>= λ i. pure (i.email, i.role)

  abbrev pub mark_invite : ℕ → String → M (World sessions host) (Unit {0})
  mark_invite now id w = elim (find_first (λ i. str_eq i.id id) w.invites) [
    | none ↦ (throw record_not_found, w)
    | some i ↦ (
      ok tt,
      record w { invites = map (λ j. if str_eq j.id id then marked_used now j else j) w.invites },
    )
  ]

  -- The account, once the invite is found open.
  unfoldable pub accept_open :
      Draw sessions host
      → SessionContext
      → String
      → String
      → String
      → String
      → Invite
      → M (World sessions host) LoginResult
  unfolding email_is_free start_session
  accept_open d ctx new_id salt name password i =
      email_is_free sessions host i.email
      >> (mark_invite d.now i.id
          >> (insert_user sessions host
                (new_user new_id i.email (host.hash salt password) name i.role)
              >>= start_session sessions host d ctx))

  unfoldable pub accept_invite :
      Draw sessions host
      → SessionContext
      → String
      → String
      → String
      → String
      → String
      → M (World sessions host) LoginResult
  unfolding open_invite accept_open
  accept_invite d ctx new_id salt token name password =
      check_password sessions host password
      >> (open_invite d.now token >>= accept_open d ctx new_id salt name password)

  unfoldable pub revoke_invite : ℕ → String → M (World sessions host) (Unit {0})
  revoke_invite now id w = elim (find_first (λ i. str_eq i.id id) w.invites) [
    | none ↦ (throw not_found, w)
    | some i ↦ elim i.used_at [ some t ↦ (throw bad_request, w) | none ↦ mark_invite now id w ]
  ]
