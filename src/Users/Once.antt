-- ===== src/Users/Once.antt =====
-- An invite makes one account.
use cluster_gate.Prelude.{
  none, some, inl, inr, ok, throw, Table, String, result, ◌≡◌, bad_request, List, Bool-cases, ◌≤◌,
  exec, arith, Option-cases, ltb, find_first, str_eq, map, if◌then◌else◌,
}
use cluster_gate.Session.{SessionRow, SessionContext}
use cluster_gate.Users.{
  Host, World, email_is_free, LoginResult, Invite, is_valid, validate_password, find_by_email,
}
use cluster_gate.Users.Invites.{accept_invite, open_invite, accept_open, find_by_token, marked_used}
use cluster_gate.Users.Auth.{Draw, start_session}
use cluster_gate.Users.Spent.{IsSpent, run-IsSpent, mark-IsSpent}
use cluster_gate.Users.Runs.{Event, run}

module _ (sessions : Table SessionRow) (host : Host) where
  accept_invite-spent :
      (token : String) (d : Draw sessions host) (ctx : SessionContext)
      (id salt name password : String) (w : World sessions host)
      → IsSpent token w.invites
      → result (accept_invite sessions host d ctx id salt token name password) w ≡ throw bad_request
  unfolding accept_invite open_invite
  accept_invite-spent token d ctx id salt name password w (i, found, (t, used)) =
      elim (Bool-cases (is_valid (validate_password password))) [
        | inl good ↦ rw (result, good, open_invite, found, used)
        | inr bad ↦ rw (result, bad)
      ]

  -- The invite was open, and it is marked now.
  accept_invite-accepts :
      (token : String) (d : Draw sessions host) (ctx : SessionContext)
      (id salt name password : String) (w : World sessions host) (r : LoginResult)
      → result (accept_invite sessions host d ctx id salt token name password) w ≡ ok r
      → ((i : Invite) × (find_by_token sessions host token w ≡ some i)
          × (i.used_at ≡ none)
          × (d.now ≤ i.expires_at))
        × IsSpent token
            (exec (accept_invite sessions host d ctx id salt token name password) w).invites
  unfolding accept_invite open_invite accept_open email_is_free start_session
  accept_invite-accepts token d ctx id salt name password w r h =
      elim (Bool-cases (is_valid (validate_password password))) [
        | inr bad ↦ absurd (ground arith)
        | inl good ↦ elim (Option-cases (find_by_token sessions host token w)) [
          | inl missing ↦ absurd (ground arith)
          | inr (i, found) ↦ elim (Option-cases i.used_at) [
            | inr (t, used) ↦ absurd (ground arith)
            | inl unused ↦ elim (Bool-cases (ltb i.expires_at d.now)) [
              | inl late ↦ absurd (ground arith)
              | inr early ↦ elim (Option-cases (find_by_email sessions host i.email w)) [
                | inr (u, taken) ↦ absurd (ground arith)
                | inl free ↦ elim (Option-cases (find_first (λ j. str_eq j.id i.id) w.invites)) [
                  | inl lost ↦ absurd (ground arith)
                  | inr (k, there) ↦
                      let same : (exec
                            (accept_invite sessions host d ctx id salt token name password)
                            w).invites
                          ≡ map (λ j. if str_eq j.id i.id then marked_used d.now j else j)
                              w.invites =
                        ground arith in
                      (
                        (i, found, unused, ground arith),
                        rw same (mark-IsSpent token d.now w.invites i found),
                      )
                ]
              ]
            ]
          ]
        ]
      ]

  -- An acceptance that succeeds finds the token's invite unused and not expired, and whatever the
  -- services do after it, a second acceptance of the token throws a bad request.
  pub accept_invite-once :
      (token : String) (d : Draw sessions host) (ctx : SessionContext)
      (id salt name password : String) (w : World sessions host) (r : LoginResult)
      → result (accept_invite sessions host d ctx id salt token name password) w ≡ ok r
      → (es : List (Event sessions host)) (d' : Draw sessions host) (ctx' : SessionContext)
        (id' salt' name' password' : String)
      → ((i : Invite) × (find_by_token sessions host token w ≡ some i)
          × (i.used_at ≡ none)
          × (d.now ≤ i.expires_at))
        × (result (accept_invite sessions host d' ctx' id' salt' token name' password') (
              run sessions host es
                (exec (accept_invite sessions host d ctx id salt token name password) w))
            ≡ throw bad_request)
  accept_invite-once token d ctx id salt name password w r h es d' ctx' id' salt' name' password' =
      let (open_, spent) = accept_invite-accepts token d ctx id salt name password w r h in
      (
        open_,
        accept_invite-spent token d' ctx' id' salt' name' password' _
            (run-IsSpent sessions host token es _ spent),
      )
