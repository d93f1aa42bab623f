-- ===== src/Users/Tests.antt =====
-- A first administrator, an operator and an invite.
use cluster_gate.Prelude.{
  none, some, true, [], ◌∷◌, refl, ok, throw, String, List, Table, count_by, str_append, memory, M,
  ◌≡◌, ◌<◌, str_eq, find_first, ◌≤◌, result, utf16, arith, exec, bad_request, some_of,
}
use text.Mathlib.TextPositions.{eq_refl}
use cluster_gate.OrgAccess.{admin, operator, viewer}
use cluster_gate.Session.{SessionRow, SessionContext, Sessions, issue_session}
use cluster_gate.Users.{
  CreateUserData, Invite, Host, World, LoginResult, admin_count, User, email_is_free, new_user,
  safe_user, validate_password,
}
use cluster_gate.Users.Auth.{Draw, session_user, login, start_session}
use cluster_gate.Users.Invites.{accept_invite, find_by_token, open_invite, accept_open}
use cluster_gate.Users.Manage.{create_user}
use cluster_gate.Users.Runs.{Event, deleted, run, changed_data, accepted}
use cluster_gate.Users.Admins.{run-keeps_admin}
use cluster_gate.Users.Login.{create_user-login}
use cluster_gate.Users.Once.{accept_invite-once}

abbrev rows : Table SessionRow
rows = memory SessionRow

-- A hash that keeps the salt and the password apart.
abbrev test_host : Host
test_host = record {
  normalize = λ s. s;
  hash = λ salt password. str_append "h:" password;
  compare = λ password h. str_eq (str_append "h:" password) h;
}

test_host-bcrypt :
    (salt password : String) → test_host.compare password (test_host.hash salt password) ≡ true
test_host-bcrypt salt password = eq_refl (str_append "h:" password)

abbrev no_sessions : Sessions rows
no_sessions = record { stored = λ k. none; last_touch = λ k. none }

abbrev test_draw : Draw rows test_host
test_draw = record { now = 5; lifetime_ms = 1000; session_id = "s1" }

abbrev nowhere : SessionContext
nowhere = record { ip = none; user_agent = none }

abbrev ada : User
ada = new_user "u1" "ada" "h:Correct-Horse-1" "Ada" admin

abbrev bob_invite : Invite
bob_invite = record {
  id = "i1";
  email = "bob";
  role = operator;
  token = "t1";
  expires_at = 9;
  used_at = none;
}

abbrev test_world : World rows test_host
test_world = record { users = ada ∷ []; invites = bob_invite ∷ []; issued = no_sessions }

abbrev test_events : List (Event rows test_host)
test_events =
    deleted "u1" "u2"
    ∷ changed_data "u1" (record { name = none; role = some viewer; is_active = none })
    ∷ accepted test_draw nowhere "u2" "salt" "t1" "Bob" "Correct-Horse-2"
    ∷ changed_data "u2" (record { name = none; role = some admin; is_active = none })
    ∷ deleted "u1" "u2"
    ∷ []

run-keeps_admin_example : 0 < admin_count (run rows test_host test_events test_world).users
unfolding admin_count count_by
run-keeps_admin_example = run-keeps_admin rows test_host test_events test_world (omega arith)

abbrev carol : CreateUserData
carol = record { email = "carol"; password = "Correct-Horse-3"; name = "Carol"; role = none }

abbrev carol_row : User
carol_row = new_user "u3" "carol" "h:Correct-Horse-3" "Carol" viewer

create_user-login_example :
    result
      (login rows test_host test_draw nowhere "carol" "Correct-Horse-3")
      (exec (create_user rows test_host "u3" "salt" carol) test_world)
    ≡ ok (record {
      user = safe_user (record carol_row { last_login_at = some 5 });
      token = some (record { user = session_user rows test_host carol_row; sid = "s1" });
    })
unfolding create_user email_is_free validate_password find_first utf16 some_of
create_user-login_example =
    create_user-login rows test_host test_host-bcrypt "u3" "salt" carol test_world carol_row refl
      refl test_draw nowhere "carol" refl

abbrev bob_result : LoginResult
bob_result =
    let bob : User = new_user "u2" "bob" "h:Correct-Horse-2" "Bob" operator in
    record {
      user = safe_user bob;
      token = some (record { user = session_user rows test_host bob; sid = "s1" });
    }

accept_invite-once_example :
    let accept : M (World rows test_host) LoginResult =
      accept_invite rows test_host test_draw nowhere "u2" "salt" "t1" "Bob" "Correct-Horse-2" in
    ((i : Invite) × (find_by_token rows test_host "t1" test_world ≡ some i)
      × (i.used_at ≡ none)
      × (5 ≤ i.expires_at))
    × (result
          (accept_invite rows test_host test_draw nowhere "u4" "salt" "t1" "Eve" "Correct-Horse-4")
          (run rows test_host (deleted "u2" "u1" ∷ []) (exec accept test_world))
        ≡ throw bad_request)
unfolding accept_invite open_invite accept_open email_is_free start_session issue_session
    validate_password find_first utf16 some_of
accept_invite-once_example =
    accept_invite-once rows test_host "t1" test_draw nowhere "u2" "salt" "Bob" "Correct-Horse-2"
      test_world bob_result refl (deleted "u2" "u1" ∷ []) test_draw nowhere "u4" "salt" "Eve"
      "Correct-Horse-4"
