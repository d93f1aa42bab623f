-- ===== src/Session/Tests.antt =====
-- Sessions at concrete rows, and tests.
use cluster_gate.OrgAccess.{operator}
use cluster_gate.Prelude.{
  refl, ◌≡◌, none, some, false, [], ◌∷◌, ok, throw, List, Table, not_found, if◌then◌else◌, memory,
  ◌≢◌, ◌⊎◌, str_eq, String,
}
use cluster_gate.Session.Lifetime.{token_lifetime_ms}
use cluster_gate.Session.{SessionRow, revoke_session, Sessions, SessionUser}
use cluster_gate.Session.Revoked.{
  is_valid, run, Event, validated, revoke_session-final, revoked_others, cleaned,
}

lifetimes :
    (token_lifetime_ms "7d" ≡ 604800000)
    × (token_lifetime_ms " 90s " ≡ 90000)
    × (token_lifetime_ms "1.5h" ≡ 604800000)
    × (token_lifetime_ms "" ≡ 604800000)
unfolding token_lifetime_ms
lifetimes = (refl, refl, refl, refl)

abbrev sessions : Table SessionRow
sessions = memory SessionRow

abbrev laptop : SessionRow
laptop = record {
  user_id = "u1";
  ip = none;
  user_agent = some "curl";
  last_seen_at = 1000;
  expires_at = 9000000;
  revoked_at = none;
}

abbrev world : Sessions sessions
world = record {
  stored = λ k. if str_eq k "s1" then some laptop else if str_eq k "s2" then some laptop else none;
  last_touch = λ k. none;
}

abbrev later_events : List Event
later_events = validated 70000 "s1" none ∷ revoked_others 70001 "u1" "s1" ∷ cleaned 70002 ∷ []

revoke_session-final_example :
    let (answer, w') = revoke_session sessions 5000 "u1" "s1" world in
    ((answer ≡ throw not_found)
      × (w' ≡ world)
      × ((r : SessionRow) → sessions.find_unique "s1" world.stored ≡ some r → r.user_id ≢ "u1"))
    ⊎ ((answer ≡ ok tt)
        × (is_valid sessions 80000 "s1" none (run sessions later_events w') ≡ false))
revoke_session-final_example =
    revoke_session-final sessions 5000 "u1" "s1" world later_events 80000 none (tt, (tt, (tt, tt)))

abbrev anna : SessionUser
anna = record { id = "u1"; email = "anna@example.com"; role = operator; token_version = 3 }

abbrev other : String
other = "s2"

abbrev kept : String
kept = "s1"
