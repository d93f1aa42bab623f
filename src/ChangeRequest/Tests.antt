-- ===== src/ChangeRequest/Tests.antt =====
-- Change requests at concrete states: values are texts, and every target but the database is allowed.
use mathlib.Core.Option
use cluster_gate.Prelude.{
  none, some, true, false, [], ◌∷◌, refl, ok, throw, Table, String, Option, memory, ◌≡◌,
  if◌then◌else◌, str_eq, ◌⊎◌, AppError,
}
use cluster_gate.ChangeRequest.{
  path_free, Request, approve, check_pending, includes, Targets, update_route, Kind, RouteRow,
  apply_change, delete_route, pending, Status, rejected, World, apply_payload, applied, approved,
}
use cluster_gate.ChangeRequest.Policy.{Settings}
use cluster_gate.OrgAccess.{owner, org_admin}
use cluster_gate.ChangeRequest.Effects.{approve-columns}
use cluster_gate.ChangeRequest.Workflow.{approve-not_update, approve-outcome}

abbrev requests : Table (Request String)
requests = memory (Request String)

abbrev routes : Table (RouteRow String)
routes = memory (RouteRow String)

abbrev targets : Targets String
targets = record {
  text_of = λ v. some v;
  allowed = λ moment url org. if str_eq url "http://db" then false else true;
  path_taken = λ id path. str_eq path "/r/taken";
  stamp = "now";
}

abbrev proposal : Kind → Status → Request String
proposal kind status = record {
  route_id = some "r1";
  kind = kind;
  payload = λ c. if str_eq c "name" then some "new" else if str_eq c "id" then some "r2" else none;
  status = status;
  requested_by = "u1";
  reviewed_by = none;
  review_comment = none;
  reviewed_at = none;
}

abbrev row : RouteRow String
row = record { organization_id = some "o1"; columns = λ c. if str_eq c "id" then "r1" else "old" }

abbrev world : Request String → World String requests routes targets
world r = record {
  crs = λ k. if str_eq k "c1" then some r else none;
  rts = λ k. if str_eq k "r1" then some row else none;
}

abbrev name_after : Request String → Option String
name_after r =
    Option.map (λ x. x.columns "name")
      ((approve String requests routes targets "c1" "boss" none 7 (world r)).1.rts "r1")

approved_writes : name_after (proposal update_route pending) ≡ some "new"
unfolding approve check_pending apply_change apply_payload includes
approved_writes = refl

-- The update writes updatedAt anew; one to the path of another route is refused.
updated_at :
    ((apply_payload String targets (λ c. none) row).columns "updatedAt" ≡ "now")
    × (path_free String targets "r1" (λ c. some "/r/taken") (some row) ≡ false)
unfolding apply_payload
updated_at = (refl, refl)

approve-outcome_example :
    let r = proposal update_route pending in
    let (answer, w') = approve String requests routes targets "c1" "boss" none 7 (world r) in
    ((r' : Request String) × (answer ≡ ok r')
      × (requests.find_unique "c1" w'.crs ≡ some r')
      × (r'.status ≡ applied)
      × (r'.reviewed_by ≡ some "boss"))
    ⊎ ((e : AppError) × (answer ≡ throw e) × (w' ≡ world r))
    ⊎ ((e : AppError) × (r' : Request String) × (answer ≡ throw e)
        × (requests.find_unique "c1" w'.crs ≡ some r')
        × (r'.status ≡ approved)
        × (w'.rts ≡ (world r).rts))
approve-outcome_example =
    approve-outcome String requests routes targets "c1" "boss" none 7
      (world (proposal update_route pending)) (proposal update_route pending) refl

approve-not_update_example :
    let r = proposal delete_route rejected in
    let (answer, w') = approve String requests routes targets "c1" "boss" none 7 (world r) in
    (r' : Request String) × (answer ≡ ok r')
    × (requests.find_unique "c1" w'.crs ≡ some r')
    × (r'.status ≡ applied)
    × (w'.rts ≡ (world r).rts)
unfolding check_pending
approve-not_update_example =
    approve-not_update String requests routes targets "c1" "boss" none 7
      (world (proposal delete_route rejected)) (proposal delete_route rejected) refl (λ e. cc) refl

approve-columns_example :
    let w = world (proposal update_route pending) in
    (row' : RouteRow String) × (routes.find_unique "r1"
        (approve String requests routes targets "c1" "boss" none 7 w).1.rts
      ≡ some row')
    × (row'.organization_id ≡ row.organization_id)
    × (row'.columns "id" ≡ row.columns "id")
unfolding includes
approve-columns_example =
    approve-columns String requests routes targets "r1" "id" refl refl "c1" "boss" none 7
      (world (proposal update_route pending)) (proposal update_route pending) row refl refl

abbrev settings : Settings
settings = record {
  route = λ id. some (record { organization_id = some "o1"; route_group_id = some "g1" });
  org = λ o. some (record {
    change_requests_enabled = false;
    cr_bypass_roles = owner ∷ [];
    cr_approver_roles = owner ∷ [];
  });
  group_of = λ g. some (record {
    change_requests_enabled = some true;
    cr_bypass_roles = [];
    cr_approver_roles = org_admin ∷ [];
  });
  membership = λ user o. if str_eq user "max" then some org_admin else none;
  request_route = λ id. some (some "r1");
}
