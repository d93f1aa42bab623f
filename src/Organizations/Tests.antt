-- ===== src/Organizations/Tests.antt =====
-- An organization from its creation to its deletion.
use cluster_gate.Prelude.{
  none, some, [], ◌∷◌, refl, List, find_first, map, filter_by, ◌≡◌, some_of, ◌++◌,
}
use cluster_gate.OrgAccess.{member}
use cluster_gate.Organizations.{
  Tables, create_organization, create_team, add_team_member, resolve_organization_id,
  delete_organization,
}
use cluster_gate.Organizations.Owned.{
  AllOwned, run, run-AllOwned, Event, organization_created, team_created, team_member_added,
  members, organization_deleted,
}
use cluster_gate.OrgMembers.{get_org_membership, owner_count}
use cluster_gate.OrgMembers.Owners

abbrev nothing : Tables
nothing = record { organizations = []; memberships = []; teams = []; team_memberships = [] }

abbrev history : List Event
history =
    organization_created "o1" "Shop" "shop" none "anna"
    ∷ organization_created "o2" "Shop again" "shop" none "max"
    ∷ team_created "t1" "o1" "Core" none
    ∷ team_member_added "t1" "max"
    ∷ members (Owners.added "o1" "max" member)
    ∷ members (Owners.removed "o1" "anna")
    ∷ organization_created "o3" "Bank" "bank" none "max"
    ∷ []

run-AllOwned_example : AllOwned (run history nothing)
run-AllOwned_example = run-AllOwned history nothing tt

two_owned : map (λ o. o.slug) (run history nothing).organizations ≡ "shop" ∷ "bank" ∷ []
unfolding run create_organization create_team add_team_member find_first Owners.step
    get_org_membership owner_count
two_owned = refl

cascades : (run (history ++ (organization_deleted "o1" ∷ [])) nothing).team_memberships ≡ []
unfolding run create_organization create_team add_team_member find_first Owners.step
    get_org_membership owner_count delete_organization filter_by some_of
cascades = refl

resolved : resolve_organization_id "bank" (run history nothing) ≡ some "o3"
unfolding run create_organization create_team add_team_member find_first Owners.step
    get_org_membership owner_count resolve_organization_id
resolved = refl
