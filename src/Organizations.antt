-- ===== src/Organizations.antt =====
-- backend/src/services/organizationService.ts: organizations and teams, with the members of
-- OrgMembers. Users are not in the tables. The constraints and cascades of the tables are those of prisma/schema.prisma.
pub mod Owned
mod Tests
use cluster_gate.Prelude.{
  none, some, true, false, [], ◌∷◌, ok, throw, String, some_of, Bool, Option, find_first, List,
  ◌&&◌, ◌||◌, filter_by, str_eq, M, update_first, bad_request, not_found, not, conflict, ◌++◌,
}
use cluster_gate.OrgMembers.{OrgMembership}
use cluster_gate.OrgAccess.{OrgRole, owner}
use mathlib.Core.Option

pub record Organization : Type 0 where
  pub id : String
  pub name : String
  pub slug : String
  pub description : Option String
  pub is_active : Bool
  pub restrict_targets : Bool
  pub allowed_target_namespaces : List String
  pub allowed_target_hosts : List String

pub record Team : Type 0 where
  pub id : String
  pub organization_id : String
  pub name : String
  pub description : Option String

pub record TeamMembership : Type 0 where
  pub user_id : String
  pub team_id : String

pub record Tables : Type 0 where
  pub organizations : List Organization
  pub memberships : List OrgMembership
  pub teams : List Team
  pub team_memberships : List TeamMembership

-- The fields of an update, `none` where they are undefined.
pub record OrganizationUpdate : Type 0 where
  pub name : Option String
  pub description : Option (Option String)
  pub is_active : Option Bool
  pub restrict_targets : Option Bool
  pub allowed_target_namespaces : Option (List String)
  pub allowed_target_hosts : Option (List String)

pub record TeamUpdate : Type 0 where
  pub name : Option String
  pub description : Option (Option String)

abbrev pub has_id : String → Organization → Bool
has_id id o = str_eq o.id id

abbrev has_slug : String → Organization → Bool
has_slug slug o = str_eq o.slug slug

abbrev team_has_id : String → Team → Bool
team_has_id id t = str_eq t.id id

abbrev has_name : String → String → Team → Bool
has_name org name t = str_eq t.organization_id org && str_eq t.name name

abbrev is_in_team : String → String → TeamMembership → Bool
is_in_team user team m = str_eq m.user_id user && str_eq m.team_id team

unfoldable pub resolve_organization_id : String → Tables → Option String
resolve_organization_id id_or_slug s =
    Option.map (λ o. o.id)
      (find_first (λ o. has_id id_or_slug o || has_slug id_or_slug o) s.organizations)

-- The id is drawn by the database.
unfoldable pub create_organization :
    String → String → String → Option String → String → M Tables Organization
create_organization new_id name slug description creator s =
    elim (find_first (has_slug slug) s.organizations) [
      | some o ↦ (throw conflict, s)
      | none ↦
          let o : Organization = record {
            id = new_id;
            name = name;
            slug = slug;
            description = description;
            is_active = true;
            restrict_targets = false;
            allowed_target_namespaces = [];
            allowed_target_hosts = [];
          } in
          let m : OrgMembership = record {
            user_id = creator;
            organization_id = new_id;
            role = owner;
          } in
          (
            ok o,
            record s {
              organizations = s.organizations ++ (o ∷ []);
              memberships = s.memberships ++ (m ∷ []);
            },
          )
    ]

abbrev updated_organization : OrganizationUpdate → Organization → Organization
updated_organization change o = record {
  id = o.id;
  name = Option.get_or change.name o.name;
  slug = o.slug;
  description = Option.get_or change.description o.description;
  is_active = Option.get_or change.is_active o.is_active;
  restrict_targets = Option.get_or change.restrict_targets o.restrict_targets;
  allowed_target_namespaces =
      Option.get_or change.allowed_target_namespaces o.allowed_target_namespaces;
  allowed_target_hosts = Option.get_or change.allowed_target_hosts o.allowed_target_hosts;
}

unfoldable pub update_organization : String → OrganizationUpdate → M Tables Organization
update_organization id change s = elim (find_first (has_id id) s.organizations) [
  | none ↦ (throw not_found, s)
  | some o ↦ (
    ok (updated_organization change o),
    record s {
      organizations = update_first (has_id id) (updated_organization change) s.organizations;
    },
  )
]

-- The rows whose parent is deleted are deleted with it.
abbrev team_is_in : List Team → TeamMembership → Bool
team_is_in teams m = some_of (team_has_id m.team_id) teams

unfoldable pub delete_organization : String → M Tables (Unit {0})
delete_organization id s = elim (find_first (has_id id) s.organizations) [
  | none ↦ (throw not_found, s)
  | some o ↦
      let teams = filter_by (λ t. not (str_eq t.organization_id id)) s.teams in
      (
        ok tt,
        record {
          organizations = filter_by (λ o. not (has_id id o)) s.organizations;
          memberships = filter_by (λ m. not (str_eq m.organization_id id)) s.memberships;
          teams = teams;
          team_memberships = filter_by (team_is_in teams) s.team_memberships;
        },
      )
]

-- A foreign key that finds no row, and a name that the organization has already, are refused.
unfoldable pub create_team : String → String → String → Option String → M Tables Team
create_team new_id org name description s = elim (find_first (has_id org) s.organizations) [
  | none ↦ (throw bad_request, s)
  | some o ↦ elim (find_first (has_name org name) s.teams) [
    | some t ↦ (throw conflict, s)
    | none ↦
        let t : Team = record {
          id = new_id;
          organization_id = org;
          name = name;
          description = description;
        } in
        (ok t, record s { teams = s.teams ++ (t ∷ []) })
  ]
]

abbrev team_updated : TeamUpdate → Team → Team
team_updated change t = record t {
  name = Option.get_or change.name t.name;
  description = Option.get_or change.description t.description;
}

abbrev clashes : Team → Team → Bool
clashes t u = has_name t.organization_id t.name u && not (str_eq u.id t.id)

unfoldable pub update_team : String → TeamUpdate → M Tables Team
update_team id change s = elim (find_first (team_has_id id) s.teams) [
  | none ↦ (throw not_found, s)
  | some t ↦ elim (find_first (clashes (team_updated change t)) s.teams) [
    | some u ↦ (throw conflict, s)
    | none ↦ (
      ok (team_updated change t),
      record s { teams = update_first (team_has_id id) (team_updated change) s.teams },
    )
  ]
]

unfoldable pub delete_team : String → M Tables (Unit {0})
delete_team id s = elim (find_first (team_has_id id) s.teams) [
  | none ↦ (throw not_found, s)
  | some t ↦ (
    ok tt,
    record s {
      teams = filter_by (λ u. not (team_has_id id u)) s.teams;
      team_memberships = filter_by (λ m. not (str_eq m.team_id id)) s.team_memberships;
    },
  )
]

unfoldable pub add_team_member : String → String → M Tables TeamMembership
add_team_member team user s = elim (find_first (is_in_team user team) s.team_memberships) [
  | some m ↦ (throw conflict, s)
  | none ↦ elim (find_first (team_has_id team) s.teams) [
    | none ↦ (throw bad_request, s)
    | some t ↦
        let m : TeamMembership = record { user_id = user; team_id = team } in
        (ok m, record s { team_memberships = s.team_memberships ++ (m ∷ []) })
  ]
]

unfoldable pub remove_team_member : String → String → M Tables (Unit {0})
remove_team_member team user s = elim (find_first (is_in_team user team) s.team_memberships) [
  | none ↦ (throw not_found, s)
  | some m ↦ (
    ok tt,
    record s {
      team_memberships = filter_by (λ m. not (is_in_team user team m)) s.team_memberships;
    },
  )
]
