-- ===== src/OrgAccess.antt =====
-- backend/src/services/orgAccessService.ts: who may see, manage and delete the routes of an
-- organization. The database is read only here.
pub mod Ranks
mod Tests
use cluster_gate.Prelude.{
  ℕ, none, some, true, false, String, Bool, Option, if◌then◌else◌, str_eq, present,
}

pub data Role : Type 0 where
  admin operator viewer : Role

pub data OrgRole : Type 0 where
  owner org_admin member : OrgRole

pub record RouteRef : Type 0 where
  pub organization_id : Option String
  pub deleted_at : Option ℕ

-- What the queries find: a membership under its user and organization, and a route under its id.
pub record Directory : Type 0 where
  pub membership : String → String → Option OrgRole
  pub route : String → Option RouteRef

abbrev pub is_admin : Role → Bool
is_admin admin = true
is_admin _ = false

abbrev is_live : RouteRef → Bool
is_live r = elim r.deleted_at [ none ↦ true | some t ↦ false ]

-- `where: { id, deletedAt: null }`
abbrev pub live : Option RouteRef → Option RouteRef
live none = none
live (some r) = if is_live r then some r else none

abbrev pub is_manager : Option OrgRole → Bool
is_manager (some owner) = true
is_manager (some org_admin) = true
is_manager (some member) = false
is_manager none = false

abbrev is_owner : Option OrgRole → Bool
is_owner (some owner) = true
is_owner (some org_admin) = false
is_owner (some member) = false
is_owner none = false

abbrev is_some : Option OrgRole → Bool
is_some none = false
is_some (some r) = true

module _ (db : Directory) where
  pub get_user_org_role : String → String → Option OrgRole
  get_user_org_role user org = db.membership user org

  unfoldable pub can_manage_org_routes : String → Role → String → Bool
  unfolding get_user_org_role
  can_manage_org_routes user role org =
      if is_admin role then true else is_manager (get_user_org_role user org)

  unfoldable pub can_delete_org_routes : String → Role → String → Bool
  unfolding get_user_org_role
  can_delete_org_routes user role org =
      if is_admin role then true else is_owner (get_user_org_role user org)

  unfoldable pub is_org_member : String → Role → String → Bool
  unfolding get_user_org_role
  is_org_member user role org = if is_admin role then true else is_some (get_user_org_role user org)

  unfoldable pub can_view_route : String → Role → Option String → Bool
  unfolding get_user_org_role
  can_view_route user role org =
      if is_admin role
      then true
      else elim (present org) [ none ↦ false | some o ↦ is_some (get_user_org_role user o) ]

  unfoldable pub can_view_route_by_id : String → Role → String → Bool
  unfolding can_view_route
  can_view_route_by_id user role id = if is_admin role then true else elim (live (db.route id)) [
    | none ↦ false
    | some r ↦ can_view_route user role r.organization_id
  ]

  unfoldable pub can_manage_route : String → Role → String → Bool
  unfolding can_manage_org_routes
  can_manage_route user role id = if is_admin role then true else elim (live (db.route id)) [
    | none ↦ false
    | some r ↦ elim (present r.organization_id) [
      | none ↦ false
      | some o ↦ can_manage_org_routes user role o
    ]
  ]

  unfoldable pub can_delete_route : String → Role → String → Bool
  unfolding can_delete_org_routes
  can_delete_route user role id = if is_admin role then true else elim (live (db.route id)) [
    | none ↦ false
    | some r ↦ elim (present r.organization_id) [
      | none ↦ false
      | some o ↦ can_delete_org_routes user role o
    ]
  ]
