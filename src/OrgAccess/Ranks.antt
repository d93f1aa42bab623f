-- ===== src/OrgAccess/Ranks.antt =====
-- How the permissions are ordered, and exactly who holds them.
use cluster_gate.Prelude.{none, some, true, String, ◌≡◌, arith, ◌↔◌, ◌⊎◌, present}
use cluster_gate.OrgAccess.{
  can_delete_route, Directory, can_manage_route, can_view_route_by_id, OrgRole, Role, RouteRef,
  admin, owner, org_admin,
}

-- A live route belongs to an organization in which the user holds one of the roles.
abbrev pub HoldsIn : Directory → String → String → (OrgRole → Type 0) → Type 0
HoldsIn db user id OneOf =
    (r : RouteRef) × (o : String) × (role : OrgRole) × (db.route id ≡ some r)
    × (r.deleted_at ≡ none)
    × (present r.organization_id ≡ some o)
    × (db.membership user o ≡ some role)
    × OneOf role

-- Who may delete a route may manage it, and who may manage it may see it.
pub can_delete_route-ranks :
    (db : Directory) (user : String) (role : Role) (id : String)
    → (can_delete_route db user role id ≡ true → can_manage_route db user role id ≡ true)
      × (can_manage_route db user role id ≡ true → can_view_route_by_id db user role id ≡ true)
unfolding can_delete_route can_manage_route can_view_route_by_id
can_delete_route-ranks db user role id = (λ h. ground arith, λ h. ground arith)

-- A route is managed by the system administrators, and by the owners and administrators of the
-- organization of a route that is not deleted; by nobody else.
pub can_manage_route_iff :
    (db : Directory) (user : String) (role : Role) (id : String)
    → (can_manage_route db user role id ≡ true)
      ↔ ((role ≡ admin) ⊎ HoldsIn db user id (λ r. (r ≡ owner) ⊎ (r ≡ org_admin)))
unfolding can_manage_route
can_manage_route_iff db user role id = (λ h. grind arith, λ h. grind arith)

-- A route is deleted by the system administrators, and by the owners of the organization of a route
-- that is not deleted; by nobody else.
pub can_delete_route_iff :
    (db : Directory) (user : String) (role : Role) (id : String)
    → (can_delete_route db user role id ≡ true)
      ↔ ((role ≡ admin) ⊎ HoldsIn db user id (λ r. r ≡ owner))
unfolding can_delete_route
can_delete_route_iff db user role id = (λ h. grind arith, λ h. grind arith)
