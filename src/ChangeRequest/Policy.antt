-- ===== src/ChangeRequest/Policy.antt =====
-- changeRequestService.getPolicy, canBypass and canApprove: which routes need a change request, and
-- who may pass it by or decide on it. The database is read only here.
use cluster_gate.Prelude.{
  none, some, true, false, [], ◌∷◌, Bool, if◌then◌else◌, String, Option, List, ◌≡◌, ◌||◌, ◌↔◌, ◌⊎◌,
  arith, ◌≢◌, present,
}
use cluster_gate.OrgAccess.{owner, org_admin, member, OrgRole, Role, is_admin, admin}

pub data Source : Type 0 where
  no_source organization group : Source

pub record CrPolicy : Type 0 where
  pub required : Bool
  pub bypass_roles : List OrgRole
  pub approver_roles : List OrgRole
  pub source : Source

pub record RouteRefs : Type 0 where
  pub organization_id : Option String
  pub route_group_id : Option String

pub record OrgPolicy : Type 0 where
  pub change_requests_enabled : Bool
  pub cr_bypass_roles : List OrgRole
  pub cr_approver_roles : List OrgRole

pub record GroupPolicy : Type 0 where
  pub change_requests_enabled : Option Bool
  pub cr_bypass_roles : List OrgRole
  pub cr_approver_roles : List OrgRole

-- What the queries find. `request_route` is the routeId of a change request.
pub record Settings : Type 0 where
  pub route : String → Option RouteRefs
  pub org : String → Option OrgPolicy
  pub group_of : String → Option GroupPolicy
  pub membership : String → String → Option OrgRole
  pub request_route : String → Option (Option String)

abbrev pub no_policy : CrPolicy
no_policy = record { required = false; bypass_roles = []; approver_roles = []; source = no_source }

-- A group's empty list of roles stands for the organization's.
abbrev pub or_inherited : List OrgRole → List OrgRole → List OrgRole
or_inherited [] inherited = inherited
or_inherited (r ∷ rs) inherited = r ∷ rs

same_role : OrgRole → OrgRole → Bool
same_role owner owner = true
same_role org_admin org_admin = true
same_role member member = true
same_role _ _ = false

unfoldable pub has_role : List OrgRole → OrgRole → Bool
unfolding same_role
has_role [] r = false
has_role (x ∷ xs) r = same_role x r || has_role xs r

abbrev pub inherited_policy : OrgPolicy → CrPolicy
inherited_policy o = record {
  required = o.change_requests_enabled;
  bypass_roles = o.cr_bypass_roles;
  approver_roles = o.cr_approver_roles;
  source = if o.change_requests_enabled then organization else no_source;
}

abbrev pub group_policy : Bool → OrgPolicy → GroupPolicy → CrPolicy
group_policy enabled o g = record {
  required = enabled;
  bypass_roles = or_inherited g.cr_bypass_roles o.cr_bypass_roles;
  approver_roles = or_inherited g.cr_approver_roles o.cr_approver_roles;
  source = group;
}

module _ (db : Settings) where
  org_of_route : String → Option String
  org_of_route route_id = elim (db.route route_id) [
    | none ↦ none
    | some r ↦ present r.organization_id
  ]

  with_group : OrgPolicy → Option GroupPolicy → CrPolicy
  with_group o none = inherited_policy o
  with_group o (some g) = elim g.change_requests_enabled [
    | none ↦ inherited_policy o
    | some enabled ↦ group_policy enabled o g
  ]

  found_group : Option String → Option GroupPolicy
  found_group none = none
  found_group (some g) = db.group_of g

  unfoldable pub get_policy : String → CrPolicy
  unfolding with_group found_group
  get_policy route_id = elim (db.route route_id) [
    | none ↦ no_policy
    | some r ↦ elim (present r.organization_id) [
      | none ↦ no_policy
      | some o ↦ elim (db.org o) [
        | none ↦ no_policy
        | some org ↦ with_group org (found_group (present r.route_group_id))
      ]
    ]
  ]

  unfoldable pub can_bypass : String → String → Role → Bool
  unfolding org_of_route
  can_bypass route_id user role =
      if is_admin role
      then true
      else if (get_policy route_id).required
      then elim (org_of_route route_id) [
        | none ↦ true
        | some o ↦ elim (db.membership user o) [
          | none ↦ true
          | some r ↦ has_role (get_policy route_id).bypass_roles r
        ]
      ]
      else true

  approve_route : Option String → String → Bool
  unfolding org_of_route
  approve_route none user = false
  approve_route (some route_id) user = elim (org_of_route route_id) [
    | none ↦ false
    | some o ↦ elim (db.membership user o) [
      | none ↦ false
      | some r ↦ has_role (get_policy route_id).approver_roles r
    ]
  ]

  -- What is asked for where no route is found is `systemRole === 'ADMIN'` once more, which is false
  -- by then.
  unfoldable pub can_approve : String → String → Role → Bool
  unfolding approve_route
  can_approve cr_id user role =
      if is_admin role
      then true
      else elim (db.request_route cr_id) [ none ↦ false | some r ↦ approve_route (present r) user ]

  pub is_change_request_required : String → Bool
  is_change_request_required route_id = (get_policy route_id).required

module _ (db : Settings) where
  -- A route whose policy requires change requests belongs to an organization that is found, and the
  -- policy names truly who asked for them: the organization, which has them enabled, or the route's
  -- group, whose own setting enables them.
  pub get_policy-source :
      (route_id : String)
      → (get_policy db route_id).required ≡ true
      → (r : RouteRefs) × (o : String) × (org : OrgPolicy) × (db.route route_id ≡ some r)
        × (present r.organization_id ≡ some o)
        × (db.org o ≡ some org)
        × ((((get_policy db route_id).source ≡ organization) × (org.change_requests_enabled ≡ true))
            ⊎ ((g : String) × (gp : GroupPolicy) × ((get_policy db route_id).source ≡ group)
                × (present r.route_group_id ≡ some g)
                × (db.group_of g ≡ some gp)
                × (gp.change_requests_enabled ≡ some true)))
  unfolding get_policy
  get_policy-source route_id h = grind arith

  -- The user is a member, with one of the roles, of the organization of the route.
  abbrev pub MemberWith : String → String → (OrgRole → Type 0) → Type 0
  MemberWith route_id user OneOf =
      (r : RouteRefs) × (o : String) × (role : OrgRole) × (db.route route_id ≡ some r)
      × (present r.organization_id ≡ some o)
      × (db.membership user o ≡ some role)
      × OneOf role

  -- A user may not edit a route directly exactly when he is no system administrator, the route's
  -- policy requires change requests, and he is a member of its organization with a role that does
  -- not bypass them. (So one who is no member is let through here.)
  pub can_bypass-refuses_iff :
      (route_id user : String) (role : Role)
      → (can_bypass db route_id user role ≡ false) ↔ (
          (role ≢ admin)
          × ((get_policy db route_id).required ≡ true)
          × MemberWith route_id user
              (λ r. has_role (get_policy db route_id).bypass_roles r ≡ false))
  unfolding can_bypass
  can_bypass-refuses_iff route_id user role = (λ h. grind arith, λ h. grind arith)

  -- A change request is decided on by the system administrators, and, if it has a route, by the
  -- members of the organization of the route with an approver role of the route's policy; by nobody
  -- else.
  pub can_approve_iff :
      (cr_id user : String) (role : Role)
      → (can_approve db cr_id user role ≡ true) ↔ (
          (role ≡ admin)
          ⊎ ((stored : Option String) × (route_id : String) × (db.request_route cr_id ≡ some stored)
              × (present stored ≡ some route_id)
              × MemberWith route_id user
                  (λ r. has_role (get_policy db route_id).approver_roles r ≡ true)))
  unfolding can_approve
  can_approve_iff cr_id user role = (λ h. grind arith, λ h. grind arith)
