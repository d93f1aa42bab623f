-- ===== src/OrgMembers.antt =====
-- backend/src/services/organizationService.ts: the members of the organizations. The table is the
-- list of its rows, since the owners are counted; a row is found by its user and organization.
pub mod Owners
mod Tests
use cluster_gate.Prelude.{
  ℕ, none, some, true, false, [], ◌∷◌, suc, ok, throw, Bool, String, M, List, str_eq, ◌&&◌,
  if◌then◌else◌, conflict, Option, not_found, leb, ◌++◌, bad_request,
}
use cluster_gate.OrgAccess.{OrgRole, owner, org_admin, member}

pub record OrgMembership : Type 0 where
  pub user_id : String
  pub organization_id : String
  pub role : OrgRole

abbrev is_of : String → String → OrgMembership → Bool
is_of org user m = str_eq m.organization_id org && str_eq m.user_id user

abbrev pub is_owner_of : String → OrgMembership → Bool
is_owner_of org m = str_eq m.organization_id org && elim m.role [ owner ↦ true | _ ↦ false ]

-- The row that findUnique finds, if there is one.
unfoldable pub get_org_membership : String → String → List OrgMembership → Option OrgMembership
get_org_membership org user [] = none
get_org_membership org user (m ∷ ms) =
    let rest = get_org_membership org user ms in if is_of org user m then some m else rest

-- `count({ where: { organizationId, role: 'OWNER' } })`
unfoldable pub owner_count : String → List OrgMembership → ℕ
owner_count org [] = 0
owner_count org (m ∷ ms) =
    let rest = owner_count org ms in if is_owner_of org m then suc rest else rest

-- The row that was found, with another role, and without it.
unfoldable pub set_role : String → String → OrgRole → List OrgMembership → List OrgMembership
set_role org user role [] = []
set_role org user role (m ∷ ms) =
    let rest = set_role org user role ms in
    if is_of org user m then record m { role = role } ∷ ms else m ∷ rest

unfoldable pub remove_row : String → String → List OrgMembership → List OrgMembership
remove_row org user [] = []
remove_row org user (m ∷ ms) =
    let rest = remove_row org user ms in if is_of org user m then ms else m ∷ rest

-- The foreign key to the organization is left out: the organizations are not in this table.
unfoldable pub add_org_member : String → String → OrgRole → M (List OrgMembership) OrgMembership
add_org_member org user role ms = elim (get_org_membership org user ms) [
  | some m ↦ (throw conflict, ms)
  | none ↦
      let m : OrgMembership = record { user_id = user; organization_id = org; role = role } in
      (ok m, ms ++ m ∷ [])
]

unfoldable pub update_org_member_role :
    String → String → OrgRole → M (List OrgMembership) OrgMembership
update_org_member_role org user role ms = elim (get_org_membership org user ms) [
  | none ↦ (throw not_found, ms)
  | some m ↦ (ok (record m { role = role }), set_role org user role ms)
]

abbrev is_owner : OrgRole → Bool
is_owner owner = true
is_owner _ = false

unfoldable pub remove_org_member : String → String → M (List OrgMembership) (Unit {0})
remove_org_member org user ms = elim (get_org_membership org user ms) [
  | none ↦ (throw not_found, ms)
  | some m ↦
      if is_owner m.role && leb (owner_count org ms) 1
      then (throw bad_request, ms)
      else (ok tt, remove_row org user ms)
]
