-- ===== src/OrgAccess/Tests.antt =====
-- The permissions at a concrete directory.
use cluster_gate.Prelude.{none, some, true, false, refl, if◌then◌else◌, str_eq, ◌≡◌}
use cluster_gate.OrgAccess.{
  Directory, can_manage_route, can_delete_route, can_view_route_by_id, viewer, operator, owner,
  member,
}

abbrev db : Directory
db = record {
  membership = λ user org.
      if str_eq user "olga" then some owner else if str_eq user "max" then some member else none;
  route = λ id.
      if str_eq id "r1"
      then some (record { organization_id = some "o1"; deleted_at = none })
      else if str_eq id "gone"
      then some (record { organization_id = some "o1"; deleted_at = some 5 })
      else none;
}

permissions :
    (can_delete_route db "olga" viewer "r1" ≡ true)
    × (can_delete_route db "olga" viewer "gone" ≡ false)
    × (can_manage_route db "max" operator "r1" ≡ false)
    × (can_view_route_by_id db "max" operator "r1" ≡ true)
    × (can_view_route_by_id db "eve" operator "r1" ≡ false)
unfolding can_delete_route can_manage_route can_view_route_by_id
permissions = (refl, refl, refl, refl, refl)
