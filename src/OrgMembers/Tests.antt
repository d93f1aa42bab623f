-- ===== src/OrgMembers/Tests.antt =====
-- The members of one organization, and tests.
use cluster_gate.Prelude.{[], ◌∷◌, refl, throw, result, ◌≡◌, bad_request}
use cluster_gate.OrgAccess.{owner, member}
use cluster_gate.OrgMembers.{owner_count, OrgMembership, remove_org_member, get_org_membership}

abbrev anna : OrgMembership
anna = record { user_id = "anna"; organization_id = "o1"; role = owner }

abbrev max : OrgMembership
max = record { user_id = "max"; organization_id = "o1"; role = member }

-- The last owner is not removed.
last_owner_stays : result (remove_org_member "o1" "anna") (anna ∷ max ∷ []) ≡ throw bad_request
unfolding remove_org_member get_org_membership owner_count
last_owner_stays = refl
