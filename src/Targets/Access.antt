-- ===== src/Targets/Access.antt =====
-- backend/src/services/targetPolicyService.ts: the target policy of an organization, and the check
-- of a connection test that belongs to no route yet.
use cluster_gate.Prelude.{
  none, some, [], ◌∷◌, String, some_of, List, Bool, Option, not, if◌then◌else◌, present, map, ◌||◌,
}
use cluster_gate.Targets.{Platform}
use cluster_gate.Targets.Policy.{OrgTargetPolicy}
use cluster_gate.Targets.Check.{TargetError, check_target}
use cluster_gate.OrgAccess.{Role, OrgRole, is_manager}
use cluster_gate.Targets.DenyList.{Rule}
use cluster_gate.Users.{is_admin}
use mathlib.Core.Option

-- What the queries find: an organization's settings, a membership under its user and organization,
-- and the organizations where a user is owner or admin, in the order of `findMany`.
pub record Settings : Type 0 where
  pub organization : String → Option OrgTargetPolicy
  pub membership : String → String → Option OrgRole
  pub managed : String → List OrgTargetPolicy

pub data AccessError : Type 0 where
  not_a_manager manages_no_organization : AccessError
  bad_target : TargetError → AccessError

module _ (db : Settings) where
  unfoldable pub get_org_target_policy : Option String → Option OrgTargetPolicy
  get_org_target_policy id = elim (present id) [ none ↦ none | some o ↦ db.organization o ]

-- A try for each candidate: `none` where one passes, and else the first error.
unfoldable pub first_accepted {ℓ} :
    {A : Type ℓ} → (A → Option TargetError) → List A → Option TargetError → Option TargetError
first_accepted check [] first = first
first_accepted check (p ∷ ps) first = elim (check p) [
  | none ↦ none
  | some e ↦ first_accepted check ps (some (Option.get_or first e))
]

abbrev pub is_unrestricted : OrgTargetPolicy → Bool
is_unrestricted p = not p.restrict_targets

unfoldable pub candidates : List OrgTargetPolicy → List (Option OrgTargetPolicy)
unfolding some_of
candidates policies = if some_of is_unrestricted policies then none ∷ [] else map some policies

module _ (os : Platform) (db : Settings) (rules : List Rule) (domain : String) where
  unfoldable pub assert_route_target_allowed : String → Option String → Option AccessError
  unfolding check_target get_org_target_policy
  assert_route_target_allowed target org =
      Option.map bad_target (check_target os rules domain (get_org_target_policy db org) target)

  -- Without an organization, for a user who is no system admin.
  abbrev pub check_managed : String → List OrgTargetPolicy → Option AccessError
  unfolding first_accepted candidates check_target
  check_managed target [] = some manages_no_organization
  check_managed target (p ∷ ps) =
      Option.map bad_target
        (first_accepted (λ q. check_target os rules domain q target) (candidates (p ∷ ps)) none)

  unfoldable pub assert_target_allowed_for_user :
      String → String → Role → Option String → Option AccessError
  unfolding assert_route_target_allowed check_managed candidates first_accepted
  assert_target_allowed_for_user target user role org = elim (present org) [
    | some o ↦
        if is_admin role || is_manager (db.membership user o)
        then assert_route_target_allowed target (some o)
        else some not_a_manager
    | none ↦
        if is_admin role
        then assert_route_target_allowed target none
        else check_managed target (db.managed user)
  ]
