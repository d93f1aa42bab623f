-- ===== src/OrgMembers/Owners.antt =====
-- Which operations keep an owner in an organization that has one.
use cluster_gate.Prelude.{
  some, [], ◌∷◌, suc, String, List, ◌≡◌, ◌++◌, ◌+◌, if◌then◌else◌, arith, true, inl, inr, ok,
  str_eq, ◌<◌, Bool-cases, ◌≢◌, exec, Option-cases, eq_iff, result, sym, ◌∙◌, ap,
}
use cluster_gate.OrgMembers.{
  get_org_membership, owner_count, remove_row, OrgMembership, is_owner_of, add_org_member,
  update_org_member_role, set_role, is_of, remove_org_member,
}
use cluster_gate.OrgAccess.{OrgRole, owner}

owner_count-remove :
    (org other user : String) (ms : List OrgMembership) (m : OrgMembership)
    → get_org_membership other user ms ≡ some m
    → owner_count org ms ≡ (
        if is_owner_of org m
        then suc (owner_count org (remove_row other user ms))
        else owner_count org (remove_row other user ms))
unfolding get_org_membership owner_count remove_row
owner_count-remove org other user [] m h = absurd (ground arith)
owner_count-remove org other user (x ∷ ms) m h = elim (Bool-cases (is_of other user x)) [
  | inl found ↦ let same : x ≡ m = ground arith in rw (found, same)
  | inr past ↦
      let ih = owner_count-remove org other user ms m (ground arith) in rw past (ground arith)
]

pub owner_count-append :
    (org : String) (xs ys : List OrgMembership)
    → owner_count org (xs ++ ys) ≡ owner_count org xs + owner_count org ys
unfolding owner_count
owner_count-append org [] ys = omega arith
owner_count-append org (x ∷ xs) ys = ground (arith, owner_count-append org xs ys)

owner_count-set_role :
    (org user : String) (role : OrgRole) (ms : List OrgMembership) (m : OrgMembership)
    → get_org_membership org user ms ≡ some m
    → m.role ≡ owner
    → role ≢ owner
    → owner_count org ms ≡ suc (owner_count org (set_role org user role ms))
unfolding get_org_membership owner_count set_role
owner_count-set_role org user role [] m h o r = absurd (ground arith)
owner_count-set_role org user role (x ∷ ms) m h o r = elim (Bool-cases (is_of org user x)) [
  | inl found ↦ let same : x ≡ m = ground arith in rw (found, same) (ground arith)
  | inr past ↦
      let ih = owner_count-set_role org user role ms m (ground arith) o r in rw past (ground arith)
]

-- A call that adds or removes a member; a role is changed by another.
pub data Event : Type 0 where
  added : String → String → OrgRole → Event
  removed : String → String → Event

unfoldable pub step : Event → List OrgMembership → List OrgMembership
unfolding add_org_member remove_org_member
step (added org user role) ms = exec (add_org_member org user role) ms
step (removed org user) ms = exec (remove_org_member org user) ms

unfoldable pub run : List Event → List OrgMembership → List OrgMembership
unfolding step
run [] ms = ms
run (e ∷ es) ms = run es (step e ms)

get_org_membership-organization :
    (org user : String) (ms : List OrgMembership) (m : OrgMembership)
    → get_org_membership org user ms ≡ some m
    → str_eq m.organization_id org ≡ true
unfolding get_org_membership
get_org_membership-organization org user [] m h = absurd (ground arith)
get_org_membership-organization org user (x ∷ ms) m h =
    ground (arith, get_org_membership-organization org user ms m)

pub step-owner :
    (org : String) (e : Event) (ms : List OrgMembership)
    → 0 < owner_count org ms
    → 0 < owner_count org (step e ms)
unfolding step add_org_member remove_org_member
step-owner org (added other user role) ms h =
    let new : OrgMembership = record { user_id = user; organization_id = other; role = role } in
    elim (Option-cases (get_org_membership other user ms)) [
      | inl missing ↦ ground (arith, owner_count-append org ms (new ∷ []))
      | inr (m, found) ↦ ground arith
    ]
step-owner org (removed other user) ms h = elim (Option-cases (get_org_membership other user ms)) [
  | inl missing ↦ ground arith
  | inr (m, found) ↦
      let counts = owner_count-remove org other user ms m found in
      let at = get_org_membership-organization other user ms m found in
      elim (Bool-cases (str_eq m.organization_id org)) [
        | inl own ↦
            let same : other ≡ org =
              sym ((eq_iff m.organization_id other).0 at) ∙ (eq_iff m.organization_id org).0 own in
            let alike = ap (λ o. owner_count o ms) same in ground arith
        | inr foreign ↦ ground arith
      ]
]

-- However members are added to the organizations and removed from them, an organization that has an
-- owner keeps one.
pub run-keeps_owner :
    (org : String) (es : List Event) (ms : List OrgMembership)
    → 0 < owner_count org ms
    → 0 < owner_count org (run es ms)
unfolding run
run-keeps_owner org [] ms h = h
run-keeps_owner org (e ∷ es) ms h = run-keeps_owner org es (step e ms) (step-owner org e ms h)

-- Changing the role of the only owner of an organization to another role succeeds, and the
-- organization has no owner then.
pub update_org_member_role-last_owner :
    (org user : String) (role : OrgRole) (ms : List OrgMembership) (m : OrgMembership)
    → get_org_membership org user ms ≡ some m
    → m.role ≡ owner
    → role ≢ owner
    → owner_count org ms ≡ 1
    → (result (update_org_member_role org user role) ms ≡ ok (record m { role = role }))
      × (owner_count org (exec (update_org_member_role org user role) ms) ≡ 0)
unfolding update_org_member_role
update_org_member_role-last_owner org user role ms m found o r one =
    let counts = owner_count-set_role org user role ms m found o r in
    (rw (result, found), ground arith)
