-- ===== src/Organizations/Owned.antt =====
-- Every organization keeps an owner.
use cluster_gate.Prelude.{
  false, [], ◌∷◌, refl, inl, inr, String, filter_by, List, update_first, All, Option, str_eq, ◌≡◌,
  not, ◌<◌, Bool, Bool-cases, arith, eq_iff, exec, ◌++◌, Option-cases, sym, All-imp, find_first,
  ◌∙◌, All-append,
}
use cluster_gate.OrgMembers.{OrgMembership, owner_count, is_owner_of}
use cluster_gate.OrgMembers.Owners.{step-owner, owner_count-append}
use cluster_gate.OrgAccess.{owner}
use cluster_gate.Organizations.{
  Tables, create_organization, Organization, update_organization, delete_organization,
  OrganizationUpdate, create_team, TeamUpdate, updated_organization, has_id, update_team,
  delete_team, add_team_member, remove_team_member, has_slug, has_name, team_has_id, clashes,
  team_updated, is_in_team,
}
use cluster_gate.OrgMembers.Owners

-- A call of the service other than the change of a role.
pub data Event : Type 0 where
  organization_created : String → String → String → Option String → String → Event
  organization_updated : String → OrganizationUpdate → Event
  organization_deleted : String → Event
  team_created : String → String → String → Option String → Event
  team_changed : String → TeamUpdate → Event
  team_deleted : String → Event
  team_member_added team_member_removed : String → String → Event
  members : Owners.Event → Event

step : Event → Tables → Tables
unfolding create_organization update_organization delete_organization create_team update_team
    delete_team add_team_member remove_team_member Owners.step
step (organization_created id name slug description creator) s =
    exec (create_organization id name slug description creator) s
step (organization_updated id change) s = exec (update_organization id change) s
step (organization_deleted id) s = exec (delete_organization id) s
step (team_created id org name description) s = exec (create_team id org name description) s
step (team_changed id change) s = exec (update_team id change) s
step (team_deleted id) s = exec (delete_team id) s
step (team_member_added team user) s = exec (add_team_member team user) s
step (team_member_removed team user) s = exec (remove_team_member team user) s
step (members e) s = record s { memberships = Owners.step e s.memberships }

unfoldable pub run : List Event → Tables → Tables
unfolding step
run [] s = s
run (e ∷ es) s = run es (step e s)

abbrev pub HasOwner : List OrgMembership → Organization → Type 0
HasOwner ms o = 0 < owner_count o.id ms

abbrev pub AllOwned : Tables → Type 0
AllOwned s = All (HasOwner s.memberships) s.organizations

HasOwner-update_first :
    (p : Organization → Bool) (change : OrganizationUpdate) (ms : List OrgMembership)
    (os : List Organization)
    → All (HasOwner ms) os
    → All (HasOwner ms) (update_first p (updated_organization change) os)
unfolding update_first
HasOwner-update_first p change ms [] h = tt
HasOwner-update_first p change ms (o ∷ os) (here, h) = elim (Bool-cases (p o)) [
  | inl mine ↦ rw mine (here, h)
  | inr other ↦ rw other (here, HasOwner-update_first p change ms os h)
]

-- The owners of an organization are not those of another one.
owner_count-filter_by :
    (id org : String) (ms : List OrgMembership)
    → str_eq org id ≡ false
    → owner_count org (filter_by (λ m. not (str_eq m.organization_id id)) ms) ≡ owner_count org ms
unfolding owner_count filter_by
owner_count-filter_by id org [] e = refl
owner_count-filter_by id org (m ∷ ms) e = elim (Bool-cases (str_eq m.organization_id id)) [
  | inr kept ↦ rw kept (ground (arith, owner_count-filter_by id org ms e))
  | inl gone ↦
      let same : m.organization_id ≡ id = (eq_iff m.organization_id id).0 gone in
      let foreign : is_owner_of org m ≡ false = elim (Bool-cases (str_eq m.organization_id org)) [
        | inr other ↦ ground (arith, other)
        | inl own ↦
            let clash : org ≡ id = sym ((eq_iff m.organization_id org).0 own) ∙ same in
            absurd (ground (arith, e, (eq_iff org id).1 clash))
      ] in
      rw gone (ground (arith, owner_count-filter_by id org ms e, foreign))
]

AllOwned-filter_by :
    (id : String) (ms : List OrgMembership) (os : List Organization)
    → All (HasOwner ms) os
    → All
        (HasOwner (filter_by (λ m. not (str_eq m.organization_id id)) ms))
        (filter_by (λ o. not (has_id id o)) os)
unfolding filter_by
AllOwned-filter_by id ms [] h = tt
AllOwned-filter_by id ms (o ∷ os) (here, h) = elim (Bool-cases (has_id id o)) [
  | inl gone ↦ rw gone (AllOwned-filter_by id ms os h)
  | inr kept ↦
      rw kept (ground (arith, owner_count-filter_by id o.id ms kept), AllOwned-filter_by id ms os h)
]

HasOwner-append :
    (ms : List OrgMembership) (m : OrgMembership) (os : List Organization)
    → All (HasOwner ms) os
    → All (HasOwner (ms ++ (m ∷ []))) os
HasOwner-append ms m os h =
    All-imp os (λ o held. ground (arith, owner_count-append o.id ms (m ∷ []), held)) h

creator-owns :
    (org : String) (ms : List OrgMembership) (m : OrgMembership)
    → m.organization_id ≡ org
    → m.role ≡ owner
    → 0 < owner_count org (ms ++ (m ∷ []))
unfolding owner_count
creator-owns org ms m at role =
    let own = (eq_iff m.organization_id org).1 at in
    ground (arith, owner_count-append org ms (m ∷ []), own, role)

step-AllOwned : (e : Event) (s : Tables) → AllOwned s → AllOwned (step e s)
unfolding step create_organization update_organization delete_organization create_team update_team
    delete_team add_team_member remove_team_member
step-AllOwned (organization_created id name slug description creator) s h =
    elim (Option-cases (find_first (has_slug slug) s.organizations)) [
      | inr (o, taken) ↦ rw (step, exec, create_organization, taken) h
      | inl free ↦
          rw (step, exec, create_organization, free)
            (All-append _ s.organizations _ (HasOwner-append s.memberships _ s.organizations h)
              (creator-owns id s.memberships _ refl refl, tt))
    ]
step-AllOwned (organization_updated id change) s h =
    elim (Option-cases (find_first (has_id id) s.organizations)) [
      | inl missing ↦ rw (step, exec, update_organization, missing) h
      | inr (o, found) ↦
          rw (step, exec, update_organization, found)
            (HasOwner-update_first (has_id id) change s.memberships s.organizations h)
    ]
step-AllOwned (organization_deleted id) s h =
    elim (Option-cases (find_first (has_id id) s.organizations)) [
      | inl missing ↦ rw (step, exec, delete_organization, missing) h
      | inr (o, found) ↦
          rw (step, exec, delete_organization, found)
            (AllOwned-filter_by id s.memberships s.organizations h)
    ]
step-AllOwned (team_created id org name description) s h =
    elim (Option-cases (find_first (has_id org) s.organizations)) [
      | inl missing ↦ rw (step, exec, create_team, missing) h
      | inr (o, found) ↦ elim (Option-cases (find_first (has_name org name) s.teams)) [
        | inl free ↦ rw (step, exec, create_team, found, free) h
        | inr (t, taken) ↦ rw (step, exec, create_team, found, taken) h
      ]
    ]
step-AllOwned (team_changed id change) s h =
    elim (Option-cases (find_first (team_has_id id) s.teams)) [
      | inl missing ↦ rw (step, exec, update_team, missing) h
      | inr (t, found) ↦
          elim (Option-cases (find_first (clashes (team_updated change t)) s.teams)) [
            | inl free ↦ rw (step, exec, update_team, found, free) h
            | inr (u, taken) ↦ rw (step, exec, update_team, found, taken) h
          ]
    ]
step-AllOwned (team_deleted id) s h = elim (Option-cases (find_first (team_has_id id) s.teams)) [
  | inl missing ↦ rw (step, exec, delete_team, missing) h
  | inr (t, found) ↦ rw (step, exec, delete_team, found) h
]
step-AllOwned (team_member_added team user) s h =
    elim (Option-cases (find_first (is_in_team user team) s.team_memberships)) [
      | inr (m, taken) ↦ rw (step, exec, add_team_member, taken) h
      | inl free ↦ elim (Option-cases (find_first (team_has_id team) s.teams)) [
        | inl missing ↦ rw (step, exec, add_team_member, free, missing) h
        | inr (t, found) ↦ rw (step, exec, add_team_member, free, found) h
      ]
    ]
step-AllOwned (team_member_removed team user) s h =
    elim (Option-cases (find_first (is_in_team user team) s.team_memberships)) [
      | inl missing ↦ rw (step, exec, remove_team_member, missing) h
      | inr (m, found) ↦ rw (step, exec, remove_team_member, found) h
    ]
step-AllOwned (members e) s h =
    All-imp s.organizations (λ o held. step-owner o.id e s.memberships held) h

-- However organizations, teams and members are created, changed and deleted, the change of a
-- member's role excepted, every organization keeps an owner where every one had an owner before.
pub run-AllOwned : (es : List Event) (s : Tables) → AllOwned s → AllOwned (run es s)
unfolding run
run-AllOwned [] s h = h
run-AllOwned (e ∷ es) s h = run-AllOwned es (step e s) (step-AllOwned e s h)
