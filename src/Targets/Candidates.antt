-- ===== src/Targets/Candidates.antt =====
-- The tries of assertTargetAllowedForUser against the policies of the organizations themselves.
use cluster_gate.Prelude.{
  none, some, false, [], ◌∷◌, refl, inl, inr, List, Option, String, ◌≡◌, ◌⊎◌, Any, Option-cases,
  arith, true, some_of, ◌↔◌, map, Bool-cases, Bool, ◌∙◌, present,
}
use cluster_gate.Targets.{Platform}
use cluster_gate.Targets.Policy.{OrgTargetPolicy, org_policy_allows}
use cluster_gate.Targets.Access.{
  first_accepted, candidates, is_unrestricted, assert_target_allowed_for_user, Settings,
  check_managed,
}
use cluster_gate.Targets.DenyList.{Rule}
use cluster_gate.Targets.Check.{TargetError, check_target, check_host}
use cluster_gate.OrgAccess.{Role}
use cluster_gate.Users.{is_admin}
use mathlib.Core.Option

first_accepted_iff :
    {A : Type 0} (check : A → Option TargetError) (ps : List A) (e : Option TargetError)
    → ((first_accepted check ps e ≡ none) → (e ≡ none) ⊎ Any (λ p. check p ≡ none) ps)
      × (Any (λ p. check p ≡ none) ps → first_accepted check ps e ≡ none)
unfolding first_accepted
first_accepted_iff check [] e = (λ h. inl h, λ h. absurd h)
first_accepted_iff check (p ∷ ps) e = elim (Option-cases (check p)) [
  | inl passes ↦ (λ h. inr (inl passes), λ h. rw (first_accepted, passes) refl)
  | inr (x, fails) ↦
      let ih = first_accepted_iff check ps (some (Option.get_or e x)) in
      (
        λ h. elim (ih.0 (ground (arith, fails))) [
          | inl same ↦ absurd (ground arith)
          | inr later ↦ inr (inr later)
        ],
        λ h. elim h [
          | inl here ↦ absurd (ground (arith, fails, here))
          | inr later ↦ rw (first_accepted, fails) (ih.1 later)
        ],
      )
]

tried_iff :
    {A : Type 0} (check : A → Option TargetError) (p : A) (ps : List A)
    → (first_accepted check (p ∷ ps) none ≡ none) ↔ Any (λ q. check q ≡ none) (p ∷ ps)
unfolding first_accepted
tried_iff check p ps = elim (Option-cases (check p)) [
  | inl passes ↦ (λ h. inl passes, λ h. rw (first_accepted, passes) refl)
  | inr (x, fails) ↦
      let rest = first_accepted_iff check ps (some x) in
      (
        λ h. elim (rest.0 (ground (arith, fails))) [
          | inl same ↦ absurd (ground arith)
          | inr later ↦ inr later
        ],
        λ h. elim h [
          | inl here ↦ absurd (ground (arith, fails, here))
          | inr later ↦ rw (first_accepted, fails) (rest.1 later)
        ],
      )
]

Any-map-some :
    {A : Type 0} (Q : Option A → Type 0) (ps : List A)
    → Any Q (map some ps) ↔ Any (λ p. Q (some p)) ps
Any-map-some Q [] = (λ h. h, λ h. h)
Any-map-some Q (p ∷ ps) =
    let ih = Any-map-some Q ps in
    (
      λ h. elim h [ inl here ↦ inl here | inr later ↦ inr (ih.0 later) ],
      λ h. elim h [ inl here ↦ inl here | inr later ↦ inr (ih.1 later) ],
    )

some_of-Any :
    {A : Type 0} (p : A → Bool) (Q : A → Type 0) (xs : List A)
    → ((x : A) → p x ≡ true → Q x)
    → some_of p xs ≡ true
    → Any Q xs
unfolding some_of
some_of-Any p Q [] f h = absurd (ground arith)
some_of-Any p Q (x ∷ xs) f h = elim (Bool-cases (p x)) [
  | inl here ↦ inl (f x here)
  | inr past ↦ inr (some_of-Any p Q xs f (ground (arith, past)))
]

Any-const :
    {A : Type 0} (Q : A → Type 0) (R : Type 0) (xs : List A) → ((x : A) → Q x → R) → Any Q xs → R
Any-const Q R [] f h = absurd h
Any-const Q R (x ∷ xs) f (inl here) = f x here
Any-const Q R (x ∷ xs) f (inr later) = Any-const Q R xs f later

module _ (os : Platform) (rules : List Rule) (domain : String) where
  check_host-unrestricted :
      (p : OrgTargetPolicy) (name : String)
      → p.restrict_targets ≡ false
      → check_host os rules domain (some p) name ≡ check_host os rules domain none name
  unfolding check_host org_policy_allows
  check_host-unrestricted p name loose = ground (arith, loose)

  check_host-global :
      (p : OrgTargetPolicy) (name : String)
      → check_host os rules domain (some p) name ≡ none
      → check_host os rules domain none name ≡ none
  unfolding check_host
  check_host-global p name h = ground arith

  -- A policy only adds to the checks that every target passes.
  check_target-unrestricted :
      (p : OrgTargetPolicy) (target : String)
      → p.restrict_targets ≡ false
      → check_target os rules domain (some p) target ≡ check_target os rules domain none target
  unfolding check_target
  check_target-unrestricted p target loose = ground (arith, check_host-unrestricted p, loose)

  check_target-global :
      (p : OrgTargetPolicy) (target : String)
      → check_target os rules domain (some p) target ≡ none
      → check_target os rules domain none target ≡ none
  unfolding check_target
  check_target-global p target h = ground (arith, check_host-global p)

  Accepts : String → OrgTargetPolicy → Type 0
  Accepts target p = check_target os rules domain (some p) target ≡ none

  try_all : String → List OrgTargetPolicy → Option TargetError
  unfolding first_accepted candidates check_target
  try_all target ps =
      first_accepted (λ q. check_target os rules domain q target) (candidates ps) none

  candidates_iff :
      (target : String) (p : OrgTargetPolicy) (ps : List OrgTargetPolicy)
      → (try_all target (p ∷ ps) ≡ none) ↔ Any (Accepts target) (p ∷ ps)
  unfolding try_all candidates Accepts
  candidates_iff target p ps =
      let check = λ (q : Option OrgTargetPolicy). check_target os rules domain q target in
      elim (Bool-cases (some_of is_unrestricted (p ∷ ps))) [
        | inl one ↦ rw one (
          λ h. elim ((tried_iff check none []).0 h) [
            | inl passes ↦
                some_of-Any is_unrestricted (Accepts target) (p ∷ ps)
                  (λ q loose. check_target-unrestricted q target (ground (arith, loose)) ∙ passes)
                  one
            | inr nothing ↦ absurd nothing
          ],
          λ h. (tried_iff check none []).1 (
              inl (
                Any-const (Accepts target) (check none ≡ none) (p ∷ ps)
                  (λ q. check_target-global q target) h)),
        )
        | inr all ↦
            let moved = Any-map-some (λ q. check q ≡ none) (p ∷ ps) in
            let tried = tried_iff check (some p) (map some ps) in
            rw all (λ h. moved.0 (tried.0 h), λ h. tried.1 (moved.1 h))
      ]

  managed_iff :
      (db : Settings) (target : String) (ps : List OrgTargetPolicy)
      → (check_managed os db rules domain target ps ≡ none) ↔ Any (Accepts target) ps
  unfolding try_all
  managed_iff db target [] = (λ h. absurd (ground arith), λ h. absurd h)
  managed_iff db target (p ∷ ps) =
      let tried = candidates_iff target p ps in
      (λ h. tried.0 (ground arith), λ h. ground (arith, tried.1 h))

  -- A connection test without an organization, by a user who is no system admin, passes exactly
  -- where the policy of one of the organizations that the user manages accepts the target by
  -- itself, though the code tries no policy at all once one of them is unrestricted.
  pub assert_target_allowed_for_user-managed_iff :
      (db : Settings) (target user : String) (role : Role) (org : Option String)
      → is_admin role ≡ false
      → present org ≡ none
      → (assert_target_allowed_for_user os db rules domain target user role org ≡ none)
        ↔ Any (λ p. check_target os rules domain (some p) target ≡ none) (db.managed user)
  unfolding assert_target_allowed_for_user Accepts
  assert_target_allowed_for_user-managed_iff db target user role org plain without =
      rw (assert_target_allowed_for_user, without, plain) (managed_iff db target (db.managed user))
