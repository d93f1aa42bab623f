-- ===== src/Routes/Admitted.antt =====
-- What a route that was created has passed.
use cluster_gate.Prelude.{
  none, some, true, false, refl, inl, inr, ok, Option, Bool, strip_prefix, ◌≡◌, String, AppError,
  result, Bool-cases, Option-cases, starts_with, ensure, is_nil_text, arith, ◌⊎◌, ◌&&◌, not,
  some_of, str_append, List, present, bind-ok, ◌∙◌, M, ◌>>◌, bad_request, pure, exec,
}
use cluster_gate.Routes.{
  Route, RouteTables, Services, insert_route, is_unique, is_route, insert_version,
}
use mathlib.Core.Path.{subst}
use cluster_gate.Routes.Save.{
  assert_target, create_route, encrypt_secret, all_safe, with_slug, encrypted, trimmed_target,
  free_soft_deleted_public_path, with_secrets,
}
use cluster_gate.Targets.Access.{assert_route_target_allowed}

ensure-true : (b : Bool) (e : AppError) (s : RouteTables) → result (ensure b e) s ≡ ok tt → b ≡ true
ensure-true true e s h = refl
ensure-true false e s h = absurd (ground arith)

insert_route-same : (r new : Route) (s : RouteTables) → result (insert_route r) s ≡ ok new → r ≡ new
unfolding insert_route
insert_route-same r new s h =
    elim (Bool-cases (is_unique r s.routes && not (some_of (is_route r.id) s.routes))) [
      | inl free ↦ ground (arith, free)
      | inr taken ↦ absurd (ground (arith, taken))
    ]

module _ (host : Services) where
  assert_target-accepted :
      (url : String) (org : Option String) (s : RouteTables)
      → result (assert_target host url org) s ≡ ok tt
      → assert_route_target_allowed host.platform host.policies host.deny_list host.cluster_domain
          url org
        ≡ none
  unfolding assert_target
  assert_target-accepted url org s h =
      elim (Option-cases (
        assert_route_target_allowed host.platform host.policies host.deny_list host.cluster_domain
          url org)) [ inl fine ↦ fine | inr (e, bad) ↦ absurd (ground (arith, bad)) ]

  -- What is stored of a text: itself, where it is empty or already has the prefix, else the prefix and
  -- what the cipher makes of it.
  abbrev StoredText : String → String → Type 0
  StoredText plain stored =
      (((is_nil_text plain ≡ true) ⊎ (starts_with "enc:v1:" plain ≡ true)) × (stored ≡ plain))
      ⊎ ((is_nil_text plain ≡ false)
          × (starts_with "enc:v1:" plain ≡ false)
          × (stored ≡ str_append "enc:v1:" (host.seal plain)))

  abbrev pub IsSealed : Option String → Option String → Type 0
  IsSealed none stored = stored ≡ none
  IsSealed (some plain) stored = (text : String) × (stored ≡ some text) × StoredText plain text

  encrypt_secret-StoredText : (v : String) → StoredText v (encrypt_secret host v)
  unfolding encrypt_secret strip_prefix
  encrypt_secret-StoredText v = elim (Bool-cases (is_nil_text v)) [
    | inl empty ↦ inl (inl empty, rw (encrypt_secret, empty) refl)
    | inr full ↦ elim (Bool-cases (starts_with "enc:v1:" v)) [
      | inl already ↦ inl (inr already, rw (encrypt_secret, full, already) refl)
      | inr plain ↦ inr (full, plain, rw (encrypt_secret, full, plain) refl)
    ]
  ]

  encrypted-IsSealed : (secret : Option String) → IsSealed secret (encrypted host secret)
  encrypted-IsSealed none = refl
  encrypted-IsSealed (some v) = (encrypt_secret host v, refl, encrypt_secret-StoredText v)

  -- What the stored row satisfies, for the row that was given.
  abbrev pub IsChecked : Route → Route → Type 0
  IsChecked given r =
      (assert_route_target_allowed host.platform host.policies host.deny_list host.cluster_domain
          r.target_url r.organization_id
        ≡ none)
      × (starts_with "/" r.public_path ≡ true)
      × (all_safe host r.rewrite_from ≡ true)
      × IsSealed given.auth_value r.auth_value
      × IsSealed given.webhook_secret r.webhook_secret
      × IsSealed given.upstream_auth_value r.upstream_auth_value

  stored-IsChecked :
      (given r : Route) (routes : List Route)
      → IsChecked given r
      → IsChecked given (with_slug host r routes)
  unfolding with_slug
  stored-IsChecked given r routes h = elim (Option-cases (present r.slug)) [
    | inl derived ↦ rw (with_slug, derived) h
    | inr (v, named) ↦ rw (with_slug, named) h
  ]

  -- A route that is created has a target that the policy of its organization accepts, a path that
  -- begins with a slash and no rewriting pattern that is unsafe. Each of its secrets is what the cipher
  -- makes of the given one, behind the prefix enc:v1:, but one that is empty or already begins with
  -- the prefix is stored as it was given.
  pub create_route-IsChecked :
      (given new : Route) (s : RouteTables)
      → result (create_route host given) s ≡ ok new
      → IsChecked given new
  unfolding create_route insert_version
  create_route-IsChecked given new s h =
      let r : Route = record given { target_url = trimmed_target given.target_url } in
      let m1 : M RouteTables (Unit {0}) = assert_target host r.target_url r.organization_id in
      let m2 : M RouteTables (Unit {0}) = m1 >> free_soft_deleted_public_path r.public_path in
      let m3 : M RouteTables (Unit {0}) =
        m2 >> ensure (starts_with "/" r.public_path) bad_request in
      let m4 : M RouteTables (Unit {0}) = m3 >> ensure (all_safe host r.rewrite_from) bad_request in
      let put : M RouteTables Route =
        λ t. insert_route (with_slug host (with_secrets host r) t.routes) t in
      let (stored, inserted, versioned) =
        bind-ok (m4 >> put) (λ x. insert_version 1 x >> pure x) s new h in
      let (u4, patterns, inserts) = bind-ok m4 (λ x. put) s stored inserted in
      let (u3, paths, safe) =
        bind-ok m3 (λ x. ensure (all_safe host r.rewrite_from) bad_request) s u4 patterns in
      let (u2, freed, path) =
        bind-ok m2 (λ x. ensure (starts_with "/" r.public_path) bad_request) s u3 paths in
      let (u1, accepted, frees) =
        bind-ok m1 (λ x. free_soft_deleted_public_path r.public_path) s u2 freed in
      let same : stored ≡ new = ground (arith, versioned) in
      let row = insert_route-same _ stored (exec m4 s) inserts in
      let checked : IsChecked given (with_secrets host r) = (
        assert_target-accepted r.target_url r.organization_id s accepted,
        ensure-true _ bad_request (exec m2 s) path,
        ensure-true _ bad_request (exec m3 s) safe,
        encrypted-IsSealed r.auth_value,
        encrypted-IsSealed r.webhook_secret,
        encrypted-IsSealed r.upstream_auth_value,
      ) in
      subst (IsChecked given) (row ∙ same)
        (stored-IsChecked given (with_secrets host r) (exec m4 s).routes checked)
