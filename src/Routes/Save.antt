-- ===== src/Routes/Save.antt =====
-- backend/src/services/routeService.ts: creating a route.
use cluster_gate.Prelude.{
  none, some, [], ◌∷◌, ok, throw, Option, List, String, M, strip_prefix, ◌>>◌, find_first, present,
  Bool, if◌then◌else◌, str_eq, bad_request, not, is_nil_text, ensure, some_of, ◌&&◌, starts_with,
  ◌||◌, str_append, ◌>>=◌, pure,
}
use cluster_gate.Routes.{
  Route, RouteTables, Services, has_path, is_live, insert_route, write_route, insert_version,
}
use cluster_gate.Targets.Hosts.{strip_suffix}
use cluster_gate.Targets.Access.{assert_route_target_allowed}
use cluster_gate.Routes.Names.{pick_route_slug, archive_tag}
use mathlib.Core.Option

abbrev without_suffix : String → String → String
without_suffix p s = Option.get_or (strip_suffix p s) s

-- `targetUrl.replace(/\/\*$/, '').replace(/\/$/, '')`
unfoldable pub trimmed_target : String → String
unfolding strip_suffix
trimmed_target url = without_suffix "/" (without_suffix "/*" url)

unfoldable pub free_soft_deleted_public_path : String → M RouteTables (Unit {0})
free_soft_deleted_public_path path s =
    elim (find_first (λ r. has_path path r && not (is_live r)) s.routes) [
      | none ↦ (ok tt, s)
      | some stale ↦
          (write_route (record stale {
            public_path = str_append stale.public_path (str_append archive_tag stale.id);
          })
              >> pure tt)
            s
    ]

module _ (host : Services) where
  -- encryptSecret of lib/crypto.ts
  unfoldable pub encrypt_secret : String → String
  unfolding strip_prefix
  encrypt_secret plain =
      if is_nil_text plain || starts_with "enc:v1:" plain
      then plain
      else str_append "enc:v1:" (host.seal plain)

  abbrev pub encrypted : Option String → Option String
  encrypted secret = Option.map encrypt_secret secret

  unfoldable pub assert_target : String → Option String → M RouteTables (Unit {0})
  assert_target url org s =
      elim (assert_route_target_allowed host.platform host.policies host.deny_list
        host.cluster_domain url org) [ none ↦ (ok tt, s) | some e ↦ (throw bad_request, s) ]

  unfoldable pub assert_targets :
      List (String × String) → String → Option String → M RouteTables (Unit {0})
  assert_targets [] id org s = (ok tt, s)
  assert_targets ((route, url) ∷ more) id org s =
      if str_eq route id
      then (assert_target url org >> assert_targets more id org) s
      else assert_targets more id org s

  abbrev pub all_safe : List String → Bool
  all_safe patterns = not (some_of (λ p. not (host.is_safe_regex p)) patterns)

  unfoldable pub with_slug : Route → List Route → Route
  with_slug r routes = elim (present r.slug) [
    | some s ↦ r
    | none ↦ record r { slug = pick_route_slug host.fold r.name none routes }
  ]

  abbrev pub with_secrets : Route → Route
  with_secrets r = record r {
    auth_value = encrypted r.auth_value;
    upstream_auth_value = encrypted r.upstream_auth_value;
    webhook_secret = encrypted r.webhook_secret;
  }

  -- The row is given with the id and the columns' defaults of the database.
  unfoldable pub create_route : Route → M RouteTables Route
  create_route given =
      let r = record given { target_url = trimmed_target given.target_url } in
      assert_target r.target_url r.organization_id
      >> free_soft_deleted_public_path r.public_path
      >> ensure (starts_with "/" r.public_path) bad_request
      >> ensure (all_safe r.rewrite_from) bad_request
      >> (λ s. insert_route (with_slug (with_secrets r) s.routes) s)
      >>= λ new. insert_version 1 new >> pure new
