-- ===== src/Routes/Archive.antt =====
-- backend/src/services/routeService.ts: publishing, archiving, restoring and copying routes.
use cluster_gate.Prelude.{
  ℕ, none, some, true, false, zero, suc, ok, throw, str_append, String, List, Option, Bool, some_of,
  M, str_eq, text_in, if◌then◌else◌, map, is_nil_text, ltb, ◌&&◌, find_first, ◌==◌, not_found,
  filter_by, not, ensure, bad_request, ◌>>◌, ◌||◌, pure, [], ◌∷◌, AppError,
}
use cluster_gate.Routes.{
  Route, RouteTables, Services, RouteVersion, draft, has_path, published, is_live, is_live_route,
  is_archived_route, has_slug, write_route, insert_route, is_route,
}
use cluster_gate.Routes.Names.{mangle_for_archive, unmangle_archive, archive_tag}
use cluster_gate.Targets.Hosts.{octet_text}
use cluster_gate.Slugs.{text_size}
use cluster_gate.Routes.Change.{RouteUpdate, update_route}
use cluster_gate.Routes.Save.{create_route}
use mathlib.Core.Option

unfoldable pub publish_route : String → M RouteTables Route
publish_route id s = elim (find_first (is_live_route id) s.routes) [
  | none ↦ (throw not_found, s)
  | some r ↦ write_route (record r { status = published; is_active = true }) s
]

unfoldable pub deactivate_route : String → M RouteTables Route
deactivate_route id s = elim (find_first (is_live_route id) s.routes) [
  | none ↦ (throw not_found, s)
  | some r ↦ write_route (record r { is_active = false }) s
]

abbrev pub archived : ℕ → Route → Route
archived now r = record r {
  deleted_at = some now;
  is_active = false;
  public_path = mangle_for_archive r.id r.public_path;
  slug = Option.map (mangle_for_archive r.id) r.slug;
}

abbrev is_confirmed : Route → Option String → Bool
is_confirmed r none = false
is_confirmed r (some name) = str_eq name r.name

unfoldable pub delete_route : ℕ → String → Option String → M RouteTables (Unit {0})
delete_route now id confirm_name s = elim (find_first (is_live_route id) s.routes) [
  | none ↦ (throw not_found, s)
  | some r ↦
      (ensure (not r.is_active) bad_request
          >> ensure (not r.is_protected || is_confirmed r confirm_name) bad_request
          >> write_route (archived now r)
          >> pure tt)
        s
]

-- The last five characters.
unfoldable pub tail_of : String → String
tail_of String.[] = ""
tail_of (String.◌∷◌ c s) =
    let rest = tail_of s in if ltb (text_size s) 5 then String.◌∷◌ c s else rest

abbrev restored_name : String → String → String
restored_name id value = str_append value (str_append "-restored-" (tail_of id))

-- A path or a slug as it was, or with a suffix where a live route has taken it.
abbrev pub is_taken : (Route → Bool) → String → List Route → Bool
is_taken held id routes = some_of (λ r. held r && is_live r && not (is_route id r)) routes

unfoldable pub restored_path : Route → List Route → String
restored_path r routes =
    let path = unmangle_archive r.id r.public_path in
    if is_taken (has_path path) r.id routes then restored_name r.id path else path

unfoldable pub restored_slug : Route → List Route → Option String
restored_slug r routes = elim (Option.map (unmangle_archive r.id) r.slug) [
  | none ↦ none
  | some slug ↦
      if is_nil_text slug
      then some slug
      else if is_taken (has_slug slug) r.id routes
      then some (restored_name r.id slug)
      else some slug
]

unfoldable pub restore_route : String → M RouteTables Route
restore_route id s = elim (find_first (is_archived_route id) s.routes) [
  | none ↦ (throw not_found, s)
  | some r ↦
      write_route
        (record r {
          deleted_at = none;
          is_active = false;
          status = draft;
          public_path = restored_path r s.routes;
          slug = restored_slug r s.routes;
        })
        s
]

-- The versions and targets of a route are deleted with it.
unfoldable pub permanently_delete_route : String → M RouteTables (Unit {0})
permanently_delete_route id s = elim (find_first (is_archived_route id) s.routes) [
  | none ↦ (throw not_found, s)
  | some r ↦ (
    ok tt,
    record {
      routes = filter_by (λ q. not (is_route id q)) s.routes;
      versions = filter_by (λ v. not (str_eq v.route_id id)) s.versions;
      targets = filter_by (λ t. not (str_eq t.0 id)) s.targets;
    },
  )
]

-- The paths that are tried for a copy; after ten that are taken, the next one is not looked up.
unfoldable pub copy_path : ℕ → ℕ → String → String → List Route → String
copy_path zero attempts base path routes = path
copy_path (suc n) attempts base path routes =
    let next =
      copy_path n (suc attempts) base
        (str_append base (str_append "-copy-" (octet_text (suc attempts)))) routes in
    if some_of (λ r. has_path path r && is_live r) routes then next else path

-- All columns but a few are those of the original, the slug among them.
unfoldable pub copy_of : String → Route → List Route → Route
copy_of new_id r routes = record r {
  id = new_id;
  name = str_append r.name " (Copy)";
  public_path = copy_path 10 0 r.public_path (str_append r.public_path "-copy") routes;
  status = draft;
  is_active = false;
  version = 1;
  deleted_at = none;
}

unfoldable pub duplicate_route : String → String → M RouteTables Route
duplicate_route new_id id s = elim (find_first (is_live_route id) s.routes) [
  | none ↦ (throw not_found, s)
  | some r ↦ insert_route (copy_of new_id r s.routes) s
]

-- A snapshot as a change: the columns that are not named in restoreRouteVersion.
abbrev pub as_update : Route → RouteUpdate
as_update r = record {
  name = some r.name;
  slug = some r.slug;
  public_path = some r.public_path;
  target_url = some r.target_url;
  organization_id = some r.organization_id;
  is_active = some r.is_active;
  status = some r.status;
  is_protected = some r.is_protected;
  auth_value = some r.auth_value;
  webhook_secret = some r.webhook_secret;
  upstream_auth_value = some r.upstream_auth_value;
  rewrite_from = some r.rewrite_from;
  settings = some r.settings;
}

abbrev pub is_version : String → ℕ → RouteVersion → Bool
is_version id number v = str_eq v.route_id id && v.number == number

-- A version is named by its route and its number.
unfoldable pub restore_route_version : Services → String → ℕ → M RouteTables Route
restore_route_version host id number s = elim (find_first (is_version id number) s.versions) [
  | none ↦ (throw not_found, s)
  | some v ↦ update_route host id (as_update v.snapshot) s
]

abbrev pub is_selected : List String → Route → Bool
is_selected ids r = text_in r.id ids && is_live r

unfoldable pub bulk_publish : List String → RouteTables → RouteTables
bulk_publish ids s = record s {
  routes =
      map (λ r. if is_selected ids r then record r { status = published; is_active = true } else r)
        s.routes;
}

unfoldable pub bulk_deactivate : List String → RouteTables → RouteTables
bulk_deactivate ids s = record s {
  routes = map (λ r. if is_selected ids r then record r { is_active = false } else r) s.routes;
}

-- bulkDelete marks the path and leaves the slug.
abbrev pub bulk_archived : ℕ → Route → Route
bulk_archived now r = record r {
  deleted_at = some now;
  is_active = false;
  public_path = str_append r.public_path (str_append archive_tag r.id);
}

unfoldable pub bulk_delete : ℕ → List String → RouteTables → RouteTables
bulk_delete now ids s = record s {
  routes = map (λ r. if is_selected ids r then bulk_archived now r else r) s.routes;
}

-- The rows that are given one after another: how many were created, and the errors.
unfoldable pub import_routes :
    Services → List Route → RouteTables → (ℕ × List AppError) × RouteTables
import_routes host [] s = ((0, []), s)
import_routes host (r ∷ given) s =
    let made = create_route host r s in
    let rest = import_routes host given made.1 in
    (elim made.0 [ ok new ↦ (suc rest.0.0, rest.0.1) | throw e ↦ (rest.0.0, e ∷ rest.0.1) ], rest.1)
