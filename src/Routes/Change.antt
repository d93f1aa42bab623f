-- ===== src/Routes/Change.antt =====
-- backend/src/services/routeService.ts: changing a route.
use cluster_gate.Prelude.{
  none, some, true, false, [], ◌∷◌, suc, ok, throw, Bool, present, String, List, M, Option,
  find_first, str_eq, if◌then◌else◌, not, ◌||◌, ◌&&◌, ◌>>=◌, not_found, ◌>>◌, pure, ensure,
  bad_request,
}
use cluster_gate.Routes.{
  Route, RouteTables, Services, Status, draft, published, is_live_route, write_route,
  insert_version,
}
use cluster_gate.Routes.Save.{
  assert_target, trimmed_target, encrypt_secret, assert_targets, free_soft_deleted_public_path,
  all_safe,
}
use cluster_gate.Routes.Names.{pick_route_slug}
use mathlib.Core.Option

-- The fields of a change, `none` where they are undefined.
pub record RouteUpdate : Type 0 where
  pub name : Option String
  pub slug : Option (Option String)
  pub public_path : Option String
  pub target_url : Option String
  pub organization_id : Option (Option String)
  pub is_active : Option Bool
  pub status : Option Status
  pub is_protected : Option Bool
  pub auth_value : Option (Option String)
  pub webhook_secret : Option (Option String)
  pub upstream_auth_value : Option (Option String)
  pub rewrite_from : Option (List String)
  pub settings : Option String

-- What GET shows in place of a secret.
abbrev secret_mask : String
secret_mask = "••••••••"

-- JSON.stringify tells two values of a column apart exactly where they differ.
abbrev same_option : Option String → Option String → Bool
same_option none none = true
same_option none (some b) = false
same_option (some a) none = false
same_option (some a) (some b) = str_eq a b

abbrev same_bool : Bool → Bool → Bool
same_bool true b = b
same_bool false b = not b

abbrev same_status : Status → Status → Bool
same_status draft draft = true
same_status published published = true
same_status _ _ = false

unfoldable pub same_list : List String → List String → Bool
same_list [] [] = true
same_list [] (y ∷ ys) = false
same_list (x ∷ xs) [] = false
same_list (x ∷ xs) (y ∷ ys) = str_eq x y && same_list xs ys

abbrev differs : {A : Type 0} → (A → A → Bool) → A → Option A → Bool
differs same old none = false
differs same old (some new) = not (same old new)

-- hasChanges: a field of the change that is not what the row holds.
unfoldable pub has_changes : Route → RouteUpdate → Bool
has_changes r u =
    differs str_eq r.name u.name
    || differs same_option r.slug u.slug
    || differs str_eq r.public_path u.public_path
    || differs str_eq r.target_url u.target_url
    || differs same_option r.organization_id u.organization_id
    || differs same_bool r.is_active u.is_active
    || differs same_status r.status u.status
    || differs same_bool r.is_protected u.is_protected
    || differs same_option r.auth_value u.auth_value
    || differs same_option r.webhook_secret u.webhook_secret
    || differs same_option r.upstream_auth_value u.upstream_auth_value
    || differs same_list r.rewrite_from u.rewrite_from
    || differs str_eq r.settings u.settings

unfoldable pub route_with : Route → RouteUpdate → Route
route_with r u = record {
  id = r.id;
  name = Option.get_or u.name r.name;
  slug = Option.get_or u.slug r.slug;
  public_path = Option.get_or u.public_path r.public_path;
  target_url = Option.get_or u.target_url r.target_url;
  organization_id = Option.get_or u.organization_id r.organization_id;
  is_active = Option.get_or u.is_active r.is_active;
  status = Option.get_or u.status r.status;
  is_protected = Option.get_or u.is_protected r.is_protected;
  auth_value = Option.get_or u.auth_value r.auth_value;
  webhook_secret = Option.get_or u.webhook_secret r.webhook_secret;
  upstream_auth_value = Option.get_or u.upstream_auth_value r.upstream_auth_value;
  rewrite_from = Option.get_or u.rewrite_from r.rewrite_from;
  settings = Option.get_or u.settings r.settings;
  version = r.version;
  deleted_at = r.deleted_at;
}

-- Whether the change moves the route to another organization.
abbrev pub org_changed : Route → RouteUpdate → Bool
org_changed r u = elim u.organization_id [
  | none ↦ false
  | some o ↦ not (same_option o r.organization_id)
]

abbrev explicit_slug : Option (Option String) → Option String
explicit_slug none = none
explicit_slug (some s) = present s

unfoldable pub free_new_path : Route → RouteUpdate → M RouteTables (Unit {0})
free_new_path r u s = elim u.public_path [
  | none ↦ (ok tt, s)
  | some path ↦
      if str_eq path r.public_path then (ok tt, s) else free_soft_deleted_public_path path s
]

abbrev trimmed_update : RouteUpdate → RouteUpdate
trimmed_update u = record u {
  target_url = elim (present u.target_url) [
    | none ↦ u.target_url
    | some url ↦ some (trimmed_target url)
  ];
}

-- The row with the change, with the next version where a column changes, which gets a snapshot.
unfoldable pub save_route : Route → RouteUpdate → M RouteTables Route
save_route r u s =
    let row = route_with r u in
    if has_changes r u
    then (write_route (record row { version = suc r.version }) >>= λ new.
          insert_version new.version new >> pure new)
        s
    else write_route row s

module _ (host : Services) where
  -- The slug follows a changed name, where none is given.
  unfoldable pub derive_slug : Route → RouteUpdate → List Route → RouteUpdate
  derive_slug r u routes =
      if differs str_eq r.name u.name
      then elim (explicit_slug u.slug) [
        | some s ↦ u
        | none ↦ record u {
          slug = some (pick_route_slug host.fold (Option.get_or u.name r.name) (some r.id) routes);
        }
      ]
      else u

  -- A secret that is the mask is not changed.
  abbrev new_secret : Option (Option String) → Option (Option String)
  new_secret none = none
  new_secret (some none) = some none
  new_secret (some (some s)) =
      if str_eq s secret_mask then none else some (some (encrypt_secret host s))

  abbrev new_secrets : RouteUpdate → RouteUpdate
  new_secrets u = record u {
    auth_value = new_secret u.auth_value;
    webhook_secret = new_secret u.webhook_secret;
    upstream_auth_value = new_secret u.upstream_auth_value;
  }

  -- Where neither the target nor the organization changes, nothing is checked.
  unfoldable pub check_new_target : Route → RouteUpdate → M RouteTables (Unit {0})
  check_new_target r u s =
      let org = Option.get_or u.organization_id r.organization_id in
      elim (present u.target_url) [
        | some url ↦ assert_target host (trimmed_target url) org s
        | none ↦ if org_changed r u then assert_target host r.target_url org s else (ok tt, s)
      ]

  unfoldable pub check_pool : Route → RouteUpdate → M RouteTables (Unit {0})
  check_pool r u s =
      if org_changed r u
      then assert_targets host s.targets r.id (Option.get_or u.organization_id r.organization_id) s
      else (ok tt, s)

  unfoldable pub update_route : String → RouteUpdate → M RouteTables Route
  update_route id given s = elim (find_first (is_live_route id) s.routes) [
    | none ↦ (throw not_found, s)
    | some r ↦
        let u = derive_slug r given s.routes in
        (check_new_target r u
            >> check_pool r u
            >> free_new_path r u
            >> ensure (all_safe host (Option.get_or u.rewrite_from [])) bad_request
            >> save_route r (new_secrets (trimmed_update u)))
          s
  ]
