-- ===== src/Routes.antt =====
-- backend/src/services/routeService.ts: the routes and their versions. The columns that the service
-- only stores stand together in `settings`; the table's two unique columns are the path and the slug.
pub mod Names
pub mod Save
pub mod Change
pub mod Archive
pub mod Metadata
mod Archived
mod Restored
mod Inactive
mod Updates
mod Runs
mod Admitted
mod Tests
use cluster_gate.Prelude.{
  ℕ, none, some, true, false, [], ◌∷◌, ok, throw, Option, List, String, M, Bool, str_eq, ◌++◌, not,
  ◌&&◌, if◌then◌else◌, some_of, update_first, ◌||◌, conflict,
}
use cluster_gate.Targets.{Platform}
use cluster_gate.Targets.Access.{Settings}
use cluster_gate.Targets.DenyList.{Rule}

pub data Status : Type 0 where
  draft published : Status

pub record Route : Type 0 where
  pub id : String
  pub name : String
  pub slug : Option String
  pub public_path : String
  pub target_url : String
  pub organization_id : Option String
  pub is_active : Bool
  pub status : Status
  pub is_protected : Bool
  pub auth_value : Option String
  pub webhook_secret : Option String
  pub upstream_auth_value : Option String
  -- the patterns of rewriteRules
  pub rewrite_from : List String
  pub settings : String
  pub version : ℕ
  pub deleted_at : Option ℕ

pub record RouteVersion : Type 0 where
  pub route_id : String
  pub number : ℕ
  pub snapshot : Route

pub record RouteTables : Type 0 where
  pub routes : List Route
  pub versions : List RouteVersion
  -- the load-balancing targets: a route's id and a URL
  pub targets : List (String × String)

-- What the service calls: the target policy, toLowerCase with the normalization of Unicode, the test
-- of a regular expression, and the cipher.
pub record Services : Type 0 where
  pub platform : Platform
  pub policies : Settings
  pub deny_list : List Rule
  pub cluster_domain : String
  pub fold : String → String
  pub is_safe_regex : String → Bool
  pub seal : String → String

abbrev pub is_route : String → Route → Bool
is_route id r = str_eq r.id id

abbrev pub is_live : Route → Bool
is_live r = elim r.deleted_at [ none ↦ true | some t ↦ false ]

abbrev pub is_live_route : String → Route → Bool
is_live_route id r = is_route id r && is_live r

abbrev pub is_archived_route : String → Route → Bool
is_archived_route id r = is_route id r && not (is_live r)

abbrev pub has_path : String → Route → Bool
has_path path r = str_eq r.public_path path

-- A column without a value equals nothing.
abbrev pub has_slug : String → Route → Bool
has_slug slug r = elim r.slug [ none ↦ false | some s ↦ str_eq s slug ]

abbrev pub shares_slug : Option String → Route → Bool
shares_slug none r = false
shares_slug (some s) r = has_slug s r

-- Whether another row holds the path or the slug of a row that is to be written.
abbrev pub clashes : Route → Route → Bool
clashes new r = not (is_route new.id r) && (has_path new.public_path r || shares_slug new.slug r)

unfoldable pub is_unique : Route → List Route → Bool
is_unique new routes = not (some_of (clashes new) routes)

unfoldable pub insert_route : Route → M RouteTables Route
insert_route r s =
    if is_unique r s.routes && not (some_of (is_route r.id) s.routes)
    then (ok r, record s { routes = s.routes ++ (r ∷ []) })
    else (throw conflict, s)

-- `update({ where: { id } })` of a row that was found.
unfoldable pub write_route : Route → M RouteTables Route
write_route r s =
    if is_unique r s.routes
    then (ok r, record s { routes = update_first (is_route r.id) (λ old. r) s.routes })
    else (throw conflict, s)

unfoldable pub insert_version : ℕ → Route → M RouteTables (Unit {0})
insert_version number r s =
    let v : RouteVersion = record { route_id = r.id; number = number; snapshot = r } in
    (ok tt, record s { versions = s.versions ++ (v ∷ []) })
