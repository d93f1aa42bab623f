-- ===== src/Routes/Metadata.antt =====
-- backend/src/services/routeService.ts (bulkUpdate): the change of the environment, the group and the
-- tags of many routes. Only the columns that it reads or writes are here.
use mathlib.Core.Option
use cluster_gate.Prelude.{
  some, [], ◌∷◌, String, List, Option, Bool, ◌&&◌, ◌++◌, map, text_in, trim, filter_by, not,
  is_nil_text, distinct_from, if◌then◌else◌, count_by, ℕ,
}

pub data Environment : Type 0 where
  no_environment production staging development : Environment

pub record RouteMetadata : Type 0 where
  pub id : String
  pub environment : Environment
  pub route_group_id : Option String
  pub tags : List String
  pub updated_by_id : Option String
  pub is_deleted : Bool

-- A patch may leave the group, set it, or clear it.
pub record MetadataPatch : Type 0 where
  pub environment : Option Environment
  pub route_group_id : Option (Option String)
  pub add_tags : List String

-- `(patch.addTags ?? []).map((t) => t.trim()).filter(Boolean)`
abbrev clean_tags : MetadataPatch → List String
clean_tags patch = filter_by (λ t. not (is_nil_text t)) (map trim patch.add_tags)

abbrev base_change : MetadataPatch → String → RouteMetadata → RouteMetadata
base_change patch user_id r = record r {
  updated_by_id = some user_id;
  environment = Option.get_or patch.environment r.environment;
  route_group_id = Option.get_or patch.route_group_id r.route_group_id;
}

-- Without new tags the tags are not written; else each route's are merged without repetitions.
abbrev metadata_change : MetadataPatch → String → RouteMetadata → RouteMetadata
metadata_change patch user_id r = elim (clean_tags patch) [
  | [] ↦ base_change patch user_id r
  | t ∷ ts ↦ record (base_change patch user_id r) { tags = distinct_from [] (r.tags ++ t ∷ ts) }
]

abbrev is_addressed : List String → RouteMetadata → Bool
is_addressed ids r = text_in r.id ids && not r.is_deleted

-- The number of routes, and the rows.
unfoldable pub bulk_update :
    List String → MetadataPatch → String → List RouteMetadata → ℕ × List RouteMetadata
bulk_update ids patch user_id rows = (
  count_by (is_addressed ids) rows,
  map (λ r. if is_addressed ids r then metadata_change patch user_id r else r) rows,
)
