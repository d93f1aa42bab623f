-- ===== src/Routes/Tests.antt =====
-- Routes at concrete tables.
use cluster_gate.Prelude.{
  str_append, none, some, true, false, [], ◌∷◌, refl, ok, throw, find_first, strip_prefix, some_of,
  ◌≡◌, result, conflict, String, arith, count_by, filter_by, text_in, trim, trim_start, trim_end,
  is_blank, distinct_from,
}
use cluster_gate.Targets.{Platform, nan}
use cluster_gate.Targets.Access.{Settings, assert_route_target_allowed}
use cluster_gate.Routes.{
  Route, RouteTables, Services, draft, insert_route, is_unique, insert_version,
}
use cluster_gate.Routes.Inactive.{AllQuiet}
use cluster_gate.Routes.Admitted.{IsChecked, create_route-IsChecked}
use cluster_gate.Routes.Save.{
  create_route, trimmed_target, assert_target, free_soft_deleted_public_path, with_slug,
  encrypt_secret,
}
use cluster_gate.Routes.Archive.{archived, duplicate_route, restore_route}
use cluster_gate.Routes.Archived.{is_plain}
use cluster_gate.Routes.Runs.{run, creates, publishes, deactivates, deletes, restores, run-AllQuiet}
use cluster_gate.Routes.Names.{mangle_for_archive, pick_route_slug, try_slugs}
use cluster_gate.Routes.Restored.{duplicate_route-slug, restore_route-archived}
use mathlib.Core.Path.{subst}
use cluster_gate.Targets.Check.{check_url, check_resolved}
use cluster_gate.Slugs.{slugify}
use cluster_gate.Routes.Metadata.{bulk_update, RouteMetadata, staging}
use mathlib.Core.Option

abbrev quiet_node : Platform
quiet_node = record {
  lower = λ s. s;
  number = λ s. nan;
  ip_version = λ s. none;
  in_subnet = λ n a f. false;
  parse_url =
      λ s. Option.map (λ h. record { protocol = "http:"; hostname = h }) (strip_prefix "http://" s);
  resolve = λ s. [];
  lookup_all = λ s. none;
}

abbrev settings : Settings
settings = record { organization = λ o. none; membership = λ u o. none; managed = λ u. [] }

abbrev host : Services
host = record {
  platform = quiet_node;
  policies = settings;
  deny_list = [];
  cluster_domain = "cluster.local";
  fold = λ s. s;
  is_safe_regex = λ p. true;
  seal = λ s. str_append "~" s;
}

abbrev shop : Route
shop = record {
  id = "r1";
  name = "shop api";
  slug = none;
  public_path = "/shop/*";
  target_url = "http://shop/*";
  organization_id = none;
  is_active = false;
  status = draft;
  is_protected = false;
  auth_value = some "key";
  webhook_secret = none;
  upstream_auth_value = none;
  rewrite_from = [];
  settings = "{}";
  version = 1;
  deleted_at = none;
}

abbrev stored : Route
stored = record shop {
  slug = some "shop-api";
  target_url = "http://shop";
  auth_value = some "enc:v1:~key";
}

abbrev nothing : RouteTables
nothing = record { routes = []; versions = []; targets = [] }

abbrev one : RouteTables
one = record { routes = stored ∷ []; versions = []; targets = [] }

created : result (create_route host shop) nothing ≡ ok stored
unfolding create_route trimmed_target assert_target assert_route_target_allowed check_url
    check_resolved free_soft_deleted_public_path insert_route is_unique insert_version with_slug
    pick_route_slug encrypt_secret slugify try_slugs
created = refl

run-AllQuiet_example : AllQuiet (
    run host
      (creates shop ∷ publishes "r1" ∷ deactivates "r1" ∷ deletes 5 "r1" none ∷ restores "r1" ∷ [])
      nothing)
run-AllQuiet_example =
    run-AllQuiet host
      (creates shop ∷ publishes "r1" ∷ deactivates "r1" ∷ deletes 5 "r1" none ∷ restores "r1" ∷ [])
      nothing tt

create_route-IsChecked_example : IsChecked host shop stored
create_route-IsChecked_example = create_route-IsChecked host shop stored nothing created

abbrev kept : RouteTables
kept = record { routes = archived 7 stored ∷ []; versions = []; targets = [] }

slug_plain : (v : String) → stored.slug ≡ some v → is_plain v ≡ true
unfolding is_plain
slug_plain v e =
    let same : "shop-api" ≡ v = ground arith in subst (λ x. is_plain x ≡ true) same refl

restore_route-archived_example : result (restore_route "r1") kept ≡ ok stored
unfolding is_plain find_first some_of mangle_for_archive
restore_route-archived_example = restore_route-archived 7 stored kept refl refl slug_plain refl

duplicate_route-slug_example : duplicate_route "r2" "r1" one ≡ (throw conflict, one)
unfolding find_first
duplicate_route-slug_example = duplicate_route-slug "r2" "r1" "shop-api" stored one refl refl refl

abbrev tagged : RouteMetadata
tagged = record {
  id = "r1";
  environment = staging;
  route_group_id = some "g1";
  tags = "a" ∷ "b" ∷ [];
  updated_by_id = none;
  is_deleted = false;
}

-- The new tags are trimmed and stand once each; the environment stays and the group is cleared.
merged_tags :
    bulk_update
      ("r1" ∷ [])
      (record { environment = none; route_group_id = some none; add_tags = " b" ∷ "c" ∷ " " ∷ [] })
      "u1"
      (tagged ∷ record tagged { id = "r2" } ∷ [])
    ≡ (
      1,
      record tagged {
        route_group_id = none;
        tags = "a" ∷ "b" ∷ "c" ∷ [];
        updated_by_id = some "u1";
      }
          ∷ record tagged { id = "r2" }
          ∷ [],
    )
unfolding bulk_update count_by filter_by text_in some_of trim trim_start trim_end is_blank
    distinct_from
merged_tags = refl
