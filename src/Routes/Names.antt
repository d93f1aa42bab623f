-- ===== src/Routes/Names.antt =====
-- backend/src/services/routeService.ts: the choice of a slug, and the marks that free the path and the
-- slug of an archived route.
use cluster_gate.Prelude.{
  ℕ, none, some, true, false, zero, suc, String, Option, str_append, List, Bool, if◌then◌else◌, ◌+◌,
  not, is_nil_text, find_first, strip_prefix, ◌&&◌,
}
use cluster_gate.Routes.{Route, is_route, has_slug}
use cluster_gate.Slugs.{slugify}
use cluster_gate.Targets.Hosts.{octet_text}
use mathlib.Core.Option

abbrev is_other : Option String → Route → Bool
is_other none r = true
is_other (some id) r = not (is_route id r)

abbrev pub numbered : String → ℕ → String
numbered base i = str_append base (str_append "-" (octet_text i))

-- The loop of pickRouteSlug: the rounds that are left, and the counter of the round.
unfoldable pub try_slugs : ℕ → ℕ → String → String → Option String → List Route → Option String
try_slugs zero i base candidate except routes = none
try_slugs (suc n) i base candidate except routes =
    let rest = try_slugs n (i + 2) base (numbered base (i + 1)) except routes in
    elim (find_first (λ r. has_slug candidate r && is_other except r) routes) [
      | none ↦ some candidate
      | some r ↦ rest
    ]

-- The counter goes up by two in each round and stays below 100.
unfoldable pub pick_route_slug :
    (String → String) → String → Option String → List Route → Option String
pick_route_slug fold name except routes = elim (slugify fold (some name)) [
  | none ↦ none
  | some base ↦ try_slugs 50 1 base base except routes
]

abbrev pub archive_tag : String
archive_tag = "__deleted_"

-- What comes before the first place where the text stands, if there is one.
unfoldable pub before_text : String → String → Option String
before_text t String.[] = if is_nil_text t then some "" else none
before_text t (String.◌∷◌ c s) =
    let rest = before_text t s in
    elim (strip_prefix t (String.◌∷◌ c s)) [
      | some after ↦ some ""
      | none ↦ Option.map (String.◌∷◌ c) rest
    ]

abbrev pub contains_text : String → String → Bool
contains_text t s = elim (before_text t s) [ none ↦ false | some b ↦ true ]

unfoldable pub mangle_for_archive : String → String → String
mangle_for_archive id value =
    if contains_text archive_tag value then value else str_append value (str_append archive_tag id)

unfoldable pub unmangle_archive : String → String → String
unmangle_archive id value = Option.get_or (before_text (str_append archive_tag id) value) value
