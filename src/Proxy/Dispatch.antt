-- ===== src/Proxy/Dispatch.antt =====
-- backend/src/proxy/proxyHandler.ts: which route a request is for, and in proxyService.ts the URL that
-- proxyRequest makes of its path. A text is the list of its UTF-16 code units.
pub mod Rooted
use cluster_gate.Prelude.{
  none, some, true, false, [], ◌∷◌, List, Option, Bool, if◌then◌else◌, not, ◌&&◌, ◌||◌, ◌==◌, ◌++◌,
  drop, length, find_first, some_of,
}
use cluster_gate.PathAllowlist.{Text, slash, same_text, is_nil}
use cluster_gate.PathAllowlist.Match.{starts_with, base_of, or_root}

abbrev pub letter_r : Text
letter_r = 114 ∷ []

pub record RewriteRule : Type 0 where
  pub from : Text
  pub to : Text

-- The columns that are read here; `is_served` is the condition of the query: active, published and
-- not deleted.
pub record PublicRoute : Type 0 where
  pub public_path : Text
  pub is_served : Bool
  pub methods : List Text
  pub cors_enabled : Bool
  pub cors_origins : List Text
  pub maintenance_mode : Bool
  pub rewrite_rules : List RewriteRule
  pub strip_prefix : Bool

-- The path below the mount /r, without the /* of a wildcard route.
abbrev pub route_path : Text → Text
route_path public_path = base_of (
    if starts_with (slash ∷ 114 ∷ slash ∷ []) public_path
    then drop 2 public_path
    else if starts_with (slash ∷ letter_r) public_path
    then or_root (drop 2 public_path)
    else public_path)

-- Whole segments only.
abbrev pub covers_path : Text → Text → Bool
covers_path path r =
    same_text r (slash ∷ []) || is_nil r || same_text path r || starts_with (r ++ slash ∷ []) path

unfoldable pub find_route : Text → List PublicRoute → Option PublicRoute
unfolding starts_with base_of or_root
find_route path routes =
    find_first (λ r. r.is_served && covers_path path (route_path r.public_path)) routes

abbrev pub is_listed : List Text → Text → Bool
is_listed texts t = some_of (λ u. same_text u t) texts

pub data Dispatched : Type 0 where
  route_not_found method_not_allowed preflight in_maintenance : Dispatched
  proxied : PublicRoute → Dispatched

abbrev pub allows_method : Text → PublicRoute → Bool
allows_method method r = is_nil r.methods || is_listed r.methods method

-- Whether the origin is reflected.
abbrev reflects : Option Text → PublicRoute → Bool
reflects none r = false
reflects (some origin) r = r.cors_enabled && not (is_nil origin) && is_listed r.cors_origins origin

abbrev options_method : Text
options_method = 79 ∷ 80 ∷ 84 ∷ 73 ∷ 79 ∷ 78 ∷ 83 ∷ []

-- The answer, and whether the headers of CORS are set on the response.
unfoldable pub proxy_handler : List PublicRoute → Text → Option Text → Text → Dispatched × Bool
unfolding find_route
proxy_handler routes method origin path = elim (find_route path routes) [
  | none ↦ (route_not_found, false)
  | some r ↦
      if allows_method method r
      then (
        if r.cors_enabled && same_text method options_method
            then preflight
            else if r.maintenance_mode
            then in_maintenance
            else proxied r,
        reflects origin r,
      )
      else (method_not_allowed, false)
]

-- `replace(/\/$/, '')`
unfoldable pub without_last_slash : Text → Text
without_last_slash [] = []
without_last_slash (c ∷ cs) =
    let rest = without_last_slash cs in if is_nil cs && c == slash then [] else c ∷ rest

-- The public path is cut off the request's path; what is left keeps at least a slash.
unfoldable pub suffix_path : Text → Text → Text
unfolding base_of starts_with or_root
suffix_path public_path proxy_path =
    let base = base_of public_path in
    if not (same_text base (slash ∷ [])) && starts_with base proxy_path
    then or_root (drop (length base) proxy_path)
    else proxy_path

-- The regular expression of a rule: isSafeRegex, `test`, and `replace`.
pub record Regexes : Type 0 where
  pub is_safe : Text → Bool
  pub test : Text → Text → Bool
  pub replace : RewriteRule → Text → Text

module _ (regexes : Regexes) where
  abbrev applies : Text → RewriteRule → Bool
  applies path rule = regexes.is_safe rule.from && regexes.test rule.from path

  -- The first rule that is safe and matches.
  unfoldable pub rewritten : List RewriteRule → Text → Text
  rewritten rules path = elim (find_first (applies path) rules) [
    | none ↦ path
    | some rule ↦ regexes.replace rule path
  ]

  unfoldable pub target_path : PublicRoute → Text → Text
  unfolding rewritten suffix_path
  target_path r proxy_path =
      let path = rewritten r.rewrite_rules (suffix_path r.public_path proxy_path) in
      if r.strip_prefix then slash ∷ [] else path

  -- The URL for a path that the handler passes on, below the mount.
  unfoldable pub full_target_url : PublicRoute → Text → Text → Text
  unfolding target_path without_last_slash
  full_target_url r target_url path =
      without_last_slash target_url ++ target_path r (slash ∷ 114 ∷ path)
