-- ===== src/Proxy/Location.antt =====
-- backend/src/services/proxyService.ts (rewriteLocationHeader, maybeRewriteLocation): redirects of a
-- target are led back below the public path. The origin of a URL is a parameter.
use cluster_gate.Prelude.{
  ℕ, none, some, false, [], ◌∷◌, refl, ◌≡◌, String, Option, strip_prefix, Bool, List, if◌then◌else◌,
  str_eq, is_nil_text, ◌&&◌, leb, ltb, ◌||◌, starts_with, str_append,
}

-- `origin_of` is `new URL(s).origin`, where `none` is its exception.
unfoldable pub rewrite_location_header :
    (String → Option String) → String → String → String → String
unfolding strip_prefix
rewrite_location_header origin_of location base_path upstream_url =
    if is_nil_text location
      || starts_with (str_append base_path "/") location
      || str_eq location base_path
    then location
    else if starts_with "/" location
    then str_append base_path location
    else elim (origin_of upstream_url) [
      | none ↦ location
      | some origin ↦ elim (strip_prefix origin location) [
        | none ↦ location
        | some tail ↦ str_append base_path (if is_nil_text tail then "/" else tail)
      ]
    ]

abbrev is_redirect : Option ℕ → Bool
is_redirect none = false
is_redirect (some status) = leb 300 status && ltb status 400

-- The first header of that name is rewritten.
unfoldable pub rewrite_first :
    (String → String) → (String → String) → List (String × String) → List (String × String)
rewrite_first lower f [] = []
rewrite_first lower f ((key, value) ∷ headers) =
    let rest = rewrite_first lower f headers in
    if str_eq (lower key) "location" then (key, f value) ∷ headers else (key, value) ∷ rest

unfoldable pub maybe_rewrite_location :
    (String → String)
    → (String → Option String)
    → List (String × String)
    → Option ℕ
    → String
    → String
    → Bool
    → List (String × String)
unfolding rewrite_first rewrite_location_header
maybe_rewrite_location lower origin_of headers status base_path upstream_url enabled =
    if enabled && is_redirect status
    then rewrite_first lower
        (λ location. rewrite_location_header origin_of location base_path upstream_url) headers
    else headers

-- An application's own redirects stay below the path; one to a host whose name only begins with
-- the target's is taken for one of them.
redirects :
    (rewrite_location_header (λ u. some "http://app") "http://app/login" "/r/app" "http://app"
      ≡ "/r/app/login")
    × (rewrite_location_header (λ u. some "http://app") "/login" "/r/app" "http://app"
        ≡ "/r/app/login")
    × (rewrite_location_header (λ u. some "http://app") "http://other/x" "/r/app" "http://app"
        ≡ "http://other/x")
    × (rewrite_location_header
          (λ u. some "http://app")
          "http://app.example.com/x"
          "/r/app"
          "http://app"
        ≡ "/r/app.example.com/x")
unfolding rewrite_location_header
redirects = (refl, refl, refl, refl)
