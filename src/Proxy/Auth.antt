-- ===== src/Proxy/Auth.antt =====
-- validateRouteAuth: what a client must show at a route that requires it.
use cluster_gate.Prelude.{
  ℕ, none, some, true, false, [], ◌∷◌, ok, throw, String, Bool, Option, Result, text_in, present,
  strip_prefix, unauthorized, M, if◌then◌else◌, str_eq, ◌&&◌, internal, not, forbidden,
}
use cluster_gate.ApiKeys.{World as KeyWorld, KeyScope, verify_api_key}
use cluster_gate.Proxy.{Request, Secrets, ProxyRoute, AuthType, api_key, basic, bearer}
use mathlib.Core.Option

abbrev pub is_safe_method : String → Bool
is_safe_method m = text_in m ("GET" ∷ "HEAD" ∷ "OPTIONS" ∷ [])

abbrev pub is_read : KeyScope → Bool
is_read KeyScope.read = true
is_read KeyScope.full = false

-- A header of the request that is there and not empty, less a prefix.
abbrev pub given_after : String → String → Request → Option String
given_after prefix name req = elim (req.header name) [
  | none ↦ none
  | some v ↦ strip_prefix prefix v
]

-- The key, and the lowercased name of the header that carried it.
unfoldable pub given_key : Request → Option (String × String)
given_key req = elim (present (req.header "X-API-Key")) [
  | some key ↦ some (key, "x-api-key")
  | none ↦
      Option.map (λ key. (key, "authorization"))
        (present (given_after "Bearer " "Authorization" req))
]

-- `safeEqual(credentials, authValue)`, of credentials that may be missing.
abbrev pub check_static : Option String → String → Result (Option String)
check_static none expected = throw unauthorized
check_static (some shown) expected = if str_eq shown expected then ok none else throw unauthorized

module _ (hash_key : String → String) where
  unfoldable pub check_key :
      ℕ → ProxyRoute → Request → Option (String × String) → M KeyWorld (Option String)
  check_key now route req none w = (throw unauthorized, w)
  check_key now route req (some (key, header)) w =
      let (answer, w') = verify_api_key hash_key now key route.id req.ip w in
      elim answer [
        | none ↦ (throw unauthorized, w')
        | some v ↦
            if is_read v.scope && not (is_safe_method req.method)
            then (throw forbidden, w')
            else (ok (some header), w')
      ]

  unfoldable pub check_auth_type :
      ℕ → ProxyRoute → Request → String → AuthType → M KeyWorld (Option String)
  check_auth_type now route req expected basic w =
      (check_static (given_after "Basic " "Authorization" req) expected, w)
  check_auth_type now route req expected bearer w =
      (check_static (given_after "Bearer " "Authorization" req) expected, w)
  check_auth_type now route req expected other w = (throw internal, w)

  -- What follows the case of API keys.
  unfoldable pub check_value : ℕ → ProxyRoute → Request → Option String → M KeyWorld (Option String)
  unfolding check_auth_type
  check_value now route req none w = (throw internal, w)
  check_value now route req (some expected) w =
      check_auth_type now route req expected route.auth_type w

  unfoldable pub validate_route_auth :
      Secrets → ℕ → ProxyRoute → Request → M KeyWorld (Option String)
  unfolding check_key given_key check_value
  validate_route_auth secrets now route req w = elim route.auth_type [
    | api_key ↦ check_key now route req (given_key req) w
    | other ↦ check_value now route req (present (secrets.decrypt route.auth_value)) w
  ]
