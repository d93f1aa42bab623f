-- ===== src/Proxy/Build.antt =====
-- backend/src/services/proxyService.ts: the headers that proxyRequest sends to the target, after those
-- of Proxy/Headers and before the route's transforms, and what the log keeps of them (sanitizeHeaders).
use mathlib.Core.Option
use cluster_gate.Prelude.{
  none, some, false, [], ◌∷◌, String, List, Option, Bool, ◌≡◌, ◌∙◌, ap, refl, inl, inr,
  if◌then◌else◌, ◌||◌, str_eq, str_append, text_in, present, map, Bool-cases, arith, find_first,
  eq_iff,
}
use cluster_gate.Proxy.{AuthType, no_auth, api_key, basic, bearer}
use cluster_gate.Proxy.Headers.{HeaderValue, forward_headers}
use cluster_gate.Proxy.Fields.{
  is_key, delete_header, value_of, set_all, last_of, value_of-set_all, value_of-delete_header,
}

-- The columns of the route that are read here.
pub record HeaderSettings : Type 0 where
  pub id : String
  pub add_headers : List (String × String)
  pub remove_headers : List String
  pub upstream_auth_type : AuthType
  pub upstream_auth_value : Option String
  pub upstream_auth_header : Option String

-- What the gateway says of a request itself.
pub record Origin : Type 0 where
  pub ip : Option String
  pub protocol : String
  pub hostname : String
  pub request_id : String

abbrev pub credential_of : AuthType → Option String → String → List (String × String)
credential_of no_auth header v = []
credential_of bearer header v = ("Authorization", str_append "Bearer " v) ∷ []
credential_of basic header v = ("Authorization", str_append "Basic " v) ∷ []
credential_of api_key header v = (Option.get_or (present header) "X-API-Key", v) ∷ []

-- The header with the credential that the target asks for, if there is one.
unfoldable pub upstream_auth :
    (Option String → Option String) → HeaderSettings → List (String × String)
upstream_auth decrypt route = elim (present route.upstream_auth_value) [
  | none ↦ []
  | some v ↦
      credential_of route.upstream_auth_type route.upstream_auth_header
        (Option.get_or (decrypt (some v)) "")
]

abbrev pub identification : HeaderSettings → Origin → List (String × String)
identification route req =
    ("X-Forwarded-For", Option.get_or req.ip "")
    ∷ ("X-Forwarded-Proto", req.protocol)
    ∷ ("X-Forwarded-Host", req.hostname)
    ∷ ("X-ClusterGate-Route-ID", route.id)
    ∷ ("X-Request-ID", req.request_id)
    ∷ []

abbrev pub sensitive : List String
sensitive = "authorization" ∷ "cookie" ∷ "x-auth-token" ∷ "x-api-key" ∷ []

module _ (lower : String → String) where
  unfoldable pub delete_all : List String → List (String × String) → List (String × String)
  delete_all [] headers = headers
  delete_all (h ∷ hs) headers = delete_all hs (delete_header h (delete_header (lower h) headers))

  abbrev pub redacted : String → String → String
  redacted key value = if text_in (lower key) sensitive then "[REDACTED]" else value

  unfoldable pub sanitize_headers : List (String × String) → List (String × String)
  sanitize_headers headers = map (λ p. (p.0, redacted p.0 p.1)) headers

  module _ (decrypt : Option String → Option String) where
    unfoldable pub build_headers :
        Option String
        → List (String × HeaderValue)
        → HeaderSettings
        → Origin
        → List (String × String)
    unfolding forward_headers set_all delete_all upstream_auth
    build_headers consumed headers route req =
        let client = forward_headers lower consumed headers in
        let configured = delete_all route.remove_headers (set_all route.add_headers client) in
        set_all (identification route req) (set_all (upstream_auth decrypt route) configured)

  -- Whether the settings remove a header.
  abbrev is_removed : String → List String → Bool
  is_removed key [] = false
  is_removed key (h ∷ hs) = str_eq (lower h) key || str_eq h key || is_removed key hs

  value_of-delete_all :
      (k : String) (rs : List String) (hs : List (String × String))
      → value_of k (delete_all rs hs) ≡ (if is_removed k rs then none else value_of k hs)
  unfolding delete_all
  value_of-delete_all k [] hs = refl
  value_of-delete_all k (r ∷ rs) hs = ground (
    arith,
    value_of-delete_all k rs (delete_header r (delete_header (lower r) hs)),
    value_of-delete_header k r (delete_header (lower r) hs),
    value_of-delete_header k (lower r) hs,
  )

  value_of-sanitize_headers :
      (k : String) (hs : List (String × String))
      → value_of k (sanitize_headers hs) ≡ Option.map (redacted k) (value_of k hs)
  unfolding sanitize_headers find_first
  value_of-sanitize_headers k [] = refl
  value_of-sanitize_headers k (p ∷ hs) = elim (Bool-cases (is_key k p)) [
    | inl here ↦ rw here (ap (λ n. some (redacted n p.1)) ((eq_iff p.0 k).0 here))
    | inr there ↦ rw there (value_of-sanitize_headers k hs)
  ]

  -- The value under a name: the gateway's own, where it is one of the five that identify the request;
  -- else the credential's; else none, where the settings remove it; else the last that they add; else
  -- the client's.
  abbrev sent_value :
      (Option String → Option String)
      → Option String
      → List (String × HeaderValue)
      → HeaderSettings
      → Origin
      → String
      → Option String
  sent_value decrypt consumed headers route req k =
      Option.or_else (last_of k (identification route req)) (
        Option.or_else (last_of k (upstream_auth decrypt route)) (
          if is_removed k route.remove_headers
          then none
          else Option.or_else (last_of k route.add_headers)
              (value_of k (forward_headers lower consumed headers))))

  -- In the headers of the forwarded request, before the route's transforms, the value under each key is
  -- the gateway's own, else the credential, else none if the settings remove the key, else the last
  -- value that they add, else the client's; and the log keeps the same values, redacted under the four
  -- sensitive names alone.
  pub value_of-build_headers :
      (decrypt : Option String → Option String) (consumed : Option String)
      (headers : List (String × HeaderValue)) (route : HeaderSettings) (req : Origin) (k : String)
      → let sent = build_headers decrypt consumed headers route req in
        let value = sent_value decrypt consumed headers route req k in
        (value_of k sent ≡ value)
        × (value_of k (sanitize_headers sent) ≡ Option.map (redacted k) value)
  unfolding build_headers
  value_of-build_headers decrypt consumed headers route req k =
      let client = forward_headers lower consumed headers in
      let added = set_all route.add_headers client in
      let own = identification route req in
      let credential = upstream_auth decrypt route in
      let configured = delete_all route.remove_headers added in
      let e : value_of k (set_all own (set_all credential configured))
          ≡ sent_value decrypt consumed headers route req k =
        value_of-set_all k own (set_all credential configured)
        ∙ ap (Option.or_else (last_of k own)) (
            value_of-set_all k credential configured
            ∙ ap (Option.or_else (last_of k credential)) (
                value_of-delete_all k route.remove_headers added
                ∙ ap (λ v. if is_removed k route.remove_headers then none else v)
                    (value_of-set_all k route.add_headers client))) in
      (
        e,
        value_of-sanitize_headers k (set_all own (set_all credential configured))
            ∙ ap (Option.map (redacted k)) e,
      )
