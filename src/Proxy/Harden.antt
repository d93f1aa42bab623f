-- ===== src/Proxy/Harden.antt =====
-- backend/src/lib/proxySecurityHeaders.ts (hardenProxyResponseHeaders): the headers of a target's
-- response before they are sent. toLowerCase is a parameter.
mod Names
pub mod Cleaned
pub mod Checks
use mathlib.Core.Option
use cluster_gate.Prelude.{
  none, some, true, false, [], ◌∷◌, String, List, Option, Bool, if◌then◌else◌, not, str_eq, ◌||◌,
  ◌++◌, before, trim, strip_prefix, starts_with, filter_by, find_first,
}
use cluster_gate.Proxy.Headers.{HeaderValue, one, many}
use cluster_gate.Proxy.Fields.{set_header, delete_header}

abbrev pub sandbox_csp : String
sandbox_csp =
    "sandbox allow-scripts allow-forms allow-popups allow-modals allow-downloads allow-pointer-lock allow-presentation"

abbrev pub reserved_cookie_prefix : String
reserved_cookie_prefix = "cg_"

abbrev pub csp_header : String
csp_header = "Content-Security-Policy"

-- `Array.isArray(raw) ? raw : [String(raw)]`
abbrev pub values : HeaderValue → List String
values (one v) = v ∷ []
values (many vs) = vs

-- `name.replace(/^__(host|secure)-/, '')`
abbrev pub unprefixed : String → String
unprefixed name = elim (strip_prefix "__host-" name) [
  | some rest ↦ rest
  | none ↦ Option.get_or (strip_prefix "__secure-" name) name
]

-- The header is set to the cookies that are left, or deleted.
abbrev pub put_cookies :
    String → List String → List (String × HeaderValue) → List (String × HeaderValue)
put_cookies key [] headers = headers
put_cookies key (c ∷ cs) headers = (key, many (c ∷ cs)) ∷ headers

module _ (lower : String → String) where
  unfoldable pub cookie_name : String → String
  unfolding before trim strip_prefix
  cookie_name set_cookie = unprefixed (lower (trim (before 61 (before 59 set_cookie))))

  abbrev pub is_reserved : String → Bool
  is_reserved c = starts_with reserved_cookie_prefix (cookie_name c)

  abbrev pub is_named : String → String × HeaderValue → Bool
  is_named name p = str_eq (lower p.0) name

  -- The headers that are always dropped.
  abbrev pub is_dropped : String × HeaderValue → Bool
  is_dropped p = is_named "service-worker-allowed" p || is_named "cross-origin-opener-policy" p

  abbrev pub kept_cookies : HeaderValue → List String
  kept_cookies value = filter_by (λ c. not (is_reserved c)) (values value)

  -- The first header of that name loses the gateway's cookies, and goes if no other is left.
  unfoldable pub clean_cookies : List (String × HeaderValue) → List (String × HeaderValue)
  clean_cookies [] = []
  clean_cookies (p ∷ headers) =
      let rest = clean_cookies headers in
      if is_named "set-cookie" p then put_cookies p.0 (kept_cookies p.1) headers else p ∷ rest

  -- The sandbox stands beside the policies that the target sends.
  unfoldable pub add_sandbox : List (String × HeaderValue) → List (String × HeaderValue)
  unfolding set_header
  add_sandbox headers = elim (find_first (is_named "content-security-policy") headers) [
    | none ↦ set_header csp_header (one sandbox_csp) headers
    | some (key, value) ↦
        set_header csp_header (many (values value ++ sandbox_csp ∷ [])) (delete_header key headers)
  ]

  unfoldable pub harden_proxy_response_headers :
      Bool → List (String × HeaderValue) → List (String × HeaderValue)
  unfolding clean_cookies add_sandbox
  harden_proxy_response_headers sandbox headers =
      let cleaned = clean_cookies (filter_by (λ p. not (is_dropped p)) headers) in
      if sandbox then add_sandbox cleaned else cleaned
