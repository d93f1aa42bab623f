-- ===== src/Proxy/Tests/Headers.antt =====
-- The headers of one request and of one response.
use mathlib.Core.Option
use cluster_gate.Prelude.{
  none, some, true, false, [], ◌∷◌, refl, String, List, if◌then◌else◌, split_at, some_of, ◌≡◌,
  str_eq, arith, strip_prefix, find_first, text_in, is_blank, All, count_by, before, trim,
  trim_start, trim_end, filter_by, Option,
}
use cluster_gate.Proxy.{api_key}
use cluster_gate.Proxy.Headers.{
  IsForwarded, with_content_length, single, HeaderValue, one, forward_headers,
  forward_headers-IsSafe, many, may_pass,
}
use cluster_gate.Proxy.Harden.{
  harden_proxy_response_headers, csp_header, clean_cookies, cookie_name, is_reserved,
}
use cluster_gate.Proxy.Fields.{is_key, last_of, set_all, set_header, value_of}
use cluster_gate.Proxy.Harden.Checks.{HasSandbox, harden_proxy_response_headers-IsHardened}
use cluster_gate.Proxy.Harden.Cleaned.{IsAllowed, set_cookies, sets_own}
use cluster_gate.Proxy.Build.{
  build_headers, Origin, HeaderSettings, upstream_auth, delete_all, sanitize_headers,
  value_of-build_headers,
}
use cluster_gate.Cookies.{strip_cookies, cookies, is_own, join_from}

abbrev sent : List (String × HeaderValue)
sent =
    ("host", one "gate")
    ∷ ("x-api-key", one "cgk_1")
    ∷ ("cookie", one "cg_session=x; a=1")
    ∷ ("accept", one "text/html")
    ∷ []

forward_headers-IsSafe_example :
    let forwarded =
      with_content_length (some "9") (forward_headers (λ s. s) (some "x-api-key") sent) in
    All (IsForwarded (λ s. s) (some "9") (some "x-api-key")) forwarded
    × (value_of "accept" forwarded ≡ some "text/html")
unfolding single find_first
forward_headers-IsSafe_example =
    forward_headers-IsSafe (λ s. s) (some "9") (some "x-api-key") sent "accept"
      (refl, (refl, (refl, (refl, (refl, (refl, (refl, (refl, (refl, tt))))))))) refl refl refl

abbrev lower_csp : String → String
lower_csp s = if str_eq s csp_header then "content-security-policy" else s

abbrev answered : List (String × HeaderValue)
answered =
    ("set-cookie", many ("cg_session=x; Path=/" ∷ "a=1" ∷ "__host-cg_csrf=y" ∷ []))
    ∷ ("service-worker-allowed", one "/")
    ∷ ("content-type", one "text/html")
    ∷ []

-- A cookie without a name, which a browser sends back as cg_session=x, is kept.
hardened :
    (harden_proxy_response_headers lower_csp false answered
      ≡ ("set-cookie", many ("a=1" ∷ [])) ∷ ("content-type", one "text/html") ∷ [])
    × (is_reserved lower_csp "=cg_session=x" ≡ false)
unfolding harden_proxy_response_headers clean_cookies cookie_name before trim trim_start trim_end
    strip_prefix filter_by is_blank
hardened = (refl, refl)

harden_proxy_response_headers-IsHardened_example :
    let sent = harden_proxy_response_headers lower_csp true answered in
    All (IsAllowed lower_csp) sent
    × (set_cookies lower_csp sent ≡ "a=1" ∷ [])
    × HasSandbox lower_csp true sent
    × (find_first (is_key "content-type") sent ≡ some ("content-type", one "text/html"))
unfolding count_by set_cookies sets_own filter_by before trim trim_start trim_end is_blank
    strip_prefix find_first
harden_proxy_response_headers-IsHardened_example =
    harden_proxy_response_headers-IsHardened lower_csp refl true answered "content-type"
      (omega arith) (refl, refl, refl, refl)

abbrev header_settings : HeaderSettings
header_settings = record {
  id = "r1";
  add_headers = ("x-env", "prod") ∷ ("accept", "text/plain") ∷ [];
  remove_headers = "accept" ∷ [];
  upstream_auth_type = api_key;
  upstream_auth_value = some "sealed";
  upstream_auth_header = some "X-N8N-Key";
}

abbrev origin : Origin
origin = record { ip = some "10.0.0.9"; protocol = "https"; hostname = "gate"; request_id = "q1" }

abbrev unseal : Option String → Option String
unseal sealed = some "token"

abbrev built : List (String × String)
built = build_headers (λ s. s) unseal none sent header_settings origin

built_headers :
    (value_of "x-env" built ≡ some "prod")
    × (value_of "accept" built ≡ none)
    × (value_of "cookie" built ≡ some "a=1")
    × (value_of "X-Forwarded-For" built ≡ some "10.0.0.9")
unfolding build_headers upstream_auth forward_headers may_pass strip_cookies cookies is_own before
    trim trim_start trim_end is_blank split_at strip_prefix set_all set_header delete_all filter_by
    find_first text_in some_of join_from
built_headers = (refl, refl, refl, refl)

-- The credential under a name of the route's own choice stands in the log.
value_of-build_headers_example :
    (value_of "X-N8N-Key" built ≡ some "token")
    × (value_of "X-N8N-Key" (sanitize_headers (λ s. s) built) ≡ some "token")
unfolding upstream_auth last_of Option.or_else text_in some_of
value_of-build_headers_example =
    value_of-build_headers (λ s. s) unseal none sent header_settings origin "X-N8N-Key"
