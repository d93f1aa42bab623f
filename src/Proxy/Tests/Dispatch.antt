-- ===== src/Proxy/Tests/Dispatch.antt =====
-- Which route takes a request, and the URL it is sent to.
use cluster_gate.Prelude.{
  drop, if◌then◌else◌, none, true, false, [], ◌∷◌, refl, ◌≡◌, utf16, find_first, some_of, ◌++◌,
}
use cluster_gate.PathAllowlist.{same_text, slash}
use cluster_gate.PathAllowlist.Match.{starts_with, base_of, or_root}
use cluster_gate.Proxy.Dispatch.{
  PublicRoute, Regexes, proxied, method_not_allowed, route_not_found, proxy_handler, find_route,
  full_target_url, target_path, rewritten, suffix_path, without_last_slash, RewriteRule,
}
use cluster_gate.Proxy.Dispatch.Rooted.{KeepsRoot, IsProxied, proxy_handler-IsProxied}

abbrev app : PublicRoute
app = record {
  public_path = slash ∷ 114 ∷ slash ∷ 97 ∷ slash ∷ 42 ∷ [];
  is_served = true;
  methods = (71 ∷ []) ∷ [];
  cors_enabled = false;
  cors_origins = [];
  maintenance_mode = false;
  rewrite_rules = [];
  strip_prefix = false;
}

abbrev root : PublicRoute
root = record app { public_path = slash ∷ 114 ∷ slash ∷ [] }

abbrev no_rules : Regexes
no_rules = record { is_safe = λ r. true; test = λ r t. false; replace = λ r t. t }

-- /a/x is the route's, /ab is not, and another method is refused.
dispatched :
    ((proxy_handler (app ∷ []) (71 ∷ []) none (47 ∷ 97 ∷ 47 ∷ 120 ∷ [])).0 ≡ proxied app)
    × ((proxy_handler (app ∷ []) (71 ∷ []) none (47 ∷ 97 ∷ 98 ∷ [])).0 ≡ route_not_found)
    × ((proxy_handler (app ∷ []) (80 ∷ []) none (47 ∷ 97 ∷ [])).0 ≡ method_not_allowed)
unfolding proxy_handler find_route find_first starts_with base_of or_root same_text some_of
dispatched = (refl, refl, refl)

-- The public path /r/ is cut off with its slash, so the request's path is joined to the host.
joined_to_host :
    full_target_url no_rules root (utf16 "https://api.example.com/") (utf16 "/.example.org/x")
    ≡ utf16 "https://api.example.com.example.org/x"
unfolding full_target_url target_path rewritten suffix_path without_last_slash starts_with base_of
    or_root same_text utf16 find_first
joined_to_host = refl

-- Rules as replace treats them: /v1 is put before a path, and another rule takes its slash away.
abbrev versioned : RewriteRule
versioned = record { from = 94 ∷ []; to = slash ∷ 118 ∷ 49 ∷ [] }

abbrev unrooted : RewriteRule
unrooted = record { from = 94 ∷ slash ∷ []; to = [] }

abbrev rules : Regexes
rules = record {
  is_safe = λ r. true;
  test = λ r t. true;
  replace = λ r t. if same_text r.from (94 ∷ []) then r.to ++ t else drop 1 t;
}

abbrev versioned_app : PublicRoute
versioned_app = record app { rewrite_rules = versioned ∷ [] }

-- /a/x is sent to h/v1/x; with the other rule its path is joined to the host.
rewritten_urls :
    (full_target_url rules versioned_app (104 ∷ 47 ∷ []) (47 ∷ 97 ∷ 47 ∷ 120 ∷ [])
      ≡ 104 ∷ 47 ∷ 118 ∷ 49 ∷ 47 ∷ 120 ∷ [])
    × (full_target_url rules
          (record app { rewrite_rules = unrooted ∷ [] })
          (104 ∷ 47 ∷ [])
          (47 ∷ 97 ∷ 47 ∷ 120 ∷ [])
        ≡ 104 ∷ 120 ∷ [])
unfolding full_target_url target_path rewritten suffix_path without_last_slash starts_with base_of
    or_root same_text find_first
rewritten_urls = (refl, refl)

versioned-KeepsRoot : KeepsRoot rules versioned
unfolding same_text
versioned-KeepsRoot t h = refl

proxy_handler-IsProxied_example :
    IsProxied rules (71 ∷ []) (47 ∷ 97 ∷ 47 ∷ 120 ∷ []) (104 ∷ 47 ∷ []) versioned_app
unfolding proxy_handler find_route find_first starts_with base_of or_root same_text some_of
proxy_handler-IsProxied_example =
    proxy_handler-IsProxied rules (versioned_app ∷ []) (71 ∷ []) (47 ∷ 97 ∷ 47 ∷ 120 ∷ [])
      (104 ∷ 47 ∷ []) (97 ∷ 47 ∷ 42 ∷ []) none versioned_app refl refl refl
      (versioned-KeepsRoot, tt) refl
