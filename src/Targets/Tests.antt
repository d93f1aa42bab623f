-- ===== src/Targets/Tests.antt =====
-- A platform that knows a few names, and the checks at concrete targets.
use cluster_gate.Prelude.{
  none, some, true, false, [], ◌∷◌, split_at, digits, String, has_char, Option, if◌then◌else◌, List,
  Bool, ◌≡◌, str_eq, ◌==◌, strip_prefix, ◌&&◌, before, not, is_nil_text, refl, inl, inr, ◌↔◌,
  is_blank, Any, some_of,
}
use cluster_gate.Targets.{Platform, Family, ipv4, ipv6, Subnet, Url, Numeral, nan, whole}
use cluster_gate.Targets.Policy.{OrgTargetPolicy, kube_namespace_of, is_valid_host_entry}
use cluster_gate.OrgAccess.{viewer}
use cluster_gate.Targets.Check.{
  check_target, denied_host, denied_address, resolves_to_metadata, blocked_scheme, safe_lookup,
  check_url, check_resolved,
}
use cluster_gate.Targets.DenyList.{
  DenyOptions, extra_entry, loopback, subnet_of, rule_of, prefix_bits, cidr, Rule, suffix, host,
}
use cluster_gate.Targets.Hosts.{normalize_host, all_chars, unmap_ip, is_digit}
use cluster_gate.Targets.Access.{Settings, assert_target_allowed_for_user}
use cluster_gate.Targets.Metadata.{is_metadata_ip}
use cluster_gate.Targets.Admitted.{IsAdmissible, check_target_iff}
use cluster_gate.Targets.Candidates.{assert_target_allowed_for_user-managed_iff}
use cluster_gate.Targets.Loopback.{use_run, connects, saves, refreshes, start}
use cluster_gate.Targets.Connections.{safe_lookup-no_loopback}
use mathlib.Core.Option

decimal : String → Numeral
unfolding digits all_chars
decimal s =
    if all_chars is_digit s && not (is_nil_text s)
    then whole (Option.get_or (digits 10 none s) 0)
    else nan

version : String → Option Family
unfolding split_at decimal has_char
version s = elim (split_at 46 s) [
  | a ∷ b ∷ c ∷ d ∷ [] ↦ if all_chars is_digit a && all_chars is_digit d then some ipv4 else none
  | _ ↦ if has_char 58 s then some ipv6 else none
]

-- Subnets by the first part of the address, for prefixes of eight bits.
within : Subnet → String → Family → Bool
within net a f =
    if net.bits == 8 then str_eq (before 46 net.base) (before 46 a) else str_eq net.base a

urls : String → Option Url
urls s = elim (strip_prefix "http://" s) [
  | some h ↦ some record { protocol = "http:"; hostname = h }
  | none ↦ elim (strip_prefix "ftp://" s) [
    | some h ↦ some record { protocol = "ftp:"; hostname = h }
    | none ↦ none
  ]
]

names : String → List String
names s =
    if str_eq s "api.shop.svc"
    then "10.0.0.7" ∷ []
    else if str_eq s "sneaky.example.com"
    then "127.0.0.5" ∷ []
    else if str_eq s "cloud.example.com"
    then "169.254.169.254" ∷ []
    else []

abbrev node : Platform
node = record {
  lower = λ s. s;
  number = decimal;
  ip_version = version;
  in_subnet = within;
  parse_url = urls;
  resolve = names;
  lookup_all = λ s. some (names s);
}

abbrev options : DenyOptions
options = record {
  defaults = true;
  extra = "10.9.0.0/16, *.internal";
  cluster_domain = none;
  kubernetes_service_host = some "10.96.0.1";
  database_url = some "http://db.cluster";
}

abbrev shop : OrgTargetPolicy
shop = record {
  organization_name = "Shop";
  restrict_targets = true;
  allowed_target_namespaces = "shop" ∷ [];
  allowed_target_hosts = "*.example.org" ∷ [];
}

abbrev everyone : OrgTargetPolicy
everyone = record {
  organization_name = "All";
  restrict_targets = false;
  allowed_target_namespaces = [];
  allowed_target_hosts = [];
}

abbrev settings : Settings
settings = record {
  organization = λ o. if str_eq o "shop" then some shop else none;
  membership = λ u o. none;
  managed = λ u.
      if str_eq u "both" then shop ∷ everyone ∷ [] else if str_eq u "one" then shop ∷ [] else [];
}

hosts :
    (normalize_host node "[fe80::1%eth0]." ≡ "[fe80::1")
    × (normalize_host node " example.com. " ≡ "example.com")
    × (unmap_ip node "[::ffff:a00:1]" ≡ "10.0.0.1")
    × (is_metadata_ip node "[::ffff:169.254.7.9]" ≡ true)
    × (is_metadata_ip node "fe80::1%eth0" ≡ true)
    × (is_metadata_ip node "fd00:ec2::254" ≡ true)
    × (is_metadata_ip node "::1" ≡ false)
    × (is_metadata_ip node "100.100.100.200" ≡ true)
unfolding normalize_host unmap_ip is_metadata_ip decimal is_blank some_of
hosts = (refl, refl, refl, refl, refl, refl, refl, refl)

policies :
    (kube_namespace_of node "api.shop.svc" "cluster.local" ≡ some "shop")
    × (kube_namespace_of node "a.api.shop.svc.cluster.local" "cluster.local" ≡ some "shop")
    × (kube_namespace_of node "evil.dev" "cluster.local" ≡ none)
    × (is_valid_host_entry node "*.example.com" ≡ true)
    × (is_valid_host_entry node "-a.com" ≡ false)
unfolding kube_namespace_of is_valid_host_entry version decimal is_blank subnet_of unmap_ip
policies = (refl, refl, refl, refl, refl)

abbrev rules : List Rule
rules =
    suffix ".internal" extra_entry
    ∷ cidr "127.0.0.0/8" (record { base = "127.0.0.0"; bits = 8; family = ipv4 }) loopback
    ∷ []

built :
    (rule_of node "127.0.0.0/8" loopback
      ≡ some (cidr "127.0.0.0/8" (record { base = "127.0.0.0"; bits = 8; family = ipv4 }) loopback))
    × (rule_of node " *.Internal" extra_entry ≡ some (suffix ".Internal" extra_entry))
    × (rule_of node "127.0.0.0/33" loopback ≡ some (host "127.0.0.0/33" loopback))
    × (rule_of node "." loopback ≡ none)
unfolding rule_of version decimal is_blank subnet_of prefix_bits unmap_ip
built = (refl, refl, refl, refl)

accepted : check_target node rules "cluster.local" (some shop) "http://api.shop.svc" ≡ none
unfolding check_target version decimal within urls names is_blank some_of subnet_of unmap_ip
    check_url check_resolved
accepted = refl

refused :
    (check_target node rules "cluster.local" none "http://a.internal"
      ≡ some (denied_host extra_entry))
    × (check_target node rules "cluster.local" none "http://sneaky.example.com"
        ≡ some (denied_address "127.0.0.5" loopback))
    × (check_target node rules "cluster.local" none "http://cloud.example.com"
        ≡ some (resolves_to_metadata "169.254.169.254"))
    × (check_target node rules "cluster.local" (some shop) "ftp://a.example.org"
        ≡ some blocked_scheme)
unfolding check_target version decimal within urls names is_blank some_of subnet_of unmap_ip
    check_url check_resolved
refused = (refl, refl, refl, refl)

assert_target_allowed_for_user-managed_iff_example :
    (assert_target_allowed_for_user node settings rules "cluster.local" "http://api.shop.svc" "both"
        viewer none
      ≡ none)
    ↔ Any
        (λ p. check_target node rules "cluster.local" (some p) "http://api.shop.svc" ≡ none)
        (shop ∷ everyone ∷ [])
assert_target_allowed_for_user-managed_iff_example =
    assert_target_allowed_for_user-managed_iff node rules "cluster.local" settings
      "http://api.shop.svc" "both" viewer none refl refl

check_target_iff_example :
    (check_target node rules "cluster.local" (some shop) "http://api.shop.svc" ≡ none)
    ↔ IsAdmissible node rules "cluster.local" (some shop) "http://api.shop.svc"
check_target_iff_example =
    check_target_iff node rules "cluster.local" (some shop) "http://api.shop.svc"

safe_lookup-no_loopback_example :
    safe_lookup node options (some ("10.0.0.7" ∷ "127.0.0.5" ∷ [])) (
      use_run node options
        (connects ∷ saves 400000 "cluster.local" none "http://api.shop.svc" ∷ refreshes 900000 ∷ [])
        start)
    ≡ none
unfolding unmap_ip version decimal within is_blank
safe_lookup-no_loopback_example =
    safe_lookup-no_loopback node "127.0.0.5" (refl, refl, refl) (ipv4, refl, refl) options refl
      (connects ∷ saves 400000 "cluster.local" none "http://api.shop.svc" ∷ refreshes 900000 ∷ [])
      ("10.0.0.7" ∷ "127.0.0.5" ∷ []) (inr (inl refl))
