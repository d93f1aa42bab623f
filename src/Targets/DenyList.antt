-- ===== src/Targets/DenyList.antt =====
-- backend/src/lib/targetDenylist.ts: the rules that deny a target, the list built from the
-- environment, and the addresses of the database added to it later.
use cluster_gate.Prelude.{
  ℕ, none, some, false, [], ◌∷◌, List, String, Option, split_at, Bool, if◌then◌else◌, present, trim,
  digits, str_eq, filter_by, is_nil_text, not, str_append, ◌&&◌, ◌++◌, strip_prefix, leb,
  starts_with,
}
use cluster_gate.Targets.{Platform, Family, ipv4, ipv6, Subnet}
use cluster_gate.Targets.Hosts.{
  all_chars, unmap_ip, normalize_host, strip_suffix, ends_with, is_digit,
}
use mathlib.Core.Option

pub data Reason : Type 0 where
  loopback kube_api own_database extra_entry : Reason

pub data Rule : Type 0 where
  host suffix : String → Reason → Rule
  cidr : String → Subnet → Reason → Rule

abbrev max_bits : Family → ℕ
max_bits ipv4 = 32
max_bits ipv6 = 128

-- The prefix of a CIDR, where it is nothing but digits and not too long.
unfoldable pub prefix_bits : ℕ → String → Option ℕ
unfolding all_chars digits
prefix_bits most p =
    let n = Option.get_or (digits 10 none p) 0 in
    if not (is_nil_text p) && all_chars is_digit p && leb n most then some n else none

-- What one rule says of a name in its normal form.
unfoldable pub host_reason : String → Rule → Option Reason
unfolding strip_suffix
host_reason h (host v r) = if str_eq v h then some r else none
host_reason h (suffix v r) = if ends_with v h then some r else none
host_reason h (cidr v list r) = none

-- The first answer of a loop that returns from its body.
unfoldable pub first_reason : (Rule → Option Reason) → List Rule → Option Reason
first_reason f [] = none
first_reason f (r ∷ rs) =
    let rest = first_reason f rs in elim (f r) [ some why ↦ some why | none ↦ rest ]

module _ (os : Platform) where
  abbrev pub family : String → Option Family
  family addr = os.ip_version addr

  unfoldable pub subnet_of : String → Option String → Option Subnet
  subnet_of raw bits =
      let addr = unmap_ip os raw in
      elim (family addr) [
        | none ↦ none
        | some f ↦ elim bits [
          | none ↦ some record { base = addr; bits = max_bits f; family = f }
          | some p ↦
              Option.map (λ n. record { base = addr; bits = n; family = f })
                (prefix_bits (max_bits f) p)
        ]
      ]

  unfoldable pub parse_cidr : String → Option Subnet
  unfolding split_at
  parse_cidr entry = elim (split_at 47 entry) [
    | raw ∷ [] ↦ subnet_of raw none
    | raw ∷ p ∷ [] ↦ subnet_of raw (some p)
    | _ ↦ none
  ]

  unfoldable pub ip_in_list : Subnet → String → Bool
  unfolding unmap_ip
  ip_in_list list ip =
      let addr = unmap_ip os ip in
      elim (family addr) [ none ↦ false | some f ↦ os.in_subnet list addr f ]

  -- The rule for an entry, none for an empty one.
  unfoldable pub rule_of : String → Reason → Option Rule
  unfolding normalize_host parse_cidr strip_prefix
  rule_of value reason =
      let h = normalize_host os value in
      if is_nil_text h then none else elim (parse_cidr h) [
        | some list ↦ some (cidr h list reason)
        | none ↦ elim (strip_prefix "*" h) [
          | some s ↦ if starts_with "." s then some (suffix s reason) else some (host h reason)
          | none ↦ some (host h reason)
        ]
      ]

  unfoldable pub add_host : String → Reason → List Rule → List Rule
  unfolding rule_of
  add_host value reason rules = elim (rule_of value reason) [
    | none ↦ rules
    | some rule ↦ rules ++ (rule ∷ [])
  ]

  -- What one rule says of an address.
  unfoldable pub address_reason : String → Rule → Option Reason
  unfolding ip_in_list
  address_reason ip (cidr v list r) = if ip_in_list list ip then some r else none
  address_reason ip (host v r) = none
  address_reason ip (suffix v r) = none

  unfoldable pub match_ip : List Rule → String → Option Reason
  unfolding first_reason address_reason
  match_ip rules ip = first_reason (address_reason ip) rules

  unfoldable pub match_host : List Rule → String → Option Reason
  unfolding first_reason host_reason normalize_host unmap_ip match_ip
  match_host rules value =
      let h = normalize_host os value in
      elim (first_reason (host_reason h) rules) [
        | some why ↦ some why
        | none ↦ elim (family (unmap_ip os h)) [ none ↦ none | some f ↦ match_ip rules h ]
      ]

  unfoldable pub host_of_url : Option String → Option String
  unfolding normalize_host
  host_of_url url = elim (present url) [
    | none ↦ none
    | some u ↦ elim (os.parse_url u) [
      | none ↦ none
      | some parsed ↦ present (some (normalize_host os parsed.hostname))
    ]
  ]

pub record DenyOptions : Type 0 where
  pub defaults : Bool
  pub extra : String
  pub cluster_domain : Option String
  pub kubernetes_service_host : Option String
  pub database_url : Option String

module _ (os : Platform) where
  unfoldable pub add_present : Option String → Reason → List Rule → List Rule
  add_present none reason rules = rules
  add_present (some h) reason rules = add_host os h reason rules

  unfoldable pub add_hosts : List String → Reason → List Rule → List Rule
  add_hosts [] reason rules = rules
  add_hosts (h ∷ hs) reason rules = add_hosts hs reason (add_host os h reason rules)

  unfoldable pub local_rules : List Rule
  local_rules =
      add_hosts ("localhost" ∷ "*.localhost" ∷ "127.0.0.0/8" ∷ "0.0.0.0/8" ∷ "::1" ∷ "::" ∷ [])
        loopback []

  unfoldable pub kube_rules : Option String → List Rule → List Rule
  kube_rules domain rules =
      let d = normalize_host os (Option.get_or (present domain) "cluster.local") in
      add_hosts
        ("kubernetes"
          ∷ "kubernetes.default"
          ∷ "kubernetes.default.svc"
          ∷ str_append "kubernetes.default.svc." d
          ∷ [])
        kube_api rules

  unfoldable pub default_rules : DenyOptions → List Rule
  default_rules opts =
      let kube = kube_rules opts.cluster_domain local_rules in
      let served = add_present (present opts.kubernetes_service_host) kube_api kube in
      add_present (host_of_url os opts.database_url) own_database served

  unfoldable pub build_deny_list : DenyOptions → List Rule
  build_deny_list opts =
      let start = if opts.defaults then default_rules opts else [] in
      add_hosts (filter_by (λ e. not (is_nil_text (trim e))) (split_at 44 opts.extra)) extra_entry
        start
