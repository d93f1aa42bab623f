-- ===== src/Targets/Loopback.antt =====
-- The rules that the list starts with stay in it, however often the database is looked up.
use cluster_gate.Prelude.{
  some, [], ◌∷◌, inl, inr, String, List, Option, Option-cases, ◌≡◌, arith, none, true, refl, ap,
  is_blank, ℕ, false, Bool, if◌then◌else◌, Bool-cases, not, ◌||◌, ltb, ◌+◌,
}
use cluster_gate.Targets.{Platform, ipv4, Family, Subnet}
use cluster_gate.Targets.Policy.{OrgTargetPolicy}
use cluster_gate.Targets.Check.{
  DenyState, get_default_deny_list, refresh_database_addresses, database_addresses,
  assert_target_allowed,
}
use cluster_gate.Targets.DenyList.{
  add_hosts, add_host, Rule, own_database, address_reason, rule_of, parse_cidr, prefix_bits,
  loopback, cidr, ip_in_list, default_rules, subnet_of, DenyOptions, kube_api, kube_rules,
  build_deny_list, local_rules, extra_entry,
}
use cluster_gate.Targets.Hosts.{unmap_ip, normalize_host, embedded_ipv4, without_ends}
use mathlib.Core.Path.{subst}
use cluster_gate.Targets.Denies.{
  add_addresses-Denies, Denies, add_hosts-Denies, add_present-Denies, add_host-adds, Guards,
}
use mathlib.Core.Option

-- What Node does with the entry for the loopback range: its letters are lower case already, and
-- its address is one of version 4.
abbrev pub KnowsLoopback : Platform → Type 0
KnowsLoopback os =
    (os.lower "127.0.0.0/8" ≡ "127.0.0.0/8")
    × (os.lower "127.0.0.0" ≡ "127.0.0.0")
    × (os.ip_version "127.0.0.0" ≡ some ipv4)

loopback_range : Subnet
loopback_range = record { base = "127.0.0.0"; bits = 8; family = ipv4 }

-- The address lies in 127.0.0.0/8, by itself or inside a mapped address.
abbrev pub IsLoopback : Platform → String → Type 0
IsLoopback os a =
    (f : Family) × (os.ip_version (unmap_ip os a) ≡ some f)
    × (os.in_subnet (record { base = "127.0.0.0"; bits = 8; family = ipv4 }) (unmap_ip os a) f
        ≡ true)

abbrev from_base : String → Option Subnet
from_base b = some record { base = b; bits = 8; family = ipv4 }

abbrev named_range : String → Option Rule
named_range v = some (cidr v loopback_range loopback)

module _ (os : Platform) (a : String) (known : KnowsLoopback os) (local : IsLoopback os a) where
  normal_range : normalize_host os "127.0.0.0/8" ≡ "127.0.0.0/8"
  unfolding normalize_host is_blank
  normal_range = ap without_ends (known.0)

  plain_base : unmap_ip os "127.0.0.0" ≡ "127.0.0.0"
  unfolding unmap_ip normalize_host is_blank
  plain_base = ap (λ h. Option.get_or (embedded_ipv4 (without_ends h)) (without_ends h)) (known.1)

  range_parsed : parse_cidr os "127.0.0.0/8" ≡ some loopback_range
  unfolding parse_cidr subnet_of loopback_range prefix_bits
  range_parsed = rw (subnet_of, plain_base, known.2) (ap from_base plain_base)

  loopback_rule :
      rule_of os "127.0.0.0/8" loopback ≡ some (cidr "127.0.0.0/8" loopback_range loopback)
  unfolding rule_of
  loopback_rule = rw (rule_of, normal_range, range_parsed) (ap named_range normal_range)

  covered : address_reason os a (cidr "127.0.0.0/8" loopback_range loopback) ≡ some loopback
  unfolding address_reason loopback_range ip_in_list
  covered =
      let (f, version, inside) = local in rw (address_reason, ip_in_list, version, inside) refl

  local_rules-Denies : Denies os a (local_rules os)
  unfolding local_rules add_hosts
  local_rules-Denies =
      let rules = add_host os "*.localhost" loopback (add_host os "localhost" loopback []) in
      add_hosts-Denies os a ("0.0.0.0/8" ∷ "::1" ∷ "::" ∷ []) loopback
        (add_host os "127.0.0.0/8" loopback rules)
        (add_host-adds os a "127.0.0.0/8" loopback loopback rules
          (cidr "127.0.0.0/8" loopback_range loopback) loopback_rule covered)

  default_rules-Denies : (opts : DenyOptions) → Denies os a (default_rules os opts)
  unfolding default_rules kube_rules
  default_rules-Denies opts =
      add_present-Denies os a _ own_database _ (
        add_present-Denies os a _ kube_api _
          (add_hosts-Denies os a _ kube_api _ local_rules-Denies))

  start-Denies :
      (on : Bool) (rules : List Rule)
      → on ≡ true
      → Denies os a rules
      → Denies os a (if on then rules else [])
  start-Denies true rules e h = h
  start-Denies false rules e h = absurd (ground arith)

  build_deny_list-Denies :
      (opts : DenyOptions) → opts.defaults ≡ true → Denies os a (build_deny_list os opts)
  unfolding build_deny_list
  build_deny_list-Denies opts on =
      add_hosts-Denies os a _ extra_entry _
        (start-Denies opts.defaults _ on (default_rules-Denies opts))

  module _ (env : DenyOptions) (on : env.defaults ≡ true) where
    pub get_default_deny_list-Denies :
        (s : DenyState)
        → Guards os a s.default_list
        → Denies os a (get_default_deny_list os env s).0
          × Guards os a (get_default_deny_list os env s).1.default_list
    unfolding get_default_deny_list
    get_default_deny_list-Denies s kept = elim (Option-cases s.default_list) [
      | inl unbuilt ↦
          let built = build_deny_list-Denies env on in
          rw (get_default_deny_list, unbuilt) (built, built)
      | inr (rules, e) ↦
          let held : Denies os a rules = subst (Guards os a) e kept in
          rw (get_default_deny_list, e) (held, kept)
    ]

    pub refresh_database_addresses-Guards :
        (now : ℕ) (s : DenyState)
        → Guards os a s.default_list
        → Guards os a (refresh_database_addresses os env now s).default_list
    unfolding refresh_database_addresses
    refresh_database_addresses-Guards now s kept =
        elim (Bool-cases (not env.defaults || ltb now (s.database_resolved_at + 300000))) [
          | inl fresh ↦ rw (refresh_database_addresses, fresh) kept
          | inr stale ↦ elim (Option-cases (database_addresses os env)) [
            | inl unknown ↦ rw (refresh_database_addresses, stale, unknown) kept
            | inr (found, e) ↦
                rw (refresh_database_addresses, stale, e)
                  (add_addresses-Denies os a found _
                    (get_default_deny_list-Denies (record s { database_resolved_at = now }) kept).0)
          ]
        ]

-- What uses the list: a target is checked when a route is saved, the addresses are looked up again,
-- or a connection is made.
pub data Use : Type 0 where
  saves : ℕ → String → Option OrgTargetPolicy → String → Use
  refreshes : ℕ → Use
  connects : Use

module _ (os : Platform) (env : DenyOptions) where
  unfoldable pub use_step : Use → DenyState → DenyState
  unfolding assert_target_allowed refresh_database_addresses get_default_deny_list
  use_step (saves now domain policy target) s =
      (assert_target_allowed os env now domain policy target s).1
  use_step (refreshes now) s = refresh_database_addresses os env now s
  use_step connects s = (get_default_deny_list os env s).1

  unfoldable pub use_run : List Use → DenyState → DenyState
  unfolding use_step
  use_run [] s = s
  use_run (u ∷ us) s = use_run us (use_step u s)

abbrev pub start : DenyState
start = record { default_list = none; database_resolved_at = 0 }
