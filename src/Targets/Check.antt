-- ===== src/Targets/Check.antt =====
-- backend/src/lib/security.ts (validateTargetUrl, safeLookup), targetPolicy.ts
-- (assertTargetAllowed) and targetDenylist.ts (refreshDatabaseAddresses): the checks a target
-- passes when a route is saved, and the addresses a connection may use.
use cluster_gate.Prelude.{
  ℕ, none, some, [], ◌∷◌, Option, String, find_first, text_in, List, if◌then◌else◌, not, str_eq,
  ◌||◌, ltb, ◌+◌,
}
use cluster_gate.Targets.{Platform, Url}
use cluster_gate.Targets.DenyList.{
  Rule, Reason, DenyOptions, match_host, match_ip, add_host, build_deny_list, host_of_url,
  own_database,
}
use cluster_gate.Targets.Policy.{OrgTargetPolicy, org_policy_allows}
use cluster_gate.Targets.Hosts.{normalize_host, unmap_ip}
use cluster_gate.Targets.Metadata.{is_metadata_ip, blocked_hostnames}
use mathlib.Core.Option

pub data TargetError : Type 0 where
  invalid_url blocked_scheme blocked_metadata_host not_in_allowed_targets : TargetError
  resolves_to_metadata : String → TargetError
  denied_host : Reason → TargetError
  denied_address : String → Reason → TargetError

module _ (os : Platform) where
  -- Each check returns what it throws, `none` where it passes.
  unfoldable pub check_url : Url → Option TargetError
  unfolding text_in is_metadata_ip blocked_hostnames
  check_url parsed =
      let hostname = os.lower parsed.hostname in
      if not (str_eq parsed.protocol "http:" || str_eq parsed.protocol "https:")
      then some blocked_scheme
      else if text_in hostname blocked_hostnames || is_metadata_ip os hostname
      then some blocked_metadata_host
      else none

  unfoldable pub validate_target_url_sync : String → Option TargetError
  unfolding is_metadata_ip text_in blocked_hostnames
  validate_target_url_sync target = elim (os.parse_url target) [
    | none ↦ some invalid_url
    | some parsed ↦ check_url parsed
  ]

  unfoldable pub check_resolved : Url → Option TargetError
  unfolding find_first is_metadata_ip
  check_resolved parsed =
      Option.map resolves_to_metadata
        (find_first (is_metadata_ip os) (os.resolve (os.lower parsed.hostname)))

  unfoldable pub validate_target_url : String → Option TargetError
  unfolding is_metadata_ip text_in blocked_hostnames find_first
  validate_target_url target = elim (os.parse_url target) [
    | none ↦ some invalid_url
    | some parsed ↦ elim (check_url parsed) [ some e ↦ some e | none ↦ check_resolved parsed ]
  ]

  unfoldable pub lookup_host : String → List String
  unfolding unmap_ip
  lookup_host name = elim (os.ip_version (unmap_ip os name)) [
    | some f ↦ name ∷ []
    | none ↦ Option.get_or (os.lookup_all name) []
  ]

  unfoldable pub first_denied : List Rule → List String → Option TargetError
  unfolding match_ip
  first_denied rules [] = none
  first_denied rules (a ∷ more) =
      let rest = first_denied rules more in
      elim (match_ip os rules a) [ some why ↦ some (denied_address a why) | none ↦ rest ]

  abbrev check_policy : Option OrgTargetPolicy → String → List String → String → Option TargetError
  unfolding org_policy_allows
  check_policy none name addresses domain = none
  check_policy (some p) name addresses domain =
      if org_policy_allows os p name addresses domain then none else some not_in_allowed_targets

  -- What assertTargetAllowed checks of a host after validateTargetUrl.
  unfoldable pub check_host :
      List Rule → String → Option OrgTargetPolicy → String → Option TargetError
  unfolding match_host lookup_host first_denied org_policy_allows
  check_host rules domain policy name = elim (match_host os rules name) [
    | some why ↦ some (denied_host why)
    | none ↦
        let addresses = lookup_host name in
        elim (first_denied rules addresses) [
          | some e ↦ some e
          | none ↦ check_policy policy name addresses domain
        ]
  ]

  -- assertTargetAllowed with the list given, as `opts.denyList` is.
  unfoldable pub check_target :
      List Rule → String → Option OrgTargetPolicy → String → Option TargetError
  unfolding validate_target_url check_host normalize_host
  check_target rules domain policy target = elim (validate_target_url target) [
    | some e ↦ some e
    | none ↦ elim (os.parse_url target) [
      | none ↦ some invalid_url
      | some parsed ↦ check_host rules domain policy (normalize_host os parsed.hostname)
    ]
  ]

-- The process-wide list.
pub record DenyState : Type 0 where
  pub default_list : Option (List Rule)
  pub database_resolved_at : ℕ

-- The first address that a connection may not use.
unfoldable pub find_refused : Platform → List Rule → List String → Option TargetError
unfolding is_metadata_ip match_ip
find_refused os rules [] = none
find_refused os rules (a ∷ more) =
    let rest = find_refused os rules more in
    if is_metadata_ip os a
    then some (resolves_to_metadata a)
    else elim (match_ip os rules a) [ some why ↦ some (denied_address a why) | none ↦ rest ]

module _ (os : Platform) where
  unfoldable pub add_addresses : List String → List Rule → List Rule
  unfolding match_ip add_host
  add_addresses [] rules = rules
  add_addresses (a ∷ more) rules =
      let added = add_host os a own_database rules in
      add_addresses more (elim (match_ip os rules a) [ some why ↦ rules | none ↦ added ])

module _ (os : Platform) (env : DenyOptions) where
  unfoldable pub get_default_deny_list : DenyState → List Rule × DenyState
  unfolding build_deny_list
  get_default_deny_list s = elim s.default_list [
    | some rules ↦ (rules, s)
    | none ↦ let rules = build_deny_list os env in (rules, record s { default_list = some rules })
  ]

  -- The address rules for the host of the database, where it has a name that resolves.
  abbrev pub database_addresses : Option (List String)
  unfolding host_of_url unmap_ip
  database_addresses = elim (host_of_url os env.database_url) [
    | none ↦ none
    | some h ↦ elim (os.ip_version (unmap_ip os h)) [ some f ↦ none | none ↦ os.lookup_all h ]
  ]

  unfoldable pub refresh_database_addresses : ℕ → DenyState → DenyState
  unfolding get_default_deny_list add_addresses host_of_url unmap_ip
  refresh_database_addresses now s =
      if not env.defaults || ltb now (s.database_resolved_at + 300000)
      then s
      else let s = record s { database_resolved_at = now } in
        elim database_addresses [
          | none ↦ s
          | some addresses ↦
              let (rules, s) = get_default_deny_list s in
              record s { default_list = some (add_addresses os addresses rules) }
        ]

  unfoldable pub assert_target_allowed :
      ℕ → String → Option OrgTargetPolicy → String → DenyState → Option TargetError × DenyState
  unfolding validate_target_url refresh_database_addresses get_default_deny_list check_target
  assert_target_allowed now domain policy target s = elim (validate_target_url os target) [
    | some e ↦ (some e, s)
    | none ↦
        let (rules, s) = get_default_deny_list (refresh_database_addresses now s) in
        (check_target os rules domain policy target, s)
  ]

  -- What safe_lookup hands to the connection: an error, or what the look-up found.
  unfoldable pub safe_lookup : Option (List String) → DenyState → Option (List String)
  unfolding find_refused get_default_deny_list
  safe_lookup found s = elim found [
    | none ↦ none
    | some addresses ↦ elim (find_refused os (get_default_deny_list s).0 addresses) [
      | some e ↦ none
      | none ↦ some addresses
    ]
  ]
