-- ===== src/Targets/Policy.antt =====
-- backend/src/lib/targetPolicy.ts: which targets an organization's allowlist admits.
use cluster_gate.Prelude.{
  ℕ, none, some, true, false, [], ◌∷◌, String, List, text_in, Bool, some_of, ◌&&◌, ◌||◌,
  if◌then◌else◌, Option, ◌==◌, leb, is_nil_text, not, split_at, strip_prefix, str_append, str_eq,
  ltb, present, starts_with,
}
use cluster_gate.Targets.{Platform, Subnet}
use Prim.Native.Char.{code}
use cluster_gate.Targets.DenyList.{ip_in_list, parse_cidr}
use cluster_gate.Targets.Hosts.{
  unmap_ip, is_group, normalize_host, strip_suffix, is_digit, text_length, ends_with,
}
use mathlib.Core.Option

pub record OrgTargetPolicy : Type 0 where
  pub organization_name : String
  pub restrict_targets : Bool
  pub allowed_target_namespaces : List String
  pub allowed_target_hosts : List String

abbrev is_label_char : ℕ → Bool
is_label_char c = is_digit c || (leb 97 c && leb c 122)

abbrev is_inner_char : ℕ → Bool
is_inner_char c = is_label_char c || c == 45

-- Whether the first and the last character are letters or digits.
ends_well : String → Bool
ends_well String.[] = false
ends_well (String.◌∷◌ c s) =
    let rest = ends_well s in if is_nil_text s then is_label_char (code c) else rest

abbrev starts_well : String → Bool
starts_well String.[] = false
starts_well (String.◌∷◌ c s) = is_label_char (code c)

-- The regular expression of one label.
unfoldable pub is_valid_namespace : String → Bool
unfolding is_group ends_well
is_valid_namespace ns = is_group is_inner_char 63 ns && starts_well ns && ends_well ns

pub all_texts : (String → Bool) → List String → Bool
all_texts p [] = true
all_texts p (w ∷ ws) = let rest = all_texts p ws in p w && rest

-- The last part of what stands before the suffix, where there are two at least and none is empty.
unfoldable pub last_label : List String → Option String
last_label [] = none
last_label (w ∷ []) = none
last_label (w ∷ v ∷ []) = if is_nil_text w || is_nil_text v then none else some v
last_label (w ∷ v ∷ u ∷ us) =
    let rest = last_label (v ∷ u ∷ us) in if is_nil_text w then none else rest

module _ (os : Platform) where
  unfoldable pub is_valid_host_entry : String → Bool
  unfolding normalize_host parse_cidr text_length strip_prefix split_at all_texts is_valid_namespace
  is_valid_host_entry entry =
      let e = normalize_host os entry in
      if is_nil_text e || ltb 253 (text_length e) then false else elim (parse_cidr os e) [
        | some list ↦ true
        | none ↦ all_texts is_valid_namespace (split_at 46 (Option.get_or (strip_prefix "*." e) e))
      ]

  unfoldable pub kube_namespace_of : String → String → Option String
  unfolding normalize_host strip_suffix split_at last_label
  kube_namespace_of name cluster_domain =
      let h = normalize_host os name in
      let base : Option String =
        elim (strip_suffix (str_append ".svc." (normalize_host os cluster_domain)) h) [
          | some b ↦ some b
          | none ↦ strip_suffix ".svc" h
        ] in
      elim (present base) [ none ↦ none | some b ↦ last_label (split_at 46 b) ]

  abbrev pub all_in : Subnet → List String → Bool
  unfolding all_texts ip_in_list
  all_in list [] = false
  all_in list (a ∷ more) = all_texts (ip_in_list os list) (a ∷ more)

  abbrev pub is_covered : Subnet → String → List String → Bool
  unfolding unmap_ip ip_in_list
  is_covered list name addresses = elim (os.ip_version (unmap_ip os name)) [
    | some f ↦ ip_in_list os list name
    | none ↦ all_in list addresses
  ]

  unfoldable pub host_entry_matches : String → String → List String → Bool
  unfolding normalize_host parse_cidr strip_prefix strip_suffix
  host_entry_matches entry name addresses =
      let e = normalize_host os entry in
      elim (parse_cidr os e) [
        | some list ↦ is_covered list name addresses
        | none ↦ elim (strip_prefix "*" e) [
          | none ↦ str_eq name e
          | some s ↦ if starts_with "." s then ends_with s name else str_eq name e
        ]
      ]

  abbrev pub in_namespaces : Option String → List String → Bool
  unfolding text_in
  in_namespaces none names = false
  in_namespaces (some ns) names = text_in ns names

  unfoldable pub org_policy_allows : OrgTargetPolicy → String → List String → String → Bool
  unfolding normalize_host kube_namespace_of host_entry_matches some_of text_in
  org_policy_allows policy value addresses cluster_domain =
      if not policy.restrict_targets
      then true
      else let h = normalize_host os value in
        if in_namespaces (kube_namespace_of h cluster_domain) policy.allowed_target_namespaces
        then true
        else some_of (λ e. host_entry_matches e h addresses) policy.allowed_target_hosts
