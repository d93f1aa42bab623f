-- ===== src/Targets/Admitted.antt =====
-- What a target has to satisfy to be accepted, and what a connection may use.
use mathlib.Core.Path.{subst}
use cluster_gate.Prelude.{
  none, some, false, [], ◌∷◌, refl, Bool, List, find_first, Option, ◌≡◌, String, ◌↔◌, All, arith,
  inl, inr, ◌⊎◌, Option-cases, text_in, true, eq_iff, str_eq, ◌||◌, Bool-cases,
}
use cluster_gate.Targets.{Platform, Url, Family}
use cluster_gate.Targets.Policy.{OrgTargetPolicy, org_policy_allows}
use cluster_gate.Targets.DenyList.{
  first_reason, Rule, match_ip, match_host, Reason, address_reason, host_reason,
}
use cluster_gate.Targets.Check.{
  find_refused, first_denied, validate_target_url, check_url, check_host, lookup_host,
  check_resolved, check_target,
}
use cluster_gate.Targets.Hosts.{normalize_host, unmap_ip}
use cluster_gate.Targets.Metadata.{is_metadata_ip, blocked_hostnames}

module _ {A : Type 0} (p : A → Bool) where
  find_first-none_iff : (xs : List A) → (find_first p xs ≡ none) ↔ All (λ x. p x ≡ false) xs
  unfolding find_first
  find_first-none_iff [] = (λ h. tt, λ h. refl)
  find_first-none_iff (x ∷ xs) =
      let ih = find_first-none_iff xs in
      (λ h. (ground arith, ih.0 (ground arith)), λ h. ground (arith, h.0, ih.1 h.1))

first_reason_iff :
    (f : Rule → Option Reason) (rules : List Rule)
    → (first_reason f rules ≡ none) ↔ All (λ r. f r ≡ none) rules
unfolding first_reason
first_reason_iff f [] = (λ h. tt, λ h. refl)
first_reason_iff f (r ∷ rules) =
    let ih = first_reason_iff f rules in
    (λ h. (ground arith, ih.0 (ground arith)), λ h. ground (arith, h.0, ih.1 h.1))

module _ (os : Platform) (rules : List Rule) where
  -- No rule covers the address.
  abbrev pub IsFree : String → Type 0
  IsFree a = All (λ r. address_reason os a r ≡ none) rules

  -- No rule names the host, and none covers it where it is an address itself.
  abbrev pub IsClear : String → Type 0
  IsClear h =
      All (λ r. host_reason h r ≡ none) rules
      × ((f : Family) → os.ip_version (unmap_ip os h) ≡ some f → IsFree h)

  match_ip_iff : (a : String) → (match_ip os rules a ≡ none) ↔ IsFree a
  unfolding match_ip
  match_ip_iff a = first_reason_iff (address_reason os a) rules

  match_host_iff :
      (name : String) → (match_host os rules name ≡ none) ↔ IsClear (normalize_host os name)
  unfolding match_host
  match_host_iff name =
      let h = normalize_host os name in
      let named = first_reason_iff (host_reason h) rules in
      let covered = match_ip_iff h in
      (
        λ none. (named.0 (ground arith), λ f e. covered.0 (ground (arith, e))),
        λ clear. elim (Option-cases (os.ip_version (unmap_ip os h))) [
          | inl other ↦ ground (arith, other, named.1 clear.0)
          | inr (f, e) ↦ ground (arith, e, named.1 clear.0, covered.1 (clear.1 f e))
        ],
      )

  first_denied_iff : (found : List String) → (first_denied os rules found ≡ none) ↔ All IsFree found
  unfolding first_denied
  first_denied_iff [] = (λ h. tt, λ h. refl)
  first_denied_iff (a ∷ found) =
      let ih = first_denied_iff found in
      let one = match_ip_iff a in
      (λ h. (one.0 (ground arith), ih.0 (ground arith)), λ h. ground (arith, one.1 h.0, ih.1 h.1))

  find_refused_iff :
      (found : List String)
      → (find_refused os rules found ≡ none)
        ↔ All (λ a. (is_metadata_ip os a ≡ false) × IsFree a) found
  unfolding find_refused
  find_refused_iff [] = (λ h. tt, λ h. refl)
  find_refused_iff (a ∷ found) =
      let ih = find_refused_iff found in
      let one = match_ip_iff a in
      (
        λ h. ((ground arith, one.0 (ground arith)), ih.0 (ground arith)),
        λ h. ground (arith, h.0.0, one.1 h.0.1, ih.1 h.1),
      )

module _ (os : Platform) where
  abbrev IsOpenUrl : Url → Type 0
  IsOpenUrl parsed =
      ((parsed.protocol ≡ "http:") ⊎ (parsed.protocol ≡ "https:"))
      × (text_in (os.lower parsed.hostname) blocked_hostnames ≡ false)
      × (is_metadata_ip os (os.lower parsed.hostname) ≡ false)
      × All (λ a. is_metadata_ip os a ≡ false) (os.resolve (os.lower parsed.hostname))

  scheme_iff :
      (p : String)
      → ((str_eq p "http:" || str_eq p "https:") ≡ true) ↔ ((p ≡ "http:") ⊎ (p ≡ "https:"))
  scheme_iff p =
      let http = eq_iff p "http:" in
      let https = eq_iff p "https:" in
      (
        λ h. elim (Bool-cases (str_eq p "http:")) [
          | inl same ↦ inl (http.0 same)
          | inr other ↦ inr (https.0 (ground (arith, other)))
        ],
        λ h. elim h [
          | inl same ↦ rw (http.1 same) refl
          | inr same ↦ elim (Bool-cases (str_eq p "http:")) [
            | inl first ↦ rw first refl
            | inr other ↦ rw (other, https.1 same) refl
          ]
        ],
      )

  check_url_iff :
      (parsed : Url)
      → ((check_url os parsed ≡ none) × (check_resolved os parsed ≡ none)) ↔ IsOpenUrl parsed
  unfolding check_url check_resolved
  check_url_iff parsed =
      let found = find_first-none_iff (is_metadata_ip os) (os.resolve (os.lower parsed.hostname)) in
      let scheme = scheme_iff parsed.protocol in
      (
        λ h. (scheme.0 (ground arith), ground arith, ground arith, found.0 (ground arith)),
        λ (http, named, literal, resolved).
            (ground (arith, scheme.1 http, named, literal), ground (arith, found.1 resolved)),
      )

  -- What assertTargetAllowed asks of the URL, of the host and of its addresses.
  abbrev pub Admits : List Rule → String → Option OrgTargetPolicy → Url → Type 0
  Admits rules domain policy parsed =
      let name = normalize_host os parsed.hostname in
      IsOpenUrl parsed
      × IsClear os rules (normalize_host os name)
      × All (IsFree os rules) (lookup_host os name)
      × ((p : OrgTargetPolicy)
          → policy ≡ some p
          → org_policy_allows os p name (lookup_host os name) domain ≡ true)

  abbrev pub IsAdmissible : List Rule → String → Option OrgTargetPolicy → String → Type 0
  IsAdmissible rules domain policy target =
      (parsed : Url) × (os.parse_url target ≡ some parsed) × Admits rules domain policy parsed

  check_host_iff :
      (rules : List Rule) (domain : String) (policy : Option OrgTargetPolicy) (name : String)
      → (check_host os rules domain policy name ≡ none) ↔ (
          IsClear os rules (normalize_host os name)
          × All (IsFree os rules) (lookup_host os name)
          × ((p : OrgTargetPolicy)
              → policy ≡ some p
              → org_policy_allows os p name (lookup_host os name) domain ≡ true))
  unfolding check_host
  check_host_iff rules domain policy name =
      let named = match_host_iff os rules name in
      let reached = first_denied_iff os rules (lookup_host os name) in
      (
        λ h. (named.0 (ground arith), reached.0 (ground arith), λ p e. ground (arith, e)),
        λ (clear, free, allows). elim (Option-cases policy) [
          | inl nothing ↦ ground (arith, nothing, named.1 clear, reached.1 free)
          | inr (p, e) ↦ ground (arith, e, named.1 clear, reached.1 free, allows p e)
        ],
      )

  -- A target is accepted exactly where its URL has the scheme http or https, its host is no
  -- metadata endpoint and resolves to none, no rule names or covers the host, no rule covers an
  -- address that it resolves to, and the organization's allowlist, where one is given, admits it.
  pub check_target_iff :
      (rules : List Rule) (domain : String) (policy : Option OrgTargetPolicy) (target : String)
      → (check_target os rules domain policy target ≡ none)
        ↔ IsAdmissible rules domain policy target
  unfolding check_target validate_target_url
  check_target_iff rules domain policy target = elim (Option-cases (os.parse_url target)) [
    | inl bad ↦ (λ h. absurd (ground (arith, bad)), λ (u, e, rest). absurd (ground (arith, bad, e)))
    | inr (parsed, good) ↦
        let url = check_url_iff parsed in
        let host = check_host_iff rules domain policy (normalize_host os parsed.hostname) in
        (
          λ h.
              let (clear, free, allows) = host.0 (ground (arith, good)) in
              (
                parsed,
                good,
                (url.0 (ground (arith, good), ground (arith, good)), clear, free, allows),
              ),
          λ (u, e, held).
              let same : u ≡ parsed = ground (arith, good, e) in
              let (https, clear, free, allows) = subst (Admits rules domain policy) same held in
              ground (arith, good, url.1 https, host.1 (clear, free, allows)),
        )
  ]
