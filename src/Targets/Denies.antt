-- ===== src/Targets/Denies.antt =====
-- What denies an address still does when rules are added.
use cluster_gate.Prelude.{
  none, some, [], ◌∷◌, inl, inr, String, List, Option, Option-cases, ◌≡◌, ◌++◌, arith,
}
use cluster_gate.Targets.{Platform}
use cluster_gate.Targets.DenyList.{
  first_reason, match_ip, Rule, add_hosts, add_present, Reason, add_host, rule_of, own_database,
  address_reason,
}
use cluster_gate.Targets.Check.{add_addresses}

first_reason-append :
    (f : Rule → Option Reason) (rules more : List Rule) (why : Reason)
    → first_reason f rules ≡ some why
    → first_reason f (rules ++ more) ≡ some why
unfolding first_reason
first_reason-append f [] more why h = absurd (ground arith)
first_reason-append f (r ∷ rules) more why h = ground (arith, first_reason-append f rules more why)

first_reason-last :
    (f : Rule → Option Reason) (rules : List Rule) (r : Rule) (why : Reason)
    → f r ≡ some why
    → (w : Reason) × (first_reason f (rules ++ (r ∷ [])) ≡ some w)
unfolding first_reason
first_reason-last f [] r why h = (why, ground (arith, h))
first_reason-last f (q ∷ rules) r why h =
    let (w, later) = first_reason-last f rules r why h in
    elim (Option-cases (f q)) [
      | inl past ↦ (w, ground (arith, past, later))
      | inr (v, here) ↦ (v, ground (arith, here))
    ]

module _ (os : Platform) (a : String) where
  abbrev pub Denies : List Rule → Type 0
  Denies rules = (why : Reason) × (match_ip os rules a ≡ some why)

  -- The list is not built yet, or denies the address.
  abbrev pub Guards : Option (List Rule) → Type 0
  Guards none = Unit
  Guards (some rules) = Denies rules

  pub add_host-Denies :
      (v : String) (r : Reason) (rules : List Rule) → Denies rules → Denies (add_host os v r rules)
  unfolding match_ip add_host
  add_host-Denies v r rules (why, h) = elim (Option-cases (rule_of os v r)) [
    | inl nothing ↦ rw (add_host, nothing) (why, h)
    | inr (rule, e) ↦
        rw (add_host, e) (why, first_reason-append (address_reason os a) rules (rule ∷ []) why h)
  ]

  pub add_host-adds :
      (v : String) (r w : Reason) (rules : List Rule) (rule : Rule)
      → rule_of os v r ≡ some rule
      → address_reason os a rule ≡ some w
      → Denies (add_host os v r rules)
  unfolding match_ip add_host
  add_host-adds v r w rules rule e covers =
      rw (add_host, e) (first_reason-last (address_reason os a) rules rule w covers)

  pub add_hosts-Denies :
      (vs : List String) (r : Reason) (rules : List Rule)
      → Denies rules
      → Denies (add_hosts os vs r rules)
  unfolding add_hosts
  add_hosts-Denies [] r rules h = h
  add_hosts-Denies (v ∷ vs) r rules h =
      add_hosts-Denies vs r (add_host os v r rules) (add_host-Denies v r rules h)

  pub add_addresses-Denies :
      (found : List String) (rules : List Rule)
      → Denies rules
      → Denies (add_addresses os found rules)
  unfolding add_addresses
  add_addresses-Denies [] rules h = h
  add_addresses-Denies (b ∷ found) rules h = elim (Option-cases (match_ip os rules b)) [
    | inl fresh ↦ rw fresh (add_addresses-Denies found _ (add_host-Denies b own_database rules h))
    | inr (w, known) ↦ rw known (add_addresses-Denies found rules h)
  ]

  pub add_present-Denies :
      (o : Option String) (r : Reason) (rules : List Rule)
      → Denies rules
      → Denies (add_present os o r rules)
  unfolding add_present
  add_present-Denies none r rules h = h
  add_present-Denies (some v) r rules h = add_host-Denies v r rules h
